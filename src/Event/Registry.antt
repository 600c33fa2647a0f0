-- ===== src/Event/Registry.antt =====
-- The list of src/event.c while it is not traversed, as a map from a callback and its user data to
-- the events that it waits for.
use zvbi.Event.Entries.{
  matches, mask_of, has_handler, is_found, or_false, removed, changed, found_present, end_entry,
}
use zvbi.Event.{Handler, HandlerList, add_loop, add_end, add}
use zvbi.Prelude.{
  ℕ, ◌≡◌, ◌≢◌, refl, ap, sym, ◌∙◌, Bool, true, false, ◌&&◌, List, [], ◌∷◌, ◌++◌, inl, inr, ◌==◌,
  if◌then◌else◌, Option, none, some, Bool-cases, bit_or, arith,
}

-- No handler is marked as removed, and none is a second one with the same callback and user data.
unfoldable pub IsAbsent : ℕ → ℕ → List Handler → Type 0
IsAbsent callback user_data [] = Unit {0}
IsAbsent callback user_data (eh ∷ next) =
    (matches callback user_data eh ≡ false) × IsAbsent callback user_data next

unfoldable pub AreDistinct : List Handler → Type 0
unfolding IsAbsent
AreDistinct [] = Unit {0}
AreDistinct (eh ∷ next) =
    (eh.remove ≡ false) × IsAbsent eh.callback eh.user_data next × AreDistinct next

unfoldable pub IsRegistry : HandlerList → Type 0
unfolding AreDistinct
IsRegistry el = (el.ref_count ≡ 0) × AreDistinct el.handlers

module _ (event_mask callback user_data : ℕ) where
  abbrev looped : List Handler → ℕ → Option ℕ → List Handler × (ℕ × Option ℕ)
  looped ehs union found = add_loop 0 event_mask callback user_data ehs union found

  -- A walk keeps the keys that are absent absent, and the others apart.
  looped-IsAbsent :
      (a b : ℕ) (ehs : List Handler) (union : ℕ) (found : Option ℕ)
      → IsAbsent a b ehs
      → IsAbsent a b (looped ehs union found).0
  unfolding add_loop IsAbsent
  looped-IsAbsent a b [] union found h = tt
  looped-IsAbsent a b (eh ∷ next) union found h =
      elim (Bool-cases (matches callback user_data eh)) [
        | inr other ↦
            rw other (h.0, looped-IsAbsent a b next (bit_or union eh.event_mask) found h.1)
        | inl same ↦ elim (Bool-cases (0 == event_mask)) [
          | inl gone ↦ rw (same, gone) (looped-IsAbsent a b next union found h.1)
          | inr kept ↦
              rw (same, kept)
                (h.0, looped-IsAbsent a b next (bit_or union event_mask) (some eh.address) h.1)
        ]
      ]

  looped-AreDistinct :
      (ehs : List Handler) (union : ℕ) (found : Option ℕ)
      → AreDistinct ehs
      → AreDistinct (looped ehs union found).0
  unfolding add_loop AreDistinct
  looped-AreDistinct [] union found h = tt
  looped-AreDistinct (eh ∷ next) union found h = elim (Bool-cases (matches callback user_data eh)) [
    | inr other ↦ rw other (
      h.0,
      looped-IsAbsent eh.callback eh.user_data next (bit_or union eh.event_mask) found h.1,
      looped-AreDistinct next (bit_or union eh.event_mask) found h.2,
    )
    | inl same ↦ elim (Bool-cases (0 == event_mask)) [
      | inl gone ↦ rw (same, gone) (looped-AreDistinct next union found h.2)
      | inr kept ↦
          rw (same, kept)
            (
              h.0,
              looped-IsAbsent eh.callback eh.user_data next (bit_or union event_mask)
                  (some eh.address) h.1,
              looped-AreDistinct next (bit_or union event_mask) (some eh.address) h.2,
            )
    ]
  ]

  append-IsAbsent :
      (a b : ℕ) (ehs : List Handler) (eh : Handler)
      → IsAbsent a b ehs
      → matches a b eh ≡ false
      → IsAbsent a b (ehs ++ (eh ∷ []))
  unfolding IsAbsent
  append-IsAbsent a b [] eh h e = (e, tt)
  append-IsAbsent a b (x ∷ ehs) eh h e = (h.0, append-IsAbsent a b ehs eh h.1 e)

  append-AreDistinct :
      (ehs : List Handler) (eh : Handler)
      → AreDistinct ehs
      → matches callback user_data eh ≡ true
      → eh.remove ≡ false
      → has_handler callback user_data ehs ≡ false
      → AreDistinct (ehs ++ (eh ∷ []))
  unfolding AreDistinct has_handler
  append-AreDistinct [] eh h same live absent = (live, tt, tt)
  append-AreDistinct (x ∷ ehs) eh h same live absent =
      let away : (matches callback user_data x ≡ false)
          × (has_handler callback user_data ehs ≡ false) =
        ground arith in
      (
        h.0,
        append-IsAbsent x.callback x.user_data ehs eh h.1 (ground arith),
        append-AreDistinct ehs eh h.2 same live away.1,
      )

end_IsRegistry :
    (el : HandlerList) (event_mask callback user_data : ℕ) (ehs : List Handler) (union address : ℕ)
    (found : Option ℕ)
    → el.ref_count ≡ 0
    → AreDistinct ehs
    → (event_mask ≢ 0 → is_found found ≡ has_handler callback user_data ehs)
    → IsRegistry (add_end el event_mask callback user_data (some address) ehs union found).0
unfolding add_end IsRegistry
end_IsRegistry el event_mask callback user_data ehs union address (some a) idle d e = (idle, d)
end_IsRegistry el event_mask callback user_data ehs union address none idle d e =
    elim (Bool-cases (0 == event_mask)) [
      | inl nothing ↦ rw nothing (idle, d)
      | inr something ↦ rw something (
        idle,
        append-AreDistinct event_mask callback user_data ehs _ d (ground arith) refl
            (sym (e (λ z. ground arith))),
      )
    ]

removed_end :
    (el : HandlerList) (event_mask callback user_data : ℕ) (ehs : List Handler) (union address : ℕ)
    (found : Option ℕ)
    → event_mask ≡ 0
    → (add_end el event_mask callback user_data (some address) ehs union found).0.handlers ≡ ehs
unfolding add_end
removed_end el event_mask callback user_data ehs union address (some a) zero_mask = refl
removed_end el event_mask callback user_data ehs union address none zero_mask =
    let test : (0 == event_mask) ≡ true = ground arith in rw test refl

-- _vbi_event_handler_list_add, on a list that is not traversed, without removed handlers and
-- without two of the same callback and user data, and with memory for a new one, gives such a
-- list again, in which this callback with this user data waits for the given events, and
-- every other one for the events that it waited for.
pub add-IsRegistry :
    (el : HandlerList) (event_mask callback user_data address : ℕ)
    → IsRegistry el
    → IsRegistry (add el event_mask callback user_data (some address)).0
      × ((callback' user_data' : ℕ)
          → mask_of callback' user_data'
              (add el event_mask callback user_data (some address)).0.handlers
            ≡ (if callback == callback' && user_data == user_data'
                then event_mask
                else mask_of callback' user_data' el.handlers))
unfolding add IsRegistry
add-IsRegistry el event_mask callback user_data address h =
    let el' : HandlerList = record el { ref_count = 0 } in
    let walked = add_loop 0 event_mask callback user_data el.handlers 0 none in
    let distinct = looped-AreDistinct event_mask callback user_data el.handlers 0 none h.1 in
    let found : (mask : event_mask ≢ 0)
        → is_found walked.1.1 ≡ has_handler callback user_data walked.0 =
      λ mask.
        let f = found_present event_mask callback user_data el.handlers 0 none mask in
        f.0 ∙ or_false (has_handler callback user_data el.handlers) ∙ sym f.1 in
    rw h.0 (
      end_IsRegistry el' event_mask callback user_data walked.0 walked.1.0 address walked.1.1 refl
          distinct found,
      λ callback' user_data'. elim (Bool-cases (0 == event_mask)) [
        | inl nothing ↦
            let zero_mask : event_mask ≡ 0 = ground arith in
            ap (mask_of callback' user_data') (
              removed_end el' event_mask callback user_data walked.0 walked.1.0 address walked.1.1
                zero_mask)
            ∙ (removed event_mask callback user_data callback' user_data' el.handlers 0 none
                zero_mask).0
            ∙ ap
                (λ (v : ℕ).
                  if callback == callback' && user_data == user_data'
                  then v
                  else mask_of callback' user_data' el.handlers)
                (sym zero_mask)
        | inr something ↦
            let mask : event_mask ≢ 0 = λ z. ground arith in
            let f = found_present event_mask callback user_data el.handlers 0 none mask in
            end_entry event_mask callback user_data callback' user_data' el' walked.0 walked.1.0
              address (mask_of callback' user_data' el.handlers) walked.1.1 mask (found mask)
              (changed event_mask callback user_data callback' user_data' el.handlers 0 none mask
                ∙ ap
                    (λ (p : Bool).
                      if (callback == callback' && user_data == user_data') && p
                      then event_mask
                      else mask_of callback' user_data' el.handlers)
                    (sym f.1))
      ],
    )
