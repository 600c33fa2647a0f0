-- ===== src/Event/Entries.antt =====
-- The entries of the list of src/event.c, a callback and its user data with the events that they
-- wait for, and what the loop of `_vbi_event_handler_list_add` makes of them.
use zvbi.Event.{Handler, HandlerList, add_loop, add_end}
use zvbi.Prelude.{
  ℕ, ◌≡◌, ◌≢◌, refl, ap, sym, ◌∙◌, Bool, true, false, ◌&&◌, ◌||◌, List, [], ◌∷◌, ◌++◌, inl, inr,
  ◌==◌, if◌then◌else◌, Option, none, some, Bool-cases, bit_or, arith,
}

abbrev pub matches : ℕ → ℕ → Handler → Bool
matches callback user_data eh = eh.callback == callback && eh.user_data == user_data

-- The events of a callback, none where it is not in the list.
unfoldable pub mask_of : ℕ → ℕ → List Handler → ℕ
mask_of callback user_data [] = 0
mask_of callback user_data (eh ∷ next) =
    if matches callback user_data eh then eh.event_mask else mask_of callback user_data next

-- Whether the list has a handler for this callback and user data.
unfoldable pub has_handler : ℕ → ℕ → List Handler → Bool
has_handler callback user_data [] = false
has_handler callback user_data (eh ∷ next) =
    matches callback user_data eh || has_handler callback user_data next

drop_entry :
    (key : Bool) (v m rest : ℕ)
    → (if key then v else rest) ≡ (if key then v else if key then m else rest)
drop_entry true v m rest = refl
drop_entry false v m rest = refl

keep_entry :
    (key here : Bool) (v m rest rest' : ℕ)
    → rest ≡ (if key then v else rest')
    → (key ≡ true → here ≡ false)
    → (if here then m else rest) ≡ (if key then v else if here then m else rest')
keep_entry key true v m rest rest' h k = ground arith
keep_entry key false v m rest rest' h k = h

found_entry :
    (key p : Bool) (v m rest rest' : ℕ)
    → rest ≡ (if key && p then v else rest')
    → (if key then v else rest) ≡ (if key && true then v else if key then m else rest')
found_entry true p v m rest rest' h = refl
found_entry false p v m rest rest' h = h

abbrev pub is_found : Option ℕ → Bool
is_found none = false
is_found (some a) = true

pub or_false : (b : Bool) → (b || false) ≡ b
or_false true = refl
or_false false = refl

pub or_true : (b : Bool) → (b || true) ≡ true
or_true true = refl
or_true false = refl

with_present :
    (key p : Bool) (v old : ℕ) → p ≡ true → (if key && p then v else old) ≡ (if key then v else old)
with_present key p v old h = ground arith

without_present : (key p : Bool) (v old : ℕ) → p ≡ false → (if key && p then v else old) ≡ old
without_present key p v old h = ground arith

-- What the loop makes of a list that is not traversed.
module _ (event_mask callback user_data : ℕ) where
  abbrev looped : List Handler → ℕ → Option ℕ → List Handler × (ℕ × Option ℕ)
  looped ehs union found = add_loop 0 event_mask callback user_data ehs union found

  pub same_key :
      (callback' user_data' : ℕ) (eh : Handler)
      → matches callback user_data eh ≡ true
      → matches callback' user_data' eh ≡ (callback == callback' && user_data == user_data')
  same_key callback' user_data' eh h = ground arith

  pub other_key :
      (callback' user_data' : ℕ) (eh : Handler)
      → matches callback user_data eh ≡ false
      → (callback == callback' && user_data == user_data') ≡ true
      → matches callback' user_data' eh ≡ false
  other_key callback' user_data' eh h e = ground arith

  -- Removal takes the key out, and finds nothing.
  pub removed :
      (callback' user_data' : ℕ) (ehs : List Handler) (union : ℕ) (found : Option ℕ)
      → event_mask ≡ 0
      → (mask_of callback' user_data' (looped ehs union found).0 ≡ (
          if callback == callback' && user_data == user_data'
          then 0
          else mask_of callback' user_data' ehs))
        × ((looped ehs union found).1.1 ≡ found)
  unfolding add_loop mask_of
  removed callback' user_data' [] union found zero_mask = (ground arith, refl)
  removed callback' user_data' (eh ∷ next) union found zero_mask =
      let test : (0 == event_mask) ≡ true = ground arith in
      let key = callback == callback' && user_data == user_data' in
      elim (Bool-cases (matches callback user_data eh)) [
        | inl same ↦
            let ih = removed callback' user_data' next union found zero_mask in
            rw (same, test)
              (
                ih.0
                    ∙ rw (same_key callback' user_data' eh same)
                        (drop_entry key 0 eh.event_mask (mask_of callback' user_data' next)),
                ih.1,
              )
        | inr other ↦
            let ih =
              removed callback' user_data' next (bit_or union eh.event_mask) found zero_mask in
            rw other (
              keep_entry key (matches callback' user_data' eh) 0 eh.event_mask _ _ ih.0
                  (other_key callback' user_data' eh other),
              ih.1,
            )
      ]

  -- A change of the events of a callback that is there: every other one is kept.
  pub changed :
      (callback' user_data' : ℕ) (ehs : List Handler) (union : ℕ) (found : Option ℕ)
      → event_mask ≢ 0
      → mask_of callback' user_data' (looped ehs union found).0 ≡ (
          if (callback == callback' && user_data == user_data')
            && has_handler callback user_data ehs
          then event_mask
          else mask_of callback' user_data' ehs)
  unfolding add_loop mask_of has_handler
  changed callback' user_data' [] union found mask = ground arith
  changed callback' user_data' (eh ∷ next) union found mask =
      let key = callback == callback' && user_data == user_data' in
      let test : (0 == event_mask) ≡ false = ground arith in
      elim (Bool-cases (matches callback user_data eh)) [
        | inl same ↦
            rw (same, test)
              (rw (same_key callback' user_data' eh same) (
                found_entry key (has_handler callback user_data next) event_mask eh.event_mask _ _ (
                  changed callback' user_data' next (bit_or union event_mask) (some eh.address)
                    mask)))
        | inr other ↦ rw other (
            keep_entry (key && has_handler callback user_data next)
              (matches callback' user_data' eh) event_mask eh.event_mask _ _
              (changed callback' user_data' next (bit_or union eh.event_mask) found mask)
              (λ e. other_key callback' user_data' eh other (ground arith)))
      ]

  -- The handler is found exactly if it is there, and the loop keeps it.
  pub found_present :
      (ehs : List Handler) (union : ℕ) (found : Option ℕ)
      → event_mask ≢ 0
      → (is_found (looped ehs union found).1.1
          ≡ (has_handler callback user_data ehs || is_found found))
        × (has_handler callback user_data (looped ehs union found).0
            ≡ has_handler callback user_data ehs)
  unfolding add_loop has_handler
  found_present [] union found mask = (refl, refl)
  found_present (eh ∷ next) union found mask =
      let test : (0 == event_mask) ≡ false = ground arith in
      elim (Bool-cases (matches callback user_data eh)) [
        | inl same ↦
            let ih = found_present next (bit_or union event_mask) (some eh.address) mask in
            rw (same, test) (rw same (ih.0 ∙ or_true (has_handler callback user_data next), refl))
        | inr other ↦
            let ih = found_present next (bit_or union eh.event_mask) found mask in
            rw other (rw other ih)
      ]

  -- A handler at the end counts where no other has its key.
  append_entry :
      (callback' user_data' : ℕ) (ehs : List Handler) (eh : Handler)
      → matches callback user_data eh ≡ true
      → eh.event_mask ≡ event_mask
      → has_handler callback user_data ehs ≡ false
      → mask_of callback' user_data' (ehs ++ (eh ∷ [])) ≡ (
          if callback == callback' && user_data == user_data'
          then event_mask
          else mask_of callback' user_data' ehs)
  unfolding mask_of has_handler
  append_entry callback' user_data' [] eh same mask h =
      rw (same_key callback' user_data' eh same, mask) refl
  append_entry callback' user_data' (x ∷ ehs) eh same mask h =
      let key = callback == callback' && user_data == user_data' in
      let away : (matches callback user_data x ≡ false)
          × (has_handler callback user_data ehs ≡ false) =
        ground arith in
      keep_entry key (matches callback' user_data' x) event_mask x.event_mask _ _
        (append_entry callback' user_data' ehs eh same mask away.1)
        (other_key callback' user_data' x away.0)

  pub end_entry :
      (callback' user_data' : ℕ) (el : HandlerList) (ehs : List Handler) (union address old : ℕ)
      (found : Option ℕ)
      → event_mask ≢ 0
      → is_found found ≡ has_handler callback user_data ehs
      → mask_of callback' user_data' ehs ≡ (
          if (callback == callback' && user_data == user_data')
            && has_handler callback user_data ehs
          then event_mask
          else old)
      → mask_of callback' user_data'
          (add_end el event_mask callback user_data (some address) ehs union found).0.handlers
        ≡ (if callback == callback' && user_data == user_data' then event_mask else old)
  unfolding add_end
  end_entry callback' user_data' el ehs union address old (some a) mask e h =
      h
      ∙ with_present (callback == callback' && user_data == user_data')
          (has_handler callback user_data ehs) event_mask old (sym e)
  end_entry callback' user_data' el ehs union address old none mask e h =
      let test : (0 == event_mask) ≡ false = ground arith in
      let key = callback == callback' && user_data == user_data' in
      rw test (
        append_entry callback' user_data' ehs _ (ground arith) refl (sym e)
        ∙ ap (λ (x : ℕ). if key then event_mask else x)
            (h ∙ without_present key (has_handler callback user_data ehs) event_mask old (sym e)))
