-- ===== src/Event/Lost.antt =====
-- `_vbi_event_handler_list_add` of src/event.c, for a handler that was removed during a traversal.
use zvbi.Event.Entries.{matches, has_handler, is_found}
use zvbi.Event.{Handler, HandlerList, add_loop, add_end, add, remove_by_callback, sweep}
use zvbi.Prelude.{
  ℕ, ◌<◌, ◌≡◌, ◌≢◌, refl, ◌∙◌, true, false, ◌||◌, List, [], ◌∷◌, inl, inr, bit_or, ◌==◌, Option,
  none, some, Bool-cases, arith,
}

module _ (callback user_data : ℕ) where
  -- All of these handlers are marked as removed.
  unfoldable AreMarked : List Handler → Type 0
  AreMarked [] = Unit {0}
  AreMarked (eh ∷ next) = (matches callback user_data eh ≡ true → eh.remove ≡ true) × AreMarked next

  sweep-AreMarked :
      (ehs : List Handler) → AreMarked ehs → has_handler callback user_data (sweep ehs) ≡ false
  unfolding sweep AreMarked has_handler
  sweep-AreMarked [] h = refl
  sweep-AreMarked (eh ∷ next) h =
      let ih = sweep-AreMarked next h.1 in
      elim (Bool-cases (matches callback user_data eh)) [
        | inl same ↦ rw (h.0 same) ih
        | inr other ↦ elim (Bool-cases eh.remove) [
          | inl gone ↦ ground arith
          | inr kept ↦ ground arith
        ]
      ]

  module _ (ref_count : ℕ) (busy : 0 < ref_count) where
    marked :
        (ehs : List Handler) (union : ℕ) (found : Option ℕ)
        → AreMarked (add_loop ref_count 0 callback user_data ehs union found).0
          × (has_handler callback user_data
                (add_loop ref_count 0 callback user_data ehs union found).0
              ≡ has_handler callback user_data ehs)
    unfolding add_loop AreMarked has_handler
    marked [] union found = (tt, refl)
    marked (eh ∷ next) union found =
        let idle : (0 == ref_count) ≡ false = ground arith in
        elim (Bool-cases (matches callback user_data eh)) [
          | inl same ↦
              let ih = marked next union found in rw (same, idle) ((λ e. refl, ih.0), rw same refl)
          | inr other ↦
              let ih = marked next (bit_or union eh.event_mask) found in
              rw other ((λ e. cc, ih.0), rw (other, ih.1) refl)
        ]

    still_marked :
        (event_mask : ℕ) (ehs : List Handler) (union : ℕ) (found : Option ℕ)
        → event_mask ≢ 0
        → AreMarked ehs
        → AreMarked (add_loop ref_count event_mask callback user_data ehs union found).0
          × (is_found (add_loop ref_count event_mask callback user_data ehs union found).1.1
              ≡ (has_handler callback user_data ehs || is_found found))
    unfolding add_loop AreMarked has_handler
    still_marked event_mask [] union found mask h = (tt, refl)
    still_marked event_mask (eh ∷ next) union found mask h =
        let kept : (0 == event_mask) ≡ false = ground arith in
        elim (Bool-cases (matches callback user_data eh)) [
          | inl same ↦
              let ih =
                still_marked event_mask next (bit_or union event_mask) (some eh.address) mask h.1 in
              rw (same, kept) ((h.0, ih.0), ground arith)
          | inr other ↦
              let ih = still_marked event_mask next (bit_or union eh.event_mask) found mask h.1 in
              rw other ((λ e. cc, ih.0), ground arith)
        ]

end_found :
    (el : HandlerList) (event_mask callback user_data : ℕ) (memory : Option ℕ) (ehs : List Handler)
    (union : ℕ) (found : Option ℕ)
    → is_found found ≡ true
    → ((add_end el event_mask callback user_data memory ehs union found).0.handlers ≡ ehs)
      × (is_found (add_end el event_mask callback user_data memory ehs union found).1 ≡ true)
unfolding add_end
end_found el event_mask callback user_data memory ehs union (some a) h = (refl, refl)
end_found el event_mask callback user_data memory ehs union none h = cc

end_none :
    (el : HandlerList) (callback user_data : ℕ) (ehs : List Handler) (union : ℕ) (found : Option ℕ)
    → (add_end el 0 callback user_data none ehs union found).0
      ≡ record el { handlers = ehs; event_mask = union }
unfolding add_end
end_none el callback user_data ehs union none = refl
end_none el callback user_data ehs union (some a) = refl

added_lost :
    (el : HandlerList) (event_mask callback user_data : ℕ) (memory : Option ℕ)
    → 0 < el.ref_count
    → event_mask ≢ 0
    → AreMarked callback user_data el.handlers
    → has_handler callback user_data el.handlers ≡ true
    → (is_found (add el event_mask callback user_data memory).1 ≡ true)
      × (has_handler callback user_data
            (sweep (add el event_mask callback user_data memory).0.handlers)
          ≡ false)
unfolding add
added_lost el event_mask callback user_data memory busy mask all here =
    let walked = add_loop el.ref_count event_mask callback user_data el.handlers 0 none in
    let still =
      still_marked callback user_data el.ref_count busy event_mask el.handlers 0 none mask all in
    let found : is_found walked.1.1 ≡ true = ground arith in
    let ended =
      end_found el event_mask callback user_data memory walked.0 walked.1.0 walked.1.1 found in
    (ended.1, rw ended.0 (sweep-AreMarked callback user_data walked.0 still.0))

-- While a list is traversed, a callback with its user data that is in the list is removed by
-- _vbi_event_handler_list_remove_by_callback, and then registered again by
-- _vbi_event_handler_list_add for at least one event. The latter returns a handler, but
-- unlinking the removed handlers of the list, as the end of the traversal does, leaves none
-- for this callback and user data.
pub remove_by_callback_lost :
    (el : HandlerList) (event_mask callback user_data : ℕ) (memory : Option ℕ)
    → 0 < el.ref_count
    → event_mask ≢ 0
    → has_handler callback user_data el.handlers ≡ true
    → (is_found
          (add (remove_by_callback el callback user_data) event_mask callback user_data memory).1
        ≡ true)
      × (has_handler callback user_data (
            sweep
              (add
                (remove_by_callback el callback user_data)
                event_mask
                callback
                user_data
                memory).0.handlers)
          ≡ false)
unfolding add remove_by_callback
remove_by_callback_lost el event_mask callback user_data memory busy mask here =
    let walked = add_loop el.ref_count 0 callback user_data el.handlers 0 none in
    let all = marked callback user_data el.ref_count busy el.handlers 0 none in
    rw (end_none el callback user_data walked.0 walked.1.0 walked.1.1) (
      added_lost (record el { handlers = walked.0; event_mask = walked.1.0 }) event_mask callback
        user_data memory busy mask all.0 (all.1 ∙ here))
