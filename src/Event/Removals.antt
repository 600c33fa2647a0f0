-- ===== src/Event/Removals.antt =====
-- The calls of a callback of src/event.c that register no handler.
use zvbi.Event.{
  Handler, HandlerList, add_loop, add_end, remove_handlers, clear_masks, Call, add_call,
  remove_call, remove_by_event_call, make_call, make_calls,
}
use zvbi.Prelude.{
  ℕ, suc, ◌<◌, ◌≡◌, refl, ap, ◌∙◌, true, false, ◌&&◌, List, [], ◌∷◌, inl, inr, bit_and, bit_or,
  ◌==◌, if◌then◌else◌, length, Option, none, some, Bool-cases, complement, arith,
}

-- A call that registers no handler.
abbrev pub IsRemoval : Call → Type 0
IsRemoval (add_call event_mask callback user_data memory) = event_mask ≡ 0
IsRemoval (remove_call address) = Unit {0}
IsRemoval (remove_by_event_call event_mask) = Unit {0}

unfoldable pub AreRemovals : List Call → Type 0
AreRemovals [] = Unit {0}
AreRemovals (c ∷ cs) = IsRemoval c × AreRemovals cs

abbrev pub OnlyRemoves : (Handler → ℕ → List Call) → Type 0
OnlyRemoves client = (eh : Handler) (type : ℕ) → AreRemovals (client eh type)

-- While the list is traversed a removal keeps its length.
module _ (ref_count : ℕ) (busy : 0 < ref_count) where
  length-add_loop :
      (event_mask callback user_data : ℕ) (ehs : List Handler) (union : ℕ) (found : Option ℕ)
      → length (add_loop ref_count event_mask callback user_data ehs union found).0 ≡ length ehs
  unfolding add_loop
  length-add_loop event_mask callback user_data [] union found = refl
  length-add_loop event_mask callback user_data (eh ∷ next) union found =
      let same = eh.callback == callback && eh.user_data == user_data in
      let kept : Handler = if same then record eh { event_mask = event_mask } else eh in
      let found' : Option ℕ = if same then some eh.address else found in
      let test : (0 == ref_count) ≡ false = ground arith in
      elim (Bool-cases (same && 0 == event_mask)) [
        | inr other ↦ rw other (
            ap suc (
              length-add_loop event_mask callback user_data next (bit_or union kept.event_mask)
                found'))
        | inl gone ↦
            rw (gone, test)
              (ap suc (length-add_loop event_mask callback user_data next union found))
      ]

  length-remove_handlers :
      (address : ℕ) (ehs : List Handler) (union : ℕ)
      → length (remove_handlers ref_count address ehs union).0 ≡ length ehs
  unfolding remove_handlers
  length-remove_handlers address [] union = refl
  length-remove_handlers address (eh ∷ next) union =
      let test : (0 == ref_count) ≡ false = ground arith in
      elim (Bool-cases (eh.address == address)) [
        | inr other ↦
            rw other (ap suc (length-remove_handlers address next (bit_or union eh.event_mask)))
        | inl gone ↦ rw (gone, test) (ap suc (length-remove_handlers address next union))
      ]

  length-clear_masks :
      (clear : ℕ) (ehs : List Handler) → length (clear_masks ref_count clear ehs) ≡ length ehs
  unfolding clear_masks
  length-clear_masks clear [] = refl
  length-clear_masks clear (eh ∷ next) =
      let test : (0 == ref_count) ≡ false = ground arith in
      elim (Bool-cases (0 == bit_and eh.event_mask clear)) [
        | inr other ↦ rw other (ap suc (length-clear_masks clear next))
        | inl gone ↦ rw (gone, test) (ap suc (length-clear_masks clear next))
      ]

ended_length :
    (el : HandlerList) (event_mask callback user_data : ℕ) (memory : Option ℕ) (ehs : List Handler)
    (union : ℕ) (found : Option ℕ)
    → event_mask ≡ 0
    → (add_end el event_mask callback user_data memory ehs union found).0
      ≡ record el { handlers = ehs; event_mask = union }
unfolding add_end
ended_length el event_mask callback user_data memory ehs union (some a) h = refl
ended_length el event_mask callback user_data none ehs union none h = refl
ended_length el event_mask callback user_data (some a) ehs union none h =
    let test : (0 == event_mask) ≡ true = ground arith in rw test refl

-- A removal keeps the length of the list, and the reference count.
unfoldable pub AreKept : HandlerList → HandlerList → Type 0
AreKept el el' = (length el'.handlers ≡ length el.handlers) × (el'.ref_count ≡ el.ref_count)

make_call-AreKept :
    (el : HandlerList) (c : Call) → 0 < el.ref_count → IsRemoval c → AreKept el (make_call el c)
unfolding make_call AreKept
make_call-AreKept el (add_call event_mask callback user_data memory) busy h =
    let walked = add_loop el.ref_count event_mask callback user_data el.handlers 0 none in
    rw (ended_length el event_mask callback user_data memory walked.0 walked.1.0 walked.1.1 h)
      (length-add_loop el.ref_count busy event_mask callback user_data el.handlers 0 none, refl)
make_call-AreKept el (remove_call address) busy h =
    (length-remove_handlers el.ref_count busy address el.handlers 0, refl)
make_call-AreKept el (remove_by_event_call event_mask) busy h =
    (length-clear_masks el.ref_count busy (complement event_mask) el.handlers, refl)

pub make_calls-AreKept :
    (el : HandlerList) (cs : List Call)
    → 0 < el.ref_count
    → AreRemovals cs
    → AreKept el (make_calls el cs)
unfolding make_calls AreRemovals AreKept
make_calls-AreKept el [] busy h = (refl, refl)
make_calls-AreKept el (c ∷ cs) busy h =
    let first = make_call-AreKept el c busy h.0 in
    let rest = make_calls-AreKept (make_call el c) cs (omega (arith, first.1)) h.1 in
    (rest.0 ∙ first.0, rest.1 ∙ first.1)
