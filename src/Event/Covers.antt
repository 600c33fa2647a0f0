-- ===== src/Event/Covers.antt =====
-- The mask of the list of src/event.c: it covers the masks of the handlers that are not removed.
use zvbi.Event.Masks.{
  IsCovered, IsCovered-self, IsCovered-or_left, IsCovered-or_right, IsCovered-and,
}
use zvbi.Event.{
  Handler, HandlerList, add_loop, add_end, add, remove_handlers, clear_masks, Call, add_call,
  remove_call, remove_by_event_call, make_call, make_calls,
}
use zvbi.Prelude.Bits.Single.{zero-bit_at}
use zvbi.Prelude.{
  ℕ, Bool, true, false, ◌&&◌, List, [], ◌∷◌, ◌++◌, inl, inr, bit_and, bit_or, ◌==◌, if◌then◌else◌,
  Option, none, some, Bool-cases, complement, arith,
}

-- The mask of a handler that still is to be called.
abbrev pub live_mask : Handler → ℕ
live_mask eh = if eh.remove then 0 else eh.event_mask

-- `union` covers the masks of all of these handlers.
unfoldable pub AreCovered : ℕ → List Handler → Type 0
AreCovered union [] = Unit {0}
AreCovered union (eh ∷ next) = IsCovered (live_mask eh) union × AreCovered union next

unfoldable pub MaskCovers : HandlerList → Type 0
unfolding AreCovered
MaskCovers el = AreCovered el.event_mask el.handlers

-- What the loops give: a union that covers the one before and the handlers that are kept.
GoesOn : ℕ → List Handler → ℕ → Type 0
unfolding AreCovered
GoesOn before ehs union = IsCovered before union × AreCovered union ehs

skip-IsCovered :
    (remove : Bool) (m union : ℕ) → IsCovered m union → IsCovered (if remove then 0 else m) union
skip-IsCovered true m union h = λ k. omega (arith, zero-bit_at k)
skip-IsCovered false m union h = h

keep_handler :
    (before : ℕ) (eh : Handler) (ehs : List Handler) (union : ℕ)
    → GoesOn (bit_or before eh.event_mask) ehs union
    → GoesOn before (eh ∷ ehs) union
unfolding GoesOn
keep_handler before eh ehs union h = (
  λ k.
      omega (arith, h.0 k, IsCovered-or_left before before eh.event_mask (IsCovered-self before) k),
  (
    skip-IsCovered eh.remove eh.event_mask union
        (λ k. omega (arith, h.0 k, IsCovered-or_right eh.event_mask before k)),
    h.1,
  ),
)

flag_handler :
    (before : ℕ) (eh : Handler) (ehs : List Handler) (union : ℕ)
    → GoesOn before ehs union
    → GoesOn before (record eh { remove = true } ∷ ehs) union
unfolding GoesOn
flag_handler before eh ehs union h = (h.0, ((λ k. omega (arith, zero-bit_at k)), h.1))

nothing_left : (union : ℕ) → GoesOn union [] union
unfolding GoesOn
nothing_left union = (IsCovered-self union, tt)

cleared-IsCovered :
    (remove : Bool) (m union clear : ℕ)
    → IsCovered (if remove then 0 else m) union
    → IsCovered (if remove then 0 else bit_and m clear) (bit_and union clear)
cleared-IsCovered true m union clear h = λ k. omega (arith, zero-bit_at k)
cleared-IsCovered false m union clear h = IsCovered-and m union clear h

add_loop-GoesOn :
    (ref_count event_mask callback user_data : ℕ) (ehs : List Handler) (union : ℕ)
    (found : Option ℕ)
    → GoesOn union
        (add_loop ref_count event_mask callback user_data ehs union found).0
        (add_loop ref_count event_mask callback user_data ehs union found).1.0
unfolding add_loop
add_loop-GoesOn ref_count event_mask callback user_data [] union found = nothing_left union
add_loop-GoesOn ref_count event_mask callback user_data (eh ∷ next) union found =
    let same = eh.callback == callback && eh.user_data == user_data in
    let kept : Handler = if same then record eh { event_mask = event_mask } else eh in
    let found' : Option ℕ = if same then some eh.address else found in
    let unlinked = add_loop-GoesOn ref_count event_mask callback user_data next union found in
    let rest =
      add_loop-GoesOn ref_count event_mask callback user_data next (bit_or union kept.event_mask)
        found' in
    elim (Bool-cases (same && 0 == event_mask)) [
      | inr other ↦ rw other (keep_handler union kept _ _ rest)
      | inl gone ↦ elim (Bool-cases (0 == ref_count)) [
        | inl idle ↦ rw (gone, idle) unlinked
        | inr busy ↦ rw (gone, busy) (flag_handler union eh _ _ unlinked)
      ]
    ]

remove_handlers-GoesOn :
    (ref_count address : ℕ) (ehs : List Handler) (union : ℕ)
    → GoesOn union
        (remove_handlers ref_count address ehs union).0
        (remove_handlers ref_count address ehs union).1
unfolding remove_handlers
remove_handlers-GoesOn ref_count address [] union = nothing_left union
remove_handlers-GoesOn ref_count address (eh ∷ next) union =
    let unlinked = remove_handlers-GoesOn ref_count address next union in
    let rest = remove_handlers-GoesOn ref_count address next (bit_or union eh.event_mask) in
    elim (Bool-cases (eh.address == address)) [
      | inr other ↦ rw other (keep_handler union eh _ _ rest)
      | inl gone ↦ elim (Bool-cases (0 == ref_count)) [
        | inl idle ↦ rw (gone, idle) unlinked
        | inr busy ↦ rw (gone, busy) (flag_handler union eh _ _ unlinked)
      ]
    ]

clear_masks-AreCovered :
    (ref_count clear union : ℕ) (ehs : List Handler)
    → AreCovered union ehs
    → AreCovered (bit_and union clear) (clear_masks ref_count clear ehs)
unfolding clear_masks AreCovered
clear_masks-AreCovered ref_count clear union [] h = tt
clear_masks-AreCovered ref_count clear union (eh ∷ next) h =
    let rest = clear_masks-AreCovered ref_count clear union next h.1 in
    elim (Bool-cases (0 == bit_and eh.event_mask clear)) [
      | inr other ↦ rw other (cleared-IsCovered eh.remove eh.event_mask union clear h.0, rest)
      | inl gone ↦ elim (Bool-cases (0 == ref_count)) [
        | inl idle ↦ rw (gone, idle) rest
        | inr busy ↦ rw (gone, busy) ((λ k. omega (arith, zero-bit_at k)), rest)
      ]
    ]

AreCovered-or :
    (union m : ℕ) (ehs : List Handler) → AreCovered union ehs → AreCovered (bit_or union m) ehs
unfolding AreCovered
AreCovered-or union m [] h = tt
AreCovered-or union m (eh ∷ next) h =
    (IsCovered-or_left (live_mask eh) union m h.0, AreCovered-or union m next h.1)

AreCovered-append :
    (union : ℕ) (xs ys : List Handler)
    → AreCovered union xs
    → AreCovered union ys
    → AreCovered union (xs ++ ys)
unfolding AreCovered
AreCovered-append union [] ys h k = k
AreCovered-append union (x ∷ xs) ys h k = (h.0, AreCovered-append union xs ys h.1 k)

add_end-MaskCovers :
    (el : HandlerList) (event_mask callback user_data : ℕ) (memory : Option ℕ) (ehs : List Handler)
    (union : ℕ) (found : Option ℕ)
    → AreCovered union ehs
    → MaskCovers (add_end el event_mask callback user_data memory ehs union found).0
unfolding add_end MaskCovers
add_end-MaskCovers el event_mask callback user_data memory ehs union (some found) h = h
add_end-MaskCovers el event_mask callback user_data none ehs union none h = h
add_end-MaskCovers el event_mask callback user_data (some address) ehs union none h =
    elim (Bool-cases (0 == event_mask)) [
      | inl nothing ↦ rw nothing h
      | inr something ↦ rw something (
          AreCovered-append (bit_or union event_mask) ehs _ (AreCovered-or union event_mask ehs h)
            (IsCovered-or_right event_mask union, tt))
    ]

add-MaskCovers :
    (el : HandlerList) (event_mask callback user_data : ℕ) (memory : Option ℕ)
    → MaskCovers (add el event_mask callback user_data memory).0
unfolding add GoesOn
add-MaskCovers el event_mask callback user_data memory =
    let walked = add_loop el.ref_count event_mask callback user_data el.handlers 0 none in
    add_end-MaskCovers el event_mask callback user_data memory walked.0 walked.1.0 walked.1.1
      (add_loop-GoesOn el.ref_count event_mask callback user_data el.handlers 0 none).1

-- Every call on the list leaves it with a mask that covers the handlers that are not removed.
pub make_call-MaskCovers :
    (el : HandlerList) (c : Call) → MaskCovers el → MaskCovers (make_call el c)
unfolding make_call MaskCovers GoesOn
make_call-MaskCovers el (add_call event_mask callback user_data memory) h =
    add-MaskCovers el event_mask callback user_data memory
make_call-MaskCovers el (remove_call address) h =
    (remove_handlers-GoesOn el.ref_count address el.handlers 0).1
make_call-MaskCovers el (remove_by_event_call event_mask) h =
    clear_masks-AreCovered el.ref_count (complement event_mask) el.event_mask el.handlers h

pub make_calls-MaskCovers :
    (el : HandlerList) (cs : List Call) → MaskCovers el → MaskCovers (make_calls el cs)
unfolding make_calls
make_calls-MaskCovers el [] h = h
make_calls-MaskCovers el (c ∷ cs) h =
    make_calls-MaskCovers (make_call el c) cs (make_call-MaskCovers el c h)
