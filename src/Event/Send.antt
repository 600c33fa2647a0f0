-- ===== src/Event/Send.antt =====
-- `__vbi_event_handler_list_send` of src/event.c.
use zvbi.Event.Covers.{AreCovered, MaskCovers}
use zvbi.Event.Masks.{IsCovered, bit_and-IsCovered}
use zvbi.Event.Removals.{OnlyRemoves}
use zvbi.Event.{Handler, HandlerList, Call, make_calls, call_handler, call_loop, sweep, send}
use zvbi.Prelude.{
  ℕ, zero, suc, ◌+◌, ◌≤◌, ◌<◌, ◌≡◌, refl, ap, Bool, true, false, not, ◌&&◌, List, [], ◌∷◌, inl, inr,
  bit_and, ◌==◌, if◌then◌else◌, length, drop, get_elem?, has_bits, none, some, Bool-cases,
  Option-cases, Outcome, returns, ◌>>=◌, arith,
}

-- Whether a handler is to be called for an event of this type.
abbrev pub is_wanted : ℕ → Handler → Bool
is_wanted type eh = has_bits eh.event_mask type && not eh.remove

unfoldable pub wanted : ℕ → List Handler → List Handler
wanted type [] = []
wanted type (eh ∷ next) =
    let rest = wanted type next in if is_wanted type eh then eh ∷ rest else rest

-- No handler is marked as removed.
unfoldable pub AllLive : List Handler → Type 0
AllLive [] = Unit {0}
AllLive (eh ∷ next) = (eh.remove ≡ false) × AllLive next

get_elem?-lt :
    (xs : List Handler) (i : ℕ) (x : Handler)
    → get_elem? xs i ≡ some x
    → (i < length xs) × (drop i xs ≡ x ∷ drop (suc i) xs)
get_elem?-lt [] i x h = cc
get_elem?-lt (y ∷ ys) zero x h = ground arith
get_elem?-lt (y ∷ ys) (suc i) x h = let ih = get_elem?-lt ys i x h in (omega (arith, ih.0), ih.1)

get_elem?-none : (xs : List Handler) (i : ℕ) → get_elem? xs i ≡ none → drop i xs ≡ []
get_elem?-none [] zero h = refl
get_elem?-none [] (suc i) h = refl
get_elem?-none (y ∷ ys) zero h = cc
get_elem?-none (y ∷ ys) (suc i) h = get_elem?-none ys i h

-- The traversal ends, and keeps the mask of the list right.
module _ (client : Handler → ℕ → List Call) (type : ℕ) (only : OnlyRemoves client) where
  abbrev KeepsCover : HandlerList × List Handler → Type 0
  KeepsCover r = MaskCovers r.0

-- Without calls on the list the handlers that want the event are called, in their order.
call_loop-silent :
    (type fuel i : ℕ) (el : HandlerList)
    → i ≤ length el.handlers
    → length el.handlers < i + fuel
    → call_loop (λ eh t. []) type fuel i el ≡ returns (el, wanted type (drop i el.handlers))
unfolding call_loop call_handler make_calls wanted
call_loop-silent type zero i el within enough = ground arith
call_loop-silent type (suc fuel) i el within enough =
    elim (Option-cases (get_elem? el.handlers i)) [
      | inl last ↦ rw (last, get_elem?-none el.handlers i last) refl
      | inr (eh, here) ↦
          let at = get_elem?-lt el.handlers i eh here in
          let ih = call_loop-silent type fuel (suc i) el (omega (arith, at.0)) (omega arith) in
          elim (Bool-cases (is_wanted type eh)) [
            | inr skipped ↦ rw (here, at.1, skipped) ih
            | inl called ↦
                rw (here, at.1, called)
                  (ap
                    (λ (o : Outcome (HandlerList × List Handler)).
                      o >>= (λ r. returns (r.0, eh ∷ r.1)))
                    ih)
          ]
    ]

-- A case of a test, of which neither side is rewritten.
if_case :
    (P : List Handler → Type 0) (b : Bool) (x y : List Handler)
    → (b ≡ true → P x)
    → (b ≡ false → P y)
    → P (if b then x else y)
if_case P true x y h k = h refl
if_case P false x y h k = k refl

live-IsCovered :
    (b : Bool) (m union : ℕ) → IsCovered (if b then 0 else m) union → b ≡ false → IsCovered m union
live-IsCovered true m union h e = cc
live-IsCovered false m union h e = h

AllLive-sweep : (ehs : List Handler) → AllLive ehs → sweep ehs ≡ ehs
unfolding sweep AllLive
AllLive-sweep [] h = refl
AllLive-sweep (eh ∷ next) h =
    if_case (λ (x : List Handler). x ≡ eh ∷ next) eh.remove (sweep next) (eh ∷ sweep next)
      (λ gone. cc) (λ kept. ap (λ (x : List Handler). eh ∷ x) (AllLive-sweep next h.1))

-- What a list is after an event was sent to it.
abbrev pub IsSettled : HandlerList → Type 0
IsSettled el = MaskCovers el × AllLive el.handlers × (el.ref_count ≡ 0)

-- An event that the mask of the list leaves out is wanted by none.
uncovered-wanted :
    (union type : ℕ) (ehs : List Handler)
    → AreCovered union ehs
    → bit_and union type ≡ 0
    → wanted type ehs ≡ []
unfolding AreCovered wanted
uncovered-wanted union type [] h e = refl
uncovered-wanted union type (eh ∷ next) h e =
    if_case (λ (x : List Handler). x ≡ []) (is_wanted type eh) (eh ∷ wanted type next)
      (wanted type next)
      (λ called.
        let at : (eh.remove ≡ false) × (has_bits eh.event_mask type ≡ true) = ground arith in
        let covered = live-IsCovered eh.remove eh.event_mask union h.0 at.0 in
        let none_left = bit_and-IsCovered eh.event_mask union type covered e in ground arith)
      (λ skipped. uncovered-wanted union type next h.1 e)

-- On a list that is not traversed, has no handler marked as removed, and a mask that covers
-- those of its handlers, __vbi_event_handler_list_send, with callbacks that make no calls on
-- the list, calls exactly the handlers that wait for the event, in the order of the list, and
-- leaves the list as it was; also where it returns at once since the mask of the list lacks
-- the event.
pub send-wanted :
    (fuel : ℕ) (el : HandlerList) (type : ℕ)
    → IsSettled el
    → length el.handlers < fuel
    → send (λ eh t. []) fuel el type ≡ returns (el, wanted type el.handlers)
unfolding send MaskCovers
send-wanted fuel el type settled enough = elim (Bool-cases (0 == bit_and el.event_mask type)) [
  | inl early ↦
      rw (early, uncovered-wanted el.event_mask type el.handlers settled.0 (ground arith)) refl
  | inr sent ↦
      rw
        (
          sent,
          settled.2,
          call_loop-silent type fuel 0 (record el { ref_count = 1 }) (omega arith) (omega arith),
          AllLive-sweep el.handlers settled.1,
        )
        refl
]
