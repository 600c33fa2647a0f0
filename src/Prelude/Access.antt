-- ===== src/Prelude/Access.antt =====
-- What a call that works on C arrays can come to: it returns, or it reads or writes outside an
-- array, which C leaves undefined, or (in the model only) a loop uses up its fuel.
use Prim.Native.Nat.{ℕ, zero, suc, ◌+◌, ◌≤◌, ◌<◌}
use mathlib.Core.List.{List, [], ◌∷◌, ◌++◌}
use mathlib.Core.Path.{◌≡◌, refl}
use mathlib.Core.Bool.{◌&&◌}
use native.Mathlib.Omega.{arith}
use zvbi.Prelude.Tests.{leb, if◌then◌else◌}
use zvbi.Prelude.Lists.{
  length, take, drop, get_or, length-take, length-drop, length-append, AreBytes,
}

pub data Outcome {ℓ} (A : Type ℓ) : Type ℓ where
  returns : A → Outcome A
  out_of_bounds : Outcome A
  out_of_fuel : Outcome A

infixl 5 ◌>>=◌
abbrev pub ◌>>=◌ {ℓ κ} : {A : Type ℓ} {B : Type κ} → Outcome A → (A → Outcome B) → Outcome B
returns a >>= f = f a
out_of_bounds >>= f = out_of_bounds
out_of_fuel >>= f = out_of_fuel

-- `buf[i]`.
abbrev pub read : List ℕ → ℕ → Outcome ℕ
read [] i = out_of_bounds
read (x ∷ xs) zero = returns x
read (x ∷ xs) (suc i) = read xs i

-- `memcpy (dest + to, src + from, size)`.
unfoldable pub memcpy : List ℕ → ℕ → List ℕ → ℕ → ℕ → Outcome (List ℕ)
memcpy dest to src from size =
    if leb (to + size) (length dest) && leb (from + size) (length src)
    then returns (take to dest ++ (take size (drop from src) ++ drop (to + size) dest))
    else out_of_bounds

pub read-get_or : (xs : List ℕ) (i : ℕ) → i < length xs → read xs i ≡ returns (get_or xs i 0)
read-get_or [] i h = absurd (omega arith)
read-get_or (x ∷ xs) zero h = refl
read-get_or (x ∷ xs) (suc i) h = read-get_or xs i (omega arith)

-- A copy inside both arrays goes through, and keeps the length of the target.
pub memcpy-returns :
    (dest : List ℕ) (to : ℕ) (src : List ℕ) (from size : ℕ)
    → to + size ≤ length dest
    → from + size ≤ length src
    → memcpy dest to src from size
      ≡ returns (take to dest ++ (take size (drop from src) ++ drop (to + size) dest))
unfolding memcpy
memcpy-returns dest to src from size h k = ground arith

pub length-memcpy :
    (dest : List ℕ) (to : ℕ) (src : List ℕ) (from size : ℕ)
    → to + size ≤ length dest
    → from + size ≤ length src
    → length (take to dest ++ (take size (drop from src) ++ drop (to + size) dest)) ≡ length dest
length-memcpy dest to src from size h k = omega (
  arith,
  length-append (take to dest) (take size (drop from src) ++ drop (to + size) dest),
  length-append (take size (drop from src)) (drop (to + size) dest),
  length-take to dest,
  length-take size (drop from src),
  length-drop from src,
  length-drop (to + size) dest,
)

-- A call returns, with a result of which `P` holds.
abbrev pub Ends : {A : Type 0} → (A → Type 0) → Outcome A → Type 0
Ends P (returns a) = P a
Ends P out_of_bounds = ⊥
Ends P out_of_fuel = ⊥

pub Ends-after :
    {A B : Type 0} (P : A → Type 0) (Q : B → Type 0) (o : Outcome A) (f : A → Outcome B)
    → Ends P o
    → ((a : A) → P a → Ends Q (f a))
    → Ends Q (o >>= f)
Ends-after P Q (returns a) f h k = k a h
Ends-after P Q out_of_bounds f h k = h
Ends-after P Q out_of_fuel f h k = h

pub read-Ends :
    (xs : List ℕ) (i : ℕ) → AreBytes xs → i < length xs → Ends (λ b. b < 256) (read xs i)
read-Ends [] i bytes h = absurd (omega arith)
read-Ends (x ∷ xs) zero bytes h = bytes.0
read-Ends (x ∷ xs) (suc i) bytes h = read-Ends xs i bytes.1 (omega arith)
