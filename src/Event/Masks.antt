-- ===== src/Event/Masks.antt =====
-- Event masks as sets of bits, for src/event.c: which masks one mask covers.
use native.Mathlib.Nat.{pow-suc, div-div-eq-div-mul}
use zvbi.Prelude.Bits.Single.{bit_at, bit_or-bit_at, bit_and-bit_at, zero-bit_at}
use zvbi.Prelude.Bits.Xor.{halving}
use zvbi.Prelude.{ℕ, suc, ◌*◌, ◌/◌, ◌%◌, ◌^◌, ◌≤◌, ◌≡◌, refl, ap, sym, ◌∙◌, bit_and, bit_or, arith}

-- Every event of the mask `m` is one of `union`.
abbrev pub IsCovered : ℕ → ℕ → Type 0
IsCovered m union = (k : ℕ) → bit_at m k ≤ bit_at union k

pub IsCovered-self : (m : ℕ) → IsCovered m m
IsCovered-self m k = omega arith

pub IsCovered-or_left : (m union x : ℕ) → IsCovered m union → IsCovered m (bit_or union x)
IsCovered-or_left m union x h k = omega (arith, h k, bit_or-bit_at k union x)

pub IsCovered-or_right : (m union : ℕ) → IsCovered m (bit_or union m)
IsCovered-or_right m union k = omega (arith, bit_or-bit_at k union m)

pub IsCovered-and : (m union c : ℕ) → IsCovered m union → IsCovered (bit_and m c) (bit_and union c)
IsCovered-and m union c h k = omega (arith, h k, bit_and-bit_at k m c, bit_and-bit_at k union c)

next_bit : (x k : ℕ) → bit_at x (suc k) ≡ bit_at (x / 2) k
next_bit x k =
    let swap : 2 ^ suc k ≡ 2 * 2 ^ k = omega (arith, pow-suc 2 k) in
    ap (λ (t : ℕ). t % 2) (ap (λ (t : ℕ). x / t) swap ∙ sym (div-div-eq-div-mul x 2 (2 ^ k)))

-- A number without bits is 0.
no_bits : (x : ℕ) → ((k : ℕ) → bit_at x k ≡ 0) → x ≡ 0
no_bits =
    halving (λ x. ((k : ℕ) → bit_at x k ≡ 0) → x ≡ 0) (λ h. refl)
      (λ n ih h. omega (arith, h 0, ih (λ k. sym (next_bit (suc n) k) ∙ h (suc k))))

-- An event that no mask of the union wants is wanted by none that it covers.
pub bit_and-IsCovered :
    (m union type : ℕ) → IsCovered m union → bit_and union type ≡ 0 → bit_and m type ≡ 0
bit_and-IsCovered m union type h e = no_bits (bit_and m type) (λ k. omega (
  arith,
  h k,
  bit_and-bit_at k m type,
  bit_and-bit_at k union type,
  ap (λ (x : ℕ). bit_at x k) e,
  zero-bit_at k,
))
