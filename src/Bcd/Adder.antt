-- ===== src/Bcd/Adder.antt =====
-- Addition of packed decimal numbers digit by digit, for `vbi_add_bcd` of src/bcd.h.
use zvbi.Bcd.{value, AreDecimal}
use zvbi.Prelude.{
  ℕ, zero, suc, ◌+◌, ◌-◌, ◌*◌, ◌/◌, ◌%◌, ◌^◌, ◌≤◌, ◌<◌, ◌≡◌, refl, ap, ap₂, sym, ◌∙◌, arith,
}
use native.Mathlib.Nat.{pow-suc, div-div-eq-div-mul, mod-add-div'}

-- The addition digit by digit: six is added to every digit, which makes it carry from ten on, and
-- taken off again where it does not carry.
unfoldable pub sixes : ℕ → ℕ
sixes zero = 0
sixes (suc k) = 6 + 16 * sixes k

abbrev pub carry_out : ℕ → ℕ → ℕ → ℕ
carry_out x y c = (x % 16 + 6 + y % 16 + c) / 16

unfoldable pub correction : ℕ → ℕ → ℕ → ℕ → ℕ
correction zero x y c = 0
correction (suc k) x y c =
    6 * (1 - carry_out x y c) + 16 * correction k (x / 16) (y / 16) (carry_out x y c)

unfoldable pub last_carry : ℕ → ℕ → ℕ → ℕ → ℕ
last_carry zero x y c = c
last_carry (suc k) x y c = last_carry k (x / 16) (y / 16) (carry_out x y c)

pub correction-le : (k x y c : ℕ) → correction k x y c ≤ sixes k
unfolding correction sixes
correction-le zero x y c = omega arith
correction-le (suc k) x y c = omega (arith, correction-le k (x / 16) (y / 16) (carry_out x y c))

pub value-lt : (k x : ℕ) → AreDecimal k x → value k x < 10 ^ k
unfolding AreDecimal value
value-lt zero x h = omega arith
value-lt (suc k) x h = omega (arith, pow-suc 10 k, value-lt k (x / 16) h.1)

over : (x k : ℕ) → x / 16 ^ suc k ≡ x / 16 / 16 ^ k
over x k =
    let swap : 16 ^ suc k ≡ 16 * 16 ^ k = omega (arith, pow-suc 16 k) in
    ap (λ (t : ℕ). x / t) swap ∙ sym (div-div-eq-div-mul x 16 (16 ^ k))

-- The corrected sum is made of decimal digits, and means the sum.
pub adder :
    (k x y c r : ℕ)
    → AreDecimal k x
    → AreDecimal k y
    → c < 2
    → r + correction k x y c ≡ x + sixes k + y + c
    → AreDecimal k r
      × (value k r + 10 ^ k * last_carry k x y c ≡ value k x + value k y + c)
      × (r / 16 ^ k ≡ x / 16 ^ k + y / 16 ^ k + last_carry k x y c)
unfolding AreDecimal value sixes correction last_carry
adder zero x y c r hx hy h e = (tt, omega arith, omega arith)
adder (suc k) x y c r hx hy h e =
    let ih =
      adder k (x / 16) (y / 16) (carry_out x y c) (r / 16) hx.1 hy.1 (omega arith) (omega arith) in
    (
      (omega arith, ih.0),
      omega (
        arith,
        ih.1,
        pow-suc 10 k,
        ap (λ (t : ℕ). t * last_carry k (x / 16) (y / 16) (carry_out x y c)) (pow-suc 10 k),
      ),
      rw (over r k, over x k, over y k, ih.2),
    )

low_digits : (x i : ℕ) → x % 16 ^ suc i ≡ x % 16 + x / 16 % 16 ^ i * 16
low_digits x i =
    let q = x / 16 / 16 ^ i in
    let above : x / 16 ^ suc i * 16 ^ suc i ≡ q * (16 ^ i * 16) =
      ap₂ (λ (s t : ℕ). s * t) (over x i) (pow-suc 16 i) in
    omega (arith, mod-add-div' x (16 ^ suc i), mod-add-div' (x / 16) (16 ^ i), above)

-- The carry into digit `i`, with a carry into the first.
abbrev pub carry_in : ℕ → ℕ → ℕ → ℕ → ℕ
carry_in i x y c = (x % 16 ^ i + y % 16 ^ i + c) / 16 ^ i

carry_in-suc :
    (i x y c : ℕ)
    → carry_in (suc i) x y c ≡ carry_in i (x / 16) (y / 16) ((x % 16 + y % 16 + c) / 16)
carry_in-suc i x y c =
    let total = x % 16 ^ suc i + y % 16 ^ suc i + c in
    let high : total / 16 ≡ x / 16 % 16 ^ i + y / 16 % 16 ^ i + (x % 16 + y % 16 + c) / 16 =
      omega (arith, low_digits x i, low_digits y i) in
    over total i ∙ ap (λ (t : ℕ). t / 16 ^ i) high

pub carry_in-last_carry :
    (i k x y c : ℕ) → i ≤ k → AreDecimal k x → carry_in i (x + sixes k) y c ≡ last_carry i x y c
unfolding AreDecimal sixes last_carry
carry_in-last_carry zero k x y c le h = omega arith
carry_in-last_carry (suc i) zero x y c le h = absurd (omega arith)
carry_in-last_carry (suc i) (suc k) x y c le h =
    let s = x + (6 + 16 * sixes k) in
    let first : s % 16 ≡ x % 16 + 6 = omega (arith, h.0) in
    let next : s / 16 ≡ x / 16 + sixes k = omega (arith, h.0) in
    carry_in-suc i s y c
    ∙ rw
        (first, next, carry_in-last_carry i k (x / 16) (y / 16) (carry_out x y c) (omega arith) h.1)

-- Only the last digits of a word count.
same_digits :
    (k r s : ℕ)
    → r % 16 ^ suc k ≡ s % 16 ^ suc k
    → (r % 16 ≡ s % 16) × (r / 16 % 16 ^ k ≡ s / 16 % 16 ^ k)
same_digits k r s e = omega (arith, e, low_digits r k, low_digits s k)

pub last_digits :
    (k r s : ℕ)
    → r % 16 ^ k ≡ s % 16 ^ k
    → AreDecimal k r
    → AreDecimal k s × (value k s ≡ value k r)
unfolding value AreDecimal
last_digits zero r s e d = (tt, refl)
last_digits (suc k) r s e d =
    let same = same_digits k r s e in
    let ih = last_digits k (r / 16) (s / 16) same.1 d.1 in
    ((omega (arith, same.0, d.0), ih.0), omega (arith, same.0, ih.1))
