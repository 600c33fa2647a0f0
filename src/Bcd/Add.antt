-- ===== src/Bcd/Add.antt =====
-- vbi_add_bcd of src/bcd.h against the sum of the numbers.
use zvbi.Bcd.{add_bcd, value, AreDecimal}
use zvbi.Bcd.Adder.{
  sixes, correction, last_carry, correction-le, value-lt, adder, carry_in-last_carry, last_digits,
}
use zvbi.Bcd.Carry.{carries, carry, bit_and-complement-carries}
use zvbi.Prelude.{
  ℕ, zero, suc, ◌+◌, ◌-◌, ◌*◌, ◌/◌, ◌%◌, ◌^◌, ◌≤◌, ◌<◌, ◌≡◌, refl, ap, ◌∙◌, u32, bit_or, bit_and,
  complement, ◌>>>◌, bit_xor, arith,
}
use zvbi.Prelude.Bits.Fields.{bit_or_fields}
use zvbi.Prelude.Bits.Xor.{bit_xor_comm, bit_xor_assoc}

carry_lem :
    (i a b : ℕ)
    → i ≤ 7
    → AreDecimal 7 a
    → ((a + 0x06666666) % 16 ^ i + b % 16 ^ i) / 16 ^ i ≡ last_carry i a b 0
unfolding sixes
carry_lem i a b le h =
    let s = (a + 0x06666666) % 16 ^ i + b % 16 ^ i in
    let none : s ≡ s + 0 = omega arith in
    ap (λ (t : ℕ). t / 16 ^ i) none ∙ carry_in-last_carry i 7 a b 0 le h

abbrev packed : ℕ → ℕ → ℕ → ℕ → ℕ → ℕ → ℕ → ℕ
packed d₁ d₂ d₃ d₄ d₅ d₆ d₇ =
    d₁ + d₂ * 0x10 + d₃ * 0x100 + d₄ * 0x1000 + d₅ * 0x10000 + d₆ * 0x100000 + d₇ * 0x1000000

packed_lem :
    (d₁ d₂ d₃ d₄ d₅ d₆ d₇ : ℕ)
    → 6 * packed d₁ d₂ d₃ d₄ d₅ d₆ d₇
      ≡ 6 * d₁
        + 16
          * (6 * d₂
              + 16
                * (6 * d₃ + 16 * (6 * d₄ + 16 * (6 * d₅ + 16 * (6 * d₆ + 16 * (6 * d₇ + 16 * 0))))))
packed_lem d₁ d₂ d₃ d₄ d₅ d₆ d₇ = omega arith

-- The corrections as the code finds them.
abbrev quiet : ℕ → ℕ → ℕ
quiet x y =
    packed (1 - carry 4 x y) (1 - carry 8 x y) (1 - carry 12 x y) (1 - carry 16 x y)
      (1 - carry 20 x y) (1 - carry 24 x y) (1 - carry 28 x y)

quiet-correction : (a b : ℕ) → AreDecimal 7 a → 6 * quiet (a + 0x06666666) b ≡ correction 7 a b 0
unfolding correction last_carry
quiet-correction a b h =
    rw
      (
        carry_lem 1 a b (omega arith) h,
        carry_lem 2 a b (omega arith) h,
        carry_lem 3 a b (omega arith) h,
        carry_lem 4 a b (omega arith) h,
        carry_lem 5 a b (omega arith) h,
        carry_lem 6 a b (omega arith) h,
        carry_lem 7 a b (omega arith) h,
      )
      (packed_lem _ _ _ _ _ _ _)

digit_tripled : (d : ℕ) → d < 2 → bit_or (d * 2) (d * 4) ≡ d * 6
digit_tripled zero h = refl
digit_tripled (suc zero) h = refl
digit_tripled (suc (suc d)) h = absurd (omega arith)

-- `b | b * 2` of a word with only bit 1 of each digit.
tripled_step :
    (p d : ℕ)
    → d < 2
    → bit_or p (p * 2) ≡ p * 3
    → bit_or (p * 16 + d * 2) ((p * 16 + d * 2) * 2) ≡ (p * 16 + d * 2) * 3
tripled_step p d h e =
    let shift : (p * 16 + d * 2) * 2 ≡ p * 2 * 16 + d * 4 = omega arith in
    ap (bit_or (p * 16 + d * 2)) shift
    ∙ bit_or_fields 4 p (p * 2) (d * 2) (d * 4) (omega arith) (omega arith)
    ∙ omega (arith, e, digit_tripled d h)

tripled :
    (d₁ d₂ d₃ d₄ d₅ d₆ d₇ w : ℕ)
    → (d₁ < 2) × (d₂ < 2) × (d₃ < 2) × (d₄ < 2) × (d₅ < 2) × (d₆ < 2) × (d₇ < 2)
    → w ≡ 2 * packed d₁ d₂ d₃ d₄ d₅ d₆ d₇
    → bit_or w (w * 2) ≡ w * 3
tripled d₁ d₂ d₃ d₄ d₅ d₆ d₇ w h e =
    let e₇ = tripled_step 0 d₇ h.6 refl in
    let x₇ : ℕ = 0 * 16 + d₇ * 2 in
    let e₆ = tripled_step x₇ d₆ h.5 e₇ in
    let x₆ : ℕ = x₇ * 16 + d₆ * 2 in
    let e₅ = tripled_step x₆ d₅ h.4 e₆ in
    let x₅ : ℕ = x₆ * 16 + d₅ * 2 in
    let e₄ = tripled_step x₅ d₄ h.3 e₅ in
    let x₄ : ℕ = x₅ * 16 + d₄ * 2 in
    let e₃ = tripled_step x₄ d₃ h.2 e₄ in
    let x₃ : ℕ = x₄ * 16 + d₃ * 2 in
    let e₂ = tripled_step x₃ d₂ h.1 e₃ in
    let x₂ : ℕ = x₃ * 16 + d₂ * 2 in
    let e₁ = tripled_step x₂ d₁ h.0 e₂ in
    let same : w ≡ x₂ * 16 + d₁ * 2 = omega arith in rw same e₁

-- A decimal number has room for the sixes.
room : (a : ℕ) → a < 2 ^ 32 → AreDecimal 7 a → a + 0x06666666 < 2 ^ 32
unfolding AreDecimal
room a h d = omega (arith, d)

wrap_sub : (s k : ℕ) → k ≤ s → k < 2 ^ 32 → u32 (u32 s + (2 ^ 32 - k)) ≡ u32 (s - k)
wrap_sub s k h l = omega arith

at_most_one : (c : ℕ) → 1 - c < 2
at_most_one c = omega arith

eighth :
    (d₁ d₂ d₃ d₄ d₅ d₆ d₇ : ℕ)
    → (d₁ * 0x10
          + d₂ * 0x100
          + d₃ * 0x1000
          + d₄ * 0x10000
          + d₅ * 0x100000
          + d₆ * 0x1000000
          + d₇ * 0x10000000)
        / 8
      ≡ 2 * packed d₁ d₂ d₃ d₄ d₅ d₆ d₇
eighth d₁ d₂ d₃ d₄ d₅ d₆ d₇ = omega arith

module _ (a b : ℕ) (ha : a < 2 ^ 32) (hb : b < 2 ^ 32) (da : AreDecimal 7 a) where
  -- What the code takes off.
  abbrev taken_off : ℕ
  taken_off = bit_and (complement (carries (a + 0x06666666) b)) 0x11111110 >>> 3

  taken_off-quiet : taken_off ≡ 2 * quiet (a + 0x06666666) b
  taken_off-quiet =
      ap (λ (t : ℕ). t / 8) (bit_and-complement-carries (a + 0x06666666) b (room a ha da) hb)
      ∙ eighth _ _ _ _ _ _ _

  taken_off_tripled : bit_or taken_off (taken_off * 2) ≡ correction 7 a b 0
  taken_off_tripled =
      tripled _ _ _ _ _ _ _ taken_off
        (
          at_most_one (carry 4 (a + 0x06666666) b),
          at_most_one (carry 8 (a + 0x06666666) b),
          at_most_one (carry 12 (a + 0x06666666) b),
          at_most_one (carry 16 (a + 0x06666666) b),
          at_most_one (carry 20 (a + 0x06666666) b),
          at_most_one (carry 24 (a + 0x06666666) b),
          at_most_one (carry 28 (a + 0x06666666) b),
        )
        taken_off-quiet
      ∙ omega (arith, taken_off-quiet, quiet-correction a b da)

  add_bcd-correction : add_bcd a b ≡ u32 (a + 0x06666666 + b - correction 7 a b 0)
  unfolding add_bcd sixes
  add_bcd-correction =
      let a' = a + 0x06666666 in
      let fits : u32 a' ≡ a' = omega (arith, room a ha da) in
      let s = u32 (a' + b) in
      let word : bit_xor b (bit_xor a' s) ≡ carries a' b =
        bit_xor_comm b (bit_xor a' s)
        ∙ ap (λ (t : ℕ). bit_xor t b) (bit_xor_comm a' s)
        ∙ bit_xor_assoc s a' b in
      let small : correction 7 a b 0 ≤ 0x06666666 = correction-le 7 a b 0 in
      let twice : u32 (taken_off * 2) ≡ taken_off * 2 =
        omega (arith, small, taken_off-quiet, quiet-correction a b da) in
      rw (fits, word, twice, taken_off_tripled)
        (wrap_sub (a' + b) (correction 7 a b 0) (omega arith) (omega arith))

-- For two numbers below 2 ^ 32 with decimal digits but for the first of eight, vbi_add_bcd
-- gives decimal digits, which mean the sum of the numbers modulo 10 ^ 7; the first digits are
-- added modulo 16, with the carry of that sum.
pub add_bcd-value :
    (a b : ℕ)
    → a < 2 ^ 32
    → b < 2 ^ 32
    → AreDecimal 7 a
    → AreDecimal 7 b
    → AreDecimal 7 (add_bcd a b)
      × (value 7 (add_bcd a b) ≡ (value 7 a + value 7 b) % 10 ^ 7)
      × (add_bcd a b / 16 ^ 7 ≡ (a / 16 ^ 7 + b / 16 ^ 7 + (value 7 a + value 7 b) / 10 ^ 7) % 16)
unfolding sixes
add_bcd-value a b ha hb da db =
    let r = a + 0x06666666 + b - correction 7 a b 0 in
    let small : correction 7 a b 0 ≤ 0x06666666 = correction-le 7 a b 0 in
    let whole = adder 7 a b 0 r da db (omega arith) (omega arith) in
    let sum = add_bcd-correction a b ha hb da in
    let last = last_digits 7 r (add_bcd a b) (omega (arith, sum)) whole.0 in
    let bound = value-lt 7 r whole.0 in
    (last.0, omega (arith, last.1, whole.1, bound), omega (arith, sum, whole.1, whole.2, bound))
