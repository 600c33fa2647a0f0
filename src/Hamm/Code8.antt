-- ===== src/Hamm/Code8.antt =====
-- Hamming 8/4: `vbi_ham8`, `vbi_unham8` and `vbi_unham16p`.
use zvbi.Prelude.{
  ℕ, ◌+◌, ◌*◌, ◌%◌, ◌^◌, ◌≤◌, ◌<◌, ◌≡◌, ◌↔◌, ◌⊎◌, refl, ap, Bool, true, false, not, ◌&&◌, ◌||◌,
  bit_xor, arith, ltb, leb, ◌==◌, is_negative, u32, ◌<<<◌, minus_one, sign_extend, get_or_beyond,
  all_below, all_below-apply,
}
use zvbi.Prelude.Bits.Fields.{bit_or-low, bit_or-lt, le-bit_or}
use zvbi.Hamm.Distance.{distance8}
use zvbi.Hamm.Tables.{hamm8_inv}
use zvbi.Hamm.{ham8, inv8, unham8, unham16p}

same : Bool → Bool → Bool
same true b = b
same false b = not b

same_iff : (a b : Bool) → same a b ≡ true → a ≡ b
unfolding same
same_iff true b h = ground arith
same_iff false b h = ground arith

-- The checks at all bytes: a byte decodes to the one nibble with a near code, and else to -1.
near : ℕ → ℕ → Bool
near b d = leb (distance8 b (ham8 d)) 1

nearest_table : all_below 256 (λ b. all_below 16 (λ d. same (inv8 b == d) (near b d))) ≡ true
unfolding all_below same inv8 ham8 distance8 near
nearest_table = refl

range_table : all_below 256 (λ b. ltb (inv8 b) 16 || inv8 b == minus_one) ≡ true
unfolding all_below inv8
range_table = refl

unham8-eq-inv8 : (b : ℕ) → b < 256 → unham8 b ≡ inv8 b
unfolding unham8
unham8-eq-inv8 b h = ap inv8 (omega arith)

inv8-range : (b : ℕ) → b < 256 → (inv8 b < 16) ⊎ (inv8 b ≡ minus_one)
inv8-range b h =
    ground
      (arith, all_below-apply 256 (λ b. ltb (inv8 b) 16 || inv8 b == minus_one) b range_table h)

-- A decoded byte is a nibble, or -1.
pub unham8-range : (b : ℕ) → (unham8 b < 16) ⊎ (unham8 b ≡ minus_one)
unfolding unham8
unham8-range b = inv8-range (b % 256) (omega arith)

-- Hamming 8/4: vbi_unham8 gives a value exactly if the received byte differs from the code
-- word of that value in at most one bit.
pub unham8-nearest : (b d : ℕ) → b < 256 → d < 16 → (unham8 b ≡ d) ↔ (distance8 b (ham8 d) ≤ 1)
unfolding near
unham8-nearest b d hb hd = ground (
  arith,
  unham8-eq-inv8 b hb,
  same_iff (inv8 b == d) (near b d) (
      all_below-apply 16 (λ d. same (inv8 b == d) (near b d)) d
        (all_below-apply 256 (λ b. all_below 16 (λ d. same (inv8 b == d) (near b d))) b
          nearest_table hb)
        hd),
)

-- The code of `d` with no, one and two wrong bits.
corrects : ℕ → ℕ → ℕ → Bool
corrects d j k =
    unham8 (ham8 d) == d
    && unham8 (bit_xor (ham8 d) (2 ^ j)) == d
    && unham8 (bit_xor (bit_xor (ham8 d) (2 ^ j)) (2 ^ k)) == minus_one

corrects_table : all_below 16 (λ d. all_below 8 (λ j. all_below j (λ k. corrects d j k))) ≡ true
unfolding all_below corrects unham8 inv8 ham8
corrects_table = refl

-- `vbi_unham16p` puts the low nibble first, and on an error its sign bit is set.
pub unham16p-ok :
    (p0 p1 : ℕ) → inv8 p0 < 16 → inv8 p1 < 16 → unham16p p0 p1 ≡ inv8 p0 + 16 * inv8 p1
unfolding unham16p
unham16p-ok p0 p1 h0 h1 = ground (arith, bit_or-low 4 (inv8 p1) (inv8 p0))

pub unham16p_high_error :
    (p0 p1 : ℕ) → inv8 p0 < 16 → inv8 p1 ≡ minus_one → unham16p p0 p1 ≡ 0xfffffff0 + inv8 p0
unfolding unham16p
unham16p_high_error p0 p1 h0 h1 = ground (arith, bit_or-low 4 0xfffffff (inv8 p0))

pub unham16p_low_error : (p0 p1 : ℕ) → inv8 p0 ≡ minus_one → unham16p p0 p1 ≡ minus_one
unfolding unham16p
unham16p_low_error p0 p1 h =
    let y = u32 (inv8 p1 <<< 4) in
    rw h
      (omega (arith, le-bit_or minus_one y, bit_or-lt 32 minus_one y (omega arith) (omega arith)))

inv8_beyond : (b : ℕ) → 256 ≤ b → inv8 b ≡ 0
unfolding inv8
inv8_beyond b h = ap sign_extend (get_or_beyond hamm8_inv b 0 h)

pub unham16p-range :
    (p0 p1 : ℕ) → (unham16p p0 p1 < 256) ⊎ (0xfffffff0 ≤ unham16p p0 p1) × (unham16p p0 p1 < 2 ^ 32)
unham16p-range p0 p1 = ground (
  arith,
  inv8_any p0,
  inv8_any p1,
  unham16p-ok p0 p1,
  unham16p_high_error p0 p1,
  unham16p_low_error p0 p1,
)
  where
    inv8_any : (b : ℕ) → (inv8 b < 16) ⊎ (inv8 b ≡ minus_one)
    inv8_any b = ground (arith, inv8-range b, inv8_beyond b)

-- `vbi_unham16p` is negative exactly when `vbi_unham8` is for one of the two bytes, and else is
-- the two nibbles, that of the first byte lowest.
pub unham16p-unham8 :
    (p0 p1 : ℕ)
    → p0 < 256
    → p1 < 256
    → (is_negative (unham16p p0 p1) ≡ is_negative (unham8 p0) || is_negative (unham8 p1))
      × (is_negative (unham16p p0 p1) ≡ false → unham16p p0 p1 ≡ unham8 p0 + 16 * unham8 p1)
unham16p-unham8 p0 p1 h0 h1 = ground (
  arith,
  unham8-eq-inv8 p0 h0,
  unham8-eq-inv8 p1 h1,
  inv8-range p0 h0,
  inv8-range p1 h1,
  unham16p-ok p0 p1,
  unham16p_high_error p0 p1,
  unham16p_low_error p0 p1,
)

-- Every nibble comes back from its code, also when one bit of the code is wrong, and two wrong
-- bits give -1.
pub unham8-ham8 :
    (d j k : ℕ)
    → d < 16
    → j < 8
    → k < j
    → (unham8 (ham8 d) ≡ d)
      × (unham8 (bit_xor (ham8 d) (2 ^ j)) ≡ d)
      × (unham8 (bit_xor (bit_xor (ham8 d) (2 ^ j)) (2 ^ k)) ≡ minus_one)
unfolding corrects
unham8-ham8 d j k hd hj hk = ground (
  arith,
  all_below-apply j (λ k. corrects d j k) k
      (all_below-apply 8 (λ j. all_below j (λ k. corrects d j k)) j
        (all_below-apply 16 (λ d. all_below 8 (λ j. all_below j (λ k. corrects d j k))) d
          corrects_table hd)
        hj)
      hk,
)
