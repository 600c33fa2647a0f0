-- ===== src/Hamm/Code24.antt =====
-- Hamming 24/18: `vbi_ham24p` and `vbi_unham24p`.
mod Decode
mod Shares
mod Encode
use zvbi.Prelude.{
  ℕ, ◌+◌, ◌-◌, ◌*◌, ◌/◌, ◌%◌, ◌^◌, ◌≤◌, ◌<◌, ◌≡◌, ◌≢◌, refl, sym, ap, ◌∙◌, Bool, true, ◌&&◌, ◌||◌,
  bit_xor, arith, leb, ltb, ◌==◌, if◌then◌else◌, is_negative, all_below, all_below-apply,
}
use zvbi.Prelude.Bits.Fields.{bit_xor_fields, bit_xor-lt}
use zvbi.Prelude.Bits.Xor.{bit_xor-zero, bit_xor_assoc, zero-bit_xor}
use zvbi.Hamm.{inv_par_0, inv_par_1, inv_par_2, inv_d1_d4, inv_err, ham24p, unham24p}
use Decode.{word, damage, unham24p-damage}
use Encode.{
  byte_0, d5, d12, p5, p6, byte_0-lt, with_p5, with_p6, ham24p-bytes, syndrome-ham24p, word-ham24p,
}

-- Byte `k` of the word of 24 bits in which only bit `j` is set.
abbrev pub error_byte : ℕ → ℕ → ℕ
error_byte j k = if j / 8 == k then 2 ^ (j % 8) else 0

-- Bit `j` of the three bytes is inverted.
abbrev pub flip : ℕ → ℕ × ℕ × ℕ → ℕ × ℕ × ℕ
flip j (p0, p1, p2) =
    (bit_xor p0 (error_byte j 0), bit_xor p1 (error_byte j 1), bit_xor p2 (error_byte j 2))

abbrev pub receive : ℕ × ℕ × ℕ → ℕ
receive (p0, p1, p2) = unham24p p0 p1 p2

clean_table : damage 0 0 0 ≡ 0
unfolding damage word inv_par_0 inv_par_1 inv_par_2 inv_d1_d4 inv_err
clean_table = refl

single_damage : ℕ → ℕ
single_damage j = damage (error_byte j 0) (error_byte j 1) (error_byte j 2)

single_table : all_below 24 (λ j. single_damage j == 0) ≡ true
unfolding all_below single_damage damage word inv_par_0 inv_par_1 inv_par_2 inv_d1_d4 inv_err
single_table = refl

double_damage : ℕ → ℕ → ℕ
double_damage j k =
    damage (bit_xor (error_byte j 0) (error_byte k 0)) (bit_xor (error_byte j 1) (error_byte k 1))
      (bit_xor (error_byte j 2) (error_byte k 2))

-- Errors in two different bits are noticed.
is_noticed : ℕ → ℕ → Bool
is_noticed j k = j == k || leb (2 ^ 31) (double_damage j k) && ltb (double_damage j k) (2 ^ 32)

double_table : all_below 24 (λ j. all_below 24 (λ k. is_noticed j k)) ≡ true
unfolding all_below is_noticed double_damage damage word inv_par_0 inv_par_1 inv_par_2 inv_d1_d4
    inv_err
double_table = refl

-- Any pattern of errors on a code word.
receive-damage :
    (c e0 e1 e2 : ℕ)
    → c < 2 ^ 18
    → e0 < 256
    → e1 < 256
    → e2 < 256
    → unham24p
        (bit_xor (byte_0 c) e0)
        (bit_xor (bit_xor (d5 c) (p5 c)) e1)
        (bit_xor (bit_xor (d12 c) (p6 c)) e2)
      ≡ bit_xor c (damage e0 e1 e2)
receive-damage c e0 e1 e2 h k0 k1 k2 =
    unham24p-damage (byte_0 c) (bit_xor (d5 c) (p5 c)) (bit_xor (d12 c) (p6 c)) e0 e1 e2
      (byte_0-lt c) (with_p5 c).1 (with_p6 c).1 k0 k1 k2 (syndrome-ham24p c)
    ∙ ap (λ (t : ℕ). bit_xor t (damage e0 e1 e2)) (word-ham24p c h)

power_table : all_below 8 (λ i. ltb (2 ^ i) 256) ≡ true
unfolding all_below
power_table = refl

error_byte-lt : (j k : ℕ) → error_byte j k < 256
error_byte-lt j k =
    ground (arith, all_below-apply 8 (λ i. ltb (2 ^ i) 256) (j % 8) power_table (omega arith))

receive_clean : (c : ℕ) → c < 2 ^ 18 → receive (ham24p c) ≡ c
receive_clean c h =
    ap receive (ham24p-bytes c)
    ∙ sym (simp bit_xor-zero)
    ∙ receive-damage c 0 0 0 h (omega arith) (omega arith) (omega arith)
    ∙ ap (bit_xor c) clean_table
    ∙ bit_xor-zero c

receive-flip : (c j : ℕ) → c < 2 ^ 18 → j < 24 → receive (flip j (ham24p c)) ≡ c
unfolding single_damage
receive-flip c j h hj =
    ap (λ t. receive (flip j t)) (ham24p-bytes c)
    ∙ receive-damage c (error_byte j 0) (error_byte j 1) (error_byte j 2) h (error_byte-lt j 0)
        (error_byte-lt j 1) (error_byte-lt j 2)
    ∙ ap (bit_xor c)
        (ground (arith, all_below-apply 24 (λ j. single_damage j == 0) j single_table hj))
    ∙ bit_xor-zero c

negative-bit_xor :
    (c d : ℕ) → c < 2 ^ 18 → 2 ^ 31 ≤ d → d < 2 ^ 32 → is_negative (bit_xor c d) ≡ true
negative-bit_xor c d h lo hi =
    let e : 1 * 2 ^ 31 + (d - 2 ^ 31) ≡ d = omega arith in
    ground (arith, e, bit_xor_fields 31 0 1 c (d - 2 ^ 31))

double_damage-negative :
    (j k : ℕ)
    → j < 24
    → k < 24
    → j ≢ k
    → (2 ^ 31 ≤ double_damage j k) × (double_damage j k < 2 ^ 32)
unfolding is_noticed
double_damage-negative j k hj hk other = ground (
  arith,
  all_below-apply 24 (λ k. is_noticed j k) k
      (all_below-apply 24 (λ j. all_below 24 (λ k. is_noticed j k)) j double_table hj) hk,
)

receive-flip-flip :
    (c j k : ℕ)
    → c < 2 ^ 18
    → j < 24
    → k < 24
    → j ≢ k
    → is_negative (receive (flip k (flip j (ham24p c)))) ≡ true
unfolding double_damage
receive-flip-flip c j k h hj hk other =
    let d = double_damage-negative j k hj hk other in
    ap (λ t. is_negative (receive (flip k (flip j t)))) (ham24p-bytes c)
    ∙ ap is_negative (
        (λ i.
          unham24p (bit_xor_assoc (byte_0 c) (error_byte j 0) (error_byte k 0) i)
            (bit_xor_assoc (bit_xor (d5 c) (p5 c)) (error_byte j 1) (error_byte k 1) i)
            (bit_xor_assoc (bit_xor (d12 c) (p6 c)) (error_byte j 2) (error_byte k 2) i))
        ∙ receive-damage c (bit_xor (error_byte j 0) (error_byte k 0))
            (bit_xor (error_byte j 1) (error_byte k 1)) (bit_xor (error_byte j 2) (error_byte k 2))
            h (both j k 0) (both j k 1) (both j k 2))
    ∙ negative-bit_xor c (double_damage j k) h d.0 d.1
  where
    both : (j k b : ℕ) → bit_xor (error_byte j b) (error_byte k b) < 256
    both j k b =
        bit_xor-lt 8 (error_byte j b) (error_byte k b) (error_byte-lt j b) (error_byte-lt k b)

-- Hamming 24/18: a word of 18 bits that vbi_ham24p encodes is decoded to itself by
-- vbi_unham24p; with any one of the 24 bits flipped it still is; with any two different bits
-- flipped the result is negative.
pub unham24p-ham24p :
    (c j k : ℕ)
    → c < 2 ^ 18
    → j < 24
    → k < 24
    → j ≢ k
    → (receive (ham24p c) ≡ c)
      × (receive (flip j (ham24p c)) ≡ c)
      × (is_negative (receive (flip k (flip j (ham24p c)))) ≡ true)
unham24p-ham24p c j k h hj hk other =
    (receive_clean c h, receive-flip c j h hj, receive-flip-flip c j k h hj hk other)
