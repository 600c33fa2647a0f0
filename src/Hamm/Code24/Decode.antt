-- ===== src/Hamm/Code24/Decode.antt =====
-- `vbi_unham24p` on a word with errors: the data and the syndrome of the errors are added by `^`
-- to those of the word that was sent.
use zvbi.Prelude.{
  ℕ, ◌+◌, ◌*◌, ◌^◌, ◌<◌, ◌≡◌, refl, sym, ap, ap₂, ◌∙◌, true, bit_and, bit_or, bit_xor, arith, ltb,
  all_below, all_below-apply, ◌<<<◌,
}
use zvbi.Prelude.Bits.Fields.{bit_xor_fields, bit_or-low, bit_and_low, bit_xor-lt}
use zvbi.Prelude.Bits.Xor.{bit_xor_swap, bit_xor_assoc, bit_xor_comm, bit_xor-zero, zero-bit_xor}
use zvbi.Hamm.Linear.{linear_check, linear}
use zvbi.Hamm.{inv_par_0, inv_par_1, inv_par_2, inv_d1_d4, inv_err, unham24p}

unfoldable pub syndrome : ℕ → ℕ → ℕ → ℕ
syndrome p0 p1 p2 = bit_xor (bit_xor (inv_par_0 p0) (inv_par_1 p1)) (inv_par_2 p2)

unfoldable pub word : ℕ → ℕ → ℕ → ℕ
word p0 p1 p2 = bit_or (bit_or (inv_d1_d4 p0) (bit_and p1 0x7f <<< 4)) (bit_and p2 0x7f <<< 11)

-- The third table without its `^ 0x3f`.
abbrev pub plain_par_2 : ℕ → ℕ
plain_par_2 x = bit_xor (inv_par_2 x) 0x3f

pub par_0_check : linear_check inv_par_0 ≡ true
unfolding linear_check inv_par_0
par_0_check = refl

pub par_1_check : linear_check inv_par_1 ≡ true
unfolding linear_check inv_par_1
par_1_check = refl

pub par_2_check : linear_check plain_par_2 ≡ true
unfolding linear_check inv_par_2
par_2_check = refl

pub d1_d4_check : linear_check inv_d1_d4 ≡ true
unfolding linear_check inv_d1_d4
d1_d4_check = refl

low7_check : linear_check (λ x. bit_and x 0x7f) ≡ true
unfolding linear_check
low7_check = refl

d1_d4_table : all_below 256 (λ x. ltb (inv_d1_d4 x) 16) ≡ true
unfolding all_below inv_d1_d4
d1_d4_table = refl

pub inv_d1_d4-lt : (x : ℕ) → x < 256 → inv_d1_d4 x < 16
inv_d1_d4-lt x h = ground (arith, all_below-apply 256 (λ x. ltb (inv_d1_d4 x) 16) x d1_d4_table h)

abbrev pub fields : ℕ → ℕ → ℕ → ℕ
fields a b c = a * 2 ^ 11 + (b * 2 ^ 4 + c)

fields-bit_xor :
    (a b c a' b' c' : ℕ)
    → b < 128
    → c < 16
    → b' < 128
    → c' < 16
    → bit_xor (fields a b c) (fields a' b' c') ≡ fields (bit_xor a a') (bit_xor b b') (bit_xor c c')
fields-bit_xor a b c a' b' c' hb hc hb' hc' =
    bit_xor_fields 11 a a' (b * 2 ^ 4 + c) (b' * 2 ^ 4 + c') (omega arith) (omega arith)
    ∙ ap (λ (t : ℕ). bit_xor a a' * 2 ^ 11 + t) (bit_xor_fields 4 b b' c c' hc hc')

low7-lt : (x : ℕ) → bit_and x 0x7f < 128
low7-lt x = omega (arith, bit_and_low 7 x)

-- The data bits side by side.
pub word-fields :
    (p0 p1 p2 : ℕ)
    → p0 < 256
    → word p0 p1 p2 ≡ fields (bit_and p2 0x7f) (bit_and p1 0x7f) (inv_d1_d4 p0)
unfolding word
word-fields p0 p1 p2 h =
    let d = inv_d1_d4-lt p0 h in
    ap (λ (t : ℕ). bit_or t (bit_and p2 0x7f <<< 11))
      (bit_or-low 4 (bit_and p1 0x7f) (inv_d1_d4 p0) d)
    ∙ bit_or-low 11 (bit_and p2 0x7f) (bit_and p1 0x7f * 2 ^ 4 + inv_d1_d4 p0)
        (omega (arith, d, low7-lt p1))

pub word-lt : (p0 p1 p2 : ℕ) → p0 < 256 → word p0 p1 p2 < 2 ^ 18
word-lt p0 p1 p2 h =
    omega (arith, word-fields p0 p1 p2 h, low7-lt p1, low7-lt p2, inv_d1_d4-lt p0 h)

pub inv_par_2-bit_xor :
    (p e : ℕ) → p < 256 → e < 256 → inv_par_2 (bit_xor p e) ≡ bit_xor (inv_par_2 p) (plain_par_2 e)
inv_par_2-bit_xor p e h k =
    sym (restore (inv_par_2 (bit_xor p e)))
    ∙ ap (λ (t : ℕ). bit_xor t 0x3f) (linear plain_par_2 par_2_check p e h k)
    ∙ ap (λ (t : ℕ). bit_xor t 0x3f) (bit_xor_comm (plain_par_2 p) (plain_par_2 e))
    ∙ bit_xor_assoc (plain_par_2 e) (plain_par_2 p) 0x3f
    ∙ ap (bit_xor (plain_par_2 e)) (restore (inv_par_2 p))
    ∙ bit_xor_comm (plain_par_2 e) (inv_par_2 p)
  where
    restore : (x : ℕ) → bit_xor (bit_xor x 0x3f) 0x3f ≡ x
    restore x = bit_xor_assoc x 0x3f 0x3f ∙ bit_xor-zero x

module _ (p0 p1 p2 e0 e1 e2 : ℕ) (h0 : p0 < 256) (h1 : p1 < 256) (h2 : p2 < 256) (k0 : e0 < 256)
    (k1 : e1 < 256) (k2 : e2 < 256) where
  word-bit_xor :
      word (bit_xor p0 e0) (bit_xor p1 e1) (bit_xor p2 e2) ≡ bit_xor (word p0 p1 p2) (word e0 e1 e2)
  word-bit_xor =
      word-fields (bit_xor p0 e0) (bit_xor p1 e1) (bit_xor p2 e2) (bit_xor-lt 8 p0 e0 h0 k0)
      ∙ rw
          (
            linear inv_d1_d4 d1_d4_check p0 e0 h0 k0,
            linear (λ x. bit_and x 0x7f) low7_check p1 e1 h1 k1,
            linear (λ x. bit_and x 0x7f) low7_check p2 e2 h2 k2,
          )
          (sym (
            fields-bit_xor (bit_and p2 0x7f) (bit_and p1 0x7f) (inv_d1_d4 p0) (bit_and e2 0x7f)
              (bit_and e1 0x7f) (inv_d1_d4 e0) (low7-lt p1) (inv_d1_d4-lt p0 h0) (low7-lt e1)
              (inv_d1_d4-lt e0 k0)))
      ∙ ap₂ bit_xor (sym (word-fields p0 p1 p2 h0)) (sym (word-fields e0 e1 e2 k0))

  syndrome-bit_xor :
      syndrome (bit_xor p0 e0) (bit_xor p1 e1) (bit_xor p2 e2)
      ≡ bit_xor
          (syndrome p0 p1 p2)
          (bit_xor (bit_xor (inv_par_0 e0) (inv_par_1 e1)) (plain_par_2 e2))
  unfolding syndrome
  syndrome-bit_xor =
      ap₂ bit_xor
        (ap₂ bit_xor (linear inv_par_0 par_0_check p0 e0 h0 k0)
            (linear inv_par_1 par_1_check p1 e1 h1 k1)
          ∙ bit_xor_swap (inv_par_0 p0) (inv_par_0 e0) (inv_par_1 p1) (inv_par_1 e1))
        (inv_par_2-bit_xor p2 e2 h2 k2)
      ∙ bit_xor_swap (bit_xor (inv_par_0 p0) (inv_par_1 p1)) (bit_xor (inv_par_0 e0) (inv_par_1 e1))
          (inv_par_2 p2) (plain_par_2 e2)

-- What the decoder adds to the data because of the errors `e0`, `e1`, `e2`: those among the data
-- bits, and the correction.
unfoldable pub damage : ℕ → ℕ → ℕ → ℕ
damage e0 e1 e2 =
    bit_xor (word e0 e1 e2)
      (inv_err (bit_xor (bit_xor (inv_par_0 e0) (inv_par_1 e1)) (plain_par_2 e2)))

unham24p-word-syndrome :
    (p0 p1 p2 : ℕ) → unham24p p0 p1 p2 ≡ bit_xor (word p0 p1 p2) (inv_err (syndrome p0 p1 p2))
unfolding unham24p word syndrome
unham24p-word-syndrome p0 p1 p2 = refl

pub unham24p-damage :
    (p0 p1 p2 e0 e1 e2 : ℕ)
    → p0 < 256
    → p1 < 256
    → p2 < 256
    → e0 < 256
    → e1 < 256
    → e2 < 256
    → syndrome p0 p1 p2 ≡ 0
    → unham24p (bit_xor p0 e0) (bit_xor p1 e1) (bit_xor p2 e2)
      ≡ bit_xor (word p0 p1 p2) (damage e0 e1 e2)
unfolding damage
unham24p-damage p0 p1 p2 e0 e1 e2 h0 h1 h2 k0 k1 k2 s =
    let t = bit_xor (bit_xor (inv_par_0 e0) (inv_par_1 e1)) (plain_par_2 e2) in
    unham24p-word-syndrome (bit_xor p0 e0) (bit_xor p1 e1) (bit_xor p2 e2)
    ∙ ap₂ bit_xor (word-bit_xor p0 p1 p2 e0 e1 e2 h0 h1 h2 k0 k1 k2) (
        ap inv_err (
          syndrome-bit_xor p0 p1 p2 e0 e1 e2 h0 h1 h2 k0 k1 k2
          ∙ ap (λ (u : ℕ). bit_xor u t) s
          ∙ zero-bit_xor t))
    ∙ bit_xor_assoc (word p0 p1 p2) (word e0 e1 e2) (inv_err t)
