-- ===== src/Hamm/Linear.antt =====
-- Maps on bytes that take `^` to `^`: it is enough to look at the two nibbles of a byte.
use zvbi.Prelude.{
  ℕ, ◌+◌, ◌*◌, ◌/◌, ◌%◌, ◌<◌, ◌≡◌, sym, ap, ap₂, ◌∙◌, Bool, true, ◌&&◌, bit_xor, arith, ◌==◌,
  all_below, all_below-apply,
}
use zvbi.Prelude.Bits.Fields.{bit_xor_fields, bit_xor-lt}
use zvbi.Prelude.Bits.Xor.{bit_xor_swap}

-- At the nibbles `a` and `b`: a byte splits, and the high and the low nibbles are added apart.
pub linear_at : (ℕ → ℕ) → ℕ → ℕ → Bool
linear_at g a b =
    g (a * 16 + b) == bit_xor (g (a * 16)) (g b)
    && g (bit_xor a b * 16) == bit_xor (g (a * 16)) (g (b * 16))
    && g (bit_xor a b) == bit_xor (g a) (g b)

unfoldable pub linear_check : (ℕ → ℕ) → Bool
unfolding linear_at all_below
linear_check g = all_below 16 (λ a. all_below 16 (λ b. linear_at g a b))

module _ (g : ℕ → ℕ) (checked : linear_check g ≡ true) where
  at_nibbles : (a b : ℕ) → a < 16 → b < 16 → linear_at g a b ≡ true
  at_nibbles a b ha hb =
      all_below-apply 16 (λ b. linear_at g a b) b
        (all_below-apply 16 (λ a. all_below 16 (λ b. linear_at g a b)) a
          (unfold linear_check in checked) ha)
        hb

  nibble_laws :
      (a b : ℕ)
      → a < 16
      → b < 16
      → (g (a * 16 + b) ≡ bit_xor (g (a * 16)) (g b))
        × (g (bit_xor a b * 16) ≡ bit_xor (g (a * 16)) (g (b * 16)))
        × (g (bit_xor a b) ≡ bit_xor (g a) (g b))
  unfolding linear_at
  nibble_laws a b ha hb = ground (arith, at_nibbles a b ha hb)

  of_nibbles :
      (a b c d : ℕ)
      → a < 16
      → b < 16
      → c < 16
      → d < 16
      → g (bit_xor (a * 16 + b) (c * 16 + d)) ≡ bit_xor (g (a * 16 + b)) (g (c * 16 + d))
  of_nibbles a b c d ha hb hc hd =
      ap g (bit_xor_fields 4 a c b d hb hd)
      ∙ (nibble_laws (bit_xor a c) (bit_xor b d) (bit_xor-lt 4 a c ha hc)
          (bit_xor-lt 4 b d hb hd)).0
      ∙ ap₂ bit_xor (nibble_laws a c ha hc).1 (nibble_laws b d hb hd).2
      ∙ bit_xor_swap (g (a * 16)) (g (c * 16)) (g b) (g d)
      ∙ sym (ap₂ bit_xor (nibble_laws a b ha hb).0 (nibble_laws c d hc hd).0)

  pub linear : (x y : ℕ) → x < 256 → y < 256 → g (bit_xor x y) ≡ bit_xor (g x) (g y)
  linear x y hx hy =
      let ex : x / 16 * 16 + x % 16 ≡ x = omega arith in
      let ey : y / 16 * 16 + y % 16 ≡ y = omega arith in
      ap₂ (λ (s t : ℕ). g (bit_xor s t)) (sym ex) (sym ey)
      ∙ of_nibbles (x / 16) (x % 16) (y / 16) (y % 16) (omega arith) (omega arith) (omega arith)
          (omega arith)
      ∙ ap₂ (λ (s t : ℕ). bit_xor (g s) (g t)) ex ey
