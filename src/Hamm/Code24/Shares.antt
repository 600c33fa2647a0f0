-- ===== src/Hamm/Code24/Shares.antt =====
-- `vbi_ham24p`: what each part of its word adds to the syndrome.
use zvbi.Prelude.{
  ℕ, ◌*◌, ◌/◌, ◌%◌, ◌<◌, ◌≡◌, refl, sym, ap, ap₂, ◌∙◌, true, bit_and, bit_or, bit_xor, arith, ltb,
  ◌==◌, ◌&&◌, ◌||◌, all_below, all_below-apply, eq_below, ◌<<<◌, u32, complement, ◌⊎◌,
}
use zvbi.Prelude.Bits.Fields.{bit_xor_fields, bit_or-low, bit_and_low}
use zvbi.Prelude.Bits.Xor.{bit_xor_swap, bit_xor_assoc, bit_xor_comm, bit_xor-zero}
use zvbi.Hamm.Code24.Decode.{syndrome, plain_par_2, par_1_check, par_2_check, inv_par_2-bit_xor}
use zvbi.Hamm.Linear.{linear_check, linear}
use zvbi.Hamm.{inv_par_0, inv_par_1, inv_par_2, fwd_0, fwd_1, fwd_2}

-- `P5` and `P6` from a row of the parity table.
abbrev pub even_high : ℕ → ℕ
even_high s = bit_and 0x80 (complement (u32 (s <<< 2)))

abbrev pub high : ℕ → ℕ
high s = bit_and 0x80 (u32 (s <<< 2))

-- The shares of the three parts of the word in its syndrome: the first byte, D5 to D11, D12 to D18.
pub byte_0_share : ℕ → ℕ
byte_0_share x = bit_xor (inv_par_0 x) (plain_par_2 (high (inv_par_0 x)))

pub d5_share : ℕ → ℕ
d5_share x = bit_xor (plain_par_2 (high (inv_par_0 x))) (inv_par_1 x)

pub d12_share : ℕ → ℕ
d12_share x = bit_xor (inv_par_1 (even_high (inv_par_0 x))) (inv_par_2 x)

abbrev pub constant : ℕ
constant = 0x0f

unfoldable pub plain_d12_share : ℕ → ℕ
plain_d12_share x = bit_xor (d12_share x) constant

pub byte_0_check : linear_check byte_0_share ≡ true
unfolding linear_check inv_par_0 inv_par_2 byte_0_share
byte_0_check = refl

pub d5_check : linear_check d5_share ≡ true
unfolding linear_check inv_par_0 inv_par_1 inv_par_2 d5_share
d5_check = refl

pub d12_check : linear_check plain_d12_share ≡ true
unfolding linear_check inv_par_0 inv_par_1 inv_par_2 d12_share plain_d12_share
d12_check = refl

pub high_check : linear_check high ≡ true
unfolding linear_check
high_check = refl

pub d12_0 : d12_share 0 ≡ constant
unfolding inv_par_0 inv_par_1 inv_par_2 d12_share
d12_0 = refl

-- Each byte of the data adds nothing to the syndrome.
pub cancel_0 : (x : ℕ) → x < 256 → byte_0_share (fwd_0 x) ≡ bit_xor (d5_share (x / 16)) constant
unfolding all_below inv_par_0 inv_par_1 inv_par_2 byte_0_share d5_share fwd_0
cancel_0 =
    eq_below 256 (λ x. byte_0_share (fwd_0 x)) (λ x. bit_xor (d5_share (x / 16)) constant) refl

pub cancel_1 :
    (x : ℕ)
    → x < 256
    → byte_0_share (fwd_1 x) ≡ bit_xor (d5_share (x % 8 * 16)) (plain_d12_share (x / 8))
unfolding all_below inv_par_0 inv_par_1 inv_par_2 byte_0_share d5_share d12_share plain_d12_share
    fwd_1
cancel_1 =
    eq_below 256 (λ x. byte_0_share (fwd_1 x))
      (λ x. bit_xor (d5_share (x % 8 * 16)) (plain_d12_share (x / 8))) refl

pub cancel_2 : (x : ℕ) → x < 4 → byte_0_share (fwd_2 x) ≡ plain_d12_share (x * 32)
unfolding all_below inv_par_0 inv_par_1 inv_par_2 byte_0_share d12_share plain_d12_share fwd_2
cancel_2 = eq_below 4 (λ x. byte_0_share (fwd_2 x)) (λ x. plain_d12_share (x * 32)) refl

-- The eight bits of a parity row that are read are below 64, and a parity bit is bit 7.
par_0_table : all_below 256 (λ x. ltb (inv_par_0 x) 64) ≡ true
unfolding all_below inv_par_0
par_0_table = refl

high_table :
    all_below 256 (λ s. (high s == 0 || high s == 128) && (even_high s == 0 || even_high s == 128))
    ≡ true
unfolding all_below
high_table = refl

pub fwd_table :
    all_below 256 (λ x. ltb (fwd_0 x) 256 && ltb (fwd_1 x) 256 && ltb (fwd_2 (x % 4)) 256) ≡ true
unfolding all_below fwd_0 fwd_1 fwd_2
fwd_table = refl

pub inv_par_0-lt : (x : ℕ) → x < 256 → inv_par_0 x < 64
inv_par_0-lt x h = ground (arith, all_below-apply 256 (λ x. ltb (inv_par_0 x) 64) x par_0_table h)

abbrev pub IsTopBit : ℕ → Type 0
IsTopBit y = (y ≡ 0) ⊎ (y ≡ 128)

pub high-IsTopBit : (s : ℕ) → s < 256 → IsTopBit (high s) × IsTopBit (even_high s)
high-IsTopBit s h = ground (
  arith,
  all_below-apply 256
      (λ s. (high s == 0 || high s == 128) && (even_high s == 0 || even_high s == 128)) s high_table
      h,
)

high-lt : (s : ℕ) → s < 256 → high s < 256
high-lt s h = omega (arith, high-IsTopBit s h)

-- `|` of seven data bits and a parity bit.
pub with_top_bit :
    (d y : ℕ)
    → d < 128
    → IsTopBit y
    → (bit_or d y ≡ bit_xor d y) × (bit_xor d y < 256) × (bit_and (bit_xor d y) 0x7f ≡ d)
with_top_bit d y hd t = ground (
  arith,
  bit_or-low 7 0 d hd,
  bit_or-low 7 1 d hd,
  bit_xor_fields 7 0 0 d 0 hd,
  bit_xor_fields 7 0 1 d 0 hd,
  bit_xor-zero d,
  bit_and_low 7 (bit_xor d y),
)

pub fwd-lt : (x : ℕ) → x < 256 → (fwd_0 x < 256) × (fwd_1 x < 256) × (fwd_2 (x % 4) < 256)
fwd-lt x h = ground (
  arith,
  all_below-apply 256 (λ x. ltb (fwd_0 x) 256 && ltb (fwd_1 x) 256 && ltb (fwd_2 (x % 4)) 256) x
      fwd_table h,
)

regroup :
    (a a' b b' k m : ℕ)
    → bit_xor (bit_xor a (bit_xor b k)) (bit_xor m (bit_xor a' b'))
      ≡ bit_xor (bit_xor a a') (bit_xor (bit_xor b' b) (bit_xor k m))
regroup a a' b b' k m =
    ap (bit_xor (bit_xor a (bit_xor b k))) (bit_xor_comm m (bit_xor a' b'))
    ∙ bit_xor_swap a (bit_xor b k) (bit_xor a' b') m
    ∙ ap₂ bit_xor (sym (bit_xor_assoc a a' b')) (bit_xor_assoc b k m)
    ∙ bit_xor_assoc (bit_xor a a') b' (bit_xor b (bit_xor k m))
    ∙ ap (bit_xor (bit_xor a a')) (sym (bit_xor_assoc b' b (bit_xor k m)))

-- The syndrome of the three bytes is made of the three shares.
pub syndrome-shares :
    (b0 d5 d12 p5 p6 : ℕ)
    → b0 < 256
    → d5 < 128
    → d12 < 128
    → p5 ≡ even_high (inv_par_0 d12)
    → p6 ≡ high (bit_xor (inv_par_0 b0) (inv_par_0 d5))
    → p5 < 256
    → p6 < 256
    → syndrome b0 (bit_xor d5 p5) (bit_xor d12 p6)
      ≡ bit_xor (byte_0_share b0) (bit_xor (d5_share d5) (d12_share d12))
unfolding syndrome byte_0_share d5_share d12_share
syndrome-shares b0 d5 d12 p5 p6 h0 h5 h12 e5 e6 l5 l6 =
    let a = inv_par_0 b0 in
    let b = inv_par_0 d5 in
    let ha = inv_par_0-lt b0 h0 in
    let hb = inv_par_0-lt d5 (omega arith) in
    let sixth =
      ap plain_par_2 (e6 ∙ linear high high_check a b (omega arith) (omega arith))
      ∙ linear plain_par_2 par_2_check (high a) (high b) (high-lt a (omega arith))
          (high-lt b (omega arith)) in
    ap₂ (λ (x y : ℕ). bit_xor (bit_xor a x) y)
      (linear inv_par_1 par_1_check d5 p5 (omega arith) l5
        ∙ ap (λ (t : ℕ). bit_xor (inv_par_1 d5) (inv_par_1 t)) e5)
      (inv_par_2-bit_xor d12 p6 (omega arith) l6 ∙ ap (bit_xor (inv_par_2 d12)) sixth)
    ∙ regroup a (plain_par_2 (high a)) (inv_par_1 d5) (plain_par_2 (high b))
        (inv_par_1 (even_high (inv_par_0 d12))) (inv_par_2 d12)
