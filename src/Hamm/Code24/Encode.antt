-- ===== src/Hamm/Code24/Encode.antt =====
-- `vbi_ham24p`: the three bytes hold the data bits in their places, and their syndrome is zero.
use zvbi.Prelude.{
  ℕ, ◌*◌, ◌/◌, ◌%◌, ◌^◌, ◌<◌, ◌≡◌, refl, sym, ap, ap₂, ◌∙◌, true, bit_and, bit_or, bit_xor, arith,
  ◌==◌, ◌&&◌, all_below, all_below-apply,
}
use zvbi.Prelude.Bits.Fields.{bit_xor_fields, bit_and_low, bit_xor-lt}
use zvbi.Prelude.Bits.Xor.{
  bit_xor_swap, bit_xor_assoc, bit_xor_comm, bit_xor-zero, zero-bit_xor, bit_xor_self,
}
use zvbi.Hamm.Code24.Decode.{syndrome, word, d1_d4_check, word-fields}
use zvbi.Hamm.Code24.Shares.{
  even_high, high, constant, byte_0_share, d5_share, d12_share, plain_d12_share, byte_0_check,
  d5_check, d12_check, cancel_0, cancel_1, cancel_2, fwd-lt, inv_par_0-lt, high-IsTopBit,
  with_top_bit, syndrome-shares, IsTopBit,
}
use zvbi.Hamm.Linear.{linear_check, linear}
use zvbi.Hamm.{inv_par_0, inv_d1_d4, fwd_0, fwd_1, fwd_2, ham24p}

-- The parts of the word of `c`, in arithmetic.
abbrev pub byte_0 : ℕ → ℕ
byte_0 c = bit_xor (bit_xor (fwd_0 (c % 256)) (fwd_1 (c / 256 % 256))) (fwd_2 (c / 65536 % 4))

abbrev pub d5 : ℕ → ℕ
d5 c = c / 16 % 128

abbrev pub d12 : ℕ → ℕ
d12 c = c / 2048 % 128

abbrev pub p5 : ℕ → ℕ
p5 c = even_high (inv_par_0 (d12 c))

abbrev pub p6 : ℕ → ℕ
p6 c = high (bit_xor (inv_par_0 (byte_0 c)) (inv_par_0 (d5 c)))

fwd_0-lt : (c : ℕ) → fwd_0 (c % 256) < 256
fwd_0-lt c = (fwd-lt (c % 256) (omega arith)).0

fwd_1-lt : (c : ℕ) → fwd_1 (c / 256 % 256) < 256
fwd_1-lt c = (fwd-lt (c / 256 % 256) (omega arith)).1

fwd_2-lt : (c : ℕ) → fwd_2 (c / 65536 % 4) < 256
fwd_2-lt c =
    let e : c / 65536 % 256 % 4 ≡ c / 65536 % 4 = omega arith in
    rw e at ((fwd-lt (c / 65536 % 256) (omega arith)).2)

pub byte_0-lt : (c : ℕ) → byte_0 c < 256
byte_0-lt c =
    bit_xor-lt 8 (bit_xor (fwd_0 (c % 256)) (fwd_1 (c / 256 % 256))) (fwd_2 (c / 65536 % 4))
      (bit_xor-lt 8 (fwd_0 (c % 256)) (fwd_1 (c / 256 % 256)) (fwd_0-lt c) (fwd_1-lt c))
      (fwd_2-lt c)

p5-IsTopBit : (c : ℕ) → IsTopBit (p5 c)
p5-IsTopBit c = (high-IsTopBit (inv_par_0 (d12 c)) (omega (arith, inv_par_0-lt (d12 c)))).1

p6-IsTopBit : (c : ℕ) → IsTopBit (p6 c)
p6-IsTopBit c =
    (high-IsTopBit (bit_xor (inv_par_0 (byte_0 c)) (inv_par_0 (d5 c))) (
      bit_xor-lt 8 (inv_par_0 (byte_0 c)) (inv_par_0 (d5 c))
        (omega (arith, inv_par_0-lt (byte_0 c) (byte_0-lt c)))
        (omega (arith, inv_par_0-lt (d5 c))))).0

pub with_p5 :
    (c : ℕ)
    → (bit_or (d5 c) (p5 c) ≡ bit_xor (d5 c) (p5 c))
      × (bit_xor (d5 c) (p5 c) < 256)
      × (bit_and (bit_xor (d5 c) (p5 c)) 0x7f ≡ d5 c)
with_p5 c = with_top_bit (d5 c) (p5 c) (omega arith) (p5-IsTopBit c)

pub with_p6 :
    (c : ℕ)
    → (bit_or (d12 c) (p6 c) ≡ bit_xor (d12 c) (p6 c))
      × (bit_xor (d12 c) (p6 c) < 256)
      × (bit_and (bit_xor (d12 c) (p6 c)) 0x7f ≡ d12 c)
with_p6 c = with_top_bit (d12 c) (p6 c) (omega arith) (p6-IsTopBit c)

pub ham24p-bytes : (c : ℕ) → ham24p c ≡ (byte_0 c, bit_xor (d5 c) (p5 c), bit_xor (d12 c) (p6 c))
unfolding ham24p
ham24p-bytes c =
    let one : c / 1 ≡ c = omega arith in
    rw
      (
        one,
        bit_and_low 8 c,
        bit_and_low 8 (c / 256),
        bit_and_low 2 (c / 65536),
        bit_and_low 7 (c / 16),
        bit_and_low 7 (c / 2048),
        (with_p5 c).0,
        (with_p6 c).0,
      )
      (λ i. (small (byte_0-lt c) i, small (with_p5 c).1 i, small (with_p6 c).1 i))
  where
    small : {x : ℕ} → x < 256 → x % 256 ≡ x
    small h = omega arith

-- The sums over the parts of `c`.
module _ (c : ℕ) where
  abbrev low : ℕ
  low = c % 256

  abbrev middle : ℕ
  middle = c / 256 % 256

  abbrev top : ℕ
  top = c / 65536 % 4

  of_byte_0 :
      (g : ℕ → ℕ)
      → linear_check g ≡ true
      → g (byte_0 c) ≡ bit_xor (bit_xor (g (fwd_0 low)) (g (fwd_1 middle))) (g (fwd_2 top))
  of_byte_0 g l =
      linear g l (bit_xor (fwd_0 low) (fwd_1 middle)) (fwd_2 top)
        (bit_xor-lt 8 (fwd_0 low) (fwd_1 middle) (fwd_0-lt c) (fwd_1-lt c)) (fwd_2-lt c)
      ∙ ap (λ (t : ℕ). bit_xor t (g (fwd_2 top)))
          (linear g l (fwd_0 low) (fwd_1 middle) (fwd_0-lt c) (fwd_1-lt c))

  d5-split : d5 c ≡ bit_xor (middle % 8 * 16) (low / 16)
  d5-split = ground (
    arith,
    bit_xor_fields 4 (middle % 8) 0 0 (low / 16),
    bit_xor-zero (middle % 8),
    zero-bit_xor (low / 16),
  )

  d12-split : d12 c ≡ bit_xor (top * 32) (middle / 8)
  d12-split =
      ground
        (arith, bit_xor_fields 5 top 0 0 (middle / 8), bit_xor-zero top, zero-bit_xor (middle / 8))

  of_d5 : d5_share (d5 c) ≡ bit_xor (d5_share (middle % 8 * 16)) (d5_share (low / 16))
  of_d5 =
      ap d5_share d5-split
      ∙ linear d5_share d5_check (middle % 8 * 16) (low / 16) (omega arith) (omega arith)

  of_d12 :
      d12_share (d12 c)
      ≡ bit_xor (bit_xor (plain_d12_share (top * 32)) (plain_d12_share (middle / 8))) constant
  unfolding plain_d12_share
  of_d12 =
      sym (bit_xor_assoc (d12_share (d12 c)) constant constant ∙ bit_xor-zero (d12_share (d12 c)))
      ∙ ap (λ (t : ℕ). bit_xor (plain_d12_share t) constant) d12-split
      ∙ ap (λ (t : ℕ). bit_xor t constant)
          (linear plain_d12_share d12_check (top * 32) (middle / 8) (omega arith) (omega arith))

cancel :
    (b k b' m t : ℕ)
    → bit_xor
        (bit_xor (bit_xor (bit_xor b k) (bit_xor b' m)) t)
        (bit_xor (bit_xor b' b) (bit_xor (bit_xor t m) k))
      ≡ 0
cancel b k b' m t =
    ap (λ (u : ℕ). bit_xor (bit_xor u t) (bit_xor (bit_xor b' b) (bit_xor (bit_xor t m) k)))
      (bit_xor_swap b k b' m ∙ ap (λ (u : ℕ). bit_xor u (bit_xor k m)) (bit_xor_comm b b'))
    ∙ ap (λ (u : ℕ). bit_xor u (bit_xor (bit_xor b' b) (bit_xor (bit_xor t m) k)))
        (bit_xor_assoc (bit_xor b' b) (bit_xor k m) t
          ∙ ap (bit_xor (bit_xor b' b)) (
              bit_xor_assoc k m t
              ∙ bit_xor_comm k (bit_xor m t)
              ∙ ap (λ (u : ℕ). bit_xor u k) (bit_xor_comm m t)))
    ∙ bit_xor_self (bit_xor (bit_xor b' b) (bit_xor (bit_xor t m) k))

pub syndrome-ham24p :
    (c : ℕ) → syndrome (byte_0 c) (bit_xor (d5 c) (p5 c)) (bit_xor (d12 c) (p6 c)) ≡ 0
syndrome-ham24p c =
    syndrome-shares (byte_0 c) (d5 c) (d12 c) (p5 c) (p6 c) (byte_0-lt c) (omega arith)
      (omega arith) refl refl (omega (arith, p5-IsTopBit c)) (omega (arith, p6-IsTopBit c))
    ∙ ap₂ bit_xor
        (of_byte_0 c byte_0_share byte_0_check
          ∙ ap₂ bit_xor
              (ap₂ bit_xor (cancel_0 (low c) (omega arith)) (cancel_1 (middle c) (omega arith)))
              (cancel_2 (top c) (omega arith)))
        (ap₂ bit_xor (of_d5 c) (of_d12 c))
    ∙ cancel (d5_share (low c / 16)) constant (d5_share (middle c % 8 * 16))
        (plain_d12_share (middle c / 8)) (plain_d12_share (top c * 32))

data_table :
    all_below 256 (λ x.
      inv_d1_d4 (fwd_0 x) == x % 16 && inv_d1_d4 (fwd_1 x) == 0 && inv_d1_d4 (fwd_2 (x % 4)) == 0)
    ≡ true
unfolding all_below inv_d1_d4 fwd_0 fwd_1 fwd_2
data_table = refl

data_at :
    (x : ℕ)
    → x < 256
    → (inv_d1_d4 (fwd_0 x) ≡ x % 16) × (inv_d1_d4 (fwd_1 x) ≡ 0) × (inv_d1_d4 (fwd_2 (x % 4)) ≡ 0)
data_at x h = ground (
  arith,
  all_below-apply 256
      (λ x.
        inv_d1_d4 (fwd_0 x) == x % 16 && inv_d1_d4 (fwd_1 x) == 0 && inv_d1_d4 (fwd_2 (x % 4)) == 0)
      x data_table h,
)

inv_d1_d4-byte_0 : (c : ℕ) → inv_d1_d4 (byte_0 c) ≡ c % 16
inv_d1_d4-byte_0 c =
    let e : top c % 4 ≡ top c = omega arith in
    of_byte_0 c inv_d1_d4 d1_d4_check
    ∙ ap₂ bit_xor
        (ap₂ bit_xor (data_at (low c) (omega arith)).0 (data_at (middle c) (omega arith)).1
          ∙ bit_xor-zero (low c % 16))
        (rw e at ((data_at (top c) (omega arith)).2))
    ∙ bit_xor-zero (low c % 16)
    ∙ omega arith

pub word-ham24p :
    (c : ℕ) → c < 2 ^ 18 → word (byte_0 c) (bit_xor (d5 c) (p5 c)) (bit_xor (d12 c) (p6 c)) ≡ c
word-ham24p c h = omega (
  arith,
  word-fields (byte_0 c) (bit_xor (d5 c) (p5 c)) (bit_xor (d12 c) (p6 c)) (byte_0-lt c),
  (with_p5 c).2,
  (with_p6 c).2,
  inv_d1_d4-byte_0 c,
)
