-- ===== src/Hamm/Gen.antt =====
-- src/hammgen.c: the program that computes the tables of hamm-tables.h.
pub mod Agrees
use zvbi.Prelude.{
  ℕ, ◌+◌, ◌-◌, Bool, ◌&&◌, List, bit_and, bit_xor, ◌==◌, leb, if◌then◌else◌, ◌<<<◌, ◌>>>◌, set,
  replicate, for_below,
}

-- `(i >> k) & 1`, the wire numbers of the standard.
abbrev bit : ℕ → ℕ → ℕ
bit i k = bit_and (i >>> k) 1

infixl 60 ◌⊕◌
abbrev ◌⊕◌ : ℕ → ℕ → ℕ
a ⊕ b = bit_xor a b

-- `generate_tables`, its own loop.
reverse_entry : ℕ → ℕ
reverse_entry i =
    (bit_and i 0x80 >>> 7)
    + (bit_and i 0x40 >>> 5)
    + (bit_and i 0x20 >>> 3)
    + (bit_and i 0x10 >>> 1)
    + (bit_and i 0x08 <<< 1)
    + (bit_and i 0x04 <<< 3)
    + (bit_and i 0x02 <<< 5)
    + (bit_and i 0x01 <<< 7)

pub generate_reverse : List ℕ
generate_reverse = for_below 256 (λ i t. set t i (reverse_entry i)) (replicate 256 0)

-- `generate_hamm8_tables`.
pub record Hamm8Tables : Type 0 where
  pub fwd : List ℕ
  pub inv : List ℕ

hamm8_code : ℕ → ℕ
hamm8_code i =
    let d1 = bit i 0 in
    let d2 = bit i 1 in
    let d3 = bit i 2 in
    let d4 = bit i 3 in
    let p1 = 1 ⊕ d1 ⊕ d3 ⊕ d4 in
    let p2 = 1 ⊕ d1 ⊕ d2 ⊕ d4 in
    let p3 = 1 ⊕ d1 ⊕ d2 ⊕ d3 in
    let p4 = 1 ⊕ p1 ⊕ d1 ⊕ p2 ⊕ d2 ⊕ p3 ⊕ d3 ⊕ d4 in
    (p1 <<< 0)
    + (d1 <<< 1)
    + (p2 <<< 2)
    + (d2 <<< 3)
    + (p3 <<< 4)
    + (d3 <<< 5)
    + (p4 <<< 6)
    + (d4 <<< 7)

hamm8_round : ℕ → Hamm8Tables → Hamm8Tables
hamm8_round i t =
    let c = hamm8_code i in
    record {
      fwd = set t.fwd i c;
      inv = for_below 8 (λ j inv. set inv (bit_xor c (1 <<< j)) i) (set t.inv c i);
    }

-- `memset` with -1 fills an `int8_t` table with the byte 0xff.
pub generate_hamm8 : Hamm8Tables
generate_hamm8 =
    for_below 16 hamm8_round (record { fwd = replicate 16 0; inv = replicate 256 0xff })

-- `generate_hamm24_fwd_tables`, one function for each loop.
fwd_0_entry : ℕ → ℕ
fwd_0_entry i =
    let d1 = bit i 0 in
    let d2 = bit i 1 in
    let d3 = bit i 2 in
    let d4 = bit i 3 in
    let d5 = bit i 4 in
    let d6 = bit i 5 in
    let d7 = bit i 6 in
    let d8 = bit i 7 in
    let p1 = 1 ⊕ d1 ⊕ d2 ⊕ d4 ⊕ d5 ⊕ d7 in
    let p2 = 1 ⊕ d1 ⊕ d3 ⊕ d4 ⊕ d6 ⊕ d7 in
    let p3 = 1 ⊕ d2 ⊕ d3 ⊕ d4 ⊕ d8 in
    let p4 = 1 ⊕ d5 ⊕ d6 ⊕ d7 ⊕ d8 in
    (p1 <<< 0)
    + (p2 <<< 1)
    + (d1 <<< 2)
    + (p3 <<< 3)
    + (d2 <<< 4)
    + (d3 <<< 5)
    + (d4 <<< 6)
    + (p4 <<< 7)

fwd_1_entry : ℕ → ℕ
fwd_1_entry i =
    let d9 = bit i 0 in
    let d10 = bit i 1 in
    let d11 = bit i 2 in
    let d12 = bit i 3 in
    let d13 = bit i 4 in
    let d14 = bit i 5 in
    let d15 = bit i 6 in
    let d16 = bit i 7 in
    let p1 = d9 ⊕ d11 ⊕ d12 ⊕ d14 ⊕ d16 in
    let p2 = d10 ⊕ d11 ⊕ d13 ⊕ d14 in
    let p3 = d9 ⊕ d10 ⊕ d11 ⊕ d15 ⊕ d16 in
    let p4 = d9 ⊕ d10 ⊕ d11 in (p1 <<< 0) + (p2 <<< 1) + (p3 <<< 3) + (p4 <<< 7)

fwd_2_entry : ℕ → ℕ
fwd_2_entry i =
    let d17 = bit i 0 in
    let d18 = bit i 1 in
    let p1 = d18 in
    let p2 = d17 ⊕ d18 in let p3 = d17 ⊕ d18 in (p1 <<< 0) + (p2 <<< 1) + (p3 <<< 3) + (0 <<< 7)

pub record Hamm24FwdTables : Type 0 where
  pub fwd_0 : List ℕ
  pub fwd_1 : List ℕ
  pub fwd_2 : List ℕ

pub generate_hamm24_fwd : Hamm24FwdTables
generate_hamm24_fwd = record {
  fwd_0 = for_below 256 (λ i t. set t i (fwd_0_entry i)) (replicate 256 0);
  fwd_1 = for_below 256 (λ i t. set t i (fwd_1_entry i)) (replicate 256 0);
  fwd_2 = for_below 4 (λ i t. set t i (fwd_2_entry i)) (replicate 4 0);
}

-- `generate_hamm24_inv_tables`: the six sums A to F, put together.
abbrev syndrome : ℕ → ℕ → ℕ → ℕ → ℕ → ℕ → ℕ
syndrome a b c d e f = (a <<< 0) + (b <<< 1) + (c <<< 2) + (d <<< 3) + (e <<< 4) + (f <<< 5)

d1_d4_entry : ℕ → ℕ
d1_d4_entry i = (bit i 2 <<< 0) + (bit i 4 <<< 1) + (bit i 5 <<< 2) + (bit i 6 <<< 3)

par_0_entry : ℕ → ℕ
par_0_entry i =
    let p1 = bit i 0 in
    let p2 = bit i 1 in
    let d1 = bit i 2 in
    let p3 = bit i 3 in
    let d2 = bit i 4 in
    let d3 = bit i 5 in
    let d4 = bit i 6 in
    let p4 = bit i 7 in
    syndrome (p1 ⊕ d1 ⊕ d2 ⊕ d4) (p2 ⊕ d1 ⊕ d3 ⊕ d4) (p3 ⊕ d2 ⊕ d3 ⊕ d4) p4 0
      (p1 ⊕ p2 ⊕ d1 ⊕ p3 ⊕ d2 ⊕ d3 ⊕ d4 ⊕ p4)

par_1_entry : ℕ → ℕ
par_1_entry i =
    let d5 = bit i 0 in
    let d6 = bit i 1 in
    let d7 = bit i 2 in
    let d8 = bit i 3 in
    let d9 = bit i 4 in
    let d10 = bit i 5 in
    let d11 = bit i 6 in
    let p5 = bit i 7 in
    syndrome (d5 ⊕ d7 ⊕ d9 ⊕ d11) (d6 ⊕ d7 ⊕ d10 ⊕ d11) (d8 ⊕ d9 ⊕ d10 ⊕ d11)
      (d5 ⊕ d6 ⊕ d7 ⊕ d8 ⊕ d9 ⊕ d10 ⊕ d11) p5 (d5 ⊕ d6 ⊕ d7 ⊕ d8 ⊕ d9 ⊕ d10 ⊕ d11 ⊕ p5)

-- With the `^= 0x3F` that follows.
par_2_entry : ℕ → ℕ
par_2_entry i =
    let d12 = bit i 0 in
    let d13 = bit i 1 in
    let d14 = bit i 2 in
    let d15 = bit i 3 in
    let d16 = bit i 4 in
    let d17 = bit i 5 in
    let d18 = bit i 6 in
    let p6 = bit i 7 in
    syndrome (d12 ⊕ d14 ⊕ d16 ⊕ d18) (d13 ⊕ d14 ⊕ d17 ⊕ d18) (d15 ⊕ d16 ⊕ d17 ⊕ d18) 0
      (d12 ⊕ d13 ⊕ d14 ⊕ d15 ⊕ d16 ⊕ d17 ⊕ d18) (d12 ⊕ d13 ⊕ d14 ⊕ d15 ⊕ d16 ⊕ d17 ⊕ d18 ⊕ p6)
    ⊕ 0x3f

-- `Byte_0_3` is the bit of the 24 bit word that the syndrome points at.
single_error : ℕ → ℕ
single_error byte_0_3 =
    if leb (1 <<< 23) byte_0_3
    then 1 <<< 31
    else (bit_and byte_0_3 0x000004 >>> 2)
      + (bit_and byte_0_3 0x000070 >>> 3)
      + (bit_and byte_0_3 0x007f00 >>> 4)
      + (bit_and byte_0_3 0x7f0000 >>> 5)

err_entry : ℕ → ℕ → ℕ
err_entry i ii =
    if ii == 0
    then 0
    else if bit_and ii 0x1f == 0 && bit_and ii 0x20 == 0x20
    then 0
    else if bit_and i 0x20 == 0x20
    then 1 <<< 31
    else single_error (1 <<< (bit_and ii 0x1f - 1))

pub record Hamm24InvTables : Type 0 where
  pub inv_d1_d4 : List ℕ
  pub inv_par_0 : List ℕ
  pub inv_par_1 : List ℕ
  pub inv_par_2 : List ℕ
  pub inv_err : List ℕ

inv_round : ℕ → Hamm24InvTables → Hamm24InvTables
inv_round i t = record t {
  inv_d1_d4 = set t.inv_d1_d4 (i >>> 2) (d1_d4_entry i);
  inv_par_0 = set t.inv_par_0 i (par_0_entry i);
  inv_par_1 = set t.inv_par_1 i (par_1_entry i);
  inv_par_2 = set t.inv_par_2 i (par_2_entry i);
}

err_round : ℕ → Hamm24InvTables → Hamm24InvTables
err_round i t = let ii = bit_xor i 0x3f in record t { inv_err = set t.inv_err ii (err_entry i ii) }

abbrev zeroed : Hamm24InvTables
zeroed = record {
  inv_d1_d4 = replicate 64 0;
  inv_par_0 = replicate 256 0;
  inv_par_1 = replicate 256 0;
  inv_par_2 = replicate 256 0;
  inv_err = replicate 64 0;
}

pub generate_hamm24_inv : Hamm24InvTables
generate_hamm24_inv = for_below 64 err_round (for_below 256 inv_round zeroed)
