-- ===== src/Hamm.antt =====
-- src/hamm.h and src/hamm.c: bit reversal, odd parity, Hamming 8/4 and Hamming 24/18.
-- A pointer to two or three bytes is those bytes as arguments; a pointer with a count is the list
-- of that many bytes. An `int` result is a 32 bit pattern, see Prelude/Words.
pub mod Tables
pub mod InverseTables
pub mod Gen
pub mod Distance
pub mod Linear
pub mod Code8
pub mod Code24
pub mod Parity
pub mod Reverse
mod Tests
use zvbi.Prelude.{
  ℕ, ◌+◌, ◌*◌, List, [], ◌∷◌, bit_and, bit_or, bit_xor, if◌then◌else◌, u8, u32, ◌<<<◌, ◌>>>◌,
  complement, minus_one, sign_extend, has_bits, get_or,
}
use Tables.{bit_reverse, hamm8_fwd, hamm8_inv, hamm24_fwd_0, hamm24_fwd_1, hamm24_fwd_2}
use InverseTables.{
  hamm24_inv_par_0, hamm24_inv_par_1, hamm24_inv_par_2, hamm24_inv_d1_d4, hamm24_inv_err,
}

-- `vbi_rev8`, `vbi_rev16`, `vbi_rev16p`; `reversed` is `_vbi_bit_reverse[c]`.
unfoldable pub reversed : ℕ → ℕ
unfolding bit_reverse
reversed c = get_or bit_reverse c 0

unfoldable pub rev8 : ℕ → ℕ
rev8 c = reversed (u8 c)

unfoldable pub rev16 : ℕ → ℕ
rev16 c = reversed (u8 c) * 256 + reversed (u8 (c >>> 8))

unfoldable pub rev16p : ℕ → ℕ → ℕ
rev16p p0 p1 = reversed p0 * 256 + reversed p1

-- `_vbi_hamm24_inv_par[0][c]` and its two fellows, as an `int`.
unfoldable pub inv_par_0 : ℕ → ℕ
unfolding hamm24_inv_par_0
inv_par_0 c = sign_extend (get_or hamm24_inv_par_0 c 0)

unfoldable pub inv_par_1 : ℕ → ℕ
unfolding hamm24_inv_par_1
inv_par_1 c = sign_extend (get_or hamm24_inv_par_1 c 0)

unfoldable pub inv_par_2 : ℕ → ℕ
unfolding hamm24_inv_par_2
inv_par_2 c = sign_extend (get_or hamm24_inv_par_2 c 0)

-- `vbi_par8`, `vbi_unpar8`.
unfoldable pub par8 : ℕ → ℕ
unfolding inv_par_0
par8 c = let c' = bit_and c 255 in bit_xor c' (bit_and 128 (complement (u32 (inv_par_0 c' <<< 2))))

unfoldable pub unpar8 : ℕ → ℕ
unfolding inv_par_0
unpar8 c = if has_bits (inv_par_0 (u8 c)) 32 then bit_and c 127 else minus_one

-- `vbi_par`.
unfoldable pub par_byte : ℕ → ℕ
unfolding inv_par_0
par_byte c = u8 (bit_xor c (bit_and 128 (complement (u32 (inv_par_0 c <<< 2)))))

pub par : List ℕ → List ℕ
par [] = []
par (c ∷ p) = par_byte c ∷ par p

-- `vbi_unpar`: the result `r` and the array.
unfoldable pub unpar_flag : ℕ → ℕ
unfolding inv_par_0
unpar_flag c = u32 (complement (inv_par_0 c) <<< 26)

pub unpar_from : ℕ → List ℕ → ℕ × List ℕ
unpar_from r [] = (r, [])
unpar_from r (c ∷ p) =
    let (r', p') = unpar_from (bit_or r (unpar_flag c)) p in (r', bit_and c 127 ∷ p')

unfoldable pub unpar : List ℕ → ℕ × List ℕ
unfolding unpar_from
unpar p = unpar_from 0 p

-- `vbi_ham8`, `vbi_unham8`, `vbi_unham16p`; `inv8` is `_vbi_hamm8_inv[c]` as an `int`.
unfoldable pub ham8 : ℕ → ℕ
unfolding hamm8_fwd
ham8 c = get_or hamm8_fwd (bit_and c 15) 0

unfoldable pub inv8 : ℕ → ℕ
unfolding hamm8_inv
inv8 c = sign_extend (get_or hamm8_inv c 0)

unfoldable pub unham8 : ℕ → ℕ
unham8 c = inv8 (u8 c)

unfoldable pub unham16p : ℕ → ℕ → ℕ
unham16p p0 p1 = bit_or (inv8 p0) (u32 (inv8 p1 <<< 4))

-- `vbi_ham24p`: the three bytes that it stores.
-- `fwd_0` to `fwd_2` are the reads of its tables.
unfoldable pub fwd_0 : ℕ → ℕ
unfolding hamm24_fwd_0
fwd_0 i = get_or hamm24_fwd_0 i 0

unfoldable pub fwd_1 : ℕ → ℕ
unfolding hamm24_fwd_1
fwd_1 i = get_or hamm24_fwd_1 i 0

unfoldable pub fwd_2 : ℕ → ℕ
unfolding hamm24_fwd_2
fwd_2 i = get_or hamm24_fwd_2 i 0

unfoldable pub ham24p : ℕ → ℕ × ℕ × ℕ
ham24p c =
    let byte_0 =
      bit_xor (bit_xor (fwd_0 (bit_and (c >>> 0) 0xff)) (fwd_1 (bit_and (c >>> 8) 0xff)))
        (fwd_2 (bit_and (c >>> 16) 0x03)) in
    let d5_d11 = bit_and (c >>> 4) 0x7f in
    let d12_d18 = bit_and (c >>> 11) 0x7f in
    let p5 = bit_and 0x80 (complement (u32 (inv_par_0 d12_d18 <<< 2))) in
    let p6 = bit_and 0x80 (u32 (bit_xor (inv_par_0 byte_0) (inv_par_0 d5_d11) <<< 2)) in
    (u8 byte_0, u8 (bit_or d5_d11 p5), u8 (bit_or d12_d18 p6))

-- `vbi_unham24p`; `inv_d1_d4` and `inv_err` are the reads of the two tables.
unfoldable pub inv_d1_d4 : ℕ → ℕ
unfolding hamm24_inv_d1_d4
inv_d1_d4 p0 = get_or hamm24_inv_d1_d4 (p0 >>> 2) 0

unfoldable pub inv_err : ℕ → ℕ
unfolding hamm24_inv_err
inv_err abcdef = get_or hamm24_inv_err abcdef 0

unfoldable pub unham24p : ℕ → ℕ → ℕ → ℕ
unham24p p0 p1 p2 =
    let d1_d4 = inv_d1_d4 p0 in
    let d5_d11 = bit_and p1 0x7f in
    let d12_d18 = bit_and p2 0x7f in
    let d = bit_or (bit_or d1_d4 (d5_d11 <<< 4)) (d12_d18 <<< 11) in
    let abcdef = bit_xor (bit_xor (inv_par_0 p0) (inv_par_1 p1)) (inv_par_2 p2) in
    bit_xor d (inv_err abcdef)
