-- ===== src/Vps/Bytes.antt =====
-- The fields of the bytes that vps.c writes, and lists of a known length.
use zvbi.Prelude.Bits.Fields.{bit_and_low, bit_and_mask}
use zvbi.Prelude.{ℕ, zero, suc, ◌*◌, ◌/◌, ◌%◌, ◌≡◌, List, [], ◌∷◌, bit_and, length, arith}

-- A statement about every list of length `n`, in terms of its elements.
abbrev pub Each : ℕ → (List ℕ → Type 0) → Type 0
Each zero P = P []
Each (suc n) P = (x : ℕ) → Each n (λ xs. P (x ∷ xs))

pub by_elements : (n : ℕ) (P : List ℕ → Type 0) → Each n P → (xs : List ℕ) → length xs ≡ n → P xs
by_elements zero P f [] h = f
by_elements zero P f (x ∷ xs) h = absurd (omega arith)
by_elements (suc n) P f [] h = absurd (omega arith)
by_elements (suc n) P f (x ∷ xs) h = by_elements n (λ ys. P (x ∷ ys)) (f x) xs (omega arith)

-- The masks of vps.c as fields.
pub mask_3f : (x : ℕ) → bit_and x 0x3f ≡ x % 64
mask_3f = bit_and_low 6

pub mask_c0 : (x : ℕ) → bit_and x 0xc0 ≡ x / 64 % 4 * 64
mask_c0 = bit_and_mask 2 6

pub mask_03 : (x : ℕ) → bit_and x 0x03 ≡ x % 4
mask_03 = bit_and_low 2

pub mask_fc : (x : ℕ) → bit_and x 0xfc ≡ x / 4 % 64 * 4
mask_fc = bit_and_mask 6 2

pub mask_10 : (x : ℕ) → bit_and x 0x10 ≡ x / 16 % 2 * 16
mask_10 = bit_and_mask 1 4

pub mask_0f : (x : ℕ) → bit_and x 0x0f ≡ x % 16
mask_0f = bit_and_low 4
