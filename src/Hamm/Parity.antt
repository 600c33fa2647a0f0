-- ===== src/Hamm/Parity.antt =====
-- Odd parity: `vbi_par8`, `vbi_unpar8`, `vbi_par` and `vbi_unpar`.
use zvbi.Prelude.{
  ℕ, ◌+◌, ◌%◌, ◌^◌, ◌∙◌, ◌<◌, ◌≡◌, refl, Bool, true, false, not, ◌&&◌, ◌||◌, List, [], ◌∷◌, map,
  bit_or, arith, leb, ◌==◌, if◌then◌else◌, is_negative, minus_one, all_below, all_below-apply,
}
use zvbi.Prelude.Bits.Fields.{bit_and_low, bit_or_sign, bit_or-lt}
use zvbi.Hamm.Distance.{popcount}
use zvbi.Hamm.{inv_par_0, par8, unpar8, par_byte, par, unpar_flag, unpar_from, unpar}

-- The number of set bits of a byte is odd.
pub odd_parity : ℕ → Bool
odd_parity c = popcount 8 c % 2 == 1

abbrev pub AllBelow : ℕ → List ℕ → Type 0
AllBelow n [] = Unit {0}
AllBelow n (x ∷ xs) = (x < n) × AllBelow n xs

abbrev pub any_even : List ℕ → Bool
any_even [] = false
any_even (c ∷ p) = not (odd_parity c) || any_even p

abbrev pub all_odd : List ℕ → Bool
all_odd [] = true
all_odd (c ∷ p) = odd_parity c && all_odd p

byte_facts : ℕ → Bool
byte_facts c =
    odd_parity (par8 c)
    && par8 c % 128 == c % 128
    && par_byte c == par8 c
    && unpar8 c == (if odd_parity c then c % 128 else minus_one)
    && (if odd_parity c then leb (unpar_flag c + 1) 0x80000000 else leb 0x80000000 (unpar_flag c))

byte_table : all_below 256 byte_facts ≡ true
unfolding all_below byte_facts odd_parity popcount par8 par_byte unpar8 unpar_flag inv_par_0
byte_table = refl

byte_lem : (c : ℕ) → c < 256 → byte_facts c ≡ true
byte_lem c h = all_below-apply 256 byte_facts c byte_table h

par8-mod : (c : ℕ) → par8 c ≡ par8 (c % 256)
unfolding par8
par8-mod c = rw (bit_and_low 8 c, bit_and_low 8 (c % 256)) (rw (mod_twice c))
  where
    mod_twice : (c : ℕ) → c % 256 % 256 ≡ c % 256
    mod_twice c = omega arith

-- `vbi_par8` gives a byte of odd parity with the seven low bits of `c`.
pub par8-odd_parity : (c : ℕ) → (odd_parity (par8 c) ≡ true) × (par8 c % 128 ≡ c % 128)
unfolding byte_facts
par8-odd_parity c = ground (arith, par8-mod c, byte_lem (c % 256) (omega arith))

-- `vbi_unpar8` returns the seven low bits of a byte of odd parity, and -1 for any other.
pub unpar8_lem : (c : ℕ) → c < 256 → unpar8 c ≡ (if odd_parity c then c % 128 else minus_one)
unfolding byte_facts
unpar8_lem c h = ground (arith, byte_lem c h)

-- `vbi_par` makes every byte odd and keeps its seven low bits.
pub par-all_odd :
    (p : List ℕ)
    → AllBelow 256 p
    → (all_odd (par p) ≡ true) × (map (λ c. c % 128) (par p) ≡ map (λ c. c % 128) p)
unfolding par byte_facts
par-all_odd [] h = (refl, refl)
par-all_odd (c ∷ p) h = ground (arith, par-all_odd p h.1, byte_lem c h.0)

unpar_flag-lt : (c : ℕ) → unpar_flag c < 2 ^ 32
unfolding unpar_flag
unpar_flag-lt c = omega arith

unpar_from_lem :
    (r : ℕ) (p : List ℕ)
    → r < 2 ^ 32
    → AllBelow 256 p
    → (is_negative (unpar_from r p).0 ≡ is_negative r || any_even p)
      × ((unpar_from r p).1 ≡ map (λ c. c % 128) p)
unfolding unpar_from byte_facts
unpar_from_lem r [] hr h = ground arith
unpar_from_lem r (c ∷ p) hr h = ground (
  arith,
  bit_and_low 7 c,
  byte_lem c h.0,
  bit_or_sign r (unpar_flag c) hr (unpar_flag-lt c),
  unpar_from_lem (bit_or r (unpar_flag c)) p (bit_or-lt 32 r (unpar_flag c) hr (unpar_flag-lt c))
      h.1,
)

-- `vbi_unpar` clears the top bit of every byte, and its result is negative exactly when some byte
-- had even parity.
pub unpar_lem :
    (p : List ℕ)
    → AllBelow 256 p
    → (is_negative (unpar p).0 ≡ any_even p) × ((unpar p).1 ≡ map (λ c. c % 128) p)
unfolding unpar
unpar_lem p h = unpar_from_lem 0 p (omega arith) h

par-AllBelow : (p : List ℕ) → AllBelow 256 p → AllBelow 256 (par p)
unfolding par par_byte
par-AllBelow [] h = tt
par-AllBelow (c ∷ p) h = (omega arith, par-AllBelow p h.1)

any_even-all_odd : (p : List ℕ) → all_odd p ≡ true → any_even p ≡ false
any_even-all_odd [] h = refl
any_even-all_odd (c ∷ p) h = ground (arith, any_even-all_odd p)

-- What `vbi_par` protects, `vbi_unpar` takes back without an error: the seven low bits.
pub unpar-par :
    (p : List ℕ)
    → AllBelow 256 p
    → (is_negative (unpar (par p)).0 ≡ false) × ((unpar (par p)).1 ≡ map (λ c. c % 128) p)
unpar-par p h =
    let coded = par-all_odd p h in
    let back = unpar_lem (par p) (par-AllBelow p h) in
    (back.0 ∙ any_even-all_odd (par p) coded.0, back.1 ∙ coded.1)
