-- ===== src/Hamm/Distance.antt =====
-- The number of set bits, and of bits in which two words differ.
use zvbi.Prelude.{ℕ, zero, suc, ◌+◌, ◌/◌, ◌%◌, bit_xor}

-- Set bits among the `n` lowest.
unfoldable pub popcount : ℕ → ℕ → ℕ
popcount zero x = 0
popcount (suc n) x = x % 2 + popcount n (x / 2)

unfoldable pub distance8 : ℕ → ℕ → ℕ
unfolding popcount
distance8 a b = popcount 8 (bit_xor a b)
