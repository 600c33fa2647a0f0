-- ===== src/Hamm/Reverse.antt =====
-- Bit reversal: `vbi_rev8`, `vbi_rev16` and `vbi_rev16p`.
use zvbi.Prelude.{
  ℕ, zero, suc, ◌+◌, ◌-◌, ◌*◌, ◌/◌, ◌%◌, ◌^◌, ◌<◌, ◌≡◌, refl, ap, ap₂, sym, ◌∙◌, true, ◌&&◌, arith,
  ltb, ◌==◌, all_below, all_below-apply, eq_below₂,
}
use native.Mathlib.Decide.{dec_lt}
use zvbi.Hamm.{reversed, rev8, rev16, rev16p}

-- Bit `k` of a word.
abbrev pub bit_at : ℕ → ℕ → ℕ
bit_at x k = x / 2 ^ k % 2

reversed_table :
    all_below 256 (λ x. all_below 8 (λ k. bit_at (reversed x) k == bit_at x (7 - k))) ≡ true
unfolding all_below reversed
reversed_table = refl

reversed_twice : all_below 256 (λ x. reversed (reversed x) == x && ltb (reversed x) 256) ≡ true
unfolding all_below reversed
reversed_twice = refl

reversed-bit_at : (x k : ℕ) → x < 256 → k < 8 → bit_at (reversed x) k ≡ bit_at x (7 - k)
reversed-bit_at =
    eq_below₂ 256 8 (λ x k. bit_at (reversed x) k) (λ x k. bit_at x (7 - k)) reversed_table

reversed-reversed : (x : ℕ) → x < 256 → (reversed (reversed x) ≡ x) × (reversed x < 256)
reversed-reversed x h = ground (
  arith,
  all_below-apply 256 (λ x. reversed (reversed x) == x && ltb (reversed x) 256) x reversed_twice h,
)

-- The bits of a word of two bytes are those of the bytes.
low_bits : (k a b : ℕ) → b < 256 → k < 8 → bit_at (a * 256 + b) k ≡ bit_at b k
low_bits zero a b h q = omega arith
low_bits (suc zero) a b h q = omega arith
low_bits (suc (suc zero)) a b h q = omega arith
low_bits (suc (suc (suc zero))) a b h q = omega arith
low_bits (suc (suc (suc (suc zero)))) a b h q = omega arith
low_bits (suc (suc (suc (suc (suc zero))))) a b h q = omega arith
low_bits (suc (suc (suc (suc (suc (suc zero)))))) a b h q = omega arith
low_bits (suc (suc (suc (suc (suc (suc (suc zero))))))) a b h q = omega arith
low_bits (suc (suc (suc (suc (suc (suc (suc (suc k)))))))) a b h q = absurd (omega arith)

high_bits : (k a b : ℕ) → b < 256 → k < 8 → bit_at (a * 256 + b) (k + 8) ≡ bit_at a k
high_bits zero a b h q = omega arith
high_bits (suc zero) a b h q = omega arith
high_bits (suc (suc zero)) a b h q = omega arith
high_bits (suc (suc (suc zero))) a b h q = omega arith
high_bits (suc (suc (suc (suc zero)))) a b h q = omega arith
high_bits (suc (suc (suc (suc (suc zero))))) a b h q = omega arith
high_bits (suc (suc (suc (suc (suc (suc zero)))))) a b h q = omega arith
high_bits (suc (suc (suc (suc (suc (suc (suc zero))))))) a b h q = omega arith
high_bits (suc (suc (suc (suc (suc (suc (suc (suc k)))))))) a b h q = absurd (omega arith)

rev8-eq-reversed : (x : ℕ) → x < 256 → rev8 x ≡ reversed x
unfolding rev8
rev8-eq-reversed x h = ap reversed (omega arith)

-- `vbi_rev8` puts bit 7 - k at place k, for a byte; done twice it gives the byte back.
pub rev8_lem :
    (c k : ℕ) → c < 256 → k < 8 → (bit_at (rev8 c) k ≡ bit_at c (7 - k)) × (rev8 (rev8 c) ≡ c)
rev8_lem c k h q = ground (
  arith,
  reversed-bit_at c k h q,
  reversed-reversed c h,
  rev8-eq-reversed c h,
  rev8-eq-reversed (reversed c),
)

rev16-reversed : (a b : ℕ) → a < 256 → b < 256 → rev16 (a * 256 + b) ≡ reversed b * 256 + reversed a
unfolding rev16
rev16-reversed a b ha hb =
    ap₂ (λ (x y : ℕ). reversed x * 256 + reversed y) (omega arith) (omega arith)

rev16-bit_at :
    (a b k : ℕ)
    → a < 256
    → b < 256
    → k < 8
    → (bit_at (rev16 (a * 256 + b)) k ≡ bit_at (a * 256 + b) (7 - k + 8))
      × (bit_at (rev16 (a * 256 + b)) (k + 8) ≡ bit_at (a * 256 + b) (7 - k))
rev16-bit_at a b k ha hb hk =
    let ra = reversed-reversed a ha in
    let rb = reversed-reversed b hb in
    rw (rev16-reversed a b ha hb) (
      low_bits k (reversed b) (reversed a) ra.1 hk
          ∙ reversed-bit_at a k ha hk
          ∙ sym (high_bits (7 - k) a b hb (omega arith)),
      high_bits k (reversed b) (reversed a) ra.1 hk
          ∙ reversed-bit_at b k hb hk
          ∙ sym (low_bits (7 - k) a b hb (omega arith)),
    )

rev16-all_bits :
    (a b k : ℕ)
    → a < 256
    → b < 256
    → k < 16
    → bit_at (rev16 (a * 256 + b)) k ≡ bit_at (a * 256 + b) (15 - k)
rev16-all_bits a b k ha hb hk = elim (dec_lt k 8) [
  | yes p ↦ (rev16-bit_at a b k ha hb p).0 ∙ ap (λ (t : ℕ). bit_at (a * 256 + b) t) (omega arith)
  | no p ↦
      ap (λ (t : ℕ). bit_at (rev16 (a * 256 + b)) t) (omega arith)
      ∙ (rev16-bit_at a b (k - 8) ha hb (omega arith)).1
      ∙ ap (λ (t : ℕ). bit_at (a * 256 + b) t) (omega arith)
]

rev16-rev16 : (a b : ℕ) → a < 256 → b < 256 → rev16 (rev16 (a * 256 + b)) ≡ a * 256 + b
rev16-rev16 a b ha hb =
    let ra = reversed-reversed a ha in
    let rb = reversed-reversed b hb in
    rw (rev16-reversed a b ha hb) (
      rev16-reversed (reversed b) (reversed a) rb.1 ra.1 ∙ ap₂ (λ (x y : ℕ). x * 256 + y) ra.0 rb.0)

-- `vbi_rev16` reverses all 16 bits, is its own inverse, and agrees with `vbi_rev16p` on the two
-- bytes of the word, least significant first.
pub rev16_lem :
    (c k : ℕ)
    → c < 65536
    → k < 16
    → (bit_at (rev16 c) k ≡ bit_at c (15 - k))
      × (rev16 (rev16 c) ≡ c)
      × (rev16p (c % 256) (c / 256) ≡ rev16 c)
unfolding rev16p
rev16_lem c k h q =
    let a = c / 256 in
    let b = c % 256 in
    let e : c ≡ a * 256 + b = omega arith in
    (
      ap (λ (t : ℕ). bit_at (rev16 t) k) e
          ∙ rev16-all_bits a b k (omega arith) (omega arith) q
          ∙ ap (λ (t : ℕ). bit_at t (15 - k)) (sym e),
      ap (λ (t : ℕ). rev16 (rev16 t)) e ∙ rev16-rev16 a b (omega arith) (omega arith) ∙ sym e,
      sym (rev16-reversed a b (omega arith) (omega arith)) ∙ ap rev16 (sym e),
    )
