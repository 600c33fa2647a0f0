-- ===== src/Prelude/Loops.antt =====
-- Counted loops.
use Prim.Native.Nat.{ℕ, zero, suc, ◌≤◌, ◌<◌}
use mathlib.Core.List.{List}
use mathlib.Core.Logic.{inl, inr}
use mathlib.Core.Path.{◌≡◌, refl, ap, sym, ◌∙◌}
use native.Mathlib.Omega.{arith}
use zvbi.Prelude.Lists.{length, set, get_or, length-set, get_or-set_self, get_or-set_ne}
use zvbi.Prelude.Tests.{◌==◌, Bool-cases}

-- `for (i = 0; i < n; ++i) s = body (i, s);`
unfoldable pub for_below {ℓ} : {S : Type ℓ} → ℕ → (ℕ → S → S) → S → S
for_below zero body s = s
for_below (suc n) body s = body n (for_below n body s)

-- An invariant that each round keeps holds at the end.
pub for_below-inv {ℓ κ} :
    {S : Type ℓ} (P : ℕ → S → Type κ) (body : ℕ → S → S)
    → ((i : ℕ) (s : S) → P i s → P (suc i) (body i s))
    → (n : ℕ) (s : S) → P 0 s
    → P n (for_below n body s)
unfolding for_below
for_below-inv P body keep zero s h = h
for_below-inv P body keep (suc n) s h =
    keep n (for_below n body s) (for_below-inv P body keep n s h)

-- A loop that stores `f i` at every place of a table.
module _ (f : ℕ → ℕ) where
  pub length-for_below :
      (n : ℕ) (t : List ℕ) → length (for_below n (λ i t'. set t' i (f i)) t) ≡ length t
  unfolding for_below
  length-for_below zero t = refl
  length-for_below (suc n) t =
      length-set (for_below n (λ i t'. set t' i (f i)) t) n (f n) ∙ length-for_below n t

  pub get_or-for_below :
      (n : ℕ) (t : List ℕ) (x : ℕ)
      → n ≤ length t
      → x < n
      → get_or (for_below n (λ i t'. set t' i (f i)) t) x 0 ≡ f x
  unfolding for_below
  get_or-for_below zero t x h lt = absurd (omega arith)
  get_or-for_below (suc n) t x h lt =
      let before = for_below n (λ i t'. set t' i (f i)) t in
      elim (Bool-cases (n == x)) [
        | inl same ↦
            let e : n ≡ x = ground arith in
            ap (λ (y : ℕ). get_or (set before n (f n)) y 0) (sym e)
            ∙ get_or-set_self before n (f n) 0 (omega (arith, length-for_below n t))
            ∙ ap f e
        | inr other ↦
            get_or-set_ne before n x (f n) 0 (λ e. ground arith)
            ∙ get_or-for_below n t x (omega arith) (ground arith)
      ]
