-- ===== src/Hamm/Tests.antt =====
-- Runs of the error correction functions, and the theorems about them at an input.
use zvbi.Prelude.{
  ◌≤◌, ◌≡◌, ◌↔◌, refl, true, false, [], ◌∷◌, map, arith, is_negative, minus_one, ◌%◌,
}
use zvbi.Hamm.Code24.{flip, receive, unham24p-ham24p}
use zvbi.Hamm.Code8.{unham8-nearest}
use zvbi.Hamm.Distance.{distance8}
use zvbi.Hamm.Parity.{any_even, all_odd, par-all_odd, unpar_lem, unpar-par}
use zvbi.Hamm.{
  rev8, rev16, par, unpar, ham8, inv8, unham8, ham24p, inv_par_0, inv_par_1, inv_par_2, inv_d1_d4,
  inv_err, fwd_0, fwd_1, fwd_2, unham24p, reversed,
}

reverse_run : (rev8 0x13 ≡ 0xc8) × (rev16 0x1234 ≡ 0x2c48)
unfolding rev8 rev16 reversed
reverse_run = (refl, refl)

code8_run : (ham8 5 ≡ 0x73) × (unham8 0x72 ≡ 5) × (unham8 0x70 ≡ minus_one)
unfolding ham8 unham8 inv8
code8_run = (refl, refl, refl)

code24_run : receive (flip 7 (ham24p 0x2abcd)) ≡ 0x2abcd
unfolding ham24p unham24p inv_par_0 inv_par_1 inv_par_2 inv_d1_d4 inv_err fwd_0 fwd_1 fwd_2
code24_run = refl

unham24p-ham24p_example :
    (receive (ham24p 0x2abcd) ≡ 0x2abcd)
    × (receive (flip 0 (ham24p 0x2abcd)) ≡ 0x2abcd)
    × (is_negative (receive (flip 17 (flip 0 (ham24p 0x2abcd)))) ≡ true)
unham24p-ham24p_example =
    unham24p-ham24p 0x2abcd 0 17 (omega arith) (omega arith) (omega arith) (omega arith)

unham8-nearest_example : (unham8 0x72 ≡ 5) ↔ (distance8 0x72 (ham8 5) ≤ 1)
unham8-nearest_example = unham8-nearest 0x72 5 (omega arith) (omega arith)

par-all_odd_example :
    (all_odd (par (0x41 ∷ 0x43 ∷ [])) ≡ true)
    × (map (λ c. c % 128) (par (0x41 ∷ 0x43 ∷ [])) ≡ map (λ c. c % 128) (0x41 ∷ 0x43 ∷ []))
par-all_odd_example = par-all_odd (0x41 ∷ 0x43 ∷ []) (omega arith)

unpar_lem_example :
    (is_negative (unpar (0xc1 ∷ 0x43 ∷ [])).0 ≡ any_even (0xc1 ∷ 0x43 ∷ []))
    × ((unpar (0xc1 ∷ 0x43 ∷ [])).1 ≡ map (λ c. c % 128) (0xc1 ∷ 0x43 ∷ []))
unpar_lem_example = unpar_lem (0xc1 ∷ 0x43 ∷ []) (omega arith)

unpar-par_example :
    (is_negative (unpar (par (0x41 ∷ 0x43 ∷ []))).0 ≡ false)
    × ((unpar (par (0x41 ∷ 0x43 ∷ []))).1 ≡ map (λ c. c % 128) (0x41 ∷ 0x43 ∷ []))
unpar-par_example = unpar-par (0x41 ∷ 0x43 ∷ []) (omega arith)
