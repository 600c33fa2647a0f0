-- ===== src/Hamm/Gen/Agrees.antt =====
-- The checked-in tables against the program that generates them.
use zvbi.Prelude.{◌≡◌, refl, for_below}
use zvbi.Hamm.Gen.{
  reverse_entry, generate_reverse, hamm8_code, hamm8_round, generate_hamm8, fwd_0_entry,
  fwd_1_entry, fwd_2_entry, generate_hamm24_fwd, d1_d4_entry, par_0_entry, par_1_entry, par_2_entry,
  single_error, err_entry, inv_round, err_round, generate_hamm24_inv,
}
use zvbi.Hamm.InverseTables.{
  hamm24_inv_par_0, hamm24_inv_par_1, hamm24_inv_par_2, hamm24_inv_d1_d4, hamm24_inv_err,
}
use zvbi.Hamm.Tables.{bit_reverse, hamm8_fwd, hamm8_inv, hamm24_fwd_0, hamm24_fwd_1, hamm24_fwd_2}

generate_reverse_lem : generate_reverse ≡ bit_reverse
unfolding generate_reverse for_below reverse_entry bit_reverse
generate_reverse_lem = refl

generate_hamm8_lem : generate_hamm8 ≡ record { fwd = hamm8_fwd; inv = hamm8_inv }
unfolding generate_hamm8 for_below hamm8_round hamm8_code hamm8_fwd hamm8_inv
generate_hamm8_lem = refl

generate_hamm24_fwd_lem :
    generate_hamm24_fwd
    ≡ record { fwd_0 = hamm24_fwd_0; fwd_1 = hamm24_fwd_1; fwd_2 = hamm24_fwd_2 }
unfolding generate_hamm24_fwd for_below fwd_0_entry fwd_1_entry fwd_2_entry hamm24_fwd_0
    hamm24_fwd_1 hamm24_fwd_2
generate_hamm24_fwd_lem = refl

generate_hamm24_inv_lem : generate_hamm24_inv ≡ record {
  inv_d1_d4 = hamm24_inv_d1_d4;
  inv_par_0 = hamm24_inv_par_0;
  inv_par_1 = hamm24_inv_par_1;
  inv_par_2 = hamm24_inv_par_2;
  inv_err = hamm24_inv_err;
}
unfolding generate_hamm24_inv for_below inv_round err_round d1_d4_entry par_0_entry par_1_entry
    par_2_entry single_error err_entry hamm24_inv_d1_d4 hamm24_inv_par_0 hamm24_inv_par_1
    hamm24_inv_par_2 hamm24_inv_err
generate_hamm24_inv_lem = refl

-- The tables that the generator program hammgen.c computes are those of hamm-tables.h, entry
-- by entry.
pub generated_tables :
    (generate_reverse ≡ bit_reverse)
    × (generate_hamm8 ≡ record { fwd = hamm8_fwd; inv = hamm8_inv })
    × (generate_hamm24_fwd
        ≡ record { fwd_0 = hamm24_fwd_0; fwd_1 = hamm24_fwd_1; fwd_2 = hamm24_fwd_2 })
    × (generate_hamm24_inv ≡ record {
      inv_d1_d4 = hamm24_inv_d1_d4;
      inv_par_0 = hamm24_inv_par_0;
      inv_par_1 = hamm24_inv_par_1;
      inv_par_2 = hamm24_inv_par_2;
      inv_err = hamm24_inv_err;
    })
generated_tables =
    (generate_reverse_lem, generate_hamm8_lem, generate_hamm24_fwd_lem, generate_hamm24_inv_lem)
