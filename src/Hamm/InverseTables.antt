-- ===== src/Hamm/InverseTables.antt =====
-- The inverse Hamming 24/18 tables of src/hamm-tables.h: `hamm24_inv_par` has one list for each of
-- its three rows.
use zvbi.Prelude.{ℕ, List, [], ◌∷◌}

unfoldable pub hamm24_inv_par_0 : List ℕ
hamm24_inv_par_0 =
    0x00 ∷ 0x21 ∷ 0x22 ∷ 0x03 ∷ 0x23 ∷ 0x02 ∷ 0x01 ∷ 0x20 ∷ 0x24 ∷ 0x05 ∷ 0x06 ∷ 0x27 ∷ 0x07 ∷ 0x26
    ∷ 0x25 ∷ 0x04 ∷ 0x25 ∷ 0x04 ∷ 0x07 ∷ 0x26 ∷ 0x06 ∷ 0x27 ∷ 0x24 ∷ 0x05 ∷ 0x01 ∷ 0x20 ∷ 0x23
    ∷ 0x02 ∷ 0x22 ∷ 0x03 ∷ 0x00 ∷ 0x21 ∷ 0x26 ∷ 0x07 ∷ 0x04 ∷ 0x25 ∷ 0x05 ∷ 0x24 ∷ 0x27 ∷ 0x06
    ∷ 0x02 ∷ 0x23 ∷ 0x20 ∷ 0x01 ∷ 0x21 ∷ 0x00 ∷ 0x03 ∷ 0x22 ∷ 0x03 ∷ 0x22 ∷ 0x21 ∷ 0x00 ∷ 0x20
    ∷ 0x01 ∷ 0x02 ∷ 0x23 ∷ 0x27 ∷ 0x06 ∷ 0x05 ∷ 0x24 ∷ 0x04 ∷ 0x25 ∷ 0x26 ∷ 0x07 ∷ 0x27 ∷ 0x06
    ∷ 0x05 ∷ 0x24 ∷ 0x04 ∷ 0x25 ∷ 0x26 ∷ 0x07 ∷ 0x03 ∷ 0x22 ∷ 0x21 ∷ 0x00 ∷ 0x20 ∷ 0x01 ∷ 0x02
    ∷ 0x23 ∷ 0x02 ∷ 0x23 ∷ 0x20 ∷ 0x01 ∷ 0x21 ∷ 0x00 ∷ 0x03 ∷ 0x22 ∷ 0x26 ∷ 0x07 ∷ 0x04 ∷ 0x25
    ∷ 0x05 ∷ 0x24 ∷ 0x27 ∷ 0x06 ∷ 0x01 ∷ 0x20 ∷ 0x23 ∷ 0x02 ∷ 0x22 ∷ 0x03 ∷ 0x00 ∷ 0x21 ∷ 0x25
    ∷ 0x04 ∷ 0x07 ∷ 0x26 ∷ 0x06 ∷ 0x27 ∷ 0x24 ∷ 0x05 ∷ 0x24 ∷ 0x05 ∷ 0x06 ∷ 0x27 ∷ 0x07 ∷ 0x26
    ∷ 0x25 ∷ 0x04 ∷ 0x00 ∷ 0x21 ∷ 0x22 ∷ 0x03 ∷ 0x23 ∷ 0x02 ∷ 0x01 ∷ 0x20 ∷ 0x28 ∷ 0x09 ∷ 0x0a
    ∷ 0x2b ∷ 0x0b ∷ 0x2a ∷ 0x29 ∷ 0x08 ∷ 0x0c ∷ 0x2d ∷ 0x2e ∷ 0x0f ∷ 0x2f ∷ 0x0e ∷ 0x0d ∷ 0x2c
    ∷ 0x0d ∷ 0x2c ∷ 0x2f ∷ 0x0e ∷ 0x2e ∷ 0x0f ∷ 0x0c ∷ 0x2d ∷ 0x29 ∷ 0x08 ∷ 0x0b ∷ 0x2a ∷ 0x0a
    ∷ 0x2b ∷ 0x28 ∷ 0x09 ∷ 0x0e ∷ 0x2f ∷ 0x2c ∷ 0x0d ∷ 0x2d ∷ 0x0c ∷ 0x0f ∷ 0x2e ∷ 0x2a ∷ 0x0b
    ∷ 0x08 ∷ 0x29 ∷ 0x09 ∷ 0x28 ∷ 0x2b ∷ 0x0a ∷ 0x2b ∷ 0x0a ∷ 0x09 ∷ 0x28 ∷ 0x08 ∷ 0x29 ∷ 0x2a
    ∷ 0x0b ∷ 0x0f ∷ 0x2e ∷ 0x2d ∷ 0x0c ∷ 0x2c ∷ 0x0d ∷ 0x0e ∷ 0x2f ∷ 0x0f ∷ 0x2e ∷ 0x2d ∷ 0x0c
    ∷ 0x2c ∷ 0x0d ∷ 0x0e ∷ 0x2f ∷ 0x2b ∷ 0x0a ∷ 0x09 ∷ 0x28 ∷ 0x08 ∷ 0x29 ∷ 0x2a ∷ 0x0b ∷ 0x2a
    ∷ 0x0b ∷ 0x08 ∷ 0x29 ∷ 0x09 ∷ 0x28 ∷ 0x2b ∷ 0x0a ∷ 0x0e ∷ 0x2f ∷ 0x2c ∷ 0x0d ∷ 0x2d ∷ 0x0c
    ∷ 0x0f ∷ 0x2e ∷ 0x29 ∷ 0x08 ∷ 0x0b ∷ 0x2a ∷ 0x0a ∷ 0x2b ∷ 0x28 ∷ 0x09 ∷ 0x0d ∷ 0x2c ∷ 0x2f
    ∷ 0x0e ∷ 0x2e ∷ 0x0f ∷ 0x0c ∷ 0x2d ∷ 0x0c ∷ 0x2d ∷ 0x2e ∷ 0x0f ∷ 0x2f ∷ 0x0e ∷ 0x0d ∷ 0x2c
    ∷ 0x28 ∷ 0x09 ∷ 0x0a ∷ 0x2b ∷ 0x0b ∷ 0x2a ∷ 0x29 ∷ 0x08 ∷ []

unfoldable pub hamm24_inv_par_1 : List ℕ
hamm24_inv_par_1 =
    0x00 ∷ 0x29 ∷ 0x2a ∷ 0x03 ∷ 0x2b ∷ 0x02 ∷ 0x01 ∷ 0x28 ∷ 0x2c ∷ 0x05 ∷ 0x06 ∷ 0x2f ∷ 0x07 ∷ 0x2e
    ∷ 0x2d ∷ 0x04 ∷ 0x2d ∷ 0x04 ∷ 0x07 ∷ 0x2e ∷ 0x06 ∷ 0x2f ∷ 0x2c ∷ 0x05 ∷ 0x01 ∷ 0x28 ∷ 0x2b
    ∷ 0x02 ∷ 0x2a ∷ 0x03 ∷ 0x00 ∷ 0x29 ∷ 0x2e ∷ 0x07 ∷ 0x04 ∷ 0x2d ∷ 0x05 ∷ 0x2c ∷ 0x2f ∷ 0x06
    ∷ 0x02 ∷ 0x2b ∷ 0x28 ∷ 0x01 ∷ 0x29 ∷ 0x00 ∷ 0x03 ∷ 0x2a ∷ 0x03 ∷ 0x2a ∷ 0x29 ∷ 0x00 ∷ 0x28
    ∷ 0x01 ∷ 0x02 ∷ 0x2b ∷ 0x2f ∷ 0x06 ∷ 0x05 ∷ 0x2c ∷ 0x04 ∷ 0x2d ∷ 0x2e ∷ 0x07 ∷ 0x2f ∷ 0x06
    ∷ 0x05 ∷ 0x2c ∷ 0x04 ∷ 0x2d ∷ 0x2e ∷ 0x07 ∷ 0x03 ∷ 0x2a ∷ 0x29 ∷ 0x00 ∷ 0x28 ∷ 0x01 ∷ 0x02
    ∷ 0x2b ∷ 0x02 ∷ 0x2b ∷ 0x28 ∷ 0x01 ∷ 0x29 ∷ 0x00 ∷ 0x03 ∷ 0x2a ∷ 0x2e ∷ 0x07 ∷ 0x04 ∷ 0x2d
    ∷ 0x05 ∷ 0x2c ∷ 0x2f ∷ 0x06 ∷ 0x01 ∷ 0x28 ∷ 0x2b ∷ 0x02 ∷ 0x2a ∷ 0x03 ∷ 0x00 ∷ 0x29 ∷ 0x2d
    ∷ 0x04 ∷ 0x07 ∷ 0x2e ∷ 0x06 ∷ 0x2f ∷ 0x2c ∷ 0x05 ∷ 0x2c ∷ 0x05 ∷ 0x06 ∷ 0x2f ∷ 0x07 ∷ 0x2e
    ∷ 0x2d ∷ 0x04 ∷ 0x00 ∷ 0x29 ∷ 0x2a ∷ 0x03 ∷ 0x2b ∷ 0x02 ∷ 0x01 ∷ 0x28 ∷ 0x30 ∷ 0x19 ∷ 0x1a
    ∷ 0x33 ∷ 0x1b ∷ 0x32 ∷ 0x31 ∷ 0x18 ∷ 0x1c ∷ 0x35 ∷ 0x36 ∷ 0x1f ∷ 0x37 ∷ 0x1e ∷ 0x1d ∷ 0x34
    ∷ 0x1d ∷ 0x34 ∷ 0x37 ∷ 0x1e ∷ 0x36 ∷ 0x1f ∷ 0x1c ∷ 0x35 ∷ 0x31 ∷ 0x18 ∷ 0x1b ∷ 0x32 ∷ 0x1a
    ∷ 0x33 ∷ 0x30 ∷ 0x19 ∷ 0x1e ∷ 0x37 ∷ 0x34 ∷ 0x1d ∷ 0x35 ∷ 0x1c ∷ 0x1f ∷ 0x36 ∷ 0x32 ∷ 0x1b
    ∷ 0x18 ∷ 0x31 ∷ 0x19 ∷ 0x30 ∷ 0x33 ∷ 0x1a ∷ 0x33 ∷ 0x1a ∷ 0x19 ∷ 0x30 ∷ 0x18 ∷ 0x31 ∷ 0x32
    ∷ 0x1b ∷ 0x1f ∷ 0x36 ∷ 0x35 ∷ 0x1c ∷ 0x34 ∷ 0x1d ∷ 0x1e ∷ 0x37 ∷ 0x1f ∷ 0x36 ∷ 0x35 ∷ 0x1c
    ∷ 0x34 ∷ 0x1d ∷ 0x1e ∷ 0x37 ∷ 0x33 ∷ 0x1a ∷ 0x19 ∷ 0x30 ∷ 0x18 ∷ 0x31 ∷ 0x32 ∷ 0x1b ∷ 0x32
    ∷ 0x1b ∷ 0x18 ∷ 0x31 ∷ 0x19 ∷ 0x30 ∷ 0x33 ∷ 0x1a ∷ 0x1e ∷ 0x37 ∷ 0x34 ∷ 0x1d ∷ 0x35 ∷ 0x1c
    ∷ 0x1f ∷ 0x36 ∷ 0x31 ∷ 0x18 ∷ 0x1b ∷ 0x32 ∷ 0x1a ∷ 0x33 ∷ 0x30 ∷ 0x19 ∷ 0x1d ∷ 0x34 ∷ 0x37
    ∷ 0x1e ∷ 0x36 ∷ 0x1f ∷ 0x1c ∷ 0x35 ∷ 0x1c ∷ 0x35 ∷ 0x36 ∷ 0x1f ∷ 0x37 ∷ 0x1e ∷ 0x1d ∷ 0x34
    ∷ 0x30 ∷ 0x19 ∷ 0x1a ∷ 0x33 ∷ 0x1b ∷ 0x32 ∷ 0x31 ∷ 0x18 ∷ []

unfoldable pub hamm24_inv_par_2 : List ℕ
hamm24_inv_par_2 =
    0x3f ∷ 0x0e ∷ 0x0d ∷ 0x3c ∷ 0x0c ∷ 0x3d ∷ 0x3e ∷ 0x0f ∷ 0x0b ∷ 0x3a ∷ 0x39 ∷ 0x08 ∷ 0x38 ∷ 0x09
    ∷ 0x0a ∷ 0x3b ∷ 0x0a ∷ 0x3b ∷ 0x38 ∷ 0x09 ∷ 0x39 ∷ 0x08 ∷ 0x0b ∷ 0x3a ∷ 0x3e ∷ 0x0f ∷ 0x0c
    ∷ 0x3d ∷ 0x0d ∷ 0x3c ∷ 0x3f ∷ 0x0e ∷ 0x09 ∷ 0x38 ∷ 0x3b ∷ 0x0a ∷ 0x3a ∷ 0x0b ∷ 0x08 ∷ 0x39
    ∷ 0x3d ∷ 0x0c ∷ 0x0f ∷ 0x3e ∷ 0x0e ∷ 0x3f ∷ 0x3c ∷ 0x0d ∷ 0x3c ∷ 0x0d ∷ 0x0e ∷ 0x3f ∷ 0x0f
    ∷ 0x3e ∷ 0x3d ∷ 0x0c ∷ 0x08 ∷ 0x39 ∷ 0x3a ∷ 0x0b ∷ 0x3b ∷ 0x0a ∷ 0x09 ∷ 0x38 ∷ 0x08 ∷ 0x39
    ∷ 0x3a ∷ 0x0b ∷ 0x3b ∷ 0x0a ∷ 0x09 ∷ 0x38 ∷ 0x3c ∷ 0x0d ∷ 0x0e ∷ 0x3f ∷ 0x0f ∷ 0x3e ∷ 0x3d
    ∷ 0x0c ∷ 0x3d ∷ 0x0c ∷ 0x0f ∷ 0x3e ∷ 0x0e ∷ 0x3f ∷ 0x3c ∷ 0x0d ∷ 0x09 ∷ 0x38 ∷ 0x3b ∷ 0x0a
    ∷ 0x3a ∷ 0x0b ∷ 0x08 ∷ 0x39 ∷ 0x3e ∷ 0x0f ∷ 0x0c ∷ 0x3d ∷ 0x0d ∷ 0x3c ∷ 0x3f ∷ 0x0e ∷ 0x0a
    ∷ 0x3b ∷ 0x38 ∷ 0x09 ∷ 0x39 ∷ 0x08 ∷ 0x0b ∷ 0x3a ∷ 0x0b ∷ 0x3a ∷ 0x39 ∷ 0x08 ∷ 0x38 ∷ 0x09
    ∷ 0x0a ∷ 0x3b ∷ 0x3f ∷ 0x0e ∷ 0x0d ∷ 0x3c ∷ 0x0c ∷ 0x3d ∷ 0x3e ∷ 0x0f ∷ 0x1f ∷ 0x2e ∷ 0x2d
    ∷ 0x1c ∷ 0x2c ∷ 0x1d ∷ 0x1e ∷ 0x2f ∷ 0x2b ∷ 0x1a ∷ 0x19 ∷ 0x28 ∷ 0x18 ∷ 0x29 ∷ 0x2a ∷ 0x1b
    ∷ 0x2a ∷ 0x1b ∷ 0x18 ∷ 0x29 ∷ 0x19 ∷ 0x28 ∷ 0x2b ∷ 0x1a ∷ 0x1e ∷ 0x2f ∷ 0x2c ∷ 0x1d ∷ 0x2d
    ∷ 0x1c ∷ 0x1f ∷ 0x2e ∷ 0x29 ∷ 0x18 ∷ 0x1b ∷ 0x2a ∷ 0x1a ∷ 0x2b ∷ 0x28 ∷ 0x19 ∷ 0x1d ∷ 0x2c
    ∷ 0x2f ∷ 0x1e ∷ 0x2e ∷ 0x1f ∷ 0x1c ∷ 0x2d ∷ 0x1c ∷ 0x2d ∷ 0x2e ∷ 0x1f ∷ 0x2f ∷ 0x1e ∷ 0x1d
    ∷ 0x2c ∷ 0x28 ∷ 0x19 ∷ 0x1a ∷ 0x2b ∷ 0x1b ∷ 0x2a ∷ 0x29 ∷ 0x18 ∷ 0x28 ∷ 0x19 ∷ 0x1a ∷ 0x2b
    ∷ 0x1b ∷ 0x2a ∷ 0x29 ∷ 0x18 ∷ 0x1c ∷ 0x2d ∷ 0x2e ∷ 0x1f ∷ 0x2f ∷ 0x1e ∷ 0x1d ∷ 0x2c ∷ 0x1d
    ∷ 0x2c ∷ 0x2f ∷ 0x1e ∷ 0x2e ∷ 0x1f ∷ 0x1c ∷ 0x2d ∷ 0x29 ∷ 0x18 ∷ 0x1b ∷ 0x2a ∷ 0x1a ∷ 0x2b
    ∷ 0x28 ∷ 0x19 ∷ 0x1e ∷ 0x2f ∷ 0x2c ∷ 0x1d ∷ 0x2d ∷ 0x1c ∷ 0x1f ∷ 0x2e ∷ 0x2a ∷ 0x1b ∷ 0x18
    ∷ 0x29 ∷ 0x19 ∷ 0x28 ∷ 0x2b ∷ 0x1a ∷ 0x2b ∷ 0x1a ∷ 0x19 ∷ 0x28 ∷ 0x18 ∷ 0x29 ∷ 0x2a ∷ 0x1b
    ∷ 0x1f ∷ 0x2e ∷ 0x2d ∷ 0x1c ∷ 0x2c ∷ 0x1d ∷ 0x1e ∷ 0x2f ∷ []

unfoldable pub hamm24_inv_d1_d4 : List ℕ
hamm24_inv_d1_d4 =
    0x00 ∷ 0x01 ∷ 0x00 ∷ 0x01 ∷ 0x02 ∷ 0x03 ∷ 0x02 ∷ 0x03 ∷ 0x04 ∷ 0x05 ∷ 0x04 ∷ 0x05 ∷ 0x06 ∷ 0x07
    ∷ 0x06 ∷ 0x07 ∷ 0x08 ∷ 0x09 ∷ 0x08 ∷ 0x09 ∷ 0x0a ∷ 0x0b ∷ 0x0a ∷ 0x0b ∷ 0x0c ∷ 0x0d ∷ 0x0c
    ∷ 0x0d ∷ 0x0e ∷ 0x0f ∷ 0x0e ∷ 0x0f ∷ 0x00 ∷ 0x01 ∷ 0x00 ∷ 0x01 ∷ 0x02 ∷ 0x03 ∷ 0x02 ∷ 0x03
    ∷ 0x04 ∷ 0x05 ∷ 0x04 ∷ 0x05 ∷ 0x06 ∷ 0x07 ∷ 0x06 ∷ 0x07 ∷ 0x08 ∷ 0x09 ∷ 0x08 ∷ 0x09 ∷ 0x0a
    ∷ 0x0b ∷ 0x0a ∷ 0x0b ∷ 0x0c ∷ 0x0d ∷ 0x0c ∷ 0x0d ∷ 0x0e ∷ 0x0f ∷ 0x0e ∷ 0x0f ∷ []

unfoldable pub hamm24_inv_err : List ℕ
hamm24_inv_err =
    0x00000000 ∷ 0x80000000 ∷ 0x80000000 ∷ 0x80000000 ∷ 0x80000000 ∷ 0x80000000 ∷ 0x80000000
    ∷ 0x80000000 ∷ 0x80000000 ∷ 0x80000000 ∷ 0x80000000 ∷ 0x80000000 ∷ 0x80000000 ∷ 0x80000000
    ∷ 0x80000000 ∷ 0x80000000 ∷ 0x80000000 ∷ 0x80000000 ∷ 0x80000000 ∷ 0x80000000 ∷ 0x80000000
    ∷ 0x80000000 ∷ 0x80000000 ∷ 0x80000000 ∷ 0x80000000 ∷ 0x80000000 ∷ 0x80000000 ∷ 0x80000000
    ∷ 0x80000000 ∷ 0x80000000 ∷ 0x80000000 ∷ 0x80000000 ∷ 0x00000000 ∷ 0x00000000 ∷ 0x00000000
    ∷ 0x00000001 ∷ 0x00000000 ∷ 0x00000002 ∷ 0x00000004 ∷ 0x00000008 ∷ 0x00000000 ∷ 0x00000010
    ∷ 0x00000020 ∷ 0x00000040 ∷ 0x00000080 ∷ 0x00000100 ∷ 0x00000200 ∷ 0x00000400 ∷ 0x00000000
    ∷ 0x00000800 ∷ 0x00001000 ∷ 0x00002000 ∷ 0x00004000 ∷ 0x00008000 ∷ 0x00010000 ∷ 0x00020000
    ∷ 0x80000000 ∷ 0x80000000 ∷ 0x80000000 ∷ 0x80000000 ∷ 0x80000000 ∷ 0x80000000 ∷ 0x80000000
    ∷ 0x80000000 ∷ []
