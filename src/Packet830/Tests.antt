-- ===== src/Packet830/Tests.antt =====
-- Runs of the decoders of src/packet-830.c, and the theorems about them at an input.
use zvbi.Bcd.{is_bcd}
use zvbi.Hamm.{unham8, inv8}
use zvbi.Packet830.Fields.{decode_teletext_8302_lem, AllCorrectable, cni_field, pid_fields}
use zvbi.Packet830.LocalTime.{decode_teletext_8301_local_time_lem, local_time}
use zvbi.Packet830.{
  decode_teletext_8301_local_time, decode_teletext_8302_cni, decode_teletext_8302_pdc, decoded,
}
use zvbi.Prelude.{
  ℕ, ◌≡◌, refl, List, [], ◌∷◌, ◌++◌, replicate, get_or, ◌^◌, ◌-◌, ◌&&◌, Bool, ltb→lt, true, ltb,
  some, AreBytes, all_below, all_below-apply, arith,
}

-- 1982-06-29, 19:45:42 UTC at two and a half hours east, with date and time sent incremented by one,
-- and the limits of a time of 64 bits.
abbrev time_packet : List ℕ
time_packet =
    replicate 11 0 ++ (0x0A ∷ 0x05 ∷ 0x62 ∷ 0x5A ∷ 0x2A ∷ 0x56 ∷ 0x53 ∷ []) ++ replicate 24 0

unfoldable all_small : List ℕ → Bool
all_small [] = true
all_small (x ∷ xs) = ltb x 256 && all_small xs

all_small-AreBytes : (xs : List ℕ) → all_small xs ≡ true → AreBytes xs
unfolding all_small
all_small-AreBytes [] h = tt
all_small-AreBytes (x ∷ xs) h = (ground arith, all_small-AreBytes xs (ground arith))

time_packet-AreBytes : AreBytes time_packet
unfolding all_small
time_packet-AreBytes = all_small-AreBytes time_packet refl

local_time_run :
    decode_teletext_8301_local_time (2 ^ 63) (2 ^ 63 - 1) time_packet ≡ decoded 394227942 9000
unfolding decode_teletext_8301_local_time is_bcd
local_time_run = refl

decode_teletext_8301_local_time_lem_example :
    decode_teletext_8301_local_time (2 ^ 63) (2 ^ 63 - 1) time_packet
    ≡ local_time (2 ^ 63) (2 ^ 63 - 1) time_packet
decode_teletext_8301_local_time_lem_example =
    decode_teletext_8301_local_time_lem (2 ^ 63) (2 ^ 63 - 1) time_packet time_packet-AreBytes

-- A packet of Hamming code words.
abbrev label_packet : List ℕ
label_packet =
    replicate 9 0x15
    ++ (0xEA ∷ 0x02 ∷ 0x49 ∷ 0x5E ∷ 0x64 ∷ 0x73 ∷ 0x38 ∷ 0x2F ∷ 0xD0 ∷ 0xC7 ∷ 0x8C ∷ 0x9B ∷ 0xA1
        ∷ [])
    ++ replicate 20 0x15

label_packet-AreBytes : AreBytes label_packet
unfolding all_small
label_packet-AreBytes = all_small-AreBytes label_packet refl

label_table : all_below 22 (λ i. ltb (unham8 (get_or label_packet i 0)) 16) ≡ true
unfolding all_below unham8 inv8
label_table = refl

label_packet-AllCorrectable : AllCorrectable label_packet
label_packet-AllCorrectable i h k = ltb→lt (unham8 (get_or label_packet i 0)) 16 (
    all_below-apply 22 (λ j. ltb (unham8 (get_or label_packet j 0)) 16) i label_table (omega arith))

decode_teletext_8302_lem_example :
    (decode_teletext_8302_cni label_packet ≡ some (cni_field label_packet))
    × (decode_teletext_8302_pdc label_packet ≡ some (pid_fields label_packet))
decode_teletext_8302_lem_example =
    decode_teletext_8302_lem label_packet label_packet-AreBytes label_packet-AllCorrectable
