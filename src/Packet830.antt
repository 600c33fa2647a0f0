-- ===== src/Packet830.antt =====
-- src/packet-830.c: the decoders of Teletext packets 8/30. A packet is the 42 bytes that the
-- functions' parameter declares.
mod Sent
pub mod LocalTime
pub mod Fields
mod Tests
use zvbi.Bcd.{is_bcd}
use zvbi.Hamm.{rev8, rev16p, unham8, unham16p}
use zvbi.Prelude.{
  ℕ, zero, suc, ◌+◌, ◌-◌, ◌*◌, ◌/◌, ◌%◌, ◌^◌, Bool, not, ◌&&◌, ◌||◌, List, bit_and, bit_or, ltb,
  leb, ◌==◌, if◌then◌else◌, u8, u32, ◌<<<◌, ◌>>>◌, has_bits, is_negative, get_or, Option, none,
  some,
}
use zvbi.Vps.{ProgramId, cni_8302, PidChannel, lci_0, lci_1, lci_2, lci_3, cleared}

-- `>>` on an `int`.
abbrev pub shift_right : ℕ → ℕ → ℕ
shift_right x k = if is_negative x then u32 ((x >>> k) + (2 ^ 32 - 2 ^ (32 - k))) else x >>> k

-- An `int64_t` is a number below 2 ^ 64.
abbrev pub u64 : ℕ → ℕ
u64 n = n % 2 ^ 64

-- `x < y` for two `int64_t`s.
abbrev pub less64 : ℕ → ℕ → Bool
less64 x y = ltb (u64 (x + 2 ^ 63)) (u64 (y + 2 ^ 63))

-- `vbi_decode_teletext_8301_cni`, which returns TRUE always.
unfoldable pub decode_teletext_8301_cni : List ℕ → ℕ
decode_teletext_8301_cni buffer = rev16p (get_or buffer 9 0) (get_or buffer 10 0)

-- `bcd2bin`: the loop for `f` from 1 by tens while it is below 100000, on fuel.
unfoldable pub bcd2bin_loop : ℕ → ℕ → ℕ → ℕ → ℕ
bcd2bin_loop zero f bcd bin = bin
bcd2bin_loop (suc fuel) f bcd bin =
    let rest =
      bcd2bin_loop fuel (u32 (f * 10)) (shift_right bcd 4) (u32 (bin + bit_and bcd 15 * f)) in
    if ltb f 100000 then rest else bin

unfoldable pub bcd2bin : ℕ → ℕ
unfolding bcd2bin_loop
bcd2bin bcd = bcd2bin_loop 6 1 bcd 0

-- What vbi_decode_teletext_8301_local_time does: FALSE with what it puts in errno, or the time,
-- an `int64_t`, and the offset, an `int`.
pub data Errno : Type 0 where
  no_errno : Errno
  overflow : Errno

pub data TimeResult : Type 0 where
  refused : Errno → TimeResult
  decoded : ℕ → ℕ → TimeResult

-- The end of the function, with the date and the time of day in seconds.
unfoldable pub finish_time : ℕ → ℕ → List ℕ → ℕ → ℕ → TimeResult
finish_time time_min time_max buffer mjd utc =
    let east = u32 (bit_and (get_or buffer 11 0) 0x3E * (15 * 60)) in
    let offset = if has_bits (get_or buffer 11 0) 0x40 then u32 (2 ^ 32 - east) else east in
    let t = u64 (u64 (mjd + (2 ^ 64 - 40587)) * 86400 + utc) in
    if less64 t time_min || less64 time_max t then refused overflow else decoded t offset

-- The middle, which checks the fields of the time of day.
unfoldable pub time_of_day : ℕ → ℕ → List ℕ → ℕ → ℕ → TimeResult
unfolding finish_time
time_of_day time_min time_max buffer mjd bcd =
    let second = bit_and bcd 15 + bit_and (shift_right bcd 4) 15 * 10 in
    let minute = bit_and (shift_right bcd 8) 15 + bit_and (shift_right bcd 12) 15 * 10 in
    let hour = u32 (bit_and (shift_right bcd 16) 15 + shift_right bcd 20 * 10) in
    if ltb 60 second
    then refused no_errno
    else if leb 60 minute
    then refused no_errno
    else if not (is_negative hour) && leb 24 hour
    then refused no_errno
    else finish_time time_min time_max buffer mjd (second + minute * 60 + hour * 3600)

-- `vbi_decode_teletext_8301_local_time`, for the limits TIME_MIN and TIME_MAX of the platform.
unfoldable pub decode_teletext_8301_local_time : ℕ → ℕ → List ℕ → TimeResult
unfolding time_of_day bcd2bin
decode_teletext_8301_local_time time_min time_max buffer =
    let date = u32 (
      (bit_and (get_or buffer 12 0) 15 <<< 16)
      + (get_or buffer 13 0 <<< 8)
      + get_or buffer 14 0
      + (2 ^ 32 - 0x11111)) in
    let time = u32 (
      (get_or buffer 15 0 <<< 16)
      + (get_or buffer 16 0 <<< 8)
      + get_or buffer 17 0
      + (2 ^ 32 - 0x111111)) in
    if not (is_bcd date)
    then refused no_errno
    else if not (is_bcd time)
    then refused no_errno
    else time_of_day time_min time_max buffer (bcd2bin date) time

-- The CNI that packets of format 2 spread over four bytes.
unfoldable pub cni_8302_of : ℕ → ℕ → ℕ → ℕ → ℕ
cni_8302_of b7 b8 b10 b11 =
    (bit_and b7 0x0F <<< 12)
    + (bit_and b10 0x03 <<< 10)
    + (bit_and b11 0xC0 <<< 2)
    + bit_and b8 0xC0
    + bit_and b11 0x3F

-- `vbi_decode_teletext_8302_cni`; `none` is FALSE.
unfoldable pub decode_teletext_8302_cni : List ℕ → Option ℕ
unfolding cni_8302_of
decode_teletext_8302_cni buffer =
    let b7 = unham16p (get_or buffer 10 0) (get_or buffer 11 0) in
    let b8 = unham16p (get_or buffer 12 0) (get_or buffer 13 0) in
    let b10 = unham16p (get_or buffer 16 0) (get_or buffer 17 0) in
    let b11 = unham16p (get_or buffer 18 0) (get_or buffer 19 0) in
    if is_negative (bit_or (bit_or (bit_or b7 b8) b10) b11)
    then none
    else some (cni_8302_of (rev8 b7) (rev8 b8) (rev8 b10) (rev8 b11))

-- `VBI_PID_CHANNEL_LCI_0 + n`.
unfoldable pub lci : ℕ → PidChannel
lci zero = lci_0
lci (suc zero) = lci_1
lci (suc (suc zero)) = lci_2
lci (suc (suc (suc n))) = lci_3

-- The pair of bytes that make `b[i]`.
unfoldable pub pair : List ℕ → ℕ → ℕ
pair buffer i = unham16p (get_or buffer (i * 2 - 4) 0) (get_or buffer (i * 2 - 3) 0)

-- `vbi_decode_teletext_8302_pdc`; `none` is FALSE.
unfoldable pub decode_teletext_8302_pdc : List ℕ → Option ProgramId
unfolding cni_8302_of lci pair
decode_teletext_8302_pdc buffer =
    let e6 = unham8 (get_or buffer 9 0) in
    let b6 = u8 (rev8 e6 >>> 4) in
    let b7 = u8 (rev8 (pair buffer 7)) in
    let b8 = u8 (rev8 (pair buffer 8)) in
    let b9 = u8 (rev8 (pair buffer 9)) in
    let b10 = u8 (rev8 (pair buffer 10)) in
    let b11 = u8 (rev8 (pair buffer 11)) in
    let b12 = u8 (rev8 (pair buffer 12)) in
    let error =
      bit_or
        (bit_or
          (bit_or (bit_or (bit_or (bit_or e6 (pair buffer 7)) (pair buffer 8)) (pair buffer 9))
            (pair buffer 10))
          (pair buffer 11))
        (pair buffer 12) in
    if is_negative error
    then none
    else some (record cleared {
      channel = lci (bit_and (b6 >>> 2) 3);
      cni_type = cni_8302;
      cni = cni_8302_of b7 b8 b10 b11;
      pil = (bit_and b8 0x3F <<< 14) + (b9 <<< 6) + (b10 >>> 2);
      luf = has_bits (b6 >>> 1) 1;
      mi = has_bits (b7 >>> 5) 1;
      prf = has_bits b6 1;
      pcs_audio = bit_and (b7 >>> 6) 3;
      pty = b12;
    })
