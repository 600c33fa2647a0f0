-- ===== src/Packet830/LocalTime.antt =====
-- The local time of packet 8/30 format 1, against a reading of its digits.
use zvbi.Bcd.{AreDecimal, value}
use zvbi.Packet830.Sent.{
  all_sent, sent_value, date_digits, time_digits, received_date, received_time,
}
use zvbi.Packet830.{
  bcd2bin_loop, bcd2bin, shift_right, TimeResult, refused, decoded, no_errno, overflow, u64, less64,
  finish_time, time_of_day, decode_teletext_8301_local_time,
}
use native.Mathlib.Nat.{pow-suc}
use zvbi.Prelude.Bits.Fields.{bit_and_low, bit_and_mask}
use zvbi.Prelude.{
  ℕ, zero, suc, ◌+◌, ◌-◌, ◌*◌, ◌/◌, ◌%◌, ◌^◌, ◌<◌, ◌≡◌, refl, ap, ◌∙◌, inl, inr, true, not, ◌&&◌,
  ◌||◌, ◌==◌, List, bit_and, ltb, leb, if◌then◌else◌, u32, get_or, AreBytes, get_or-lt, Bool-cases,
  has_bits, is_negative, arith,
}

-- The words of the packet, and the offset in half hours east of UTC with a sign.
abbrev pub date_word : List ℕ → ℕ
date_word buffer =
    get_or buffer 12 0 % 16 * 2 ^ 16 + get_or buffer 13 0 * 2 ^ 8 + get_or buffer 14 0

abbrev pub time_word : List ℕ → ℕ
time_word buffer = get_or buffer 15 0 * 2 ^ 16 + get_or buffer 16 0 * 2 ^ 8 + get_or buffer 17 0

abbrev pub offset_of : ℕ → ℕ
offset_of b = if b / 64 % 2 == 1 then u32 (2 ^ 32 - b / 2 % 32 * 1800) else b / 2 % 32 * 1800

abbrev pub seconds_of_day : ℕ → ℕ
seconds_of_day time =
    sent_value 2 time + sent_value 2 (time / 256) * 60 + sent_value 2 (time / 65536) * 3600

-- The function read digit by digit.
unfoldable pub local_time : ℕ → ℕ → List ℕ → TimeResult
local_time time_min time_max buffer =
    let date = date_word buffer in
    let time = time_word buffer in
    let t = u64 (sent_value 5 date * 86400 + seconds_of_day time + (2 ^ 64 - 40587 * 86400)) in
    if all_sent 5 date
      && all_sent 6 time
      && leb (sent_value 2 time) 60
      && ltb (sent_value 2 (time / 256)) 60
      && ltb (sent_value 2 (time / 65536)) 24
    then (if less64 t time_min || less64 time_max t
        then refused overflow
        else decoded t (offset_of (get_or buffer 11 0)))
    else refused no_errno

positive : (x : ℕ) → x < 2 ^ 31 → shift_right x 4 ≡ x / 16
positive x h = ground arith

bcd2bin-value : (bcd : ℕ) → bcd < 2 ^ 20 → bcd2bin bcd ≡ value 5 bcd
unfolding bcd2bin bcd2bin_loop value
bcd2bin-value bcd h =
    rw
      (
        positive bcd (omega arith),
        positive (bcd / 16) (omega arith),
        positive (bcd / 16 / 16) (omega arith),
        positive (bcd / 16 / 16 / 16) (omega arith),
        bit_and_low 4 bcd,
        bit_and_low 4 (bcd / 16),
        bit_and_low 4 (bcd / 16 / 16),
        bit_and_low 4 (bcd / 16 / 16 / 16),
        bit_and_low 4 (bcd / 16 / 16 / 16 / 16),
      )
      (omega arith)

-- The fields that the code takes out of the time word.
module _ (bcd v : ℕ) (h : bcd < 2 ^ 24) (sum : bcd + 0x111111 ≡ v) (d : AreDecimal 6 bcd) where
  second_lem : bit_and bcd 15 + bit_and (shift_right bcd 4) 15 * 10 ≡ sent_value 2 v
  unfolding sent_value AreDecimal
  second_lem =
      rw (positive bcd (omega arith), bit_and_low 4 bcd, bit_and_low 4 (bcd / 16))
        (omega (arith, d.0, d.1.0))

  minute_lem :
      bit_and (shift_right bcd 8) 15 + bit_and (shift_right bcd 12) 15 * 10 ≡ sent_value 2 (v / 256)
  unfolding sent_value AreDecimal
  minute_lem =
      let e8 : shift_right bcd 8 ≡ bcd / 2 ^ 8 = ground arith in
      let e12 : shift_right bcd 12 ≡ bcd / 2 ^ 12 = ground arith in
      rw (e8, e12, bit_and_low 4 (bcd / 2 ^ 8), bit_and_low 4 (bcd / 2 ^ 12))
        (omega (arith, d.0, d.1.0, d.1.1.0, d.1.1.1.0))

  hour_lem :
      u32 (bit_and (shift_right bcd 16) 15 + shift_right bcd 20 * 10) ≡ sent_value 2 (v / 65536)
  unfolding sent_value AreDecimal
  hour_lem =
      let e16 : shift_right bcd 16 ≡ bcd / 2 ^ 16 = ground arith in
      let e20 : shift_right bcd 20 ≡ bcd / 2 ^ 20 = ground arith in
      rw (e16, e20, bit_and_low 4 (bcd / 2 ^ 16))
        (omega (arith, d.0, d.1.0, d.1.1.0, d.1.1.1.0, d.1.1.1.1.0, d.1.1.1.1.1.0))

offset_lem :
    (b : ℕ)
    → (if has_bits b 0x40
        then u32 (2 ^ 32 - u32 (bit_and b 0x3E * (15 * 60)))
        else u32 (bit_and b 0x3E * (15 * 60)))
      ≡ offset_of b
offset_lem b =
    let east : u32 (bit_and b 0x3E * (15 * 60)) ≡ b / 2 % 32 * 1800 =
      omega (arith, bit_and_mask 5 1 b) in
    rw (east, bit_and_mask 1 6 b) (ground arith)

seconds_lem :
    (mjd utc : ℕ)
    → mjd < 2 ^ 20
    → utc < 2 ^ 20
    → u64 (u64 (mjd + (2 ^ 64 - 40587)) * 86400 + utc)
      ≡ u64 (mjd * 86400 + utc + (2 ^ 64 - 40587 * 86400))
seconds_lem mjd utc h k = omega arith

finish_time_lem :
    (time_min time_max : ℕ) (buffer : List ℕ) (mjd utc : ℕ)
    → mjd < 2 ^ 20
    → utc < 2 ^ 20
    → finish_time time_min time_max buffer mjd utc ≡ (
        let t = u64 (mjd * 86400 + utc + (2 ^ 64 - 40587 * 86400)) in
        if less64 t time_min || less64 time_max t
        then refused overflow
        else decoded t (offset_of (get_or buffer 11 0)))
unfolding finish_time
finish_time_lem time_min time_max buffer mjd utc h k =
    rw (offset_lem (get_or buffer 11 0), seconds_lem mjd utc h k)

sent_value-lt : (k v : ℕ) → all_sent k v ≡ true → sent_value k v < 10 ^ k
unfolding all_sent sent_value
sent_value-lt zero v e = omega arith
sent_value-lt (suc k) v e = ground (arith, pow-suc 10 k, sent_value-lt k (v / 16))

checks :
    (s m h : ℕ) (r x : TimeResult)
    → h < 100
    → (if ltb 60 s
        then r
        else if leb 60 m
        then r
        else if not (is_negative h) && leb 24 h
        then r
        else x)
      ≡ (if leb s 60 && ltb m 60 && ltb h 24 then x else r)
checks s m h r x lt = ground arith

-- The checks of the time of day.
time_of_day_lem :
    (time_min time_max : ℕ) (buffer : List ℕ) (mjd bcd v : ℕ)
    → mjd < 2 ^ 20
    → bcd < 2 ^ 24
    → bcd + 0x111111 ≡ v
    → AreDecimal 6 bcd
    → (sent_value 2 v < 100) × (sent_value 2 (v / 256) < 100) × (sent_value 2 (v / 65536) < 100)
    → time_of_day time_min time_max buffer mjd bcd ≡ (
        let t = u64 (mjd * 86400 + seconds_of_day v + (2 ^ 64 - 40587 * 86400)) in
        if leb (sent_value 2 v) 60
          && ltb (sent_value 2 (v / 256)) 60
          && ltb (sent_value 2 (v / 65536)) 24
        then (if less64 t time_min || less64 time_max t
            then refused overflow
            else decoded t (offset_of (get_or buffer 11 0)))
        else refused no_errno)
unfolding time_of_day
time_of_day_lem time_min time_max buffer mjd bcd v hm h sum d small =
    rw (second_lem bcd v h sum d, minute_lem bcd v h sum d, hour_lem bcd v h sum d)
      (checks (sent_value 2 v) (sent_value 2 (v / 256)) (sent_value 2 (v / 65536))
          (refused no_errno) (finish_time time_min time_max buffer mjd (seconds_of_day v)) small.2
        ∙ ap
            (λ (x : TimeResult).
              if leb (sent_value 2 v) 60
                && ltb (sent_value 2 (v / 256)) 60
                && ltb (sent_value 2 (v / 65536)) 24
              then x
              else refused no_errno)
            (finish_time_lem time_min time_max buffer mjd (seconds_of_day v) hm
              (omega (arith, small))))

over : (v : ℕ) → v / 65536 ≡ v / 256 / 256
over v = omega arith

two_digits :
    (k v : ℕ)
    → all_sent (suc (suc k)) v ≡ true
    → (sent_value 2 v < 100) × (all_sent k (v / 256) ≡ true)
unfolding all_sent
two_digits k v e =
    let deep : all_sent k (v / 16 / 16) ≡ true = ground arith in
    let head : all_sent 2 v ≡ true = ground arith in
    (sent_value-lt 2 v head, ap (all_sent k) (omega arith) ∙ deep)

-- On a packet of bytes vbi_decode_teletext_8301_local_time reads the five digits of the date
-- and the six of the time of day, which are sent incremented by one: it refuses any other
-- digit, more than 60 seconds, 60 minutes and 24 hours; what it then gives are the seconds
-- since the date 40587 and the offset, or an overflow outside the limits of the platform.
pub decode_teletext_8301_local_time_lem :
    (time_min time_max : ℕ) (buffer : List ℕ)
    → AreBytes buffer
    → decode_teletext_8301_local_time time_min time_max buffer ≡ local_time time_min time_max buffer
unfolding decode_teletext_8301_local_time local_time
decode_teletext_8301_local_time_lem time_min time_max buffer bytes =
    let date = date_word buffer in
    let time = time_word buffer in
    let hd : date < 2 ^ 20 = omega (arith, get_or-lt buffer 13 bytes, get_or-lt buffer 14 bytes) in
    let ht : time < 2 ^ 24 =
      omega
        (arith, get_or-lt buffer 15 bytes, get_or-lt buffer 16 bytes, get_or-lt buffer 17 bytes) in
    rw (bit_and_low 4 (get_or buffer 12 0), date_digits date hd, time_digits time ht)
      (elim (Bool-cases (all_sent 5 date)) [
        | inr out ↦ rw out refl
        | inl dated ↦ elim (Bool-cases (all_sent 6 time)) [
          | inr out ↦ rw (dated, out) refl
          | inl sent ↦
              let d = received_date date hd dated in
              let t = received_time time ht sent in
              let minutes = two_digits 4 time sent in
              let hours = two_digits 2 (time / 256) minutes.1 in
              let last = two_digits 0 (time / 256 / 256) hours.1 in
              let hour_small : sent_value 2 (time / 65536) < 100 =
                omega (arith, ap (sent_value 2) (over time), last.0) in
              let bcd = u32 (date + (2 ^ 32 - 0x11111)) in
              let value_small = sent_value-lt 5 date dated in
              rw (dated, sent, bcd2bin-value bcd d.0, d.1)
                (time_of_day_lem time_min time_max buffer (sent_value 5 date)
                  (u32 (time + (2 ^ 32 - 0x111111))) time (omega (arith, value_small)) t.0 t.1 t.2
                  (minutes.0, hours.0, hour_small))
        ]
      ])
