-- ===== src/Idl/Demux.antt =====
-- src/idl_demux.h and src/idl_demux.c: the state and the functions of the demultiplexer. The client's
-- callback is a parameter and `user_data` its state; `table` is the static `idl_a_crc_table`,
-- `memory` the content of the array `hist` before it is set.
use zvbi.Hamm.{unham8}
use zvbi.Idl.Crc.{init_crc16_table, crc_loop}
use zvbi.Idl.Data.{data_loop, start_hist}
use zvbi.Sliced.{Sliced, teletext_b_625}
use zvbi.Prelude.{
  ℕ, zero, suc, ◌+◌, ◌-◌, ◌*◌, Bool, true, false, not, ◌||◌, List, [], ◌∷◌, bit_and, bit_or,
  bit_xor, min, leb, ◌==◌, if◌then◌else◌, get_or, u32, is_negative, minus_one, complement, has_bits,
  ◌<<<◌, Outcome, returns, ◌>>=◌, read,
}

-- `_vbi_idl_format`.
pub data IdlFormat : Type 0 where
  format_a : IdlFormat
  format_b : IdlFormat
  datavideo : IdlFormat
  audetel : IdlFormat
  lbra : IdlFormat

-- `struct _vbi_idl_demux`, without the callback.
pub record IdlDemux : Type 0 where
  pub format : IdlFormat
  pub channel : ℕ
  pub address : ℕ
  pub ci : ℕ
  pub ri : ℕ
  pub flags : ℕ

abbrev pub data_lost : ℕ
data_lost = 1

abbrev pub dependent : ℕ
dependent = 8

-- `vbi_idl_demux_reset`.
unfoldable pub reset : IdlDemux → IdlDemux
reset dx = record dx { ci = minus_one; ri = minus_one }

-- `_vbi_idl_demux_init`, on fresh memory of any content; the first result is the static table.
unfoldable pub init : List ℕ → IdlDemux → IdlFormat → ℕ → ℕ → (List ℕ × IdlDemux) × Bool
unfolding reset init_crc16_table
init table memory format channel address =
    let set_up = reset (record memory { format = format; channel = channel; address = address }) in
    if leb 16 channel then ((table, memory), false) else elim format [
      | format_a ↦ if leb 0x1000000 address then ((table, memory), false) else (
        (if get_or table 1 0 == 0 then init_crc16_table table 0x8940 else table, set_up),
        true,
      )
      | _ ↦ ((table, set_up), true)
    ]

-- The service packet address from its `n` digits.
unfoldable pub spa_loop : ℕ → List ℕ → ℕ → ℕ → Outcome ℕ
spa_loop zero buffer i spa = returns spa
spa_loop (suc n) buffer i spa =
    read buffer (4 + i) >>= λ b. spa_loop n buffer (i + 1) (bit_or spa (u32 (unham8 b <<< (4 * i))))

-- Packets were lost.
abbrev pub lose : IdlDemux → IdlDemux
lose dx = record dx { ci = minus_one; ri = minus_one; flags = bit_or dx.flags data_lost }

-- The packet is damaged.
unfoldable pub damaged : IdlDemux → ℕ → IdlDemux
damaged dx ri = if bit_and ri 0x80 == 0 then lose dx else record dx { ri = ri + 1 }

-- The repeat indicator: the state, and whether the packet is used.
unfoldable pub check_repeat : IdlDemux → ℕ → IdlDemux × Bool
check_repeat dx ri =
    if not (is_negative dx.ri)
    then (if has_bits (bit_xor ri dx.ri) 0xf then (lose dx, not (has_bits ri 0xf)) else (dx, true))
    else (dx, not (has_bits ri 0xf))

-- The continuity indicator.
unfoldable pub check_continuity : IdlDemux → ℕ → IdlDemux
check_continuity dx ci =
    if not (is_negative dx.ci)
    then (if has_bits (bit_xor ci dx.ci) 0xff
        then record dx { ci = ci + 1; flags = bit_or dx.flags data_lost }
        else record dx { ci = ci + 1 })
    else record dx { ci = ci + 1 }

module _ {U : Type 0} (callback : U → List ℕ → ℕ → U × Bool) where
  -- What comes after the checks, from column `k` on: the user data are given to the callback.
  unfoldable pub deliver :
      List ℕ → IdlDemux → U → List ℕ → ℕ → ℕ → ℕ → ℕ → Outcome ((IdlDemux × U) × Bool)
  unfolding start_hist data_loop
  deliver memory dx u buffer ft ial ci k = do
    length_byte ← read buffer k
    let k' = if has_bits ft 8 then k + 1 else k
    let dl = if has_bits ft 8 then min (bit_and length_byte 0x3f) (40 - k') else 40 - k'
    buf ← data_loop dl buffer k' (start_hist memory ci) []
    let flags = bit_or dx.flags (bit_and ial dependent)
    let dx' = record dx { flags = bit_and dx.flags (complement data_lost) }
    let (u', ok) = callback u buf dx'.flags
    returns ((dx', u'), ok)

  -- The checks of the packet, with the repeat indicator `ri` and from column `k` on.
  unfoldable pub check_packet :
      List ℕ → List ℕ → IdlDemux → U → List ℕ → ℕ → ℕ → ℕ → ℕ → Outcome ((IdlDemux × U) × Bool)
  unfolding crc_loop damaged check_repeat check_continuity deliver
  check_packet table memory dx u buffer ft ial ri k = do
    sum ← crc_loop table (42 - k) buffer k 0
    ci_byte ← read buffer k
    let ci = if has_bits ft 4 then ci_byte else bit_and sum 0xff
    let crc = if has_bits ft 4 then sum else bit_xor sum (bit_or ci (ci <<< 8))
    let k' = if has_bits ft 4 then k + 1 else k
    let (dx', used) = check_repeat dx ri
    (if not (crc == 0)
        then returns ((damaged dx ri, u), false)
        else if not used
        then returns ((dx', u), true)
        else deliver memory (check_continuity dx' ci) u buffer ft ial ci k')

  -- `idl_a_demux_feed`.
  unfoldable pub idl_a_demux_feed :
      List ℕ → List ℕ → IdlDemux → U → List ℕ → ℕ → Outcome ((IdlDemux × U) × Bool)
  unfolding spa_loop check_packet
  idl_a_demux_feed table memory dx u buffer ft = do
    b3 ← read buffer 3
    let ial = unham8 b3
    let spa_length = bit_and ial 7
    (if is_negative ial
        then returns ((dx, u), false)
        else if spa_length == 7
        then returns ((dx, u), true)
        else (spa_loop spa_length buffer 0 0 >>= λ spa. read buffer (4 + spa_length) >>= λ ri.
            if is_negative spa
            then returns ((dx, u), false)
            else if not (spa == dx.address)
            then returns ((dx, u), true)
            else if has_bits ft 2
            then check_packet table memory dx u buffer ft ial ri (4 + spa_length + 1)
            else check_packet table memory dx u buffer ft ial 0 (4 + spa_length)))

  -- `vbi_idl_demux_feed`. The functions for the other formats do nothing and return FALSE.
  unfoldable pub feed : List ℕ → List ℕ → IdlDemux → U → List ℕ → Outcome ((IdlDemux × U) × Bool)
  unfolding idl_a_demux_feed
  feed table memory dx u buffer = do
    b0 ← read buffer 0
    b1 ← read buffer 1
    b2 ← read buffer 2
    let channel = unham8 b0
    let designation = unham8 b1
    let ft = unham8 b2
    (if is_negative (bit_or channel designation)
        then returns ((dx, u), false)
        else if not (designation == 15) || not (channel == dx.channel)
        then returns ((dx, u), true)
        else elim dx.format [
          | format_a ↦
              if is_negative ft
              then returns ((dx, u), false)
              else if bit_and ft 1 == 0
              then idl_a_demux_feed table memory dx u buffer ft
              else returns ((dx, u), true)
          | format_b ↦
              if is_negative ft
              then returns ((dx, u), false)
              else returns ((dx, u), not (bit_and ft 3 == 1))
          | datavideo ↦ returns ((dx, u), false)
          | audetel ↦ returns ((dx, u), false)
          | lbra ↦ returns ((dx, u), false)
        ])

  -- `vbi_idl_demux_feed_frame`; each call has its own memory for `hist`.
  unfoldable pub feed_frame :
      List ℕ → (ℕ → List ℕ) → IdlDemux → U → List Sliced → Outcome ((IdlDemux × U) × Bool)
  unfolding feed
  feed_frame table memory dx u [] = returns ((dx, u), true)
  feed_frame table memory dx u (line ∷ lines) = elim (has_bits line.id teletext_b_625) [
    | true ↦ feed table (memory 0) dx u line.bytes >>= λ r. elim r.1 [
      | true ↦ feed_frame table (λ n. memory (suc n)) r.0.0 r.0.1 lines
      | false ↦ returns r
    ]
    | false ↦ feed_frame table memory dx u lines
  ]
