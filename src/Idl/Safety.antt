-- ===== src/Idl/Safety.antt =====
-- `vbi_idl_demux_feed` on a packet of 42 bytes.
use zvbi.Hamm.{unham8}
use zvbi.Idl.Crc.{crc_loop}
use zvbi.Idl.Demux.{
  IdlFormat, format_a, format_b, datavideo, audetel, lbra, IdlDemux, check_repeat, check_continuity,
  spa_loop, deliver, check_packet, idl_a_demux_feed, feed,
}
use zvbi.Idl.Flags.{no_flags}
use zvbi.Idl.Kept.{data_loop-start_hist}
use zvbi.Prelude.Bits.Fields.{bit_and_low}
use zvbi.Prelude.{
  ℕ, ◌+◌, ◌-◌, ◌≤◌, ◌<◌, ◌≡◌, inl, inr, Bool, true, false, Bool-cases, not, ◌||◌, List, min,
  bit_and, bit_or, bit_xor, ◌==◌, if◌then◌else◌, length, has_bits, is_negative, ◌<<<◌, returns,
  read, Ends, Ends-after, read-Ends, AreBytes, read-get_or, get_or, arith,
}
use zvbi.Idl.Invariant.{
  IsValid, IsByte, Anything, Keeps, stays, check_repeat-IsValid, check_continuity-IsValid,
  damaged-IsValid, crc_loop-Ends, spa_loop-Ends, filter-same, damaged-same, check_repeat-same,
}

module _ {U : Type 0} (callback : U → List ℕ → ℕ → U × Bool) where
  deliver-Ends :
      (memory : List ℕ) (start dx : IdlDemux) (u : U) (buffer : List ℕ) (ft ial ci k : ℕ)
      → length memory ≡ 256
      → Keeps start ((dx, u), true)
      → AreBytes buffer
      → length buffer ≡ 42
      → ci < 256
      → k ≤ 12
      → Ends (Keeps start) (deliver callback memory dx u buffer ft ial ci k)
  unfolding deliver
  deliver-Ends memory start dx u buffer ft ial ci k size v bytes n h inside =
      let length_byte = get_or buffer k 0 in
      let k' = if has_bits ft 8 then k + 1 else k in
      let dl = if has_bits ft 8 then min (bit_and length_byte 0x3f) (40 - k') else 40 - k' in
      let fits : k' + dl ≤ 40 = ground arith in
      rw
        (
          read-get_or buffer k (omega arith),
          data_loop-start_hist memory buffer ci dl k' size h bytes (omega arith) (omega arith),
        )
        (
          record {
            continuity = v.0.continuity;
            repeat = v.0.repeat;
            no_other_flag = omega (arith, no_flags dx.flags v.0.no_other_flag);
          },
          v.1,
        )

  check_packet-Ends :
      (table memory : List ℕ) (dx : IdlDemux) (u : U) (buffer : List ℕ) (ft ial ri k : ℕ)
      → length table ≡ 256
      → length memory ≡ 256
      → IsValid dx
      → AreBytes buffer
      → length buffer ≡ 42
      → ri < 256
      → k ≤ 11
      → Ends (Keeps dx) (check_packet callback table memory dx u buffer ft ial ri k)
  unfolding check_packet
  check_packet-Ends table memory dx u buffer ft ial ri k table_size size v bytes n h inside =
      Ends-after Anything (Keeps dx) (crc_loop table (42 - k) buffer k 0) _
        (crc_loop-Ends table (42 - k) buffer k 0 table_size bytes (omega arith))
        (λ sum _.
          Ends-after IsByte (Keeps dx) (read buffer k) _ (read-Ends buffer k bytes (omega arith))
            (λ ci_byte byte.
              let ci = if has_bits ft 4 then ci_byte else bit_and sum 0xff in
              let crc = if has_bits ft 4 then sum else bit_xor sum (bit_or ci (ci <<< 8)) in
              let k' = if has_bits ft 4 then k + 1 else k in
              let s = check_repeat dx ri in
              let ci_small : ci < 256 = ground (arith, bit_and_low 8 sum, byte) in
              elim (Bool-cases (crc == 0)) [
                | inr bad ↦ rw bad (damaged-IsValid dx ri v h, damaged-same dx ri)
                | inl good ↦ elim (Bool-cases s.1) [
                  | inr unused ↦
                      rw (good, unused) (check_repeat-IsValid dx ri v, check_repeat-same dx ri)
                  | inl used ↦
                      rw (good, used)
                        (deliver-Ends memory dx (check_continuity s.0 ci) u buffer ft ial ci k' size
                          (
                            check_continuity-IsValid s.0 ci (check_repeat-IsValid dx ri v) ci_small,
                            filter-same dx ri ci,
                          )
                          bytes n ci_small (ground arith))
                ]
              ]))

  idl_a_demux_feed-Ends :
      (table memory : List ℕ) (dx : IdlDemux) (u : U) (buffer : List ℕ) (ft : ℕ)
      → length table ≡ 256
      → length memory ≡ 256
      → IsValid dx
      → AreBytes buffer
      → length buffer ≡ 42
      → Ends (Keeps dx) (idl_a_demux_feed callback table memory dx u buffer ft)
  unfolding idl_a_demux_feed
  idl_a_demux_feed-Ends table memory dx u buffer ft table_size size v bytes n =
      let ial = unham8 (get_or buffer 3 0) in
      let len = bit_and ial 7 in
      let len_small : len < 8 = omega (arith, bit_and_low 3 ial) in
      rw (read-get_or buffer 3 (omega arith)) (elim (Bool-cases (is_negative ial)) [
        | inl bad ↦ rw bad (stays dx u false v)
        | inr good ↦ elim (Bool-cases (len == 7)) [
          | inl reserved ↦ rw (good, reserved) (stays dx u true v)
          | inr address ↦
              let short : len ≤ 6 = ground arith in
              rw (good, address)
                (Ends-after Anything (Keeps dx) (spa_loop len buffer 0 0) _
                  (spa_loop-Ends len buffer 0 0 bytes (omega arith))
                  (λ spa _.
                    Ends-after IsByte (Keeps dx) (read buffer (4 + len)) _
                      (read-Ends buffer (4 + len) bytes (omega arith))
                      (λ ri byte. elim (Bool-cases (is_negative spa)) [
                        | inl negative ↦ rw negative (stays dx u false v)
                        | inr fine ↦ elim (Bool-cases (spa == dx.address)) [
                          | inr elsewhere ↦ rw (fine, elsewhere) (stays dx u true v)
                          | inl ours ↦ elim (Bool-cases (has_bits ft 2)) [
                            | inl repeats ↦
                                rw (fine, ours, repeats)
                                  (check_packet-Ends table memory dx u buffer ft ial ri
                                    (4 + len + 1) table_size size v bytes n byte (omega arith))
                            | inr once ↦
                                rw (fine, ours, once)
                                  (check_packet-Ends table memory dx u buffer ft ial 0 (4 + len)
                                    table_size size v bytes n (omega arith) (omega arith))
                          ]
                        ]
                      ])))
        ]
      ])

  -- vbi_idl_demux_feed, for a valid demultiplexer and a packet of 42 bytes, returns and
  -- neither reads nor writes outside an array; the demultiplexer stays valid and keeps its
  -- format, channel and address.
  pub feed-Keeps :
      (table memory : List ℕ) (dx : IdlDemux) (u : U) (buffer : List ℕ)
      → length table ≡ 256
      → length memory ≡ 256
      → IsValid dx
      → AreBytes buffer
      → length buffer ≡ 42
      → Ends (Keeps dx) (feed callback table memory dx u buffer)
  unfolding feed
  feed-Keeps table memory dx u buffer table_size size v bytes n =
      let channel = unham8 (get_or buffer 0 0) in
      let designation = unham8 (get_or buffer 1 0) in
      rw
        (
          read-get_or buffer 0 (omega arith),
          read-get_or buffer 1 (omega arith),
          read-get_or buffer 2 (omega arith),
        )
        (elim (Bool-cases (is_negative (bit_or channel designation))) [
          | inl bad ↦ rw bad (stays dx u false v)
          | inr good ↦ elim (Bool-cases (not (designation == 15) || not (channel == dx.channel))) [
            | inl elsewhere ↦ rw (good, elsewhere) (stays dx u true v)
            | inr ours ↦ rw (good, ours) (by_format dx.format (unham8 (get_or buffer 2 0)))
          ]
        ])
    where
      by_format :
          (format : IdlFormat) (ft : ℕ)
          → Ends (Keeps dx) (elim format [
            | format_a ↦
                if is_negative ft
                then returns ((dx, u), false)
                else if bit_and ft 1 == 0
                then idl_a_demux_feed callback table memory dx u buffer ft
                else returns ((dx, u), true)
            | format_b ↦
                if is_negative ft
                then returns ((dx, u), false)
                else returns ((dx, u), not (bit_and ft 3 == 1))
            | datavideo ↦ returns ((dx, u), false)
            | audetel ↦ returns ((dx, u), false)
            | lbra ↦ returns ((dx, u), false)
          ])
      by_format format_a ft = elim (Bool-cases (is_negative ft)) [
        | inl bad ↦ rw bad (stays dx u false v)
        | inr good ↦ elim (Bool-cases (bit_and ft 1 == 0)) [
          | inl a ↦
              rw (good, a)
                (idl_a_demux_feed-Ends table memory dx u buffer ft table_size size v bytes n)
          | inr b ↦ rw (good, b) (stays dx u true v)
        ]
      ]
      by_format format_b ft = elim (Bool-cases (is_negative ft)) [
        | inl bad ↦ rw bad (stays dx u false v)
        | inr good ↦ rw good (stays dx u (not (bit_and ft 3 == 1)) v)
      ]
      by_format datavideo ft = stays dx u false v
      by_format audetel ft = stays dx u false v
      by_format lbra ft = stays dx u false v
