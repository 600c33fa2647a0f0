-- ===== src/Xds/Safety.antt =====
-- The memory safety of `vbi_xds_demux_feed`.
use zvbi.Hamm.{unpar8}
use zvbi.Xds.Invariant.{IsValid, IsCurrent, set-AreSound, set-IsCurrent, discard-IsValid}
use zvbi.Xds.{
  XdsPacket, XdsSubpacket, XdsDemux, XdsResult, subpacket_at, set_subpacket, empty_subpacket,
  discard, header, store_byte, completed, terminator, contents_pair, dispatch, feed, quietly,
  reset_all, init,
}
use zvbi.Prelude.{
  ℕ, zero, suc, ◌+◌, ◌-◌, ◌*◌, ◌/◌, ◌^◌, ◌<◌, ◌≤◌, ◌≡◌, ◌≢◌, refl, ap, ◌∙◌, inl, inr, List, [], ◌∷◌,
  ◌++◌, length, get_or, set, take, drop, length-set, Option, none, some, ◌==◌, ltb, leb, ◌&&◌, ◌||◌,
  not, Bool, true, false, Bool-cases, if◌then◌else◌, u32, has_bits, is_negative, bit_or, Outcome,
  returns, out_of_bounds, out_of_fuel, Ends, memcpy-returns, length-memcpy, lt→ltb, arith,
}

-- A current subpacket with room for one more character only.
unfoldable pub almost_full : XdsDemux → Option ℕ → Bool
almost_full xd none = false
almost_full xd (some k) = (subpacket_at xd k).count == 33

-- What a call does: it writes outside the buffer where it overruns it, and else returns a valid
-- demultiplexer.
abbrev pub Settles : Bool → Outcome XdsResult → Type 0
Settles true o = o ≡ out_of_bounds
Settles false o = Ends (λ r. IsValid r.0) o

header-IsValid : (xd : XdsDemux) (c1 c2 : ℕ) → IsValid xd → 1 ≤ c1 → IsValid (header xd c1 c2)
unfolding header IsValid
header-IsValid xd c1 c2 v h =
    let xds_class = (c1 - 1) / 2 in
    let i = if leb 0x40 c2 then c2 + 0x10 - 0x40 else c2 in
    let k = xds_class * 24 + i in
    let sp = subpacket_at xd k in
    elim (Bool-cases (ltb 3 xds_class || ltb 24 i)) [
      | inl out ↦ rw (out) (discard-IsValid xd xd.curr_sp v.0 v.1 v.2)
      | inr known ↦
          let inside : k < 168 = ground arith in
          let old = v.0.1 k inside in
          elim (Bool-cases (has_bits c1 1)) [
            | inl start ↦
                rw (known, start)
                  (
                    set-AreSound xd.subpackets k _ v.0 (old.0, inr (omega arith, omega arith)),
                    v.1,
                    set-IsCurrent xd.subpackets k _ v.0.0 inside (omega arith),
                  )
            | inr more ↦ elim (Bool-cases (0 == sp.count)) [
              | inl missed ↦
                  rw (known, more, missed)
                    (set-AreSound xd.subpackets k _ v.0 (old.0, inl refl), v.1, tt)
              | inr going ↦ rw (known, more, going) (v.0, v.1, (inside, ground (arith, old.1)))
            ]
          ]
    ]

pub stored : (b : List ℕ) (i x : ℕ) → i < length b → store_byte b i x ≡ returns (set b i x)
unfolding store_byte
stored b i x h = rw (lt→ltb i (length b) h) refl

not_stored : (b : List ℕ) (i x : ℕ) → length b ≤ i → store_byte b i x ≡ out_of_bounds
unfolding store_byte
not_stored b i x h = ground arith

pub completed-returns :
    (curr : XdsPacket) (sp : XdsSubpacket)
    → length curr.buffer ≡ 36
    → length sp.contents ≡ 32
    → 2 ≤ sp.count
    → sp.count ≤ 34
    → completed curr sp
      ≡ returns (record curr {
        buffer_size = sp.count - 2;
        buffer = set (take 32 sp.contents ++ drop 32 curr.buffer) (sp.count - 2) 0;
      })
unfolding completed
completed-returns curr sp h k low high =
    let index : u32 (sp.count + (2 ^ 32 - 2)) ≡ sp.count - 2 = omega arith in
    let room = length-memcpy curr.buffer 0 sp.contents 0 32 (omega arith) (omega arith) in
    rw
      (
        memcpy-returns curr.buffer 0 sp.contents 0 32 (omega arith) (omega arith),
        index,
        stored (take 32 sp.contents ++ drop 32 curr.buffer) (sp.count - 2) 0 (omega (arith, room)),
      )
      refl

-- Contents of a subpacket with one place left are written behind its buffer.
contents_pair-overruns :
    (xd : XdsDemux) (c1 c2 k : ℕ)
    → length (subpacket_at xd k).contents ≡ 32
    → (subpacket_at xd k).count ≡ 33
    → contents_pair xd (some k) c1 c2 ≡ out_of_bounds
unfolding contents_pair
contents_pair-overruns xd c1 c2 k size e =
    let b = (subpacket_at xd k).contents in
    rw
      (
        e,
        stored b 31 c1 (omega arith),
        not_stored (set b 31 c1) 32 c2 (omega (arith, length-set b 31 c1)),
      )
      refl

contents_pair-IsValid :
    (xd : XdsDemux) (c1 c2 k : ℕ)
    → IsValid xd
    → xd.curr_sp ≡ some k
    → IsCurrent xd.subpackets (some k)
    → (subpacket_at xd k).count ≢ 33
    → Ends IsValid (contents_pair xd (some k) c1 c2)
unfolding contents_pair IsValid
contents_pair-IsValid xd c1 c2 k v here current e =
    let sp = subpacket_at xd k in
    let b = sp.contents in
    let size = (v.0.1 k current.0).0 in
    elim (Bool-cases (leb 34 sp.count)) [
      | inl full ↦ rw full (discard-IsValid xd (some k) v.0 v.1 current)
      | inr fits ↦
          let at : u32 (sp.count + (2 ^ 32 - 2)) ≡ sp.count - 2 = ground (arith, current.1) in
          let next : u32 (sp.count + (2 ^ 32 - 1)) ≡ sp.count - 1 = ground (arith, current.1) in
          let first = stored b (sp.count - 2) c1 (ground (arith, current.1)) in
          let second =
            stored (set b (sp.count - 2) c1) (sp.count - 1) c2
              (ground (arith, current.1, length-set b (sp.count - 2) c1)) in
          rw (fits, at, next, first, second, here)
            (
              set-AreSound xd.subpackets k _ v.0 (
                length-set (set b (sp.count - 2) c1) (sp.count - 1) c2
                    ∙ length-set b (sp.count - 2) c1
                    ∙ size,
                inr (ground (arith, current.1), ground (arith, current.1)),
              ),
              v.1,
              set-IsCurrent xd.subpackets k _ v.0.0 current.0 (ground (arith, current.1)),
            )
    ]

-- A terminator returns: the packet that the callback is given fits its buffer.
terminator-IsValid :
    (callback : XdsPacket → Bool) (xd : XdsDemux) (sp : Option ℕ) (c1 c2 : ℕ)
    → IsValid xd
    → IsCurrent xd.subpackets sp
    → Ends (λ r. IsValid r.0) (terminator callback xd sp c1 c2)
unfolding terminator IsValid
terminator-IsValid callback xd none c1 c2 v current = discard-IsValid xd none v.0 v.1 current
terminator-IsValid callback xd (some k) c1 c2 v current =
    let sp = subpacket_at xd k in
    let sound = v.0.1 k current.0 in
    let summed : XdsSubpacket = record sp { checksum = u32 (sp.checksum + (c1 + c2)) } in
    let after = set-AreSound xd.subpackets k summed v.0 sound in
    let current' = set-IsCurrent xd.subpackets k summed v.0.0 current.0 current.1 in
    elim (Bool-cases (has_bits summed.checksum 0x7F || leb summed.count 2)) [
      | inl bad ↦ rw bad (discard-IsValid (set_subpacket xd k summed) (some k) after v.1 current')
      | inr good ↦
          let most : sp.count ≤ 34 = ground (arith, sound.1, current.1) in
          let whole = completed-returns xd.curr summed v.1 sound.0 current.1 most in
          let size =
            length-set (take 32 summed.contents ++ drop 32 xd.curr.buffer) (summed.count - 2) 0
            ∙ length-memcpy xd.curr.buffer 0 summed.contents 0 32 (omega (arith, v.1))
                (omega (arith, sound.0))
            ∙ v.1 in
          rw (good, whole) (set-AreSound _ k _ after ((after.1 k current.0).0, inl refl), size, tt)
    ]

contents_none :
    (xd : XdsDemux) (c1 c2 : ℕ)
    → IsValid xd
    → Ends (λ r. IsValid r.0) (quietly (contents_pair xd none c1 c2))
unfolding contents_pair
contents_none xd c1 c2 v = v

quietly-Ends : (o : Outcome XdsDemux) → Ends IsValid o → Ends (λ r. IsValid r.0) (quietly o)
quietly-Ends (returns xd) h = h
quietly-Ends out_of_bounds h = h
quietly-Ends out_of_fuel h = h

IsValid-size :
    (xd : XdsDemux) (k : ℕ) → IsValid xd → k < 168 → length (subpacket_at xd k).contents ≡ 32
unfolding IsValid
IsValid-size xd k v h = (v.0.1 k h).0

-- The contents branch, both ways.
contents-Settles :
    (xd : XdsDemux) (sp : Option ℕ) (c1 c2 : ℕ)
    → IsValid xd
    → xd.curr_sp ≡ sp
    → IsCurrent xd.subpackets sp
    → Settles (almost_full xd sp) (quietly (contents_pair xd sp c1 c2))
unfolding almost_full
contents-Settles xd none c1 c2 v here current = contents_none xd c1 c2 v
contents-Settles xd (some k) c1 c2 v here current =
    elim (Bool-cases ((subpacket_at xd k).count == 33)) [
      | inl full ↦
          rw
            (full, contents_pair-overruns xd c1 c2 k (IsValid-size xd k v current.0) (ground arith))
            refl
      | inr room ↦ rw room (
          quietly-Ends (contents_pair xd (some k) c1 c2)
            (contents_pair-IsValid xd c1 c2 k v here current (λ e. ground arith)))
    ]

IsValid-IsCurrent : (xd : XdsDemux) → IsValid xd → IsCurrent xd.subpackets xd.curr_sp
unfolding IsValid
IsValid-IsCurrent xd v = v.2

-- Stuffing and caption characters.
idle-IsValid : (xd : XdsDemux) → IsValid xd → IsValid (record xd { curr_sp = none })
unfolding IsValid
idle-IsValid xd v = (v.0, v.1, tt)

errors-IsValid : (xd : XdsDemux) → IsValid xd → IsValid (discard xd xd.curr_sp)
unfolding IsValid
errors-IsValid xd v = discard-IsValid xd xd.curr_sp v.0 v.1 v.2

-- Contents for a subpacket with one place left.
unfoldable pub overruns : XdsDemux → ℕ → Bool
unfolding almost_full
overruns xd c1 = leb 0x20 c1 && almost_full xd xd.curr_sp

dispatch-Settles :
    (callback : XdsPacket → Bool) (xd : XdsDemux) (c1 c2 : ℕ)
    → IsValid xd
    → Settles (overruns xd c1) (dispatch callback xd c1 c2)
unfolding dispatch overruns
dispatch-Settles callback xd c1 c2 v = elim (Bool-cases (0 == c1)) [
  | inl stuffing ↦ let low : leb 0x20 c1 ≡ false = ground arith in rw (low, stuffing) v
  | inr something ↦ elim (Bool-cases (leb c1 0x0E)) [
    | inl head ↦
        let low : leb 0x20 c1 ≡ false = ground arith in
        rw (low, something, head) (header-IsValid xd c1 c2 v (ground arith))
    | inr later ↦ elim (Bool-cases (0x0F == c1)) [
      | inl last ↦
          let low : leb 0x20 c1 ≡ false = ground arith in
          rw (low, something, later, last)
            (terminator-IsValid callback xd xd.curr_sp c1 c2 v (IsValid-IsCurrent xd v))
      | inr other ↦ elim (Bool-cases (leb c1 0x1F)) [
        | inl caption ↦
            let low : leb 0x20 c1 ≡ false = ground arith in
            rw (low, something, later, other, caption) (idle-IsValid xd v)
        | inr pair ↦
            let high : leb 0x20 c1 ≡ true = ground arith in
            rw (high, something, later, other, pair)
              (contents-Settles xd xd.curr_sp c1 c2 v refl (IsValid-IsCurrent xd v))
      ]
    ]
  ]
]

-- vbi_xds_demux_feed, for a valid demultiplexer, writes outside an array exactly if the bytes
-- have correct parity, the first is a character of the contents, and the current subpacket
-- has 33 bytes with its header; else it returns, and the demultiplexer stays valid.
pub feed-Settles :
    (callback : XdsPacket → Bool) (xd : XdsDemux) (b0 b1 : ℕ)
    → IsValid xd
    → Settles
        (not (is_negative (bit_or (unpar8 b0) (unpar8 b1))) && overruns xd (unpar8 b0))
        (feed callback xd b0 b1)
unfolding feed
feed-Settles callback xd b0 b1 v =
    elim (Bool-cases (is_negative (bit_or (unpar8 b0) (unpar8 b1)))) [
      | inl error ↦ rw error (errors-IsValid xd v)
      | inr fine ↦ rw fine (dispatch-Settles callback xd (unpar8 b0) (unpar8 b1) v)
    ]

reset_all_sound :
    (sps : List XdsSubpacket) (k : ℕ)
    → (length (get_or (reset_all sps) k empty_subpacket).contents
        ≡ length (get_or sps k empty_subpacket).contents)
      × ((get_or (reset_all sps) k empty_subpacket).count ≡ 0)
unfolding reset_all
reset_all_sound [] k = (refl, refl)
reset_all_sound (sp ∷ sps) zero = (refl, refl)
reset_all_sound (sp ∷ sps) (suc k) = reset_all_sound sps k

length-reset_all : (sps : List XdsSubpacket) → length (reset_all sps) ≡ length sps
unfolding reset_all
length-reset_all [] = refl
length-reset_all (sp ∷ sps) = ap suc (length-reset_all sps)

-- _vbi_xds_demux_init makes of any memory of the right size a valid demultiplexer.
pub init-IsValid :
    (memory : XdsDemux)
    → length memory.subpackets ≡ 168
    → ((k : ℕ) → k < 168 → length (subpacket_at memory k).contents ≡ 32)
    → length memory.curr.buffer ≡ 36
    → IsValid (init memory)
unfolding init IsValid
init-IsValid memory size sizes curr = (
  (
    length-reset_all memory.subpackets ∙ size,
    λ k h. let r = reset_all_sound memory.subpackets k in (r.0 ∙ sizes k h, inl r.1),
  ),
  curr,
  tt,
)
