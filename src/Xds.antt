-- ===== src/Xds.antt =====
-- src/xds_demux.c and xds_demux.h: the demultiplexer of Extended Data Service packets.
mod Invariant
pub mod Safety
mod Collect
pub mod Deliver
mod Tests
use zvbi.Hamm.{unpar8}
use zvbi.Prelude.{
  ℕ, ◌+◌, ◌-◌, ◌*◌, ◌/◌, ◌^◌, Bool, true, false, not, ◌&&◌, ◌||◌, List, [], ◌∷◌, ◌++◌, bit_and,
  bit_or, ltb, leb, ◌==◌, if◌then◌else◌, u32, ◌>>>◌, has_bits, is_negative, length, get_or, set,
  replicate, Option, none, some, Outcome, returns, out_of_bounds, ◌>>=◌, memcpy,
}

-- `vbi_xds_packet`: its buffer has 36 bytes.
pub record XdsPacket : Type 0 where
  pub xds_class : ℕ
  pub xds_subclass : ℕ
  pub buffer_size : ℕ
  pub buffer : List ℕ

-- `_vbi_xds_subpacket`: its buffer has 32 bytes.
pub record XdsSubpacket : Type 0 where
  pub contents : List ℕ
  pub count : ℕ
  pub checksum : ℕ

-- `struct _vbi_xds_demux`, without the callback. The two-dimensional array of subpackets is one row
-- after the other, as `vbi_xds_demux_reset` walks it; `curr_sp` is an index into it.
pub record XdsDemux : Type 0 where
  pub subpackets : List XdsSubpacket
  pub curr : XdsPacket
  pub curr_sp : Option ℕ

-- VBI_XDS_CLASS_MISC and VBI_XDS_MAX_SUBCLASSES.
abbrev pub class_misc : ℕ
class_misc = 3

abbrev pub max_subclasses : ℕ
max_subclasses = 0x18

abbrev pub empty_subpacket : XdsSubpacket
empty_subpacket = record { contents = []; count = 0; checksum = 0 }

abbrev pub subpacket_at : XdsDemux → ℕ → XdsSubpacket
subpacket_at xd k = get_or xd.subpackets k empty_subpacket

abbrev pub set_subpacket : XdsDemux → ℕ → XdsSubpacket → XdsDemux
set_subpacket xd k sp = record xd { subpackets = set xd.subpackets k sp }

-- `vbi_xds_demux_reset`.
unfoldable pub reset_all : List XdsSubpacket → List XdsSubpacket
reset_all [] = []
reset_all (sp ∷ sps) = record sp { count = 0 } ∷ reset_all sps

unfoldable pub reset : XdsDemux → XdsDemux
unfolding reset_all
reset xd = record xd { subpackets = reset_all xd.subpackets; curr_sp = none }

-- `if (sp) { sp->count = 0; sp->checksum = 0; }`
unfoldable pub clear_count : XdsDemux → Option ℕ → XdsDemux
clear_count xd none = xd
clear_count xd (some k) =
    set_subpacket xd k (record (subpacket_at xd k) { count = 0; checksum = 0 })

-- From `discard:` on.
unfoldable pub discard : XdsDemux → Option ℕ → XdsDemux
unfolding clear_count
discard xd sp = record (clear_count xd sp) { curr_sp = none }

-- The case of a packet header.
unfoldable pub header : XdsDemux → ℕ → ℕ → XdsDemux
unfolding discard
header xd c1 c2 =
    let xds_class = (c1 - 1) >>> 1 in
    let i = if leb 0x40 c2 then c2 + 0x10 - 0x40 else c2 in
    let k = xds_class * max_subclasses + i in
    let sp = subpacket_at xd k in
    let curr = record xd.curr { xds_class = xds_class; xds_subclass = c2 } in
    let here = record xd { curr = curr; curr_sp = some k } in
    if ltb class_misc xds_class || ltb max_subclasses i
    then discard xd xd.curr_sp
    else if has_bits c1 1
    then set_subpacket here k (record sp { count = 2; checksum = c1 + c2 })
    else if 0 == sp.count
    then discard here (some k)
    else here

-- `buffer[i] = value;`
unfoldable pub store_byte : List ℕ → ℕ → ℕ → Outcome (List ℕ)
store_byte buffer i value =
    if ltb i (length buffer) then returns (set buffer i value) else out_of_bounds

-- What a call gives: the demultiplexer, the result, and the packets that the callback is called for.
abbrev pub XdsResult : Type 0
XdsResult = XdsDemux × (Bool × List XdsPacket)

-- The packet of a subpacket that is complete.
unfoldable pub completed : XdsPacket → XdsSubpacket → Outcome XdsPacket
unfolding store_byte memcpy
completed curr sp = memcpy curr.buffer 0 sp.contents 0 32 >>= (λ copy.
    store_byte copy (u32 (sp.count + (2 ^ 32 - 2))) 0 >>= (λ ended.
      returns (record curr { buffer_size = u32 (sp.count + (2 ^ 32 - 2)); buffer = ended })))

-- The case of a packet terminator, with `sp`.
unfoldable pub terminator : (XdsPacket → Bool) → XdsDemux → Option ℕ → ℕ → ℕ → Outcome XdsResult
unfolding completed discard
terminator callback xd none c1 c2 = returns (discard xd none, (true, []))
terminator callback xd (some k) c1 c2 =
    let sp = subpacket_at xd k in
    let summed = record sp { checksum = u32 (sp.checksum + (c1 + c2)) } in
    let xd' = set_subpacket xd k summed in
    if has_bits summed.checksum 0x7F || leb summed.count 2
    then returns (discard xd' (some k), (true, []))
    else (completed xd.curr summed
        >>= (λ xp. returns (discard (record xd' { curr = xp }) (some k), (callback xp, xp ∷ []))))

-- The case of packet contents, with `sp`.
unfoldable pub contents_pair : XdsDemux → Option ℕ → ℕ → ℕ → Outcome XdsDemux
unfolding store_byte discard
contents_pair xd none c1 c2 = returns xd
contents_pair xd (some k) c1 c2 =
    let sp = subpacket_at xd k in
    if leb (32 + 2) sp.count
    then returns (discard xd (some k))
    else (store_byte sp.contents (u32 (sp.count + (2 ^ 32 - 2))) c1 >>= (λ first.
        store_byte first (u32 (sp.count + (2 ^ 32 - 1))) c2 >>= (λ second. returns (
          set_subpacket xd k (record {
            contents = second;
            count = sp.count + (if 0 == c2 then 1 else 2);
            checksum = u32 (sp.checksum + (c1 + c2));
          })))))

abbrev pub quietly : Outcome XdsDemux → Outcome XdsResult
quietly o = o >>= (λ xd. returns (xd, (true, [])))

-- The switch on the first character.
unfoldable pub dispatch : (XdsPacket → Bool) → XdsDemux → ℕ → ℕ → Outcome XdsResult
unfolding header terminator contents_pair
dispatch callback xd c1 c2 =
    if 0 == c1
    then returns (xd, (true, []))
    else if leb c1 0x0E
    then returns (header xd c1 c2, (true, []))
    else if 0x0F == c1
    then terminator callback xd xd.curr_sp c1 c2
    else if leb c1 0x1F
    then returns (record xd { curr_sp = none }, (true, []))
    else quietly (contents_pair xd xd.curr_sp c1 c2)

-- `vbi_xds_demux_feed`.
unfoldable pub feed : (XdsPacket → Bool) → XdsDemux → ℕ → ℕ → Outcome XdsResult
unfolding dispatch discard
feed callback xd b0 b1 =
    let c1 = unpar8 b0 in
    let c2 = unpar8 b1 in
    if is_negative (bit_or c1 c2)
    then returns (discard xd xd.curr_sp, (false, []))
    else dispatch callback xd c1 c2

-- `vbi_sliced` as `vbi_xds_demux_feed_frame` reads it, with VBI_SLICED_CAPTION_525_F2 and
-- VBI_SLICED_CAPTION_525.
pub record CaptionLine : Type 0 where
  pub id : ℕ
  pub line : ℕ
  pub bytes : List ℕ

abbrev pub caption_525_f2 : ℕ
caption_525_f2 = 0x00000040

abbrev pub caption_525 : ℕ
caption_525 = 0x00000060

-- `vbi_xds_demux_feed_frame`.
unfoldable pub feed_frame : (XdsPacket → Bool) → XdsDemux → List CaptionLine → Outcome XdsResult
unfolding feed
feed_frame callback xd [] = returns (xd, (true, []))
feed_frame callback xd (sliced ∷ rest) =
    if not (caption_525 == sliced.id || caption_525_f2 == sliced.id)
      || (not (284 == sliced.line) && not (0 == sliced.line))
    then feed_frame callback xd rest
    else (feed callback xd (get_or sliced.bytes 0 0) (get_or sliced.bytes 1 0) >>= (λ fed.
        if not fed.1.0
        then returns fed
        else (feed_frame callback fed.0 rest
            >>= (λ more. returns (more.0, (more.1.0, fed.1.1 ++ more.1.1))))))

-- `_vbi_xds_demux_init`, on any memory.
unfoldable pub init : XdsDemux → XdsDemux
unfolding reset
init memory = reset memory
