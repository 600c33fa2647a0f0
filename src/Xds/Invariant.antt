-- ===== src/Xds/Invariant.antt =====
-- The well-formedness of the demultiplexer of src/xds_demux.c.
use zvbi.Xds.{XdsSubpacket, XdsDemux, empty_subpacket, clear_count, discard}
use zvbi.Prelude.{
  ℕ, ◌<◌, ◌≤◌, ◌≡◌, refl, ◌∙◌, sym, ◌⊎◌, inl, inr, List, length, get_or, set, length-set,
  get_or-set_self, get_or-set_ne, Option, none, some, ◌==◌, Bool-cases, arith,
}

-- A subpacket is empty or has a header, and fits its buffer.
abbrev pub IsSound : XdsSubpacket → Type 0
IsSound sp = (length sp.contents ≡ 32) × ((sp.count ≡ 0) ⊎ ((2 ≤ sp.count) × (sp.count ≤ 34)))

-- The seven classes of 24 subpackets.
abbrev pub AreSound : List XdsSubpacket → Type 0
AreSound sps = (length sps ≡ 168) × ((k : ℕ) → k < 168 → IsSound (get_or sps k empty_subpacket))

-- The current subpacket, where there is one, has a header.
abbrev pub IsCurrent : List XdsSubpacket → Option ℕ → Type 0
IsCurrent sps none = Unit {0}
IsCurrent sps (some k) = (k < 168) × (2 ≤ (get_or sps k empty_subpacket).count)

unfoldable pub IsValid : XdsDemux → Type 0
IsValid xd =
    AreSound xd.subpackets × (length xd.curr.buffer ≡ 36) × IsCurrent xd.subpackets xd.curr_sp

pub set-AreSound :
    (sps : List XdsSubpacket) (k : ℕ) (sp : XdsSubpacket)
    → AreSound sps
    → IsSound sp
    → AreSound (set sps k sp)
set-AreSound sps k sp sound h = (
  length-set sps k sp ∙ sound.0,
  λ j lt. elim (Bool-cases (k == j)) [
    | inl e ↦
        let same : k ≡ j = ground arith in
        rw (sym same, get_or-set_self sps k sp empty_subpacket (omega (arith, sound.0))) h
    | inr e ↦ rw (get_or-set_ne sps k j sp empty_subpacket (λ q. ground arith)) (sound.1 j lt)
  ],
)

pub set-IsCurrent :
    (sps : List XdsSubpacket) (k : ℕ) (sp : XdsSubpacket)
    → length sps ≡ 168
    → k < 168
    → 2 ≤ sp.count
    → IsCurrent (set sps k sp) (some k)
set-IsCurrent sps k sp size lt h =
    (lt, rw (get_or-set_self sps k sp empty_subpacket (omega arith)) h)

-- Discarding keeps the demultiplexer valid, whatever was current.
pub discard-IsValid :
    (xd : XdsDemux) (o : Option ℕ)
    → AreSound xd.subpackets
    → length xd.curr.buffer ≡ 36
    → IsCurrent xd.subpackets o
    → IsValid (discard xd o)
unfolding discard clear_count IsValid
discard-IsValid xd none sound size h = (sound, size, tt)
discard-IsValid xd (some k) sound size h =
    (set-AreSound xd.subpackets k _ sound ((sound.1 k h.0).0, inl refl), size, tt)
