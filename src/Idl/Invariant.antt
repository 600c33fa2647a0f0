-- ===== src/Idl/Invariant.antt =====
-- The invariant of the demultiplexer, and the parts of `idl_a_demux_feed` that keep it.
use zvbi.Hamm.{unham8}
use zvbi.Idl.Crc.{crc_loop}
use zvbi.Idl.Demux.{IdlDemux, damaged, check_repeat, check_continuity, spa_loop}
use zvbi.Prelude.Bits.Fields.{bit_and_low, bit_xor-lt, bit_or-lt}
use zvbi.Prelude.{
  ℕ, zero, suc, ◌+◌, ◌*◌, ◌≤◌, ◌<◌, ◌≡◌, ◌⊎◌, refl, Bool, List, bit_and, bit_or, bit_xor, length,
  minus_one, u32, ◌<<<◌, ◌>>>◌, returns, read, Ends, Ends-after, read-Ends, AreBytes, read-get_or,
  get_or, arith,
}

-- The indicators are those of a packet, or unknown, and no other flag than DATA_LOST is set.
pub record IsValid (dx : IdlDemux) : Type 0 where
  pub continuity : (dx.ci ≡ minus_one) ⊎ (dx.ci ≤ 256)
  pub repeat : (dx.ri ≡ minus_one) ⊎ (dx.ri ≤ 256)
  pub no_other_flag : dx.flags < 2

abbrev pub IsByte : ℕ → Type 0
IsByte b = b < 256

abbrev pub SameFilter : IdlDemux → IdlDemux → Type 0
SameFilter dx' dx =
    (dx'.format ≡ dx.format) × (dx'.channel ≡ dx.channel) × (dx'.address ≡ dx.address)

abbrev pub Anything : ℕ → Type 0
Anything n = Unit {0}

pub check_repeat-IsValid : (dx : IdlDemux) (ri : ℕ) → IsValid dx → IsValid (check_repeat dx ri).0
unfolding check_repeat
check_repeat-IsValid dx ri v =
    ground (arith, bit_or-lt 1 dx.flags 1, v.continuity, v.repeat, v.no_other_flag)

pub check_continuity-IsValid :
    (dx : IdlDemux) (ci : ℕ) → IsValid dx → ci < 256 → IsValid (check_continuity dx ci)
unfolding check_continuity
check_continuity-IsValid dx ci v h =
    ground (arith, bit_or-lt 1 dx.flags 1, v.continuity, v.repeat, v.no_other_flag)

pub damaged-IsValid : (dx : IdlDemux) (ri : ℕ) → IsValid dx → ri < 256 → IsValid (damaged dx ri)
unfolding damaged
damaged-IsValid dx ri v h =
    ground (arith, bit_or-lt 1 dx.flags 1, v.continuity, v.repeat, v.no_other_flag)

pub crc_loop-Ends :
    (table : List ℕ) (n : ℕ) (buffer : List ℕ) (j crc : ℕ)
    → length table ≡ 256
    → AreBytes buffer
    → j + n ≤ length buffer
    → Ends Anything (crc_loop table n buffer j crc)
unfolding crc_loop
crc_loop-Ends table zero buffer j crc size bytes h = tt
crc_loop-Ends table (suc n) buffer j crc size bytes h =
    Ends-after IsByte Anything (read buffer j) _ (read-Ends buffer j bytes (omega arith)) (λ b byte.
      let x = bit_xor (bit_and crc 0xff) b in
      let low : x < 256 =
        bit_xor-lt 8 (bit_and crc 0xff) b (omega (arith, bit_and_low 8 crc)) byte in
      rw (read-get_or table x (omega arith)) (
        crc_loop-Ends table n buffer (j + 1) (bit_xor (crc >>> 8) (get_or table x 0)) size bytes
          (omega arith)))

pub spa_loop-Ends :
    (n : ℕ) (buffer : List ℕ) (i spa : ℕ)
    → AreBytes buffer
    → 4 + (i + n) ≤ length buffer
    → Ends Anything (spa_loop n buffer i spa)
unfolding spa_loop
spa_loop-Ends zero buffer i spa bytes h = tt
spa_loop-Ends (suc n) buffer i spa bytes h =
    Ends-after IsByte Anything (read buffer (4 + i)) _
      (read-Ends buffer (4 + i) bytes (omega arith))
      (λ b byte.
        spa_loop-Ends n buffer (i + 1) (bit_or spa (u32 (unham8 b <<< (4 * i)))) bytes
          (omega arith))

module _ {U : Type 0} where
  -- The demultiplexer is valid and keeps its filter.
  abbrev pub Keeps : IdlDemux → (IdlDemux × U) × Bool → Type 0
  Keeps dx ((dx', u), ok) = IsValid dx' × SameFilter dx' dx

  pub stays :
      (dx : IdlDemux) (u : U) (ok : Bool) → IsValid dx → Ends (Keeps dx) (returns ((dx, u), ok))
  stays dx u ok v = (v, (refl, refl, refl))

pub filter-same :
    (dx : IdlDemux) (ri ci : ℕ) → SameFilter (check_continuity (check_repeat dx ri).0 ci) dx
unfolding check_continuity check_repeat
filter-same dx ri ci = ground arith

pub damaged-same : (dx : IdlDemux) (ri : ℕ) → SameFilter (damaged dx ri) dx
unfolding damaged
damaged-same dx ri = ground arith

pub check_repeat-same : (dx : IdlDemux) (ri : ℕ) → SameFilter (check_repeat dx ri).0 dx
unfolding check_repeat
check_repeat-same dx ri = ground arith
