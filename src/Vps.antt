-- ===== src/Vps.antt =====
-- src/vps.c and what it uses of src/pdc.h and src/network.h: the codecs of Video Program System
-- packets and of DVB PDC descriptors.
pub mod Bytes
pub mod Cni
pub mod Pdc
pub mod Frame
pub mod Descriptor
mod Tests
use zvbi.Prelude.{
  ℕ, ◌+◌, Bool, true, false, not, ◌||◌, List, bit_and, bit_or, ltb, ◌==◌, if◌then◌else◌, u8, ◌<<<◌,
  ◌>>>◌, has_bits, get_or, set, Option, none, some,
}

-- `vbi_cni_type` and `vbi_pid_channel`.
pub data CniType : Type 0 where
  cni_none : CniType
  cni_vps : CniType
  cni_8301 : CniType
  cni_8302 : CniType
  cni_pdc_a : CniType
  cni_pdc_b : CniType

pub data PidChannel : Type 0 where
  lci_0 : PidChannel
  lci_1 : PidChannel
  lci_2 : PidChannel
  lci_3 : PidChannel
  channel_vps : PidChannel
  pdc_descriptor : PidChannel
  xds_current : PidChannel
  xds_future : PidChannel

-- `vbi_program_id`.
pub record ProgramId : Type 0 where
  pub channel : PidChannel
  pub cni_type : CniType
  pub cni : ℕ
  pub pil : ℕ
  pub luf : Bool
  pub mi : Bool
  pub prf : Bool
  pub pcs_audio : ℕ
  pub pty : ℕ
  pub tape_delayed : Bool

-- `CLEAR (*pid)`.
abbrev pub cleared : ProgramId
cleared = record {
  channel = lci_0;
  cni_type = cni_none;
  cni = 0;
  pil = 0;
  luf = false;
  mi = false;
  prf = false;
  pcs_audio = 0;
  pty = 0;
  tape_delayed = false;
}

-- The code of two networks that bit 4 of byte 2 tells apart.
unfoldable pub shared_code : List ℕ → ℕ → ℕ
shared_code buffer cni =
    if 0x0dc3 == cni then (if has_bits (get_or buffer 2 0) 0x10 then 0x0dc1 else 0x0dc2) else cni

-- `vbi_decode_vps_cni`, which returns TRUE always. The packets have 13 bytes by their type.
unfoldable pub decode_vps_cni : List ℕ → ℕ
unfolding shared_code
decode_vps_cni buffer = shared_code buffer (
    (bit_and (get_or buffer 10 0) 0x03 <<< 10)
    + (bit_and (get_or buffer 11 0) 0xc0 <<< 2)
    + bit_and (get_or buffer 8 0) 0xc0
    + bit_and (get_or buffer 11 0) 0x3f)

-- `vbi_decode_vps_pdc`, which returns TRUE always.
unfoldable pub decode_vps_pdc : List ℕ → ProgramId
unfolding decode_vps_cni
decode_vps_pdc buffer =
    let pil =
      (bit_and (get_or buffer 8 0) 0x3f <<< 14)
      + (get_or buffer 9 0 <<< 6)
      + (get_or buffer 10 0 >>> 2) in
    record cleared {
      channel = channel_vps;
      cni_type = cni_vps;
      cni = decode_vps_cni buffer;
      pil = pil;
      mi = true;
      pcs_audio = get_or buffer 2 0 >>> 6;
      pty = get_or buffer 12 0;
    }

-- `vbi_decode_dvb_pdc_descriptor`, on five bytes; `none` is FALSE.
unfoldable pub decode_dvb_pdc_descriptor : List ℕ → Option ProgramId
decode_dvb_pdc_descriptor buffer =
    if not (0x69 == get_or buffer 0 0) || not (3 == get_or buffer 1 0)
    then none
    else some (record cleared {
      channel = pdc_descriptor;
      pil =
          (bit_and (get_or buffer 2 0) 0x0f <<< 16) + (get_or buffer 3 0 <<< 8) + get_or buffer 4 0;
      mi = true;
    })

-- `vbi_encode_vps_cni`.
unfoldable pub encode_vps_cni : List ℕ → ℕ → List ℕ × Bool
encode_vps_cni buffer cni =
    if ltb 0x0fff cni
    then (buffer, false)
    else (let b1 =
          set buffer 8 (u8 (bit_or (bit_and (get_or buffer 8 0) 0x3f) (bit_and cni 0xc0))) in
        let b2 = set b1 10 (u8 (bit_or (bit_and (get_or b1 10 0) 0xfc) (cni >>> 10))) in
        let b3 = set b2 11 (u8 (bit_or (bit_and cni 0x3f) (bit_and (cni >>> 2) 0xc0))) in
        (b3, true))

-- What `vbi_encode_vps_pdc` stores once the CNI is there.
unfoldable pub store_pdc : List ℕ → ProgramId → List ℕ
store_pdc b0 pid =
    let pil = pid.pil in
    let b1 = set b0 2 (u8 (bit_or (bit_and (get_or b0 2 0) 0x3f) (pid.pcs_audio <<< 6))) in
    let b2 = set b1 8 (u8 (bit_or (bit_and (get_or b1 8 0) 0xc0) (bit_and (pil >>> 14) 0x3f))) in
    let b3 = set b2 9 (u8 (pil >>> 6)) in
    let b4 = set b3 10 (u8 (bit_or (bit_and (get_or b3 10 0) 0x03) (pil <<< 2))) in
    set b4 12 (u8 pid.pty)

-- `vbi_encode_vps_pdc`.
unfoldable pub encode_vps_pdc : List ℕ → ProgramId → List ℕ × Bool
unfolding encode_vps_cni store_pdc
encode_vps_pdc buffer pid =
    if ltb 0xff pid.pty || (ltb 3 pid.pcs_audio || ltb 0xfffff pid.pil)
    then (buffer, false)
    else (let (b, ok) = encode_vps_cni buffer pid.cni in
        if not ok then (b, false) else (store_pdc b pid, true))

-- `vbi_encode_dvb_pdc_descriptor`.
unfoldable pub encode_dvb_pdc_descriptor : List ℕ → ProgramId → List ℕ × Bool
encode_dvb_pdc_descriptor buffer pid =
    let pil = pid.pil in
    if ltb 0xfffff pil
    then (buffer, false)
    else (let b1 = set (set buffer 0 0x69) 1 3 in
        let b2 = set b1 2 (u8 (bit_or 0xf0 (pil >>> 16))) in
        (set (set b2 3 (u8 (pil >>> 8))) 4 (u8 pil), true))
