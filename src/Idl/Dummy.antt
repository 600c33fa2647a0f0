-- ===== src/Idl/Dummy.antt =====
-- The dummy bytes that the loop over the user data takes out.
use mathlib.Core.List.{append_assoc, append-nil}
use zvbi.Idl.Data.{take_byte, data_loop}
use zvbi.Prelude.{
  ℕ, zero, suc, ◌+◌, ◌≤◌, ◌<◌, ◌≡◌, refl, sym, ap, ap₂, ◌∙◌, Bool, true, false, inl, inr,
  Bool-cases, ◌||◌, List, [], ◌∷◌, ◌++◌, bit_or, ◌==◌, leb, if◌then◌else◌, length, take, drop,
  get_or, set, u8, has_bits, length-set, length-append, get_or-set_self, get_or-set_ne, returns,
  read-get_or, drop_next, AreBytes, get_or-lt, all_below, eq_below₂, arith,
}

abbrev pub counted : ℕ → ℕ → ℕ → ℕ
counted n value t = if t == value then n + 1 else n

-- The bytes without every one that is the eighth 0x00 or the eighth 0xff since the last that was
-- taken out, where `z` and `f` of these have come.
abbrev pub without_eighth : ℕ → ℕ → List ℕ → List ℕ
without_eighth z f [] = []
without_eighth z f (t ∷ ts) =
    let z' = counted z 0x00 t in
    let f' = counted f 0xff t in
    let dropped = without_eighth 0 0 ts in
    let kept = t ∷ without_eighth z' f' ts in if z' == 8 || f' == 8 then dropped else kept

-- What is known of the counts.
pub record Counts (hist : List ℕ) (z f : ℕ) : Type 0 where
  pub size : length hist ≡ 256
  pub zeros : get_or hist 0x00 0 ≡ z
  pub ones : get_or hist 0xff 0 ≡ f

abbrev flag : Bool → ℕ
flag true = 1
flag false = 0

flag_injective : (a b : Bool) → flag a ≡ flag b → a ≡ b
flag_injective true true h = refl
flag_injective true false h = absurd (omega arith)
flag_injective false true h = absurd (omega arith)
flag_injective false false h = refl

where_eighth : (z f : ℕ) → z ≤ 8 → f ≤ 8 → has_bits (bit_or z f) 8 ≡ (z == 8 || f == 8)
unfolding all_below
where_eighth z f h k = flag_injective (has_bits (bit_or z f) 8) (z == 8 || f == 8) (
    eq_below₂ 9 9 (λ a b. flag (has_bits (bit_or a b) 8)) (λ a b. flag (a == 8 || b == 8)) refl z f
      (omega arith) (omega arith))

-- The counts after one more byte.
abbrev noted : List ℕ → ℕ → List ℕ
noted hist t = set hist t (u8 (get_or hist t 0 + 1))

count_one :
    (hist : List ℕ) (t value n : ℕ)
    → length hist ≡ 256
    → get_or hist value 0 ≡ n
    → value < 256
    → n < 8
    → get_or (noted hist t) value 0 ≡ counted n value t
count_one hist t value n size is_n h k = elim (Bool-cases (t == value)) [
  | inl same ↦
      let e : t ≡ value = ground arith in
      rw same (
        ap (λ (y : ℕ). get_or (noted hist y) value 0) e
        ∙ get_or-set_self hist value (u8 (get_or hist value 0 + 1)) 0 (omega arith)
        ∙ omega arith)
  | inr other ↦
      rw other (get_or-set_ne hist t value (u8 (get_or hist t 0 + 1)) 0 (λ e. ground arith) ∙ is_n)
]

counted-le : (n value t : ℕ) → n < 8 → counted n value t ≤ 8
counted-le n value t h = ground arith

module _ (hist buf : List ℕ) (t z f : ℕ) (c : Counts hist z f) (hz : z < 8) (hf : f < 8)
    (ht : t < 256) (room : length buf < 40) where
  noted-Counts : Counts (noted hist t) (counted z 0x00 t) (counted f 0xff t)
  noted-Counts = record {
    size = length-set hist t (u8 (get_or hist t 0 + 1)) ∙ c.size;
    zeros = count_one hist t 0x00 z c.size c.zeros (omega arith) hz;
    ones = count_one hist t 0xff f c.size c.ones (omega arith) hf;
  }

  abbrev cleared : List ℕ
  cleared = set (set (noted hist t) 0x00 0) 0xff 0

  cleared-Counts : Counts cleared 0 0
  cleared-Counts =
      let n = noted hist t in
      record {
        size = length-set (set n 0x00 0) 0xff 0 ∙ length-set n 0x00 0 ∙ noted-Counts.size;
        zeros =
            get_or-set_ne (set n 0x00 0) 0xff 0x00 0 0 (λ e. omega arith)
            ∙ get_or-set_self n 0x00 0 0 (omega (arith, noted-Counts.size));
        ones =
            get_or-set_self (set n 0x00 0) 0xff 0 0
              (omega (arith, length-set n 0x00 0, noted-Counts.size));
      }

  take_byte-eighth : take_byte hist buf t ≡ (
      if counted z 0x00 t == 8 || counted f 0xff t == 8
      then returns (cleared, buf)
      else returns (noted hist t, buf ++ (t ∷ [])))
  unfolding take_byte
  take_byte-eighth =
      let n = noted hist t in
      let full : leb 40 (length buf) ≡ false = ground arith in
      let z' = counted z 0x00 t in
      let f' = counted f 0xff t in
      let test : has_bits (bit_or (get_or n 0x00 0) (get_or n 0xff 0)) 8 ≡ (z' == 8 || f' == 8) =
        ap₂ (λ (a b : ℕ). has_bits (bit_or a b) 8) noted-Counts.zeros noted-Counts.ones
        ∙ where_eighth z' f' (counted-le z 0x00 t hz) (counted-le f 0xff t hf) in
      rw (
        read-get_or hist t (omega (arith, c.size)),
        read-get_or n 0x00 (omega (arith, noted-Counts.size)),
        read-get_or n 0xff (omega (arith, noted-Counts.size)),
        test,
        full,
      )

not_eighth : (z f : ℕ) → z ≤ 8 → f ≤ 8 → (z == 8 || f == 8) ≡ false → (z < 8) × (f < 8)
not_eighth z f h k e = ground arith

-- The loop takes out the eighth bytes, from any content of the other counts.
pub data_loop-without_eighth :
    (dl : ℕ) (buffer : List ℕ) (k : ℕ) (hist buf : List ℕ) (z f : ℕ)
    → Counts hist z f
    → z < 8
    → f < 8
    → AreBytes buffer
    → k + dl ≤ length buffer
    → length buf + dl ≤ 40
    → data_loop dl buffer k hist buf ≡ returns (buf ++ without_eighth z f (take dl (drop k buffer)))
unfolding data_loop
data_loop-without_eighth zero buffer k hist buf z f c hz hf bytes h room =
    ap returns (sym (append-nil buf))
data_loop-without_eighth (suc dl) buffer k hist buf z f c hz hf bytes h room =
    let t = get_or buffer k 0 in
    let byte = get_or-lt buffer k bytes in
    let z' = counted z 0x00 t in
    let f' = counted f 0xff t in
    let rest = take dl (drop (k + 1) buffer) in
    let here : take (suc dl) (drop k buffer) ≡ t ∷ rest =
      ap (take (suc dl)) (drop_next buffer k (omega arith)) in
    let step = take_byte-eighth hist buf t z f c hz hf byte (omega arith) in
    rw (here, read-get_or buffer k (omega arith), step)
      (elim (Bool-cases (z' == 8 || f' == 8)) [
        | inl dropped ↦ rw dropped (
            data_loop-without_eighth dl buffer (k + 1)
              (cleared hist buf t z f c hz hf byte (omega arith)) buf 0 0
              (cleared-Counts hist buf t z f c hz hf byte (omega arith)) (omega arith) (omega arith)
              bytes (omega arith) (omega arith))
        | inr kept ↦ rw kept (
            data_loop-without_eighth dl buffer (k + 1) (noted hist t) (buf ++ (t ∷ [])) z' f'
              (noted-Counts hist buf t z f c hz hf byte (omega arith))
              (not_eighth z' f' (counted-le z 0x00 t hz) (counted-le f 0xff t hf) kept).0
              (not_eighth z' f' (counted-le z 0x00 t hz) (counted-le f 0xff t hf) kept).1 bytes
              (omega arith) (omega (arith, length-append buf (t ∷ [])))
            ∙ ap returns (append_assoc buf (t ∷ []) (without_eighth z' f' rest)))
      ])
