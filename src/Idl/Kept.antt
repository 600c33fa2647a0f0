-- ===== src/Idl/Kept.antt =====
-- What is left of the user data of a packet.
use zvbi.Idl.Data.{data_loop, start_hist}
use zvbi.Idl.Dummy.{counted, without_eighth, Counts, data_loop-without_eighth}
use zvbi.Prelude.{
  ℕ, ◌+◌, ◌≤◌, ◌<◌, ◌≡◌, refl, sym, ap, ◌∙◌, true, inl, inr, Bool-cases, ◌||◌, List, [], ◌∷◌, ◌==◌,
  if◌then◌else◌, length, take, drop, get_or, set, length-set, get_or-set_self, get_or-set_ne,
  returns, AreBytes, arith,
}

-- The bytes that are neither 0x00 nor 0xff.
abbrev pub others : List ℕ → List ℕ
others [] = []
others (t ∷ ts) = let rest = others ts in if t == 0x00 || t == 0xff then rest else t ∷ rest

others_keep : (t : ℕ) (xs ys : List ℕ) → others xs ≡ others ys → others (t ∷ xs) ≡ others (t ∷ ys)
others_keep t xs ys h = rw h refl

pub others-without_eighth :
    (z f : ℕ) (ts : List ℕ) → z < 8 → f < 8 → others (without_eighth z f ts) ≡ others ts
others-without_eighth z f [] hz hf = refl
others-without_eighth z f (t ∷ ts) hz hf =
    let z' = counted z 0x00 t in
    let f' = counted f 0xff t in
    elim (Bool-cases (z' == 8 || f' == 8)) [
      | inl dropped ↦
          let special : (t == 0x00 || t == 0xff) ≡ true = ground arith in
          rw (dropped, special) (others-without_eighth 0 0 ts (omega arith) (omega arith))
      | inr kept ↦ rw kept (
          others_keep t (without_eighth z' f' ts) ts
            (others-without_eighth z' f' ts (ground arith) (ground arith)))
    ]

start-Counts :
    (memory : List ℕ) (ci : ℕ)
    → length memory ≡ 256
    → ci < 256
    → Counts (start_hist memory ci) (counted 0 0x00 ci) (counted 0 0xff ci)
unfolding start_hist
start-Counts memory ci size h =
    let m = set (set memory 0x00 0) 0xff 0 in
    let m_size : length m ≡ 256 =
      length-set (set memory 0x00 0) 0xff 0 ∙ length-set memory 0x00 0 ∙ size in
    let zero_at : get_or m 0x00 0 ≡ 0 =
      get_or-set_ne (set memory 0x00 0) 0xff 0x00 0 0 (λ e. omega arith)
      ∙ get_or-set_self memory 0x00 0 0 (omega arith) in
    let one_at : get_or m 0xff 0 ≡ 0 =
      get_or-set_self (set memory 0x00 0) 0xff 0 0 (omega (arith, length-set memory 0x00 0)) in
    record {
      size = length-set m ci 1 ∙ m_size;
      zeros = first m ci 0x00 m_size zero_at h;
      ones = first m ci 0xff m_size one_at h;
    }
  where
    first :
        (m : List ℕ) (ci value : ℕ)
        → length m ≡ 256
        → get_or m value 0 ≡ 0
        → ci < 256
        → get_or (set m ci 1) value 0 ≡ counted 0 value ci
    first m ci value size at h = elim (Bool-cases (ci == value)) [
      | inl same ↦
          let e : ci ≡ value = ground arith in
          rw same (
            ap (λ (y : ℕ). get_or (set m ci 1) y 0) (sym e)
            ∙ get_or-set_self m ci 1 0 (omega arith))
      | inr other ↦ rw other (get_or-set_ne m ci value 1 0 (λ e. ground arith) ∙ at)
    ]

-- The user data of a packet come out of the loop of idl_a_demux_feed without every byte that
-- is the eighth 0x00 or the eighth 0xff since the last that was taken out, the continuity
-- indicator counted first, whatever the uninitialised counts held.
pub data_loop-start_hist :
    (memory buffer : List ℕ) (ci dl k : ℕ)
    → length memory ≡ 256
    → ci < 256
    → AreBytes buffer
    → k + dl ≤ length buffer
    → dl ≤ 40
    → data_loop dl buffer k (start_hist memory ci) []
      ≡ returns (without_eighth (counted 0 0x00 ci) (counted 0 0xff ci) (take dl (drop k buffer)))
data_loop-start_hist memory buffer ci dl k size h bytes inside room =
    data_loop-without_eighth dl buffer k (start_hist memory ci) [] (counted 0 0x00 ci)
      (counted 0 0xff ci) (start-Counts memory ci size h) (ground arith) (ground arith) bytes inside
      (omega arith)

-- The loop of idl_a_demux_feed over the user data returns a list that has all the bytes of
-- the data other than 0x00 and 0xff, in order.
pub data_loop-others :
    (memory buffer : List ℕ) (ci dl k : ℕ)
    → length memory ≡ 256
    → ci < 256
    → AreBytes buffer
    → k + dl ≤ length buffer
    → dl ≤ 40
    → (out : List ℕ) × (data_loop dl buffer k (start_hist memory ci) [] ≡ returns out)
      × (others out ≡ others (take dl (drop k buffer)))
data_loop-others memory buffer ci dl k size h bytes inside room =
    let user_data = take dl (drop k buffer) in
    (
      without_eighth (counted 0 0x00 ci) (counted 0 0xff ci) user_data,
      data_loop-start_hist memory buffer ci dl k size h bytes inside room,
      others-without_eighth (counted 0 0x00 ci) (counted 0 0xff ci) user_data (ground arith)
          (ground arith),
    )
