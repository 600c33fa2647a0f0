-- ===== src/Packet830/Sent.antt =====
-- The decimal digits of packet 8/30 format 1, which are sent incremented by one.
use zvbi.Bcd.Compare.{is_bcd-AreDecimal}
use zvbi.Bcd.{is_bcd, AreDecimal, value}
use zvbi.Prelude.{
  ℕ, zero, suc, ◌+◌, ◌-◌, ◌*◌, ◌/◌, ◌%◌, ◌^◌, ◌<◌, ◌≤◌, ◌≡◌, refl, ap, sym, ◌∙◌, Bool, true, ◌&&◌,
  leb, u32, arith,
}

-- The digits are sent incremented by one: whether the last `k` of a word can be, and the number.
unfoldable pub all_sent : ℕ → ℕ → Bool
all_sent zero v = true
all_sent (suc k) v = leb 1 (v % 16) && leb (v % 16) 10 && all_sent k (v / 16)

unfoldable pub sent_value : ℕ → ℕ → ℕ
sent_value zero v = 0
sent_value (suc k) v = v % 16 - 1 + 10 * sent_value k (v / 16)

-- One in every digit.
unfoldable ones : ℕ → ℕ
ones zero = 0
ones (suc k) = 1 + 16 * ones k

next_digit :
    (x n : ℕ)
    → x % 16 ≤ 14
    → ((x + (1 + 16 * n)) % 16 ≡ x % 16 + 1) × ((x + (1 + 16 * n)) / 16 ≡ x / 16 + n)
next_digit x n h = omega arith

-- What can be sent is a decimal number and the ones.
decimal-all_sent : (k bcd : ℕ) → AreDecimal k bcd → all_sent k (bcd + ones k) ≡ true
unfolding AreDecimal all_sent ones
decimal-all_sent zero bcd d = refl
decimal-all_sent (suc k) bcd d =
    let next = next_digit bcd (ones k) (omega (arith, d.0)) in
    let ih = decimal-all_sent k (bcd / 16) d.1 in rw (next.0, next.1, ih) (ground (arith, d.0))

all_sent-decimal : (k bcd : ℕ) → all_sent k (bcd + ones k) ≡ true → AreDecimal k bcd
unfolding AreDecimal all_sent ones
all_sent-decimal zero bcd e = tt
all_sent-decimal (suc k) bcd e =
    let n = bcd + (1 + 16 * ones k) in
    let split : (1 ≤ n % 16) × (n % 16 ≤ 10) × (all_sent k (n / 16) ≡ true) = ground arith in
    let low : bcd % 16 ≤ 9 = omega (arith, split.0, split.1) in
    let next = next_digit bcd (ones k) (omega (arith, low)) in
    (low, all_sent-decimal k (bcd / 16) (ap (all_sent k) (sym next.1) ∙ split.2))

ones-le : (k v : ℕ) → all_sent k v ≡ true → ones k ≤ v
unfolding all_sent ones
ones-le zero v e = omega arith
ones-le (suc k) v e = ground (arith, ones-le k (v / 16))

sent_value-value : (k bcd : ℕ) → AreDecimal k bcd → sent_value k (bcd + ones k) ≡ value k bcd
unfolding AreDecimal sent_value value ones
sent_value-value zero bcd d = refl
sent_value-value (suc k) bcd d =
    let next = next_digit bcd (ones k) (omega (arith, d.0)) in
    rw (next.0, next.1, sent_value-value k (bcd / 16) d.1) (omega arith)

-- The words that the code tests: those of five and of six digits, with the ones taken off.
date_decimal : (bcd : ℕ) → bcd < 2 ^ 20 → AreDecimal 5 bcd → AreDecimal 7 bcd
unfolding AreDecimal
date_decimal bcd h d =
    (d.0, (d.1.0, (d.1.1.0, (d.1.1.1.0, (d.1.1.1.1.0, (omega arith, (omega arith, tt)))))))

decimal_date : (bcd : ℕ) → AreDecimal 7 bcd → AreDecimal 5 bcd × (bcd / 16 ^ 6 % 16 ≤ 9)
unfolding AreDecimal
decimal_date bcd d = ((d.0, (d.1.0, (d.1.1.0, (d.1.1.1.0, (d.1.1.1.1.0, tt))))), omega (arith, d))

time_decimal : (bcd : ℕ) → bcd < 2 ^ 24 → AreDecimal 6 bcd → AreDecimal 7 bcd
unfolding AreDecimal
time_decimal bcd h d =
    (d.0, (d.1.0, (d.1.1.0, (d.1.1.1.0, (d.1.1.1.1.0, (d.1.1.1.1.1.0, (omega arith, tt)))))))

decimal_time : (bcd : ℕ) → AreDecimal 7 bcd → AreDecimal 6 bcd × (bcd / 16 ^ 6 % 16 ≤ 9)
unfolding AreDecimal
decimal_time bcd d =
    ((d.0, (d.1.0, (d.1.1.0, (d.1.1.1.0, (d.1.1.1.1.0, (d.1.1.1.1.1.0, tt)))))), omega (arith, d))

bool_iff : (a b : Bool) → (a ≡ true → b ≡ true) → (b ≡ true → a ≡ true) → a ≡ b
bool_iff a b f g = ground arith

-- A word that was sent and what the code takes for its digits.
module _ (k v bcd : ℕ) where
  received : bcd + ones k ≡ v → all_sent k v ≡ true → AreDecimal k bcd
  received e h = all_sent-decimal k bcd (ap (all_sent k) e ∙ h)

  received_value : bcd + ones k ≡ v → all_sent k v ≡ true → sent_value k v ≡ value k bcd
  received_value e h = ap (sent_value k) (sym e) ∙ sent_value-value k bcd (received e h)

  sent : bcd + ones k ≡ v → AreDecimal k bcd → all_sent k v ≡ true
  sent e d = ap (all_sent k) (sym e) ∙ decimal-all_sent k bcd d

-- What is left of a sum with a complement.
take_off : (v n m : ℕ) → n ≤ v → v < 2 ^ 32 → m ≡ 2 ^ 32 - n → u32 (v + m) + n ≡ v
take_off v n m le h e = omega arith

pub date_digits : (v : ℕ) → v < 2 ^ 20 → is_bcd (u32 (v + (2 ^ 32 - 0x11111))) ≡ all_sent 5 v
unfolding ones
date_digits v h =
    let bcd = u32 (v + (2 ^ 32 - 0x11111)) in
    bool_iff (is_bcd bcd) (all_sent 5 v)
      (λ e.
        let d = decimal_date bcd ((is_bcd-AreDecimal bcd).0 e) in
        sent 5 v bcd (omega (arith, d.1)) d.0)
      (λ e.
        let le = ones-le 5 v e in
        (is_bcd-AreDecimal bcd).1
          (date_decimal bcd (omega (arith, le)) (received 5 v bcd (omega (arith, le)) e)))

pub time_digits : (v : ℕ) → v < 2 ^ 24 → is_bcd (u32 (v + (2 ^ 32 - 0x111111))) ≡ all_sent 6 v
unfolding ones
time_digits v h =
    let bcd = u32 (v + (2 ^ 32 - 0x111111)) in
    bool_iff (is_bcd bcd) (all_sent 6 v)
      (λ e.
        let d = decimal_time bcd ((is_bcd-AreDecimal bcd).0 e) in
        sent 6 v bcd (omega (arith, d.1)) d.0)
      (λ e.
        let le = ones-le 6 v e in
        (is_bcd-AreDecimal bcd).1
          (time_decimal bcd (omega (arith, le)) (received 6 v bcd (omega (arith, le)) e)))

-- What the code takes for the digits of a word that can be sent.
pub received_date :
    (v : ℕ)
    → v < 2 ^ 20
    → all_sent 5 v ≡ true
    → (u32 (v + (2 ^ 32 - 0x11111)) < 2 ^ 20)
      × (value 5 (u32 (v + (2 ^ 32 - 0x11111))) ≡ sent_value 5 v)
unfolding ones
received_date v h e =
    let le = ones-le 5 v e in
    let bcd = u32 (v + (2 ^ 32 - 0x11111)) in
    (omega (arith, le), sym (received_value 5 v bcd (omega (arith, le)) e))

pub received_time :
    (v : ℕ)
    → v < 2 ^ 24
    → all_sent 6 v ≡ true
    → (u32 (v + (2 ^ 32 - 0x111111)) < 2 ^ 24)
      × (u32 (v + (2 ^ 32 - 0x111111)) + 0x111111 ≡ v)
      × AreDecimal 6 (u32 (v + (2 ^ 32 - 0x111111)))
unfolding ones
received_time v h e =
    let le = ones-le 6 v e in
    let bcd = u32 (v + (2 ^ 32 - 0x111111)) in
    (omega (arith, le), omega (arith, le), received 6 v bcd (omega (arith, le)) e)
