-- ===== src/Prelude/Decimal.antt =====
-- Decimal numbers as C prints and reads them: `%d` of a number that is not negative, and `strtol`
-- in base 10 with a `long` of 32 bits.
use Prim.Native.Nat.{ℕ, zero, suc, ◌+◌, ◌-◌, ◌*◌, ◌/◌, ◌%◌, ◌≤◌, ◌<◌, ◌^◌}
use mathlib.Core.Path.{◌≡◌, refl, ◌∙◌, ap, sym}
use mathlib.Core.Logic.{inl, inr}
use mathlib.Core.Bool.{Bool, true, ◌&&◌, ◌||◌}
use mathlib.Core.List.{[], ◌∷◌}
use native.Mathlib.Omega.{arith}
use pglite4j.Prelude.Tests.{ltb, leb, ◌==◌, if◌then◌else◌, Bool-cases}
use pglite4j.Prelude.Int.{ℤ, pos, sub_ℕ}
use pglite4j.Prelude.Text.{CString}

-- The digits of `n` before those of `after`, with the rounds left.
unfoldable pub digits : (rounds n : ℕ) (after : CString) → CString
digits zero n after = after
digits (suc rounds) n after =
    let more = digits rounds (n / 10) ((b'0' + n % 10) ∷ after) in
    if ltb n 10 then (b'0' + n) ∷ after else more

unfoldable pub decimal : ℕ → CString
unfolding digits
decimal n = digits (suc n) n []

abbrev pub is_digit : ℕ → Bool
is_digit c = leb b'0' c && leb c b'9'

-- The digits that a text starts with, after those that make `value`.
unfoldable pub read_digits : (value : ℕ) → CString → ℕ
read_digits value [] = value
read_digits value (c ∷ cs) =
    let more = read_digits (value * 10 + (c - b'0')) cs in if is_digit c then more else value

abbrev pub is_space : ℕ → Bool
is_space c = (c == b' ') || (leb 9 c && leb c 13)

-- A magnitude as a `long`, out of range at the nearest bound.
abbrev pub positive : ℕ → ℤ
positive n = if ltb n (2 ^ 31) then pos n else pos (2 ^ 31 - 1)

abbrev pub negative : ℕ → ℤ
negative n = if leb n (2 ^ 31) then sub_ℕ 0 n else sub_ℕ 0 (2 ^ 31)

unfoldable pub read_signed : CString → ℤ
unfolding read_digits
read_signed [] = pos 0
read_signed (c ∷ cs) =
    if c == b'-'
    then negative (read_digits 0 cs)
    else if c == b'+'
    then positive (read_digits 0 cs)
    else positive (read_digits 0 (c ∷ cs))

unfoldable pub strtol : CString → ℤ
unfolding read_signed
strtol [] = pos 0
strtol (c ∷ cs) = let rest = strtol cs in if is_space c then rest else read_signed (c ∷ cs)

read_step :
    (value d n : ℕ) (after : CString)
    → d < 10
    → value * 10 + d ≡ n
    → read_digits value ((b'0' + d) ∷ after) ≡ read_digits n after
unfolding read_digits
read_step value d n after small e =
    let digit : is_digit (b'0' + d) ≡ true = ground arith in
    let sum : value * 10 + (b'0' + d - b'0') ≡ n = omega (arith, e) in rw (digit, sum) refl

read_digits-digits :
    (rounds n : ℕ) (after : CString)
    → n < rounds
    → read_digits 0 (digits rounds n after) ≡ read_digits n after
unfolding digits read_digits
read_digits-digits zero n after h = absurd (omega (arith, h))
read_digits-digits (suc rounds) n after h = elim (Bool-cases (ltb n 10)) [
  | inl small ↦ ground arith
  | inr large ↦
      let more = read_digits-digits rounds (n / 10) ((b'0' + n % 10) ∷ after) (ground arith) in
      rw large (more ∙ read_step (n / 10) (n % 10) n after (omega arith) (omega arith))
]

-- The text of a number starts with a digit.
digits-head :
    (rounds n : ℕ) (after : CString)
    → n < rounds
    → (c : ℕ) × (cs : CString) × (digits rounds n after ≡ c ∷ cs) × (b'0' ≤ c) × (c ≤ b'9')
unfolding digits
digits-head zero n after h = absurd (omega (arith, h))
digits-head (suc rounds) n after h = elim (Bool-cases (ltb n 10)) [
  | inl small ↦ (b'0' + n, after, rw small refl, omega arith, ground arith)
  | inr large ↦
      let (c, cs, e, lo, hi) =
        digits-head rounds (n / 10) ((b'0' + n % 10) ∷ after) (ground arith) in
      (c, cs, rw large e, lo, hi)
]

strtol-digit :
    (c : ℕ) (cs : CString)
    → b'0' ≤ c
    → c ≤ b'9'
    → strtol (c ∷ cs) ≡ positive (read_digits 0 (c ∷ cs))
unfolding strtol
strtol-digit c cs lo hi = ground arith

pub read_digits-decimal : (n : ℕ) → read_digits 0 (decimal n) ≡ n
unfolding decimal read_digits
read_digits-decimal n = read_digits-digits (suc n) n [] (omega arith)

pub decimal-injective : (m n : ℕ) → decimal m ≡ decimal n → m ≡ n
decimal-injective m n e = sym (read_digits-decimal m) ∙ ap (read_digits 0) e ∙ read_digits-decimal n

pub decimal-nonempty :
    (n : ℕ) → (c : ℕ) × (cs : CString) × (decimal n ≡ c ∷ cs) × (b'0' ≤ c) × (c ≤ b'9')
unfolding decimal
decimal-nonempty n = digits-head (suc n) n [] (omega arith)

pub strtol-decimal : (n : ℕ) → n < 2 ^ 31 → strtol (decimal n) ≡ pos n
strtol-decimal n h =
    let (c, cs, e, lo, hi) = decimal-nonempty n in
    let same : read_digits 0 (c ∷ cs) ≡ n = ap (read_digits 0) (sym e) ∙ read_digits-decimal n in
    ap strtol e ∙ strtol-digit c cs lo hi ∙ ap positive same ∙ ground (arith, h)
