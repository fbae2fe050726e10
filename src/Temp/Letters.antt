-- ===== src/Temp/Letters.antt =====
-- `__randname` of wasm-build/sdk/hotfix/patch.h: six letters from a 32-bit number.
use pglite4j.Prelude.{
  ℕ, zero, suc, ◌+◌, ◌*◌, ◌/◌, ◌%◌, ◌^◌, ◌≤◌, ◌≡◌, refl, ◌⊎◌, ◌↔◌, List, [], ◌∷◌, arith, length,
  bit_and, bit_xor, ap,
}
use pglite4j.Prelude.Bits.{bit_and_fifteen, bit_and_sixteen}

-- `r` from the clock's nanoseconds and the addresses of the time and of the template, in 32 bits.
-- The signed product `tv_nsec*65537` is taken to wrap, as it does on the target.
unfoldable pub rand_value : (nsec ts_address tmpl_address : ℕ) → ℕ
rand_value nsec ts_address tmpl_address =
    bit_xor (nsec * 65537 % 2 ^ 32) ((ts_address / 16 + tmpl_address) % 2 ^ 32)

-- `'A'+(r&15)+(r&16)*2`
unfoldable pub letter : ℕ → ℕ
letter r = b'A' + bit_and r 15 + bit_and r 16 * 2

-- The loop, with the rounds left.
unfoldable pub letters : (rounds r : ℕ) → List ℕ
unfolding letter
letters zero r = []
letters (suc rounds) r = letter r ∷ letters rounds (r / 2 ^ 5)

unfoldable pub rand_name : (nsec ts_address tmpl_address : ℕ) → List ℕ
unfolding rand_value letters
rand_name nsec ts_address tmpl_address = letters 6 (rand_value nsec ts_address tmpl_address)

letter-eq : (r : ℕ) → letter r ≡ 65 + r % 16 + r / 16 % 2 * 32
unfolding letter
letter-eq r = omega (arith, bit_and_fifteen r, bit_and_sixteen r)

-- A letter from A to P or from a to p.
abbrev pub IsLetter : ℕ → Type 0
IsLetter c = ((65 ≤ c) × (c ≤ 80)) ⊎ ((97 ≤ c) × (c ≤ 112))

abbrev pub AreLetters : List ℕ → Type 0
AreLetters [] = Unit {0}
AreLetters (c ∷ cs) = IsLetter c × AreLetters cs

letter-IsLetter : (r : ℕ) → IsLetter (letter r)
letter-IsLetter r = grind (arith, letter-eq r)

letters-AreLetters : (n r : ℕ) → AreLetters (letters n r) × (length (letters n r) ≡ n)
unfolding letters
letters-AreLetters zero r = (tt, refl)
letters-AreLetters (suc n) r =
    let rest = letters-AreLetters n (r / 32) in ((letter-IsLetter r, rest.0), ap suc rest.1)

pub rand_name-AreLetters :
    (nsec ts_address tmpl_address : ℕ)
    → AreLetters (rand_name nsec ts_address tmpl_address)
      × (length (rand_name nsec ts_address tmpl_address) ≡ 6)
unfolding rand_name
rand_name-AreLetters nsec ts_address tmpl_address =
    letters-AreLetters 6 (rand_value nsec ts_address tmpl_address)

letter-injective : (r q : ℕ) → letter r ≡ letter q → r % 32 ≡ q % 32
letter-injective r q e = omega (arith, letter-eq r, letter-eq q, e)

letter-mod : (r q : ℕ) → r % 32 ≡ q % 32 → letter r ≡ letter q
letter-mod r q e = omega (arith, letter-eq r, letter-eq q)

cons_head : {c d : ℕ} {cs ds : List ℕ} → c ∷ cs ≡ d ∷ ds → c ≡ d
cons_head e = cc

cons_tail : {c d : ℕ} {cs ds : List ℕ} → c ∷ cs ≡ d ∷ ds → cs ≡ ds
cons_tail e = cc

letters-head : (n r q : ℕ) → letters (suc n) r ≡ letters (suc n) q → r % 32 ≡ q % 32
unfolding letters
letters-head n r q e = letter-injective r q (cons_head e)

letters-tail :
    (n r q : ℕ) → letters (suc n) r ≡ letters (suc n) q → letters n (r / 32) ≡ letters n (q / 32)
unfolding letters
letters-tail n r q e = cons_tail e

-- Six digits of five bits are thirty bits.
thirty_bits :
    (r q : ℕ)
    → r % 32 ≡ q % 32
    → r / 32 % 32 ≡ q / 32 % 32
    → r / 32 / 32 % 32 ≡ q / 32 / 32 % 32
    → r / 32 / 32 / 32 % 32 ≡ q / 32 / 32 / 32 % 32
    → r / 32 / 32 / 32 / 32 % 32 ≡ q / 32 / 32 / 32 / 32 % 32
    → r / 32 / 32 / 32 / 32 / 32 % 32 ≡ q / 32 / 32 / 32 / 32 / 32 % 32
    → r % 2 ^ 30 ≡ q % 2 ^ 30
thirty_bits r q a b c d e f = omega arith

letters_agree : (r q : ℕ) → letters 6 r ≡ letters 6 q → r % 2 ^ 30 ≡ q % 2 ^ 30
letters_agree r q e0 =
    let e1 = letters-tail 5 r q e0 in
    let e2 = letters-tail 4 (r / 32) (q / 32) e1 in
    let e3 = letters-tail 3 (r / 32 / 32) (q / 32 / 32) e2 in
    let e4 = letters-tail 2 (r / 32 / 32 / 32) (q / 32 / 32 / 32) e3 in
    let e5 = letters-tail 1 (r / 32 / 32 / 32 / 32) (q / 32 / 32 / 32 / 32) e4 in
    thirty_bits r q (letters-head 5 r q e0) (letters-head 4 (r / 32) (q / 32) e1)
      (letters-head 3 (r / 32 / 32) (q / 32 / 32) e2)
      (letters-head 2 (r / 32 / 32 / 32) (q / 32 / 32 / 32) e3)
      (letters-head 1 (r / 32 / 32 / 32 / 32) (q / 32 / 32 / 32 / 32) e4)
      (letters-head 0 (r / 32 / 32 / 32 / 32 / 32) (q / 32 / 32 / 32 / 32 / 32) e5)

letters-cons :
    (n r q : ℕ)
    → r % 32 ≡ q % 32
    → letters n (r / 32) ≡ letters n (q / 32)
    → letters (suc n) r ≡ letters (suc n) q
unfolding letters
letters-cons n r q e rest = cc (letter-mod r q e, rest)

letters_same : (r q : ℕ) → r % 2 ^ 30 ≡ q % 2 ^ 30 → letters 6 r ≡ letters 6 q
letters_same r q e = letters-cons 5 r q (omega arith) (
    letters-cons 4 (r / 32) (q / 32) (omega arith) (
      letters-cons 3 (r / 32 / 32) (q / 32 / 32) (omega arith) (
        letters-cons 2 (r / 32 / 32 / 32) (q / 32 / 32 / 32) (omega arith) (
          letters-cons 1 (r / 32 / 32 / 32 / 32) (q / 32 / 32 / 32 / 32) (omega arith) (
            letters-cons 0 (r / 32 / 32 / 32 / 32 / 32) (q / 32 / 32 / 32 / 32 / 32) (omega arith)
              (unfold letters in refl))))))

-- The six letters are always from A to P or from a to p, and two numbers give the same six exactly
-- if they agree in their 30 low bits.
letters_six :
    (r q : ℕ)
    → AreLetters (letters 6 r)
      × (length (letters 6 r) ≡ 6)
      × ((letters 6 r ≡ letters 6 q) ↔ (r % 2 ^ 30 ≡ q % 2 ^ 30))
letters_six r q =
    ((letters-AreLetters 6 r).0, (letters-AreLetters 6 r).1, (letters_agree r q, letters_same r q))
