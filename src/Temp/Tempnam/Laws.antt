-- ===== src/Temp/Tempnam/Laws.antt =====
-- Where `tempnam` of wasm-build/sdk/hotfix/patch.h is undefined.
use pglite4j.Prelude.{
  ℕ, zero, suc, ◌+◌, ◌-◌, ◌*◌, ◌≤◌, ◌<◌, ◌≡◌, ◌≢◌, inl, inr, refl, Option, none, some, ltb, leb,
  ◌==◌, if◌then◌else◌, arith, sym, ap, ◌∙◌, Bool, Bool-cases, true, false,
}
use pglite4j.Temp.Name.{World}
use pglite4j.Temp.Tempnam.{
  Object, strlen_loop, strlen, copied, copy, put, six_x, fresh, filename_max, Named, undefined,
  named_in, defined, finish, with_prefix, tempnam,
}

strlen_loop-none :
    (left : ℕ) (byte : ℕ → ℕ) (at : ℕ)
    → ((i : ℕ) → at ≤ i → i < at + left → byte i ≢ 0)
    → strlen_loop left byte at ≡ none
unfolding strlen_loop
strlen_loop-none zero byte at h = refl
strlen_loop-none (suc left) byte at h = ground (
  arith,
  h at (omega arith) (omega arith),
  strlen_loop-none left byte (at + 1) (λ i p q. h i (omega arith) (omega arith)),
)

strlen_loop-some :
    (left : ℕ) (byte : ℕ → ℕ) (at d i : ℕ)
    → strlen_loop left byte at ≡ some d
    → at ≤ i
    → i < d
    → byte i ≢ 0
unfolding strlen_loop
strlen_loop-some zero byte at d i e p q = cc
strlen_loop-some (suc left) byte at d i e p q = elim (Bool-cases (byte at == 0)) [
  | inl stop ↦ absurd (ground (arith, e))
  | inr go ↦ elim (Bool-cases (i == at)) [
    | inl now ↦ ground arith
    | inr later ↦ strlen_loop-some left byte (at + 1) d i (ground (arith, e)) (ground arith) q
  ]
]

strlen-some : (o : Object) (d i : ℕ) → strlen o ≡ some d → i < d → o.byte i ≢ 0
unfolding strlen
strlen-some o d i e q = strlen_loop-some o.size o.byte 0 d i e (omega arith) q

strlen-none : (o : Object) → ((i : ℕ) → i < o.size → o.byte i ≢ 0) → strlen o ≡ none
unfolding strlen
strlen-none o h = strlen_loop-none o.size o.byte 0 (λ i p q. h i (omega (arith, q)))

-- What a successful copy leaves.
record IsCopied (to : Object) (at : ℕ) (from : Object) (n : ℕ) (r : Object) : Type 0 where
  size_kept : r.size ≡ to.size
  before : (i : ℕ) → i < at → r.byte i ≡ to.byte i
  inside : (i : ℕ) → i < n → r.byte (at + i) ≡ from.byte i

if_some {ℓ} :
    {A : Type ℓ} {a r : A} (b : Bool) → (if b then some a else none) ≡ some r → (b ≡ true) × (a ≡ r)
if_some true e = (refl, cc)
if_some false e = cc

if_if_some {ℓ} :
    {A : Type ℓ} {a r : A} (b c : Bool)
    → (if b then if c then some a else none else none) ≡ some r
    → a ≡ r
if_if_some true c e = (if_some c e).1
if_if_some false c e = cc

copied-IsCopied :
    (to : Object) (at : ℕ) (from : Object) (n : ℕ) → IsCopied to at from n (copied to at from n)
unfolding copied
copied-IsCopied to at from n = record {
  size_kept = refl;
  before = λ i h. ground arith;
  inside = λ i h. ground arith;
}

copy-IsCopied :
    (to : Object) (at : ℕ) (from : Object) (n : ℕ) (r : Object)
    → copy to at from n ≡ some r
    → IsCopied to at from n r
unfolding copy
copy-IsCopied to at from n r e =
    let same : copied to at from n ≡ r = if_if_some (leb n from.size) (leb (at + n) to.size) e in
    rw (sym same) (copied-IsCopied to at from n)

put-some :
    (to : Object) (at c : ℕ) (r : Object)
    → put to at c ≡ some r
    → (at < to.size)
      × (r.size ≡ to.size)
      × (r.byte at ≡ c)
      × ((i : ℕ) → i < at → r.byte i ≡ to.byte i)
unfolding put
put-some to at c r e =
    let (there, same) = if_some (ltb at to.size) e in
    (
      ground arith,
      ap (λ o. o.size) (sym same),
      (ap (λ o. o.byte at) (sym same) ∙ ground arith),
      λ i h. ap (λ o. o.byte i) (sym same) ∙ ground arith,
    )

defined-undefined :
    {A : Type 0} (k : A → Named) (o : Option A)
    → ((a : A) → o ≡ some a → k a ≡ undefined)
    → defined k o ≡ undefined
defined-undefined k none h = refl
defined-undefined k (some a) h = h a refl

named_in-undefined :
    (w : World) (ptr : Object)
    → ((i : ℕ) → i < ptr.size → ptr.byte i ≢ 0)
    → named_in w ptr ≡ undefined
unfolding named_in
named_in-undefined w ptr h = rw (strlen-none ptr h)

block-text :
    (stale : ℕ → ℕ) (buf : Object) (all : ℕ) (b c d : Object)
    → ((i : ℕ) → i < all → buf.byte i ≢ 0)
    → IsCopied buf all six_x 6 b
    → ((i : ℕ) → i < all + 6 → c.byte i ≡ b.byte i)
    → IsCopied (fresh stale (all + 6)) 0 c (all + 6) d
    → (i : ℕ) → i < d.size
    → d.byte i ≢ 0
block-text stale buf all b c d h cb same cd i q zeroed =
    let small : i < all + 6 = omega (arith, cd.size_kept) in
    let in_b : b.byte i ≡ 0 = ground (arith, same i small, cd.inside i small, zeroed) in
    elim (Bool-cases (ltb i all)) [
      | inl early ↦ h i (ground arith) (sym (cb.before i (ground arith)) ∙ in_b)
      | inr late ↦ ground (arith, in_b, cb.inside (i - all) (ground arith))
    ]

-- The six X and the new memory, after `all` bytes that are not NUL.
finish-undefined :
    (w : World) (stale : ℕ → ℕ) (buf : Object) (all : ℕ)
    → ((i : ℕ) → i < all → buf.byte i ≢ 0)
    → finish w stale buf all ≡ undefined
unfolding finish
finish-undefined w stale buf all h =
    defined-undefined
      (λ b.
        defined (λ c. defined (named_in w) (copy (fresh stale (all + 6)) 0 c (all + 6)))
          (put b (all + 6) 0))
      (copy buf all six_x 6)
      λ b eb.
        defined-undefined (λ c. defined (named_in w) (copy (fresh stale (all + 6)) 0 c (all + 6)))
          (put b (all + 6) 0)
          λ c ec.
            defined-undefined (named_in w) (copy (fresh stale (all + 6)) 0 c (all + 6)) λ d ed.
              named_in-undefined w d (
                block-text stale buf all b c d h (copy-IsCopied buf all six_x 6 b eb)
                  (put-some b (all + 6) 0 c ec).3
                  (copy-IsCopied (fresh stale (all + 6)) 0 c (all + 6) d ed))

-- The buffer once the directory and the slash stand in it.
begun-text :
    (stale : ℕ → ℕ) (dir : Object) (d : ℕ) (b c : Object)
    → strlen dir ≡ some d
    → d < filename_max
    → copy (fresh stale filename_max) 0 dir filename_max ≡ some b
    → put b d b'/' ≡ some c
    → (i : ℕ) → i < d + 1
    → c.byte i ≢ 0
begun-text stale dir d b c len small eb ec i q zeroed =
    let (_, _, slash, before) = put-some b d b'/' c ec in
    let copied_dir = copy-IsCopied (fresh stale filename_max) 0 dir filename_max b eb in
    elim (Bool-cases (i == d)) [
      | inl last ↦ ground (arith, slash)
      | inr early ↦
          let at_dir : dir.byte i ≡ 0 =
            ground (arith, before i (ground arith), copied_dir.inside i (ground arith)) in
          strlen-some dir d i len (ground arith) at_dir
    ]

with_prefix-undefined :
    (w : World) (stale : ℕ → ℕ) (c : Object) (d : ℕ) (pfx : Object) (p : ℕ)
    → ((i : ℕ) → i < d + 1 → c.byte i ≢ 0)
    → strlen pfx ≡ some p
    → d + 1 + 2 * p < filename_max
    → with_prefix w stale c d (some pfx) ≡ undefined
unfolding with_prefix
with_prefix-undefined w stale c d pfx p h len small =
    let room : leb filename_max (d + 1 + p) ≡ false = ground arith in
    rw len (
      rw room (
        defined-undefined (λ b. finish w stale b (d + 1 + p))
          (copy c (d + 1) pfx (filename_max - (d + 1 + p)))
          λ b eb. finish-undefined w stale b (d + 1 + p) λ i q zeroed.
            let cb = copy-IsCopied c (d + 1) pfx (filename_max - (d + 1 + p)) b eb in
            elim (Bool-cases (ltb i (d + 1))) [
              | inl early ↦ h i (ground arith) (sym (cb.before i (ground arith)) ∙ zeroed)
              | inr late ↦
                  strlen-some pfx p (i - (d + 1)) len (ground arith)
                    (ground (arith, zeroed, cb.inside (i - (d + 1)) (ground arith)))
            ]))

with_no_prefix :
    (w : World) (stale : ℕ → ℕ) (c : Object) (d : ℕ)
    → ((i : ℕ) → i < d + 1 → c.byte i ≢ 0)
    → with_prefix w stale c d none ≡ undefined
unfolding with_prefix
with_no_prefix w stale c d h = finish-undefined w stale c (d + 1) h

room_for : (d : ℕ) → d < filename_max → leb filename_max d ≡ false
room_for d small = ground arith

-- The call up to the prefix.
begun-undefined :
    (w : World) (stale : ℕ → ℕ) (dir : Object) (d : ℕ) (pfx : Option Object)
    → strlen dir ≡ some d
    → d < filename_max
    → ((c : Object)
        → ((i : ℕ) → i < d + 1 → c.byte i ≢ 0)
        → with_prefix w stale c d pfx ≡ undefined)
    → tempnam w stale dir pfx ≡ undefined
unfolding tempnam
begun-undefined w stale dir d pfx len small k =
    rw (len, room_for d small)
      (defined-undefined (λ b. defined (λ c. with_prefix w stale c d pfx) (put b d b'/'))
        (copy (fresh stale filename_max) 0 dir filename_max)
        λ b eb.
          defined-undefined (λ c. with_prefix w stale c d pfx) (put b d b'/')
            λ c ec. k c (begun-text stale dir d b c len small eb ec))

-- With no prefix, and a directory shorter than FILENAME_MAX, `tempnam` always runs outside its
-- objects.
pub tempnam_no_prefix :
    (w : World) (stale : ℕ → ℕ) (dir : Object) (d : ℕ)
    → strlen dir ≡ some d
    → d < filename_max
    → tempnam w stale dir none ≡ undefined
tempnam_no_prefix w stale dir d len small =
    begun-undefined w stale dir d none len small λ c h. with_no_prefix w stale c d h

-- With a directory of `d` bytes and a prefix of `p`, where d + 1 + 2 p is below FILENAME_MAX, so
-- that all of the prefix is copied, `tempnam` always runs outside its objects.
tempnam_prefix :
    (w : World) (stale : ℕ → ℕ) (dir : Object) (d : ℕ) (pfx : Object) (p : ℕ)
    → strlen dir ≡ some d
    → strlen pfx ≡ some p
    → d + 1 + 2 * p < filename_max
    → tempnam w stale dir (some pfx) ≡ undefined
tempnam_prefix w stale dir d pfx p len plen room =
    begun-undefined w stale dir d (some pfx) len (omega (arith, room))
      λ c h. with_prefix-undefined w stale c d pfx p h plen room
