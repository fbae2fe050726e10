-- ===== src/AddrInfo/Free.antt =====
-- What `free` and one round of `sdk_freeaddrinfo` do to the heap.
use pglite4j.Prelude.{
  ℕ, zero, suc, ◌≡◌, ◌≢◌, inl, inr, refl, Option, none, some, ◌==◌, false, update, Bool-cases,
  arith,
}
use pglite4j.AddrInfo.{AddrInfo, Cell, info, Store, free, free_if, sdk_freeaddrinfo}

pub free-some : (s : Store) (p : ℕ) (x : Cell) → s p ≡ some x → free s p ≡ some (update s p none)
unfolding free
free-some s p x e = rw (e, free) refl

pub update_other : (s : Store) (p q : ℕ) (x : Option Cell) → q ≢ p → update s p x q ≡ s q
update_other s p q x h = ground arith

pub free_if-some :
    (s : Store) (p : ℕ) (x : Cell) → p ≢ 0 → s p ≡ some x → free_if s p ≡ some (update s p none)
unfolding free_if
free_if-some s p x h e =
    let go : (p == 0) ≡ false = ground (arith, h) in rw (go, free_if) (free-some s p x e)

free_if_null : (s : Store) → free_if s 0 ≡ some s
unfolding free_if
free_if_null s = refl

freed_null : (rounds : ℕ) (s : Store) → sdk_freeaddrinfo rounds s 0 ≡ some s
unfolding sdk_freeaddrinfo
freed_null zero s = refl
freed_null (suc rounds) s = refl

pub freed_one :
    (rounds : ℕ) (t : Store) (res : ℕ) (i : AddrInfo) (u v : Store)
    → res ≢ 0
    → t res ≡ some (info i)
    → i.ai_canonname ≡ 0
    → i.ai_next ≡ 0
    → free_if t i.ai_addr ≡ some u
    → free u res ≡ some v
    → sdk_freeaddrinfo (suc rounds) t res ≡ some v
unfolding sdk_freeaddrinfo
freed_one rounds t res i u v nonzero at canon next first last =
    let go : (res == 0) ≡ false = ground (arith, nonzero) in
    rw (go, at, first, canon, last, next) (freed_null rounds v)

pub restored :
    (s t : Store) (res addr : ℕ)
    → s res ≡ none
    → s addr ≡ none
    → ((a : ℕ) → a ≢ res → a ≢ addr → t a ≡ s a)
    → (a : ℕ) → update (update t addr none) res none a ≡ s a
restored s t res addr new_res new_addr elsewhere a = elim (Bool-cases (a == res)) [
  | inl here ↦ ground (arith, new_res)
  | inr off ↦ elim (Bool-cases (a == addr)) [
    | inl there ↦ ground (arith, new_addr)
    | inr away ↦ ground (arith, elsewhere a (ground arith) (ground arith))
  ]
]
