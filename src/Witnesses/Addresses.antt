-- ===== src/Witnesses/Addresses.antt =====
-- The resolver on an empty heap, with an allocator of two places.
use pglite4j.Prelude.{
  ℕ, ◌≡◌, ◌⊎◌, refl, Bool, true, false, Option, some, none, if◌then◌else◌, arith, sym, ap, ◌∙◌,
  update, Option-cases, inl, inr,
}
use pglite4j.Prelude.Text.{codes, same_text}
use pglite4j.AddrInfo.{
  Cell, Store, Library, IsAllocator, resolved, failed, sdk_getaddrinfo, sdk_freeaddrinfo, eai_fail,
  linked, info, blank, unset_address,
}
use pglite4j.AddrInfo.Laws.{IsGood, sdk_getaddrinfo-IsGood, freeaddrinfo-getaddrinfo}

abbrev is_free : Option Cell → Bool
is_free none = true
is_free (some _) = false

some-injective {ℓ} : {A : Type ℓ} {a b : A} → some a ≡ some b → a ≡ b
some-injective e = cc

abbrev two_places : Store → Option ℕ
two_places s = if is_free (s 8) then some 8 else if is_free (s 16) then some 16 else none

given :
    (s : Store) (a : ℕ)
    → two_places s ≡ some a
    → ((a ≡ 8) × (s 8 ≡ none)) ⊎ ((a ≡ 16) × (s 16 ≡ none))
given s a h = elim (Option-cases (s 8)) [
  | inl free8 ↦ inl (some-injective (sym h ∙ ap first free8), free8)
  | inr (c, used8) ↦ elim (Option-cases (s 16)) [
    | inl free16 ↦ inr (some-injective (sym h ∙ second c used8 free16), free16)
    | inr (d, used16) ↦ absurd (none_is_some (sym (both c d used8 used16) ∙ h))
  ]
]
  where
    none_is_some : none ≡ some a → ⊥
    none_is_some e = cc

    both : (c d : Cell) → s 8 ≡ some c → s 16 ≡ some d → two_places s ≡ none
    both c d used8 used16 = rw (used8, used16) refl

    first : Option Cell → Option ℕ
    first o = if is_free o then some 8 else if is_free (s 16) then some 16 else none

    second : (c : Cell) → s 8 ≡ some c → s 16 ≡ none → two_places s ≡ some 16
    second c used free16 = rw (used, free16) refl

two_places-IsAllocator : IsAllocator two_places
two_places-IsAllocator = record {
  unused = λ s a h. ground (arith, given s a h);
  nonzero = λ s a h. ground (arith, given s a h);
}

abbrev library : Library
library = record {
  malloc = two_places;
  atoi = λ text. 5432;
  htons = λ n. n;
  inet_pton = λ text. if same_text text (codes "127.0.0.1") then some 2130706433 else none;
  af_inet = 1;
  sock_stream = 6;
  ipproto_tcp = 6;
  sizeof_sockaddr_in = 16;
}

abbrev empty : Store
empty a = none

sdk_getaddrinfo-IsGood_example :
    IsGood library
      (codes "127.0.0.1")
      (codes "5432")
      empty
      (sdk_getaddrinfo library (codes "127.0.0.1") (codes "5432") empty)
sdk_getaddrinfo-IsGood_example =
    sdk_getaddrinfo-IsGood library (codes "127.0.0.1") (codes "5432") empty two_places-IsAllocator

-- The two objects that the call allocates.
abbrev both_filled : Store
both_filled =
    linked library (codes "5432")
      (update (update empty 8 (some (info (blank library)))) 16 (some unset_address)) 8 16
      2130706433

resolved_both :
    sdk_getaddrinfo library (codes "127.0.0.1") (codes "5432") empty ≡ some (resolved 8 both_filled)
unfolding sdk_getaddrinfo same_text
resolved_both = refl

freeaddrinfo-getaddrinfo_example :
    (u : Store) × (sdk_freeaddrinfo 1 both_filled 8 ≡ some u) × ((a : ℕ) → u a ≡ empty a)
freeaddrinfo-getaddrinfo_example =
    freeaddrinfo-getaddrinfo library (codes "127.0.0.1") (codes "5432") empty two_places-IsAllocator
      0 8 both_filled resolved_both

-- A host that does not parse.
abbrev both_freed : Store
both_freed =
    update
      (update (update (update empty 8 (some (info (blank library)))) 16 (some unset_address)) 8
        none)
      16 none

rejected_host :
    sdk_getaddrinfo library (codes "db") (codes "5432") empty ≡ some (failed eai_fail both_freed)
unfolding sdk_getaddrinfo same_text
rejected_host = refl
