-- ===== src/AddrInfo/Laws.antt =====
-- What `sdk_getaddrinfo` and `sdk_freeaddrinfo` do to the heap.
use pglite4j.Prelude.{
  ℕ, suc, ◌≡◌, ◌≢◌, ◌⊎◌, inl, inr, refl, Option, none, some, ◌==◌, update, Option-cases, Bool-cases,
  sym, ◌∙◌, arith,
}
use pglite4j.Prelude.Text.{CString}
use pglite4j.AddrInfo.{
  info, unset_address, address, Store, Library, IsAllocator, Eai, eai_fail, eai_memory, eai_code,
  Reply, failed, resolved, blank, filled, linked, with_both, with_result, sdk_getaddrinfo,
  sdk_freeaddrinfo, sdk_gai_strerror,
}
use pglite4j.AddrInfo.Free.{free-some, update_other, free_if-some, freed_one, restored}

module _ (c : Library) (hostname service : CString) (s : Store) where
  -- The store of a successful call.
  pub record IsResolved (res : ℕ) (t : Store) : Type 0 where
    pub addr : ℕ
    pub sin_addr : ℕ
    pub distinct : addr ≢ res
    pub parsed : c.inet_pton hostname ≡ some sin_addr
    pub res_nonzero : res ≢ 0
    pub addr_nonzero : addr ≢ 0
    pub new_res : s res ≡ none
    pub new_addr : s addr ≡ none
    pub at_res : t res ≡ some (info (filled c addr))
    pub at_addr : t addr ≡ some (address c.af_inet (c.htons (c.atoi service)) sin_addr)
    pub elsewhere : (a : ℕ) → a ≢ res → a ≢ addr → t a ≡ s a

  -- An error leaves the heap as it was; it is EAI_FAIL only for a host that `inet_pton` rejects.
  abbrev pub IsGood : Option Reply → Type 0
  IsGood none = ⊥
  IsGood (some (failed e t)) =
      ((e ≡ eai_memory) ⊎ ((e ≡ eai_fail) × (c.inet_pton hostname ≡ none))) × ((a : ℕ) → t a ≡ s a)
  IsGood (some (resolved res t)) = IsResolved res t

  abbrev one_more : (result : ℕ) → Store
  one_more result = update s result (some (info (blank c)))

  abbrev two_more : (result addr : ℕ) → Store
  two_more result addr = update (one_more result) addr (some unset_address)

  module _ (result : ℕ) (new_result : s result ≡ none) (result_nonzero : result ≢ 0) where
    restored_one : (a : ℕ) → update (one_more result) result none a ≡ s a
    restored_one a = elim (Bool-cases (a == result)) [
      | inl here ↦ ground (arith, new_result)
      | inr there ↦ ground arith
    ]

    module _ (addr : ℕ) (unused : one_more result addr ≡ none) (addr_nonzero : addr ≢ 0) where
      distinct : addr ≢ result
      distinct e = ground (arith, unused)

      new_addr : s addr ≡ none
      new_addr = ground (arith, unused, distinct)

      restored_two : (a : ℕ) → update (update (two_more result addr) result none) addr none a ≡ s a
      restored_two a = elim (Bool-cases (a == addr)) [
        | inl at_addr ↦ ground (arith, new_addr)
        | inr there ↦ elim (Bool-cases (a == result)) [
          | inl here ↦ ground (arith, new_result)
          | inr off ↦ ground arith
        ]
      ]

      with_both-rejected :
          c.inet_pton hostname ≡ none
          → with_both c hostname service (two_more result addr) result addr
            ≡ some (failed eai_fail (update (update (two_more result addr) result none) addr none))
      unfolding with_both
      with_both-rejected e =
          let at_result : two_more result addr result ≡ some (info (blank c)) =
            ground (arith, distinct) in
          let at_addr : update (two_more result addr) result none addr ≡ some unset_address =
            ground (arith, distinct) in
          rw (e, with_both)
            (rw
              (
                free-some (two_more result addr) result (info (blank c)) at_result,
                free-some (update (two_more result addr) result none) addr unset_address at_addr,
              )
              refl)

      with_both-IsResolved :
          (sin_addr : ℕ)
          → c.inet_pton hostname ≡ some sin_addr
          → IsResolved result (linked c service (two_more result addr) result addr sin_addr)
      unfolding linked
      with_both-IsResolved sin_addr e = record {
        addr = addr;
        sin_addr = sin_addr;
        distinct = distinct;
        parsed = e;
        res_nonzero = result_nonzero;
        addr_nonzero = addr_nonzero;
        new_res = new_result;
        new_addr = new_addr;
        at_res = ground arith;
        at_addr = ground (arith, distinct);
        elsewhere = λ a p q. ground (arith, p, q);
      }

      with_both-parsed :
          (sin_addr : ℕ)
          → c.inet_pton hostname ≡ some sin_addr
          → with_both c hostname service (two_more result addr) result addr
            ≡ some (resolved result (linked c service (two_more result addr) result addr sin_addr))
      unfolding with_both
      with_both-parsed sin_addr e = rw (e, with_both) refl

      with_both-IsGood : IsGood (with_both c hostname service (two_more result addr) result addr)
      with_both-IsGood = elim (Option-cases (c.inet_pton hostname)) [
        | inl e ↦ rw (with_both-rejected e) (inr (refl, e), restored_two)
        | inr (sin_addr, e) ↦ rw (with_both-parsed sin_addr e) (with_both-IsResolved sin_addr e)
      ]

    with_result-refused :
        c.malloc (one_more result) ≡ none
        → with_result c hostname service (one_more result) result
          ≡ some (failed eai_memory (update (one_more result) result none))
    unfolding with_result
    with_result-refused e =
        rw (e, with_result)
          (rw (free-some (one_more result) result (info (blank c)) (ground arith)) refl)

    with_result-given :
        (addr : ℕ)
        → c.malloc (one_more result) ≡ some addr
        → with_result c hostname service (one_more result) result
          ≡ with_both c hostname service (two_more result addr) result addr
    unfolding with_result
    with_result-given addr e = rw (e, with_result) refl

    with_result-IsGood :
        IsAllocator c.malloc → IsGood (with_result c hostname service (one_more result) result)
    with_result-IsGood good = elim (Option-cases (c.malloc (one_more result))) [
      | inl e ↦ rw (with_result-refused e) (inl refl, restored_one)
      | inr (addr, e) ↦ rw (with_result-given addr e) (
          with_both-IsGood addr (good.unused (one_more result) addr e)
            (good.nonzero (one_more result) addr e))
    ]

  getaddrinfo-refused :
      c.malloc s ≡ none → sdk_getaddrinfo c hostname service s ≡ some (failed eai_memory s)
  unfolding sdk_getaddrinfo
  getaddrinfo-refused e = rw (e, sdk_getaddrinfo) refl

  getaddrinfo-given :
      (result : ℕ)
      → c.malloc s ≡ some result
      → sdk_getaddrinfo c hostname service s
        ≡ with_result c hostname service (one_more result) result
  unfolding sdk_getaddrinfo
  getaddrinfo-given result e = rw (e, sdk_getaddrinfo) refl

  -- With an allocator that gives unused addresses other than NULL, `sdk_getaddrinfo` never frees
  -- wrongly. If it fails, with EAI_MEMORY, or with EAI_FAIL for a host that `inet_pton` rejects, all
  -- it allocated is free again. If it succeeds, `*res` is a new struct addrinfo, of one element,
  -- which points to a new struct sockaddr_in with the parsed address and the service's port in
  -- network order, and no other object has changed.
  pub sdk_getaddrinfo-IsGood : IsAllocator c.malloc → IsGood (sdk_getaddrinfo c hostname service s)
  sdk_getaddrinfo-IsGood good = elim (Option-cases (c.malloc s)) [
    | inl e ↦ rw (getaddrinfo-refused e) (inl refl, λ a. refl)
    | inr (result, e) ↦
        rw (getaddrinfo-given result e)
          (with_result-IsGood result (good.unused s result e) (good.nonzero s result e) good)
  ]

  reply-IsGood :
      IsAllocator c.malloc
      → (o : Option Reply) → sdk_getaddrinfo c hostname service s ≡ o
      → IsGood o
  reply-IsGood good o e = rw (sym e) (sdk_getaddrinfo-IsGood good)

  freed-IsResolved :
      (rounds res : ℕ) (t : Store) (r : IsResolved res t)
      → sdk_freeaddrinfo (suc rounds) t res ≡ some (update (update t r.addr none) res none)
  unfolding filled
  freed-IsResolved rounds res t r =
      freed_one rounds t res (filled c r.addr) (update t r.addr none)
        (update (update t r.addr none) res none) r.res_nonzero r.at_res refl refl
        (free_if-some t r.addr (address c.af_inet (c.htons (c.atoi service)) r.sin_addr)
          r.addr_nonzero r.at_addr)
        (free-some (update t r.addr none) res (info (filled c r.addr))
          (update_other t r.addr res none (λ e. r.distinct (sym e)) ∙ r.at_res))

  -- What a successful `sdk_getaddrinfo` gave, `sdk_freeaddrinfo` gives back: in one round of its
  -- loop, with no undefined call of `free`, and all objects are again as they were.
  pub freeaddrinfo-getaddrinfo :
      IsAllocator c.malloc
      → (rounds res : ℕ) (t : Store) → sdk_getaddrinfo c hostname service s ≡ some (resolved res t)
      → (u : Store) × (sdk_freeaddrinfo (suc rounds) t res ≡ some u) × ((a : ℕ) → u a ≡ s a)
  freeaddrinfo-getaddrinfo good rounds res t e =
      let r : IsResolved res t = reply-IsGood good (some (resolved res t)) e in
      (
        update (update t r.addr none) res none,
        freed-IsResolved rounds res t r,
        restored s t res r.addr r.new_res r.new_addr r.elsewhere,
      )

  -- Every error of `sdk_getaddrinfo` is EAI_MEMORY with the text for memory, or EAI_FAIL with the
  -- text for a failure that is not recoverable.
  pub gai_strerror-getaddrinfo :
      IsAllocator c.malloc
      → (e : Eai) (t : Store) → sdk_getaddrinfo c hostname service s ≡ some (failed e t)
      → ((e ≡ eai_memory) × (sdk_gai_strerror (eai_code e) ≡ "Memory allocation failure"))
        ⊎ ((e ≡ eai_fail)
            × (sdk_gai_strerror (eai_code e) ≡ "Non-recoverable failure in name resolution"))
  unfolding sdk_gai_strerror
  gai_strerror-getaddrinfo good e t h = elim (reply-IsGood good (some (failed e t)) h).0 [
    | inl memory ↦ inl (memory, rw memory refl)
    | inr (fail, _) ↦ inr (fail, rw fail refl)
  ]
