-- ===== src/AddrInfo.antt =====
-- `sdk_getaddrinfo`, `sdk_freeaddrinfo` and `sdk_gai_strerror` of
-- wasm-build/sdk/hotfix/sdk_socket.c, on a store of heap objects by their address. Address 0 is
-- NULL. The errors EAI_* are those of wasm-build/sdk/hotfix/netdb.h.
mod Free
pub mod Laws
use pglite4j.Prelude.{
  ℕ, zero, suc, ◌≡◌, ◌≢◌, List, Option, none, some, ◌==◌, if◌then◌else◌, Bool, true, false, update,
  String, ℤ, pos, negsuc,
}
use pglite4j.Prelude.Text.{CString}

-- struct addrinfo
pub record AddrInfo : Type 0 where
  pub ai_flags : ℕ
  pub ai_family : ℕ
  pub ai_socktype : ℕ
  pub ai_protocol : ℕ
  pub ai_addrlen : ℕ
  pub ai_addr : ℕ
  pub ai_canonname : ℕ
  pub ai_next : ℕ

-- What a heap object holds: a struct addrinfo, a struct sockaddr_in, or anything else.
pub data Cell : Type 0 where
  info : AddrInfo → Cell
  unset_address : Cell
  address : (sin_family sin_port sin_addr : ℕ) → Cell
  data_of : List ℕ → Cell

-- The object at each address that is allocated.
abbrev pub Store : Type 0
Store = ℕ → Option Cell

-- The C library. `malloc` may refuse; `inet_pton` gives `none` where it returns 0 or less.
pub record Library : Type 0 where
  pub malloc : Store → Option ℕ
  pub atoi : CString → ℕ
  pub htons : ℕ → ℕ
  pub inet_pton : CString → Option ℕ
  pub af_inet : ℕ
  pub sock_stream : ℕ
  pub ipproto_tcp : ℕ
  pub sizeof_sockaddr_in : ℕ

-- `malloc` gives the address of no object, and never NULL.
pub record IsAllocator (malloc : Store → Option ℕ) : Type 0 where
  pub unused : (s : Store) (a : ℕ) → malloc s ≡ some a → s a ≡ none
  pub nonzero : (s : Store) (a : ℕ) → malloc s ≡ some a → a ≢ 0

-- EAI_* of netdb.h.
pub data Eai : Type 0 where
  eai_badflags eai_noname eai_again eai_fail eai_nodata eai_family eai_socktype eai_service : Eai
  eai_memory eai_system eai_overflow : Eai

abbrev pub eai_code : Eai → ℤ
eai_code eai_badflags = negsuc 0
eai_code eai_noname = negsuc 1
eai_code eai_again = negsuc 2
eai_code eai_fail = negsuc 3
eai_code eai_nodata = negsuc 4
eai_code eai_family = negsuc 5
eai_code eai_socktype = negsuc 6
eai_code eai_service = negsuc 7
eai_code eai_memory = negsuc 9
eai_code eai_system = negsuc 10
eai_code eai_overflow = negsuc 11

-- `free(p)` of an object; `none` for the undefined call on an address that holds none.
unfoldable pub free : Store → ℕ → Option Store
free s p = elim (s p) [ none ↦ none | some _ ↦ some (update s p none) ]

-- `if (p) free(p)`
unfoldable pub free_if : Store → ℕ → Option Store
unfolding free
free_if s p = if p == 0 then some s else free s p

-- How a call of `sdk_getaddrinfo` ends: with an error, `*res` not written, or with 0 and `*res`.
pub data Reply : Type 0 where
  failed : Eai → Store → Reply
  resolved : (res : ℕ) → Store → Reply

-- `*result` after `memset` and the three fields that come before the address.
unfoldable pub blank : Library → AddrInfo
blank c = record {
  ai_flags = 0;
  ai_family = c.af_inet;
  ai_socktype = c.sock_stream;
  ai_protocol = c.ipproto_tcp;
  ai_addrlen = 0;
  ai_addr = 0;
  ai_canonname = 0;
  ai_next = 0;
}

-- `*result` at the end.
unfoldable pub filled : Library → (addr : ℕ) → AddrInfo
filled c addr = record {
  ai_flags = 0;
  ai_family = c.af_inet;
  ai_socktype = c.sock_stream;
  ai_protocol = c.ipproto_tcp;
  ai_addrlen = c.sizeof_sockaddr_in;
  ai_addr = addr;
  ai_canonname = 0;
  ai_next = 0;
}

-- The store once both objects are filled.
unfoldable pub linked : Library → (service : CString) → Store → (result addr sin_addr : ℕ) → Store
unfolding filled
linked c service s result addr sin_addr =
    update (update s addr (some (address c.af_inet (c.htons (c.atoi service)) sin_addr))) result
      (some (info (filled c addr)))

-- From `inet_pton` on, with both objects allocated.
unfoldable pub with_both :
    Library → (hostname service : CString) → Store → (result addr : ℕ) → Option Reply
unfolding linked free
with_both c hostname service s result addr = elim (c.inet_pton hostname) [
  | none ↦ elim (free s result) [
    | none ↦ none
    | some t ↦ elim (free t addr) [ none ↦ none | some u ↦ some (failed eai_fail u) ]
  ]
  | some sin_addr ↦ some (resolved result (linked c service s result addr sin_addr))
]

-- From the second `malloc` on.
unfoldable pub with_result :
    Library → (hostname service : CString) → Store → (result : ℕ) → Option Reply
unfolding with_both free
with_result c hostname service s result = elim (c.malloc s) [
  | none ↦ elim (free s result) [ none ↦ none | some t ↦ some (failed eai_memory t) ]
  | some addr ↦ with_both c hostname service (update s addr (some unset_address)) result addr
]

-- `none` is an undefined call of `free`.
unfoldable pub sdk_getaddrinfo : Library → (hostname service : CString) → Store → Option Reply
unfolding with_result blank
sdk_getaddrinfo c hostname service s = elim (c.malloc s) [
  | none ↦ some (failed eai_memory s)
  | some result ↦ with_result c hostname service (update s result (some (info (blank c)))) result
]

-- The loop of `sdk_freeaddrinfo`, with the rounds left. `none` is an undefined call of `free`, a
-- `res` that is no struct addrinfo, or too few rounds.
unfoldable pub sdk_freeaddrinfo : (rounds : ℕ) → Store → (res : ℕ) → Option Store
unfolding free_if
sdk_freeaddrinfo zero s res = if res == 0 then some s else none
sdk_freeaddrinfo (suc rounds) s res = if res == 0 then some s else elim (s res) [
  | none ↦ none
  | some (info i) ↦ elim (free_if s i.ai_addr) [
    | none ↦ none
    | some t ↦ elim (free_if t i.ai_canonname) [
      | none ↦ none
      | some u ↦ elim (free u res) [ none ↦ none | some v ↦ sdk_freeaddrinfo rounds v i.ai_next ]
    ]
  ]
  | some unset_address ↦ none
  | some (address _ _ _) ↦ none
  | some (data_of _) ↦ none
]

-- The switch, on the error -1 - n.
unfoldable pub strerror_below : ℕ → String
strerror_below n =
    if n == 2
    then "Temporary failure in name resolution"
    else if n == 0
    then "Invalid value for ai_flags"
    else if n == 3
    then "Non-recoverable failure in name resolution"
    else if n == 5
    then "ai_family not supported"
    else if n == 9
    then "Memory allocation failure"
    else if n == 1
    then "Name or service not known"
    else if n == 7
    then "Service not supported for socket type"
    else if n == 6
    then "Socket type not supported"
    else if n == 10
    then "System error returned in errno"
    else if n == 11
    then "Argument buffer overflow"
    else "Unknown error"

unfoldable pub sdk_gai_strerror : ℤ → String
unfolding strerror_below
sdk_gai_strerror (pos n) = "Unknown error"
sdk_gai_strerror (negsuc n) = strerror_below n
