-- ===== src/Temp/Tempnam.antt =====
-- `tempnam` of wasm-build/sdk/hotfix/patch.h, with the bytes that it reads and writes.
pub mod Laws
use pglite4j.Prelude.{
  ℕ, zero, suc, ◌+◌, ◌-◌, Option, none, some, List, [], ◌∷◌, ltb, leb, ◌==◌, if◌then◌else◌, Bool,
  true, false, update,
}
use pglite4j.Prelude.Text.{CString}
use pglite4j.Temp.Name.{World, Made, mktemp}

-- A C object of `size` bytes. What `byte` says past the size means nothing.
pub record Object : Type 0 where
  pub size : ℕ
  pub byte : ℕ → ℕ

-- The offset of the first NUL; `none` where the search leaves the object.
unfoldable pub strlen_loop : (left : ℕ) (byte : ℕ → ℕ) (at : ℕ) → Option ℕ
strlen_loop zero byte at = none
strlen_loop (suc left) byte at =
    let rest = strlen_loop left byte (at + 1) in if byte at == 0 then some at else rest

unfoldable pub strlen : Object → Option ℕ
unfolding strlen_loop
strlen o = strlen_loop o.size o.byte 0

-- The object after `memcpy(to + at, from, n)`.
unfoldable pub copied : (to : Object) (at : ℕ) (from : Object) (n : ℕ) → Object
copied to at from n = record {
  size = to.size;
  byte =
      λ i. if ltb i at then to.byte i else if ltb i (at + n) then from.byte (i - at) else to.byte i;
}

-- `none` where `memcpy` leaves an object.
unfoldable pub copy : (to : Object) (at : ℕ) (from : Object) (n : ℕ) → Option Object
unfolding copied
copy to at from n =
    if leb n from.size
    then if leb (at + n) to.size then some (copied to at from n) else none
    else none

-- `to[at] = c`.
unfoldable pub put : (to : Object) (at c : ℕ) → Option Object
put to at c =
    if ltb at to.size then some (record { size = to.size; byte = update to.byte at c }) else none

-- The string literal "XXXXXX".
abbrev pub six_x : Object
six_x = record { size = 7; byte = λ i. if ltb i 6 then b'X' else 0 }

-- FILENAME_MAX
abbrev pub filename_max : ℕ
filename_max = 4096

-- Memory that was not written to yet.
abbrev pub fresh : (stale : ℕ → ℕ) (n : ℕ) → Object
fresh stale n = record { size = n; byte = stale }

abbrev pub bytes : (n : ℕ) (byte : ℕ → ℕ) (at : ℕ) → List ℕ
bytes zero byte at = []
bytes (suc n) byte at = byte at ∷ bytes n byte (at + 1)

-- The call runs outside its objects, returns NULL, or returns what `mktemp` left in the memory.
pub data Named : Type 0 where
  undefined null : Named
  returned : Made → Named

abbrev pub defined : {A : Type 0} → (A → Named) → Option A → Named
defined k none = undefined
defined k (some a) = k a

-- `mktemp(ptr)`, which asks for the length of the text at `ptr` first.
unfoldable pub named_in : World → Object → Named
unfolding strlen mktemp
named_in w ptr = defined (λ l. returned (mktemp w (bytes l ptr.byte 0))) (strlen ptr)

-- From the six X on. `malloc` is taken to give the memory, of `all` bytes.
unfoldable pub finish : World → (stale : ℕ → ℕ) (buf : Object) (all : ℕ) → Named
unfolding copy put named_in
finish w stale buf all =
    defined
      (λ b.
        defined (λ c. defined (named_in w) (copy (fresh stale (all + 6)) 0 c (all + 6)))
          (put b (all + 6) 0))
      (copy buf all six_x 6)

-- The prefix, if there is one.
unfoldable pub with_prefix :
    World → (stale : ℕ → ℕ) (buf : Object) (dir_len : ℕ) (pfx : Option Object) → Named
unfolding finish strlen copy
with_prefix w stale buf dir_len none = finish w stale buf (dir_len + 1)
with_prefix w stale buf dir_len (some pfx) =
    defined
      (λ l.
        if leb filename_max (dir_len + 1 + l)
        then null
        else defined (λ b. finish w stale b (dir_len + 1 + l))
            (copy buf (dir_len + 1) pfx (filename_max - (dir_len + 1 + l))))
      (strlen pfx)

-- `stale` is what the buffer and the new memory hold before they are written.
unfoldable pub tempnam : World → (stale : ℕ → ℕ) (dir : Object) (pfx : Option Object) → Named
unfolding strlen copy put with_prefix
tempnam w stale dir pfx =
    defined
      (λ dir_len.
        if leb filename_max dir_len
        then null
        else defined (λ b. defined (λ c. with_prefix w stale c dir_len pfx) (put b dir_len b'/'))
            (copy (fresh stale filename_max) 0 dir filename_max))
      (strlen dir)
