-- ===== src/Dlfcn/Dict.antt =====
-- The dictionary of wasm-build/wasm-build/sdk_port-wasi/sdk_port-wasi-dlfcn.c: an array of entries
-- that doubles when it is full. Allocations are taken to succeed.
pub mod Laws
use pglite4j.Prelude.{
  ℕ, zero, suc, ◌+◌, ◌*◌, Option, none, some, List, [], ◌∷◌, ◌++◌, ltb, ◌==◌, if◌then◌else◌,
  get_elem?, set, ℤ, pos, negsuc,
}
use pglite4j.Prelude.Text.{CString, same_text}

pub record DictEntry : Type 0 where
  pub key : CString
  pub value : ℤ

abbrev pub dict_entry : CString → ℤ → DictEntry
dict_entry k v = record { key = k; value = v }

-- `entry` holds the elements of the array that have been written, which are its first; the array
-- itself has `cap` elements.
pub record Dict : Type 0 where
  pub len : ℕ
  pub cap : ℕ
  pub entry : List DictEntry

-- The loop at index `i`. `none` is a read of an element that was not written.
unfoldable pub find_loop : (rounds i : ℕ) (key : CString) (entry : List DictEntry) → Option ℤ
find_loop zero i key entry = some (negsuc 0)
find_loop (suc rounds) i key entry =
    let rest = find_loop rounds (i + 1) key entry in
    elim (get_elem? entry i) [
      | none ↦ none
      | some e ↦ if same_text e.key key then some (pos i) else rest
    ]

unfoldable pub dict_find_index : Dict → (key : CString) → Option ℤ
unfolding find_loop
dict_find_index dict key = find_loop dict.len 0 key dict.entry

-- The value at an index, with -1 for an absent key.
unfoldable pub value_at : Dict → (idx def : ℤ) → Option ℤ
value_at dict (negsuc n) def = some def
value_at dict (pos idx) def = elim (get_elem? dict.entry idx) [
  | none ↦ none
  | some e ↦ some e.value
]

unfoldable pub dict_find : Dict → (key : CString) (def : ℤ) → Option ℤ
unfolding value_at
dict_find dict key def = elim (dict_find_index dict key) [
  | none ↦ none
  | some idx ↦ value_at dict idx def
]

unfoldable pub grown : Dict → Dict
grown dict = if dict.len == dict.cap then record dict { cap = dict.cap * 2 } else dict

-- `none` is a write outside the array.
unfoldable pub append_entry : Dict → (key : CString) (value : ℤ) → Option Dict
append_entry dict key value =
    if ltb dict.len dict.cap
    then some (record dict { entry = dict.entry ++ dict_entry key value ∷ []; len = dict.len + 1 })
    else none

unfoldable pub store_at : Dict → (idx : ℤ) (key : CString) (value : ℤ) → Option Dict
unfolding grown append_entry
store_at dict (negsuc n) key value = append_entry (grown dict) key value
store_at dict (pos idx) key value = elim (get_elem? dict.entry idx) [
  | none ↦ none
  | some e ↦ some (record dict { entry = set dict.entry idx (record e { value = value }) })
]

unfoldable pub dict_add : Dict → (key : CString) (value : ℤ) → Option Dict
unfolding store_at
dict_add dict key value = elim (dict_find_index dict key) [
  | none ↦ none
  | some idx ↦ store_at dict idx key value
]

unfoldable pub dict_new : Dict
dict_new = record { len = 0; cap = 10; entry = [] }
