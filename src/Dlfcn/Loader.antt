-- ===== src/Dlfcn/Loader.antt =====
-- `dlopen` of wasm-build/wasm-build/sdk_port-wasi/sdk_port-wasi-dlfcn.c and its table of libraries.
pub mod Laws
use pglite4j.Prelude.{
  ℕ, zero, suc, ◌+◌, Bool, true, false, Option, none, some, List, [], ◌∷◌, ltb, ◌==◌, if◌then◌else◌,
  length, get_elem?, set, ℤ, pos, negsuc,
}
use pglite4j.Prelude.Text.{CString, codes}
use pglite4j.Dlfcn.Dict.{Dict, dict_find_index, dict_add, dict_new}
use pglite4j.Dlfcn.Text.{ends_with}

-- `dltab` is the array of pointers to dictionaries, `none` for NULL. C gives an array declared with
-- no size one element. `inits` counts the calls of
-- `_PG_init`, which is not part of this repository.
pub record Loader : Type 0 where
  pub dltab : List (Option Dict)
  pub dltab_index : ℕ
  pub inits : ℕ

abbrev pub at_start : Loader
at_start = record { dltab = none ∷ []; dltab_index = 0; inits = 0 }

abbrev pub is_positive : ℤ → Bool
is_positive (pos n) = ltb 0 n
is_positive (negsuc n) = false

-- The loop at index `i`: the outer `none` is a read through NULL or outside the array, the inner
-- one that no library was found.
unfoldable pub search_loop :
    (rounds i : ℕ) (filename : CString) (dltab : List (Option Dict)) → Option (Option ℕ)
search_loop zero i filename dltab = some none
search_loop (suc rounds) i filename dltab =
    let rest = search_loop rounds (i + 1) filename dltab in
    elim (get_elem? dltab i) [
      | none ↦ none
      | some none ↦ none
      | some (some d) ↦ elim (dict_find_index d filename) [
        | none ↦ none
        | some idx ↦ if is_positive idx then some (some i) else rest
      ]
    ]

-- The call of `_PG_init` for the one library that is told apart.
unfoldable pub inits_after : (filename : CString) → Loader → ℕ
inits_after filename l =
    if ends_with (some filename) (some (codes "/plpgsql.so")) then l.inits + 1 else l.inits

-- The part of `dlopen` for a library that was not found.
unfoldable pub new_lib : (filename : CString) → Loader → Option (ℕ × Loader)
new_lib filename l =
    let index = l.dltab_index + 1 in
    elim (dict_add dict_new filename (pos l.dltab_index)) [
      | none ↦ none
      | some tab ↦
          if ltb index (length l.dltab)
          then some (
            index,
            record {
              dltab = set l.dltab index (some tab);
              dltab_index = index;
              inits = inits_after filename l;
            },
          )
          else none
    ]

-- The handle that is returned and the new state, or `none` for what C leaves undefined.
unfoldable pub dlopen : (filename : CString) (flags : ℕ) → Loader → Option (ℕ × Loader)
unfolding search_loop new_lib
dlopen filename flags l = elim (search_loop l.dltab_index 0 filename l.dltab) [
  | none ↦ none
  | some none ↦ new_lib filename l
  | some (some i) ↦ some (i, l)
]
