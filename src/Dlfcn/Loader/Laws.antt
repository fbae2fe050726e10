-- ===== src/Dlfcn/Loader/Laws.antt =====
-- What `dlopen` of wasm-build/wasm-build/sdk_port-wasi/sdk_port-wasi-dlfcn.c does with its table.
use pglite4j.Prelude.{ℕ, ◌≡◌, ◌∙◌, refl, none, some, arith, pos, ℤ}
use pglite4j.Prelude.Text.{CString, same_text_refl}
use pglite4j.Dlfcn.Dict.{Dict, dict_new, dict_add, dict_find}
use pglite4j.Dlfcn.Dict.Laws.{dict_find-dict_add, dict_new-IsDict}
use pglite4j.Dlfcn.Loader.{at_start, search_loop, dlopen}

-- The first `dlopen` of the program is undefined, for every library and all flags, although its
-- search ends well and finds nothing, and the dictionary that it makes of the library is defined and
-- has the library's index, 0, under its name.
pub dlopen_first :
    (flags : ℕ) (filename : CString)
    → (search_loop at_start.dltab_index 0 filename at_start.dltab ≡ some none)
      × (t : Dict) × (dict_add dict_new filename (pos at_start.dltab_index) ≡ some t)
      × ((def : ℤ) → dict_find t filename def ≡ some (pos at_start.dltab_index))
      × (dlopen filename flags at_start ≡ none)
unfolding dlopen
dlopen_first flags filename =
    let (t, e, _, finds) = dict_find-dict_add dict_new filename (pos 0) dict_new-IsDict.0 in
    (refl, t, e, λ def. finds filename def ∙ rw (same_text_refl filename) refl, ground (arith, e))
