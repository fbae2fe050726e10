-- ===== src/Witnesses/Libraries.antt =====
-- The dictionary and the loader on concrete keys.
use pglite4j.Prelude.{[], ◌∷◌, ◌≡◌, some, none, ℤ, pos, if◌then◌else◌}
use pglite4j.Prelude.Text.{CString, codes, same_text}
use pglite4j.Dlfcn.Dict.{Dict, dict_new, dict_add, dict_find}
use pglite4j.Dlfcn.Dict.Laws.{IsDict, dict_find-dict_add, dict_new-IsDict}
use pglite4j.Dlfcn.Loader.{search_loop, at_start, dlopen}
use pglite4j.Dlfcn.Loader.Laws.{dlopen_first}

dict_find-dict_add_example :
    (t : Dict) × (dict_add dict_new (codes "a") (pos 5) ≡ some t)
    × IsDict t
    × ((j : CString) (def : ℤ)
        → dict_find t j def
          ≡ (if same_text (codes "a") j then some (pos 5) else dict_find dict_new j def))
dict_find-dict_add_example = dict_find-dict_add dict_new (codes "a") (pos 5) dict_new-IsDict.0

dlopen_first_example :
    (search_loop 0 0 (codes "/plpgsql.so") (none ∷ []) ≡ some none)
    × (t : Dict) × (dict_add dict_new (codes "/plpgsql.so") (pos 0) ≡ some t)
    × ((def : ℤ) → dict_find t (codes "/plpgsql.so") def ≡ some (pos 0))
    × (dlopen (codes "/plpgsql.so") 1 at_start ≡ none)
dlopen_first_example = dlopen_first 1 (codes "/plpgsql.so")
