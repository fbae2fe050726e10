-- ===== src/Witnesses/Processes.antt =====
-- Process numbers, offsets, statuses and shared memory on concrete inputs.
use pglite4j.Prelude.{
  ◌+◌, ◌≤◌, ◌≡◌, ◌≢◌, refl, List, [], ◌∷◌, Option, some, pos, negsuc, arith, length, ◌++◌,
}
use pglite4j.Prelude.Text.{CString, codes}
use pglite4j.Prelude.Decimal.{decimal}
use pglite4j.Shm.{Host, State, opened_as, shm_open, shm_unlink}
use pglite4j.Shm.Laws.{shm_open_again}
use pglite4j.Process.{sdk_fdtell}
use pglite4j.Process.Offsets.{sdk_fdtell_iff}
use pglite4j.Prelude.{◌<◌, ◌^◌, ◌↔◌, false}
use pglite4j.Prelude.{ℤ}

abbrev environment : CString → Option CString
environment key = some (decimal 1234)

-- The disk is the list of the paths that were opened.
abbrev host_with : Option CString → Host (List CString)
host_with shm = record {
  shm = shm;
  open_file = λ disk path. some (3, path ∷ disk);
  remove = λ disk path. (pos 0, disk);
}

abbrev at_first : State (List CString)
at_first = record { shm_index = 0; disk = [] }

abbrev opened_once : State (List CString)
opened_once = record { shm_index = 1; disk = codes "/shm.0" ∷ [] }

opened : shm_open (host_with (some (codes "/shm"))) at_first (codes "/a") ≡ some (3, opened_once)
unfolding shm_open decimal
opened = refl

short0 : length (codes "/shm") + 1 + length (decimal 0) ≤ 127
unfolding decimal
short0 = omega arith

short1 : length (codes "/shm") + 1 + length (decimal (0 + 1)) ≤ 127
unfolding decimal
short1 = omega arith

shm_open_again_example :
    (first second : CString) × (first ≢ second)
    × (first ≡ codes "/shm" ++ codes "." ++ decimal 0)
    × (second ≡ codes "/shm" ++ codes "." ++ decimal 1)
    × (shm_open (host_with (some (codes "/shm"))) at_first (codes "/a")
        ≡ opened_as
            (host_with (some (codes "/shm")))
            1
            ((host_with (some (codes "/shm"))).open_file [] first))
    × (shm_open (host_with (some (codes "/shm"))) opened_once (codes "/a")
        ≡ opened_as
            (host_with (some (codes "/shm")))
            2
            ((host_with (some (codes "/shm"))).open_file opened_once.disk second))
    × (shm_unlink (host_with (some (codes "/shm"))) opened_once (codes "/a") ≡ (pos 0, opened_once))
shm_open_again_example =
    shm_open_again (host_with (some (codes "/shm"))) (codes "/shm") refl at_first (codes "/a") 3
      opened_once opened short0 short1

abbrev acquire_twice : List (ℤ × ℤ)
acquire_twice = (pos 0, negsuc 0) ∷ (pos 0, negsuc 0) ∷ []

sdk_fdtell_iff_example :
    (sdk_fdtell (λ _. some 3000000000) 3 ≡ (pos 3000000000, false)) ↔ (3000000000 < 2 ^ 31)
sdk_fdtell_iff_example = sdk_fdtell_iff (λ _. some 3000000000) 3 3000000000 refl
