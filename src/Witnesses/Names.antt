-- ===== src/Witnesses/Names.antt =====
-- Temporary names on a system where the first attempts are taken.
use pglite4j.Prelude.{
  ℕ, ◌*◌, ◌<◌, ◌≡◌, refl, true, some, none, ltb, if◌then◌else◌, arith, length, take, drop,
}
use pglite4j.Prelude.Text.{CString, codes, same_text}
use pglite4j.Temp.Letters.{AreLetters}
use pglite4j.Temp.Name.{World, exists, enoent, candidate, is_template}
use pglite4j.Temp.Name.Laws.{mktemp-name, mktemp-first}
use pglite4j.Temp.Tempnam.{Object, strlen, tempnam, undefined}
use pglite4j.Temp.Tempnam.Laws.{tempnam_no_prefix}

-- `stat` finds the names of the first `n` attempts.
abbrev taken : (n : ℕ) → World
taken n = record {
  nsec = λ i. 1000 * i;
  stat = λ i path. if ltb i n then exists else enoent;
  ts_address = 65536;
  tmpl_address = 70000;
}

abbrev template : CString
template = codes "/tmp/aXXXXXX"

template-good : is_template template ≡ true
unfolding is_template same_text
template-good = refl

mktemp-name_example :
    (length (candidate (taken 3) 3 template) ≡ 12)
    × (take 6 (candidate (taken 3) 3 template) ≡ codes "/tmp/a")
    × AreLetters (drop 6 (candidate (taken 3) 3 template))
    × (i : ℕ) × (i < 100)
    × ((taken 3).stat i (candidate (taken 3) 3 template) ≡ enoent)
mktemp-name_example =
    mktemp-name (taken 3) template (candidate (taken 3) 3 template)
      (mktemp-first (taken 3) template template-good 3 (omega arith) (λ j h. ground arith) refl)

-- "/tmp" and "pg", in objects of 4096 bytes, so that no copy reads too far.
abbrev dir_object : Object
dir_object = record { size = 4096; byte = λ i. if ltb i 4 then 116 else 0 }

abbrev pfx_object : Object
pfx_object = record { size = 4096; byte = λ i. if ltb i 2 then 112 else 0 }

dir_length : strlen dir_object ≡ some 4
unfolding strlen
dir_length = refl

pfx_length : strlen pfx_object ≡ some 2
unfolding strlen
pfx_length = refl

tempnam_no_prefix_example : tempnam (taken 0) (λ i. 0) dir_object none ≡ undefined
tempnam_no_prefix_example =
    tempnam_no_prefix (taken 0) (λ i. 0) dir_object 4 dir_length (omega arith)
