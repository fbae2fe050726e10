-- ===== src/Temp/Name.antt =====
-- `mktemp`, `mkstemp` and `sdk_tmpfile` of wasm-build/sdk/hotfix/patch.h. A result of
-- `mktemp` is the text that the template holds afterwards.
pub mod Laws
use pglite4j.Prelude.{
  ℕ, zero, suc, ◌+◌, ◌-◌, Option, none, some, List, [], ◌∷◌, ◌++◌, ltb, ◌==◌, if◌then◌else◌, length,
  Bool, true, false, take, drop,
}
use pglite4j.Prelude.Text.{CString, codes, same_text}
use pglite4j.Temp.Letters.{rand_name}

-- What `stat` says of a path: it is there, it fails with ENOENT, or it fails with another error.
pub data Stat : Type 0 where
  exists enoent other : Stat

-- The system as `mktemp` meets it: the clock's nanoseconds and what `stat` says, at each attempt,
-- and the addresses that `__randname` mixes in.
pub record World : Type 0 where
  pub nsec : ℕ → ℕ
  pub stat : ℕ → CString → Stat
  pub ts_address : ℕ
  pub tmpl_address : ℕ

-- The template as `mktemp` leaves it: a name, or the empty text with `errno` at EINVAL, at what
-- `stat` set, or at EEXIST.
pub data Made : Type 0 where
  name : CString → Made
  invalid failed exhausted : Made

-- The template with its last six bytes replaced at an attempt.
unfoldable pub candidate : World → (attempt : ℕ) (tmpl : CString) → CString
candidate w attempt tmpl =
    take (length tmpl - 6) tmpl
    ++ rand_name (w.nsec attempt) w.ts_address (w.tmpl_address + (length tmpl - 6))

-- The loop, with the retries left.
unfoldable pub make_loop : World → (retries attempt : ℕ) (tmpl : CString) → Made
unfolding candidate
make_loop w zero attempt tmpl = exhausted
make_loop w (suc retries) attempt tmpl =
    let rest = make_loop w retries (attempt + 1) tmpl in
    elim (w.stat attempt (candidate w attempt tmpl)) [
      | exists ↦ rest
      | enoent ↦ name (candidate w attempt tmpl)
      | other ↦ failed
    ]

-- `!memcmp(tmpl+l-6, "XXXXXX", 6)`, where there are six bytes.
unfoldable pub is_template : CString → Bool
is_template tmpl =
    if ltb (length tmpl) 6 then false else same_text (drop (length tmpl - 6) tmpl) (codes "XXXXXX")

unfoldable pub mktemp : World → (tmpl : CString) → Made
unfolding make_loop is_template
mktemp w tmpl = if is_template tmpl then make_loop w 100 0 tmpl else invalid

-- The text that the caller finds.
abbrev pub text_of : Made → CString
text_of (name n) = n
text_of invalid = []
text_of failed = []
text_of exhausted = []

-- `open` is what `fopen(path, "w")` does: the descriptor of the stream, or `none` for NULL, which
-- `fileno` must not be given. The result is `none` for that undefined call.
unfoldable pub mkstemp : World → (open_file : CString → Option ℕ) (tmpl : CString) → Option ℕ
unfolding mktemp
mkstemp w open_file tmpl = open_file (text_of (mktemp w tmpl))

-- The path that is opened. The template is a literal, which `mktemp` writes to.
unfoldable pub sdk_tmpfile : World → (open_file : CString → Option ℕ) → Option ℕ
unfolding mktemp
sdk_tmpfile w open_file = open_file (text_of (mktemp w (codes "/tmp/tmpfile")))
