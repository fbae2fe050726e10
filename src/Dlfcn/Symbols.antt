-- ===== src/Dlfcn/Symbols.antt =====
-- `dlsym` of wasm-build/wasm-build/sdk_port-wasi/sdk_port-wasi-dlfcn.c.
use pglite4j.Prelude.{
  ◌≡◌, refl, ◌↔◌, Option, none, some, arith, if◌then◌else◌, Bool-cases, inl, inr,
}
use pglite4j.Prelude.Text.{CString, codes, same_text, same_text_sound}

-- The functions whose addresses `dlsym` can return.
pub data Symbol : Type 0 where
  stub_pg_magic_func stub_pg_init dsnowball_init pg_finfo_dsnowball_init : Symbol
  pg_finfo_dsnowball_lexize pg_finfo_plpgsql_call_handler pg_finfo_plpgsql_inline_handler : Symbol
  pg_finfo_plpgsql_validator plpgsql_call_handler plpgsql_inline_handler plpgsql_validator : Symbol

-- `none` is NULL. The handle is not looked at.
unfoldable pub dlsym : (symbol : CString) → Option Symbol
dlsym symbol =
    if same_text symbol (codes "Pg_magic_func")
    then some stub_pg_magic_func
    else if same_text symbol (codes "_PG_init")
    then some stub_pg_init
    else if same_text symbol (codes "dsnowball_init")
    then some dsnowball_init
    else if same_text symbol (codes "pg_finfo_dsnowball_init")
    then some pg_finfo_dsnowball_init
    else if same_text symbol (codes "pg_finfo_dsnowball_lexize")
    then some pg_finfo_dsnowball_lexize
    else if same_text symbol (codes "pg_finfo_plpgsql_call_handler")
    then some pg_finfo_plpgsql_call_handler
    else if same_text symbol (codes "pg_finfo_plpgsql_inline_handler")
    then some pg_finfo_plpgsql_inline_handler
    else if same_text symbol (codes "pg_finfo_plpgsql_validator")
    then some pg_finfo_plpgsql_validator
    else if same_text symbol (codes "plpgsql_call_handler")
    then some plpgsql_call_handler
    else if same_text symbol (codes "plpgsql_inline_handler")
    then some plpgsql_inline_handler
    else if same_text symbol (codes "plpgsql_validator")
    then some plpgsql_validator
    else none

-- The name under which each of them is found.
abbrev pub name_of : Symbol → CString
name_of stub_pg_magic_func = codes "Pg_magic_func"
name_of stub_pg_init = codes "_PG_init"
name_of dsnowball_init = codes "dsnowball_init"
name_of pg_finfo_dsnowball_init = codes "pg_finfo_dsnowball_init"
name_of pg_finfo_dsnowball_lexize = codes "pg_finfo_dsnowball_lexize"
name_of pg_finfo_plpgsql_call_handler = codes "pg_finfo_plpgsql_call_handler"
name_of pg_finfo_plpgsql_inline_handler = codes "pg_finfo_plpgsql_inline_handler"
name_of pg_finfo_plpgsql_validator = codes "pg_finfo_plpgsql_validator"
name_of plpgsql_call_handler = codes "plpgsql_call_handler"
name_of plpgsql_inline_handler = codes "plpgsql_inline_handler"
name_of plpgsql_validator = codes "plpgsql_validator"

dlsym-name_of : (s : Symbol) → dlsym (name_of s) ≡ some s
unfolding dlsym same_text
dlsym-name_of stub_pg_magic_func = refl
dlsym-name_of _ = refl

-- One test of the chain: its name, or the rest.
test_sound :
    (symbol : CString) (t s : Symbol) (rest : Option Symbol)
    → (if same_text symbol (name_of t) then some t else rest) ≡ some s
    → (rest ≡ some s → symbol ≡ name_of s)
    → symbol ≡ name_of s
test_sound symbol t s rest h other = elim (Bool-cases (same_text symbol (name_of t))) [
  | inl same ↦
      let hit : t ≡ s = ground (arith, same, h) in
      rw (← hit) (same_text_sound symbol (name_of t) same)
  | inr differs ↦ other (rw differs at h)
]

names_sound : (symbol : CString) (s : Symbol) → dlsym symbol ≡ some s → symbol ≡ name_of s
unfolding dlsym
names_sound symbol s h = test_sound symbol stub_pg_magic_func s _ h λ h1.
    test_sound symbol stub_pg_init s _ h1 λ h2. test_sound symbol dsnowball_init s _ h2 λ h3.
      test_sound symbol pg_finfo_dsnowball_init s _ h3 λ h4.
        test_sound symbol pg_finfo_dsnowball_lexize s _ h4 λ h5.
          test_sound symbol pg_finfo_plpgsql_call_handler s _ h5 λ h6.
            test_sound symbol pg_finfo_plpgsql_inline_handler s _ h6 λ h7.
              test_sound symbol pg_finfo_plpgsql_validator s _ h7 λ h8.
                test_sound symbol plpgsql_call_handler s _ h8 λ h9.
                  test_sound symbol plpgsql_inline_handler s _ h9
                    λ h10. test_sound symbol plpgsql_validator s none h10 λ h11. cc

-- `dlsym` returns a function exactly for that function's name.
dlsym_iff : (symbol : CString) (s : Symbol) → (dlsym symbol ≡ some s) ↔ (symbol ≡ name_of s)
dlsym_iff symbol s = (names_sound symbol s, λ e. rw e (dlsym-name_of s))
