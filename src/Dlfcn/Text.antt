-- ===== src/Dlfcn/Text.antt =====
-- `ends_with`, which wasm-build/wasm-build/sdk_port-wasi/sdk_port-wasi-dlfcn.c and sdk_port-wasi.c
-- beside it both define.
use pglite4j.Prelude.{
  ◌-◌, ◌≡◌, ◌↔◌, sym, ap, ◌∙◌, Bool, true, false, Option, none, some, ◌++◌, arith, ltb,
  if◌then◌else◌, length, take, drop, take-append-drop, drop-append_left, length-append,
}
use pglite4j.Prelude.Text.{CString, same_text, same_text_sound, same_text_refl}

-- `strncmp` of the last `lensuffix` bytes compares them all, since both texts end there.
unfoldable pub ends_with : (str suffix : Option CString) → Bool
ends_with none suffix = false
ends_with (some str) none = false
ends_with (some str) (some suffix) =
    if ltb (length str) (length suffix)
    then false
    else same_text (drop (length str - length suffix) str) suffix

drop-suffix :
    (start str suffix : CString)
    → str ≡ start ++ suffix
    → drop (length str - length suffix) str ≡ suffix
drop-suffix start str suffix e = rw e (
    drop-append_left start suffix (length (start ++ suffix) - length suffix)
      (omega (arith, length-append start suffix)))

-- `ends_with` holds exactly of the texts that are something followed by the suffix.
ends_with_iff :
    (str suffix : CString)
    → (ends_with (some str) (some suffix) ≡ true) ↔ ((start : CString) × (str ≡ start ++ suffix))
unfolding ends_with
ends_with_iff str suffix = (split, join)
  where
    tail : CString
    tail = drop (length str - length suffix) str

    split :
        (if ltb (length str) (length suffix) then false else same_text tail suffix) ≡ true
        → (start : CString) × (str ≡ start ++ suffix)
    split h =
        let same : tail ≡ suffix = same_text_sound tail suffix (ground arith) in
        (
          take (length str - length suffix) str,
          sym (take-append-drop (length str - length suffix) str)
              ∙ ap (λ t. take (length str - length suffix) str ++ t) same,
        )

    join :
        (start : CString) × (str ≡ start ++ suffix)
        → (if ltb (length str) (length suffix) then false else same_text tail suffix) ≡ true
    join (start, e) = ground (
      arith,
      drop-suffix start str suffix e,
      same_text_refl suffix,
      length-append start suffix,
      ap (λ (t : CString). length t) e,
    )
