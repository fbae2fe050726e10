-- ===== src/DataDir/Startup.antt =====
-- The constructor of PGLite.java, with `extractDistToZeroFs`: the files that a session starts from.
pub mod Laws
pub mod Reopen
pub mod History
use pglite4j.Prelude.{
  ℕ, ◌≡◌, ℤ, pos, Bool, true, false, ◌&&◌, Option, none, some, List, [], ◌∷◌, ◌++◌, length, drop,
  if◌then◌else◌, leb, replicate,
}
use pglite4j.Prelude.Text.{CString, codes}
use pglite4j.DataDir.{Disk, put, starts_with, Zip, restore_data_dir}
use pglite4j.Wire.Exports.{Exports}
use pglite4j.Wire.Transport.{PgLite}

-- The class path: the lines of /pglite-files.txt, and the other resources by name.
pub record Resources : Type 0 where
  pub manifest : Option (List CString)
  pub resource : CString → Option (List ℕ)

-- What is asked of ZeroFS, with the directories of /pglite-dirs.txt: whether `createDirectories`
-- makes the parent of a name, and whether no directory stands where a file is to be.
pub record ZeroFs : Type 0 where
  pub makes_parent : Disk → CString → Bool
  pub has_room : Disk → CString → Bool

abbrev pub is_some {ℓ} : {A : Type ℓ} → Option A → Bool
is_some none = false
is_some (some _) = true

abbrev pub is_empty : CString → Bool
is_empty [] = true
is_empty (_ ∷ _) = false

abbrev pub trim_start : CString → CString
trim_start [] = []
trim_start (c ∷ s) = let rest = trim_start s in if leb c 32 then rest else c ∷ s

abbrev pub trim_end : CString → CString
trim_end [] = []
trim_end (c ∷ s) = let rest = trim_end s in if leb c 32 && is_empty rest then [] else c ∷ rest

-- `line.trim()`
unfoldable pub trim : CString → CString
trim line = trim_end (trim_start line)

-- `Files.copy`, which replaces no file; `none` is an exception.
unfoldable pub copy_new : ZeroFs → (name : CString) → (bytes : List ℕ) → Disk → Option Disk
copy_new zero_fs name bytes fs = elim (fs name) [
  | some _ ↦ none
  | none ↦ if zero_fs.has_room fs name then some (put name bytes fs) else none
]

-- A line of the manifest.
unfoldable pub extract_line : Resources → ZeroFs → (line : CString) → Disk → Option Disk
unfolding copy_new trim
extract_line res zero_fs line fs =
    let name = codes "/" ++ trim line in
    if is_empty (trim line)
    then some fs
    else if zero_fs.makes_parent fs name
    then elim (res.resource name) [ none ↦ some fs | some bytes ↦ copy_new zero_fs name bytes fs ]
    else none

unfoldable pub extract_lines : Resources → ZeroFs → (lines : List CString) → Disk → Option Disk
unfolding extract_line
extract_lines res zero_fs [] fs = some fs
extract_lines res zero_fs (line ∷ lines) fs = elim (extract_line res zero_fs line fs) [
  | none ↦ none
  | some fs' ↦ extract_lines res zero_fs lines fs'
]

abbrev pub no_files : Disk
no_files _ = none

-- `extractDistToZeroFs` of the new file system.
unfoldable pub extract_dist : Resources → ZeroFs → Option Disk
unfolding extract_lines
extract_dist res zero_fs = elim (res.manifest) [
  | none ↦ none
  | some lines ↦ extract_lines res zero_fs lines no_files
]

abbrev pub pgdata_prefix : CString
pgdata_prefix = codes "/pgdata/"

abbrev pub pgdata_of : Disk → Disk
pgdata_of fs name = fs (pgdata_prefix ++ name)

abbrev pub with_pgdata : Disk → (pgdata : Disk) → Disk
with_pgdata fs pgdata name =
    if starts_with name pgdata_prefix then pgdata (drop (length pgdata_prefix) name) else fs name

-- The archive of an earlier session, where there is one.
abbrev pub archive_of : (data_dir : Option CString) → (host : Disk) → Option (List ℕ)
archive_of none host = none
archive_of (some path) host = host path

unfoldable pub restore : Zip → (archive : Option (List ℕ)) → Disk → Option Disk
restore zip none fs = some fs
restore zip (some bytes) fs = elim (restore_data_dir zip bytes (pgdata_of fs)) [
  | none ↦ none
  | some pgdata ↦ some (with_pgdata fs pgdata)
]

-- The files that the module finds.
unfoldable pub start_files : Resources → ZeroFs → Zip → (archive : Option (List ℕ)) → Option Disk
unfolding extract_dist restore
start_files res zero_fs zip archive = elim (extract_dist res zero_fs) [
  | none ↦ none
  | some fs ↦ elim (restore zip archive fs) [
    | none ↦ none
    | some fs' ↦ some (put (codes "/dev/urandom") (replicate 128 0) fs')
  ]
]

-- What is asked of the module besides its `Exports`: `load` builds the instance over the files. The
-- other two are taken not to trap; Buffers has the first of them on its own.
pub record Starter (E : Type 0) : Type 0 where
  pub load : Disk → Option E
  pub invalidate_buffers : E → E
  pub get_buffer_addr : (channel : ℤ) → E → ℕ

module _ {E : Type 0} (x : Exports E) (l : Starter E) where
  -- The snapshot's buffers are dropped where the files are those of an archive.
  unfoldable pub start_module : (restored : Bool) → E → PgLite E
  start_module restored e =
      let fresh = if restored then l.invalidate_buffers e else e in
      let ready = x.interactive_write (pos 0) fresh in
      record {
        engine = ready;
        buffer_addr = l.get_buffer_addr (x.get_channel ready) ready;
        pending_wire_len = 0;
      }

  -- The constructor.
  unfoldable pub construct :
      Resources → ZeroFs → Zip → (data_dir : Option CString) → (host : Disk) → Option (PgLite E)
  unfolding start_files start_module
  construct res zero_fs zip data_dir host =
      elim (start_files res zero_fs zip (archive_of data_dir host)) [
        | none ↦ none
        | some fs ↦ elim (l.load fs) [
          | none ↦ none
          | some e ↦ some (start_module (is_some (archive_of data_dir host)) e)
        ]
      ]
