-- ===== src/DataDir.antt =====
-- `dumpDataDir` and `restoreDataDir` of core/src/main/java/io/roastedroot/pglite4j/core/PGLite.java:
-- the files of /pgdata, written to a zip file of the host and read from one.
pub mod Laws
pub mod Startup
use pglite4j.Prelude.{
  ℕ, ◌+◌, ◌≡◌, Bool, true, false, ◌||◌, Option, none, some, List, [], ◌∷◌, ◌++◌, ◌==◌,
  if◌then◌else◌,
}
use pglite4j.Prelude.Text.{CString, codes, same_text}

-- A name is the path of a file below its directory.
abbrev pub Entry : Type 0
Entry = CString × List ℕ

-- The regular files of a file system, by name.
abbrev pub Disk : Type 0
Disk = CString → Option (List ℕ)

abbrev pub put : CString → List ℕ → Disk → Disk
put name bytes files = λ n. if same_text n name then some bytes else files n

abbrev pub delete : CString → Disk → Disk
delete name files = λ n. if same_text n name then none else files n

abbrev pub has_slash : CString → Bool
has_slash [] = false
has_slash (c ∷ name) = (c == b'/') || has_slash name

-- `getFileName()`
abbrev pub file_name : CString → CString
file_name [] = []
file_name (c ∷ name) = let rest = file_name name in if has_slash (c ∷ name) then rest else c ∷ name

abbrev pub starts_with : CString → CString → Bool
starts_with name [] = true
starts_with [] (p ∷ prefix) = false
starts_with (c ∷ name) (p ∷ prefix) =
    let rest = starts_with name prefix in if c == p then rest else false

-- The file transport and the sockets are left out.
unfoldable pub is_dumped : CString → Bool
is_dumped name = if starts_with (file_name name) (codes ".s.PGSQL.") then false else true

-- `entry.isDirectory()`: the name ends with a slash.
abbrev pub is_directory : CString → Bool
is_directory [] = false
is_directory (c ∷ []) = c == b'/'
is_directory (_ ∷ c ∷ name) = is_directory (c ∷ name)

-- What is asked of java.util.zip: `pack` are the bytes of an archive, `cut` those of one whose last
-- entry was not finished, and `unpack` reads an archive; `none` is an exception.
pub record Zip : Type 0 where
  pub pack : List Entry → List ℕ
  pub cut : List Entry → List ℕ
  pub unpack : List ℕ → Option (List Entry)

-- How the calls of the host's file system end: whether the archive can be opened, which files can be
-- copied to it, and what the moves do. A plain move that fails may leave anything, or nothing, in
-- place of both files.
pub data Move : Type 0 where
  done not_atomic failed : Move

pub data PlainMove : Type 0 where
  replaced : PlainMove
  broken : (tmp target : Option (List ℕ)) → PlainMove

pub record HostCalls : Type 0 where
  pub opens : Bool
  pub copies : CString → Bool
  pub atomic_move : Move
  pub plain_move : PlainMove

-- The entries that are written, and whether all of them could be.
unfoldable pub zip_entries : HostCalls → (walk : List Entry) → List Entry × Bool
zip_entries host [] = ([], true)
zip_entries host ((name, bytes) ∷ walk) =
    let rest = zip_entries host walk in
    if is_dumped name
    then (if host.copies name
        then ((name, bytes) ∷ rest.0, rest.1)
        else ((name, bytes) ∷ [], false))
    else rest

pub data Dumped : Type 0 where
  dumped io_exception runtime_exception : Disk → Dumped

abbrev pub tmp_of : CString → CString
tmp_of target = target ++ codes ".tmp"

abbrev pub after_move : (tmp target : CString) → (bytes : List ℕ) → Disk → Disk
after_move tmp target bytes files = delete tmp (put target bytes files)

-- A file with what is left of it.
abbrev pub leave : (name : CString) → Option (List ℕ) → Disk → Disk
leave name bytes files = λ n. if same_text n name then bytes else files n

-- Both moves, of `tmp` with these bytes.
unfoldable pub move_file : HostCalls → (target : CString) → (bytes : List ℕ) → Disk → Dumped
move_file host target bytes files = elim (host.atomic_move) [
  | done ↦ dumped (after_move (tmp_of target) target bytes files)
  | failed ↦ io_exception files
  | not_atomic ↦ elim (host.plain_move) [
    | replaced ↦ dumped (after_move (tmp_of target) target bytes files)
    | broken tmp_left target_left ↦
        io_exception (leave (tmp_of target) tmp_left (leave target target_left files))
  ]
]

module _ (zip : Zip) where
  -- `dumpDataDir` after its two messages to the module: `walk` are the regular files of /pgdata, in
  -- the order of `Files.walk`, and `files` those of the host.
  unfoldable pub dump_data_dir :
      HostCalls → (target : CString) → (walk : List Entry) → Disk → Dumped
  unfolding zip_entries move_file
  dump_data_dir host target walk files =
      if host.opens
      then (let zipped = zip_entries host walk in
          if zipped.1
          then move_file host target (zip.pack zipped.0)
              (put (tmp_of target) (zip.pack zipped.0) files)
          else runtime_exception (put (tmp_of target) (zip.cut zipped.0) files))
      else io_exception files

  unfoldable pub restore_entries : List Entry → Disk → Disk
  restore_entries [] pgdata = pgdata
  restore_entries ((name, bytes) ∷ entries) pgdata =
      restore_entries entries (if is_directory name then pgdata else put name bytes pgdata)

  -- `none` is an exception.
  unfoldable pub restore_data_dir : (source : List ℕ) → (pgdata : Disk) → Option Disk
  unfolding restore_entries
  restore_data_dir source pgdata = elim (zip.unpack source) [
    | none ↦ none
    | some entries ↦ some (restore_entries entries pgdata)
  ]
