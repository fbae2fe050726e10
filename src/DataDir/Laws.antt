-- ===== src/DataDir/Laws.antt =====
-- A dump of /pgdata and its restoration.
use pglite4j.Prelude.{
  ℕ, ◌+◌, ◌≡◌, ◌⊎◌, inl, inr, refl, ap, ◌∙◌, Bool, true, false, ◌&&◌, ◌||◌, Option, none, some,
  List, [], ◌∷◌, length, length-append, if◌then◌else◌, arith, Bool-cases,
}
use pglite4j.Prelude.Text.{CString, codes, same_text, same_text_sound, same_text_refl}
use pglite4j.DataDir.{
  Entry, Disk, put, is_dumped, is_directory, Zip, done, not_atomic, failed, replaced, broken,
  HostCalls, zip_entries, Dumped, dumped, io_exception, runtime_exception, tmp_of, after_move,
  move_file, dump_data_dir, restore_entries, restore_data_dir,
}

abbrev pub files_after : Dumped → Disk
files_after (dumped files) = files
files_after (io_exception files) = files
files_after (runtime_exception files) = files

abbrev pub is_done : Dumped → Bool
is_done (dumped files) = true
is_done (io_exception files) = false
is_done (runtime_exception files) = false

abbrev pub lookup : CString → List Entry → Option (List ℕ)
lookup n [] = none
lookup n ((m, bytes) ∷ es) = let rest = lookup n es in if same_text n m then some bytes else rest

abbrev pub or_else : Option (List ℕ) → Option (List ℕ) → Option (List ℕ)
or_else none b = b
or_else (some a) b = some a

pub or_else-none : (o : Option (List ℕ)) → or_else o none ≡ o
or_else-none none = refl
or_else-none (some _) = refl

-- Each name once, and none that ends with a slash.
unfoldable pub IsWalk : List Entry → Type 0
IsWalk [] = Unit {0}
IsWalk ((m, _) ∷ es) = (lookup m es ≡ none) × (is_directory m ≡ false) × IsWalk es

pub put-or_else :
    (n m : CString) (b : List ℕ) (es : List Entry) (d : Disk)
    → lookup m es ≡ none
    → or_else (lookup n es) (put m b d n)
      ≡ or_else (if same_text n m then some b else lookup n es) (d n)
put-or_else n m b es d fresh = elim (Bool-cases (same_text n m)) [
  | inl same ↦
      let gone : lookup n es ≡ none = ap (λ k. lookup k es) (same_text_sound n m same) ∙ fresh in
      rw same (rw gone refl)
  | inr other ↦ rw other refl
]

restore_entries-lookup :
    (zip : Zip) (es : List Entry) (d : Disk) (n : CString)
    → IsWalk es
    → restore_entries zip es d n ≡ or_else (lookup n es) (d n)
unfolding restore_entries IsWalk
restore_entries-lookup zip [] d n w = refl
restore_entries-lookup zip ((m, b) ∷ es) d n (fresh, file, w) =
    rw file (restore_entries-lookup zip es (put m b d) n w ∙ put-or_else n m b es d fresh)

-- The entries of a dump.
abbrev pub kept : List Entry → List Entry
kept [] = []
kept ((m, b) ∷ es) = let rest = kept es in if is_dumped m then (m, b) ∷ rest else rest

zip_entries-kept :
    (host : HostCalls) (walk : List Entry)
    → ((n : CString) → host.copies n ≡ true)
    → zip_entries host walk ≡ (kept walk, true)
unfolding zip_entries
zip_entries-kept host [] all = refl
zip_entries-kept host ((m, b) ∷ walk) all = ground (arith, all m, zip_entries-kept host walk all)

lookup-kept :
    (n : CString) (walk : List Entry)
    → lookup n (kept walk) ≡ (if is_dumped n then lookup n walk else none)
lookup-kept n [] = ground arith
lookup-kept n ((m, b) ∷ walk) = elim (Bool-cases (same_text n m)) [
  | inl same ↦ ground (arith, lookup-kept n walk, same_text_sound n m same)
  | inr other ↦ ground (arith, lookup-kept n walk)
]

kept-IsWalk : (walk : List Entry) → IsWalk walk → IsWalk (kept walk)
unfolding IsWalk
kept-IsWalk [] w = tt
kept-IsWalk ((m, b) ∷ walk) (fresh, file, w) = elim (Bool-cases (is_dumped m)) [
  | inl in_dump ↦
      let gone : lookup m (kept walk) ≡ none = ground (arith, lookup-kept m walk, fresh) in
      rw in_dump (gone, file, kept-IsWalk walk w)
  | inr out ↦ rw out (kept-IsWalk walk w)
]

-- Whether the host falls back to a move that is not atomic, and it fails.
unfoldable pub breaks : HostCalls → Bool
breaks host = elim (host.atomic_move) [
  | done ↦ false
  | failed ↦ false
  | not_atomic ↦ elim (host.plain_move) [ replaced ↦ false | broken _ _ ↦ true ]
]

-- A dump changes no file of the host but its temporary file and, where it succeeds or where a move
-- that is not atomic fails, the target: a backup from before outlives every dump that fails
-- otherwise, in whatever way the calls of the host end.
pub dump_data_dir_lem :
    (zip : Zip) (host : HostCalls) (target : CString) (walk : List Entry) (files : Disk)
    (n : CString)
    → same_text n (tmp_of target) ≡ false
    → ((is_done (dump_data_dir zip host target walk files) || breaks host) && same_text n target)
      ≡ false
    → files_after (dump_data_dir zip host target walk files) n ≡ files n
unfolding dump_data_dir move_file breaks
dump_data_dir_lem zip host target walk files n not_tmp not_done = ground arith

pub tmp_of-other : (target : CString) → same_text target (tmp_of target) ≡ false
tmp_of-other target = elim (Bool-cases (same_text target (tmp_of target))) [
  | inl same ↦
      let len : length target ≡ length target + 4 =
        ap (λ (t : CString). length t) (same_text_sound target (tmp_of target) same)
        ∙ length-append target (codes ".tmp") in
      absurd (omega arith)
  | inr other ↦ other
]

-- The moves bring the archive to its place.
abbrev pub Moves : HostCalls → Type 0
Moves host =
    (host.atomic_move ≡ done) ⊎ ((host.atomic_move ≡ not_atomic) × (host.plain_move ≡ replaced))

move_file-target :
    (host : HostCalls) (target : CString) (bytes : List ℕ) (files : Disk)
    → Moves host
    → move_file host target bytes files ≡ dumped (after_move (tmp_of target) target bytes files)
unfolding move_file
move_file-target host target bytes files (inl e) = ground (arith, e)
move_file-target host target bytes files (inr (e, p)) = ground (arith, e, p)

after_move-target :
    (target : CString) (bytes : List ℕ) (files : Disk)
    → after_move (tmp_of target) target bytes files target ≡ some bytes
after_move-target target bytes files = rw (tmp_of-other target) (rw (same_text_refl target) refl)

dump_data_dir-move_file :
    (zip : Zip) (host : HostCalls) (target : CString) (walk es : List Entry) (files : Disk)
    → host.opens ≡ true
    → zip_entries host walk ≡ (es, true)
    → dump_data_dir zip host target walk files
      ≡ move_file host target (zip.pack es) (put (tmp_of target) (zip.pack es) files)
unfolding dump_data_dir
dump_data_dir-move_file zip host target walk es files opens e = ground (arith, opens, e)

restore_entries-kept :
    (zip : Zip) (walk : List Entry) (pgdata : Disk) (n : CString)
    → IsWalk walk
    → restore_entries zip (kept walk) pgdata n
      ≡ or_else (if is_dumped n then lookup n walk else none) (pgdata n)
restore_entries-kept zip walk pgdata n w =
    restore_entries-lookup zip (kept walk) pgdata n (kept-IsWalk walk w)
    ∙ ap (λ o. or_else o (pgdata n)) (lookup-kept n walk)

pub restore_data_dir-kept :
    (zip : Zip) (walk : List Entry) (pgdata : Disk)
    → ((es : List Entry) → zip.unpack (zip.pack es) ≡ some es)
    → IsWalk walk
    → (pgdata' : Disk) × (restore_data_dir zip (zip.pack (kept walk)) pgdata ≡ some pgdata')
      × ((n : CString)
          → pgdata' n ≡ or_else (if is_dumped n then lookup n walk else none) (pgdata n))
unfolding restore_data_dir
restore_data_dir-kept zip walk pgdata law w = (
  restore_entries zip (kept walk) pgdata,
  rw (law (kept walk), restore_data_dir),
  λ n. restore_entries-kept zip walk pgdata n w,
)

-- Where the host's calls succeed, the dump of a directory leaves an archive at the target, and its
-- restoration over any files gives each dumped file its contents and leaves the others, among them those that
-- the dumped directory did not have.
pub restore_data_dir-dump_data_dir :
    (zip : Zip) (host : HostCalls) (target : CString) (walk : List Entry) (files pgdata : Disk)
    → ((es : List Entry) → zip.unpack (zip.pack es) ≡ some es)
    → host.opens ≡ true
    → ((n : CString) → host.copies n ≡ true)
    → Moves host
    → IsWalk walk
    → (files' : Disk) × (bytes : List ℕ) × (pgdata' : Disk) × (dump_data_dir zip host target walk
          files
        ≡ dumped files')
      × (files' target ≡ some bytes)
      × (restore_data_dir zip bytes pgdata ≡ some pgdata')
      × ((n : CString)
          → pgdata' n ≡ or_else (if is_dumped n then lookup n walk else none) (pgdata n))
unfolding dump_data_dir restore_data_dir
restore_data_dir-dump_data_dir zip host target walk files pgdata law opens copies moves w =
    let bytes = zip.pack (kept walk) in
    (
      after_move (tmp_of target) target bytes (put (tmp_of target) bytes files),
      bytes,
      restore_entries zip (kept walk) pgdata,
      dump_data_dir-move_file zip host target walk (kept walk) files opens
            (zip_entries-kept host walk copies)
          ∙ move_file-target host target bytes (put (tmp_of target) bytes files) moves,
      after_move-target target bytes (put (tmp_of target) bytes files),
      rw (law (kept walk), restore_data_dir),
      λ n. restore_entries-kept zip walk pgdata n w,
    )
