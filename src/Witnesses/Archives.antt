-- ===== src/Witnesses/Archives.antt =====
-- Dumps and restorations, with archives that are lists of texts, each behind a 0.
use pglite4j.Prelude.{
  ℕ, zero, suc, ◌≡◌, inr, refl, ap, ◌∙◌, true, false, Option, none, some, List, [], ◌∷◌, ◌++◌, map,
  if◌then◌else◌,
}
use pglite4j.Prelude.Text.{CString, codes, same_text}
use pglite4j.DataDir.{
  Entry, Disk, Zip, HostCalls, done, not_atomic, replaced, dumped, dump_data_dir, restore_data_dir,
  is_dumped,
}
use pglite4j.DataDir.Startup.{no_files}
use pglite4j.DataDir.Laws.{
  breaks, files_after, lookup, or_else, IsWalk, dump_data_dir_lem, restore_data_dir-dump_data_dir,
}

abbrev encoded : List Entry → List ℕ
encoded [] = []
encoded ((name, bytes) ∷ es) = 0 ∷ (map suc name ++ (0 ∷ (map suc bytes ++ encoded es)))

-- The texts of an archive, and what stands before the first of them.
abbrev texts : List ℕ → List CString × CString
texts [] = ([], [])
texts (zero ∷ bytes) = let rest = texts bytes in (rest.1 ∷ rest.0, [])
texts (suc c ∷ bytes) = let rest = texts bytes in (rest.0, c ∷ rest.1)

abbrev in_pairs : List CString → Option (List Entry)
in_pairs [] = some []
in_pairs (a ∷ []) = none
in_pairs (a ∷ b ∷ ts) = elim (in_pairs ts) [ none ↦ none | some es ↦ some ((a, b) ∷ es) ]

abbrev as_texts : List Entry → List CString
as_texts [] = []
as_texts ((name, bytes) ∷ es) = name ∷ bytes ∷ as_texts es

abbrev pub text_zip : Zip
text_zip = record { pack = encoded; cut = encoded; unpack = λ bytes. in_pairs (texts bytes).0 }

-- Before a 0 the text ends.
abbrev behind : List CString × CString → List CString × CString
behind r = (r.1 ∷ r.0, [])

texts-append :
    (t : CString) (rest : List ℕ) (ts : List CString)
    → texts rest ≡ (ts, [])
    → texts (map suc t ++ rest) ≡ (ts, t)
texts-append [] rest ts e = e
texts-append (c ∷ t) rest ts e = rw (texts-append t rest ts e) refl

texts-encoded : (es : List Entry) → texts (encoded es) ≡ (as_texts es, [])
texts-encoded [] = refl
texts-encoded ((name, bytes) ∷ es) =
    let second = texts-append bytes (encoded es) (as_texts es) (texts-encoded es) in
    let first =
      texts-append name (0 ∷ (map suc bytes ++ encoded es)) (bytes ∷ as_texts es)
        (ap behind second) in
    ap behind first

in_pairs-as_texts : (es : List Entry) → in_pairs (as_texts es) ≡ some es
in_pairs-as_texts [] = refl
in_pairs-as_texts ((name, bytes) ∷ es) = rw (in_pairs-as_texts es) refl

pub unpack-pack : (es : List Entry) → text_zip.unpack (text_zip.pack es) ≡ some es
unpack-pack es = ap (λ p. in_pairs p.0) (texts-encoded es) ∙ in_pairs-as_texts es

abbrev pub two_files : List Entry
two_files =
    (codes "base/1", 5 ∷ 6 ∷ [])
    ∷ (codes ".s.PGSQL.5432.out", 7 ∷ [])
    ∷ (codes "PG_VERSION", 1 ∷ [])
    ∷ []

pub two_files-IsWalk : IsWalk two_files
unfolding IsWalk same_text
two_files-IsWalk = (refl, refl, (refl, refl, (refl, refl, tt)))

abbrev pub no_atomic_moves : HostCalls
no_atomic_moves = record {
  opens = true;
  copies = λ _. true;
  atomic_move = not_atomic;
  plain_move = replaced;
}

-- The old file `base/2` is there again after the restoration.
abbrev defaults : Disk
defaults n = if same_text n (codes "base/2") then some (9 ∷ []) else none

restore_data_dir-dump_data_dir_example :
    (files' : Disk) × (bytes : List ℕ) × (pgdata' : Disk) × (dump_data_dir text_zip no_atomic_moves
        (codes "db.zip")
        two_files
        no_files
      ≡ dumped files')
    × (files' (codes "db.zip") ≡ some bytes)
    × (restore_data_dir text_zip bytes defaults ≡ some pgdata')
    × ((n : CString)
        → pgdata' n ≡ or_else (if is_dumped n then lookup n two_files else none) (defaults n))
restore_data_dir-dump_data_dir_example =
    restore_data_dir-dump_data_dir text_zip no_atomic_moves (codes "db.zip") two_files no_files
      defaults unpack-pack refl (λ n. refl) (inr (refl, refl)) two_files-IsWalk

-- The second file cannot be read; the backup from before stays.
abbrev pub unreadable : HostCalls
unreadable = record {
  opens = true;
  copies = λ n. if same_text n (codes "PG_VERSION") then false else true;
  atomic_move = done;
  plain_move = replaced;
}

abbrev backup : Disk
backup n = if same_text n (codes "db.zip") then some (1 ∷ 2 ∷ []) else none

dump_data_dir_lem_example :
    files_after
      (dump_data_dir text_zip unreadable (codes "db.zip") two_files backup)
      (codes "db.zip")
    ≡ some (1 ∷ 2 ∷ [])
unfolding same_text dump_data_dir is_dumped breaks
dump_data_dir_lem_example =
    dump_data_dir_lem text_zip unreadable (codes "db.zip") two_files backup (codes "db.zip") refl
      refl
