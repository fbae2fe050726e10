-- ===== src/DataDir/Startup/Reopen.antt =====
-- A session that starts where others have ended.
use pglite4j.Prelude.{
  ℕ, ◌≡◌, refl, ap, ◌∙◌, Bool, true, Option, none, some, List, [], ◌∷◌, ◌++◌, replicate,
}
use pglite4j.Prelude.Text.{CString, codes, same_text}
use pglite4j.DataDir.{Entry, Disk, put, starts_with, Zip, restore_data_dir}
use pglite4j.DataDir.Laws.{lookup, or_else, or_else-none, kept, restore_data_dir-kept}
use pglite4j.DataDir.Startup.{
  Resources, ZeroFs, extract_dist, pgdata_prefix, pgdata_of, with_pgdata, is_some, restore,
  start_files, Starter, start_module, construct,
}
use pglite4j.DataDir.Startup.Laws.{bundled, has_no_twins, IsRoomy, extract_dist-lookup}
use pglite4j.DataDir.Startup.History.{
  Ending, after_endings, last_saved, saved_file, AreWalks, AreWhole, IsSavedWalk,
  last_saved-IsSavedWalk, archive, after_endings-target,
}
use pglite4j.Wire.Exports.{Exports}
use pglite4j.Wire.Transport.{PgLite}

abbrev pub urandom : Disk → Disk
urandom fs = put (codes "/dev/urandom") (replicate 128 0) fs

starts_with-nil : (n : CString) → starts_with n [] ≡ true
starts_with-nil [] = refl
starts_with-nil (_ ∷ _) = refl

pgdata_of-with_pgdata :
    (fs pgdata : Disk) (n : CString) → pgdata_of (urandom (with_pgdata fs pgdata)) n ≡ pgdata n
unfolding same_text
pgdata_of-with_pgdata fs pgdata n = refl

pgdata_of-urandom : (fs : Disk) (n : CString) → pgdata_of (urandom fs) n ≡ pgdata_of fs n
unfolding same_text
pgdata_of-urandom fs n = refl

is_some-archive :
    (zip : Zip) (saved : Option (List Entry)) → is_some (archive zip saved) ≡ is_some saved
is_some-archive zip none = refl
is_some-archive zip (some _) = refl

-- The files of a session, with the defaults.
abbrev pub Merges : (saved defaults : Disk) → (pgdata : Disk) → Type 0
Merges saved defaults pgdata = (n : CString) → pgdata n ≡ or_else (saved n) (defaults n)

module _ (res : Resources) (z : ZeroFs) (zip : Zip) (fs : Disk)
    (extracted : extract_dist res z ≡ some fs) where
  start_files-fresh : start_files res z zip none ≡ some (urandom fs)
  unfolding start_files restore
  start_files-fresh = rw (extracted, start_files) refl

  start_files-restored :
      (bytes : List ℕ) (pgdata : Disk)
      → restore_data_dir zip bytes (pgdata_of fs) ≡ some pgdata
      → start_files res z zip (some bytes) ≡ some (urandom (with_pgdata fs pgdata))
  unfolding start_files restore
  start_files-restored bytes pgdata r = rw (extracted, start_files) (rw (r, restore) refl)

  -- The files that a session finds after the last dump that reached its end.
  start_files-saved_file :
      (saved : Option (List Entry))
      → ((es : List Entry) → zip.unpack (zip.pack es) ≡ some es)
      → IsSavedWalk saved
      → (fs' : Disk) × ((start_files res z zip (archive zip saved) ≡ some fs')
          × Merges (saved_file saved) (pgdata_of fs) (pgdata_of fs'))
  unfolding IsSavedWalk
  start_files-saved_file none law w = (urandom fs, (start_files-fresh, λ n. pgdata_of-urandom fs n))
  start_files-saved_file (some walk) law w =
      let (pgdata, restores, at) = restore_data_dir-kept zip walk (pgdata_of fs) law w in
      (
        urandom (with_pgdata fs pgdata),
        (
          start_files-restored (zip.pack (kept walk)) pgdata restores,
          λ n. pgdata_of-with_pgdata fs pgdata n ∙ at n,
        ),
      )

-- What is left of a construction when the module has its files.
abbrev pub starts_on :
    {E : Type 0} → Exports E → Starter E → (restored : Bool) → Disk → Option (PgLite E)
starts_on x l restored fs = elim (l.load fs) [
  | none ↦ none
  | some e ↦ some (start_module x l restored e)
]

module _ {E : Type 0} (x : Exports E) (l : Starter E) (res : Resources) (z : ZeroFs)
    (zip : Zip) where
  construct-start_files :
      (target : CString) (host fs : Disk) (a : Option (List ℕ))
      → host target ≡ a
      → start_files res z zip a ≡ some fs
      → construct x l res z zip (some target) host ≡ starts_on x l (is_some a) fs
  unfolding construct
  construct-start_files target host fs a there files =
      ap (λ (a' : Option (List ℕ)). from_archive a') there ∙ rw files refl
    where
      from_archive : Option (List ℕ) → Option (PgLite E)
      from_archive a' = elim (start_files res z zip a') [
        | none ↦ none
        | some fs' ↦ starts_on x l (is_some a') fs'
      ]

  -- Let sessions on a path that had no file dump, fail to, or be killed in the middle of a dump, in
  -- any number, but for a move that is not atomic and fails or is killed after the last dump that
  -- reached its end. Where an archive unpacks to what was packed, the manifest has no name twice and
  -- the file system has room, the next session on the path starts its module on the files of that
  -- dump, but for those that a dump leaves out, and on the default files wherever it had none; and it
  -- drops the module's buffers exactly if there was such a dump.
  pub construct-after_endings :
      (target : CString) (endings : List Ending) (files : Disk) (lines : List CString)
      → ((es : List Entry) → zip.unpack (zip.pack es) ≡ some es)
      → IsRoomy z
      → res.manifest ≡ some lines
      → has_no_twins (bundled res lines) ≡ true
      → files target ≡ none
      → AreWalks endings
      → AreWhole zip target endings
      → (fs : Disk) × ((construct x l res z zip
              (some target)
              (after_endings zip target endings files)
            ≡ starts_on x l (is_some (last_saved zip target endings)) fs)
          × Merges
              (saved_file (last_saved zip target endings))
              (λ n. lookup (pgdata_prefix ++ n) (bundled res lines))
              (pgdata_of fs))
  construct-after_endings target endings files lines law roomy listed apart empty walks whole =
      let (d, (extracted, defaults)) = extract_dist-lookup res z lines roomy listed apart in
      let saved : Option (List Entry) = last_saved zip target endings in
      let (fs, (starts, merges)) =
        start_files-saved_file res z zip d extracted saved law
          (last_saved-IsSavedWalk zip target endings walks) in
      let there : after_endings zip target endings files target ≡ archive zip saved =
        after_endings-target zip target endings files whole
        ∙ ap (λ o. or_else (archive zip saved) o) empty
        ∙ or_else-none (archive zip saved) in
      (
        fs,
        (
          construct-start_files target (after_endings zip target endings files) fs
                (archive zip saved) there starts
              ∙ ap (λ b. starts_on x l b fs) (is_some-archive zip saved),
          λ n. merges n ∙ ap (λ o. or_else (saved_file saved n) o) (defaults (pgdata_prefix ++ n)),
        ),
      )
