-- ===== src/DataDir/Startup/History.antt =====
-- Sessions one after the other on the same path: what their dumps, and a kill in the middle of one,
-- leave for the next.
use pglite4j.Prelude.{
  ℕ, ◌≡◌, refl, ◌∙◌, Bool, true, false, ◌&&◌, ◌⊎◌, Option, none, some, List, [], ◌∷◌, if◌then◌else◌,
  arith, Bool-cases, inl, inr,
}
use pglite4j.Prelude.Text.{CString, same_text_refl}
use pglite4j.DataDir.{
  Entry, Disk, put, leave, is_dumped, Zip, HostCalls, zip_entries, tmp_of, dump_data_dir, move_file,
}
use pglite4j.DataDir.Laws.{
  lookup, or_else, IsWalk, kept, files_after, is_done, breaks, dump_data_dir_lem, tmp_of-other,
}

-- A dump; or a process that is killed before the moves, or in an atomic one, and leaves these bytes
-- in the temporary file; or one that is killed in a move that is not atomic, and leaves these files.
pub data Ending : Type 0 where
  dumps : HostCalls → (walk : List Entry) → Ending
  killed : (bytes : List ℕ) → Ending
  killed_moving : (tmp_left target_left : Option (List ℕ)) → Ending

-- The archive of a walk.
abbrev pub archive : Zip → Option (List Entry) → Option (List ℕ)
archive zip none = none
archive zip (some walk) = some (zip.pack (kept walk))

module _ (zip : Zip) (target : CString) where
  unfoldable pub after_ending : Ending → Disk → Disk
  after_ending (dumps host walk) files = files_after (dump_data_dir zip host target walk files)
  after_ending (killed bytes) files = put (tmp_of target) bytes files
  after_ending (killed_moving tmp_left target_left) files =
      leave (tmp_of target) tmp_left (leave target target_left files)

  -- The host's files after the endings, the last one first.
  unfoldable pub after_endings : List Ending → Disk → Disk
  unfolding after_ending
  after_endings [] files = files
  after_endings (e ∷ es) files = after_ending e (after_endings es files)

  -- Whether a dump reaches its end depends on the calls of the host alone.
  abbrev pub moves : HostCalls → Bool
  moves host = is_done (move_file host target [] (λ _. none))

  abbrev pub saves : HostCalls → List Entry → Bool
  saves host walk = host.opens && (zip_entries host walk).1 && moves host

  -- The files of the last dump that reached its end.
  unfoldable pub last_saved : List Ending → Option (List Entry)
  last_saved [] = none
  last_saved (killed _ ∷ es) = last_saved es
  last_saved (killed_moving _ _ ∷ es) = last_saved es
  last_saved (dumps host walk ∷ es) =
      let before = last_saved es in if saves host walk then some walk else before

  -- Since the last dump that reached its end, no move that is not atomic has failed or was killed.
  unfoldable pub AreWhole : List Ending → Type 0
  AreWhole [] = Unit {0}
  AreWhole (killed _ ∷ es) = AreWhole es
  AreWhole (killed_moving _ _ ∷ es) = ⊥
  AreWhole (dumps host walk ∷ es) = (saves host walk ≡ true) ⊎ ((breaks host ≡ false) × AreWhole es)

  is_done-saves :
      (host : HostCalls) (walk : List Entry) (files : Disk)
      → is_done (dump_data_dir zip host target walk files) ≡ saves host walk
  unfolding dump_data_dir move_file
  is_done-saves host walk files = ground arith

  zip_entries-all :
      (host : HostCalls) (walk : List Entry)
      → (zip_entries host walk).1 ≡ true
      → (zip_entries host walk).0 ≡ kept walk
  unfolding zip_entries
  zip_entries-all host [] e = refl
  zip_entries-all host ((m, b) ∷ walk) e = elim (Bool-cases (is_dumped m)) [
    | inr out ↦ ground (arith, out, e, zip_entries-all host walk)
    | inl in_dump ↦ elim (Bool-cases (host.copies m)) [
      | inr fails ↦ absurd (ground (arith, in_dump, fails, e))
      | inl copies ↦ ground (arith, in_dump, copies, e, zip_entries-all host walk)
    ]
  ]

  saved_target :
      (host : HostCalls) (walk : List Entry) (files : Disk)
      → saves host walk ≡ true
      → files_after (dump_data_dir zip host target walk files) target ≡ some (zip.pack (kept walk))
  unfolding dump_data_dir move_file
  saved_target host walk files e =
      ground (arith, e, zip_entries-all host walk, tmp_of-other target, same_text_refl target)

  saved-target :
      (host : HostCalls) (walk : List Entry) (es : List Ending) (files : Disk)
      → saves host walk ≡ true
      → after_endings (dumps host walk ∷ es) files target
        ≡ or_else (archive zip (last_saved (dumps host walk ∷ es))) (files target)
  unfolding after_endings after_ending last_saved
  saved-target host walk es files well =
      rw well (saved_target host walk (after_endings es files) well)

  undone-target :
      (host : HostCalls) (walk : List Entry) (files : Disk)
      → saves host walk ≡ false
      → breaks host ≡ false
      → files_after (dump_data_dir zip host target walk files) target ≡ files target
  undone-target host walk files fails whole =
      dump_data_dir_lem zip host target walk files target (tmp_of-other target)
        (ground (arith, is_done-saves host walk files, fails, whole))

  -- Only a dump that reaches its end changes the file at the path.
  pub after_endings-target :
      (es : List Ending) (files : Disk)
      → AreWhole es
      → after_endings es files target ≡ or_else (archive zip (last_saved es)) (files target)
  unfolding after_endings after_ending last_saved AreWhole
  after_endings-target [] files whole = refl
  after_endings-target (killed bytes ∷ es) files whole =
      rw (tmp_of-other target) (after_endings-target es files whole)
  after_endings-target (killed_moving _ _ ∷ es) files whole = absurd whole
  after_endings-target (dumps host walk ∷ es) files (inl well) =
      saved-target host walk es files well
  after_endings-target (dumps host walk ∷ es) files (inr (unbroken, whole)) =
      elim (Bool-cases (saves host walk)) [
        | inl well ↦ saved-target host walk es files well
        | inr fails ↦ rw fails (
            undone-target host walk (after_endings es files) fails unbroken
            ∙ after_endings-target es files whole)
      ]

-- Each walk has the files of a directory.
unfoldable pub AreWalks : List Ending → Type 0
AreWalks [] = Unit {0}
AreWalks (killed _ ∷ es) = AreWalks es
AreWalks (killed_moving _ _ ∷ es) = AreWalks es
AreWalks (dumps _ walk ∷ es) = IsWalk walk × AreWalks es

unfoldable pub IsSavedWalk : Option (List Entry) → Type 0
IsSavedWalk none = Unit {0}
IsSavedWalk (some walk) = IsWalk walk

pub last_saved-IsSavedWalk :
    (zip : Zip) (target : CString) (es : List Ending)
    → AreWalks es
    → IsSavedWalk (last_saved zip target es)
unfolding AreWalks IsSavedWalk last_saved
last_saved-IsSavedWalk zip target [] w = tt
last_saved-IsSavedWalk zip target (killed _ ∷ es) w = last_saved-IsSavedWalk zip target es w
last_saved-IsSavedWalk zip target (killed_moving _ _ ∷ es) w =
    last_saved-IsSavedWalk zip target es w
last_saved-IsSavedWalk zip target (dumps host walk ∷ es) (w, ws) =
    elim (Bool-cases (saves zip target host walk)) [
      | inl well ↦ rw well w
      | inr fails ↦ rw fails (last_saved-IsSavedWalk zip target es ws)
    ]

-- What a dump that reached its end has of a file.
abbrev pub saved_file : Option (List Entry) → Disk
saved_file none n = none
saved_file (some walk) n = if is_dumped n then lookup n walk else none
