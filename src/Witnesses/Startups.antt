-- ===== src/Witnesses/Startups.antt =====
-- Sessions that start, from the defaults and after others.
use pglite4j.Prelude.{
  ℕ, ◌+◌, ◌≡◌, refl, inl, inr, true, none, some, List, [], ◌∷◌, ◌++◌, if◌then◌else◌,
}
use pglite4j.Prelude.Text.{CString, codes, same_text}
use pglite4j.Buffers.{Pool, pgl_invalidate_buffers}
use pglite4j.Buffers.Laws.{pgl_invalidate_buffers_lem}
use pglite4j.DataDir.{Disk, is_dumped, zip_entries, move_file}
use pglite4j.DataDir.Startup.{
  no_files, Resources, ZeroFs, extract_dist, pgdata_prefix, pgdata_of, Starter, construct, trim,
}
use pglite4j.DataDir.Startup.History.{
  Ending, dumps, killed, after_endings, last_saved, saved_file, AreWalks, AreWhole,
}
use pglite4j.DataDir.Startup.Laws.{
  bundled, has_no_twins, IsRoomy, IsExtracted, extract_dist-IsExtracted,
}
use pglite4j.DataDir.Startup.Reopen.{starts_on, Merges, construct-after_endings}
use pglite4j.Witnesses.Toy.{Toy, toy, toy_exports}
use pglite4j.DataDir.Laws.{breaks, lookup}
use pglite4j.Witnesses.Archives.{
  text_zip, two_files, no_atomic_moves, unreadable, unpack-pack, two_files-IsWalk,
}

-- A line with a blank, an empty one, and one that has no resource.
abbrev lines : List CString
lines = codes " pgdata/PG_VERSION" ∷ [] ∷ codes "pgdata/base/2" ∷ codes "pgdata/none" ∷ []

abbrev bundle : Resources
bundle = record {
  manifest = some lines;
  resource = λ n.
      if same_text n (codes "/pgdata/PG_VERSION")
      then some (17 ∷ [])
      else if same_text n (codes "/pgdata/base/2")
      then some (9 ∷ [])
      else none;
}

abbrev roomy : ZeroFs
roomy = record { makes_parent = λ _ _. true; has_room = λ _ _. true }

roomy-IsRoomy : IsRoomy roomy
unfolding IsRoomy
roomy-IsRoomy fs name = (refl, refl)

extract_dist-IsExtracted_example : IsExtracted (bundled bundle lines) (extract_dist bundle roomy)
extract_dist-IsExtracted_example = extract_dist-IsExtracted bundle roomy lines roomy-IsRoomy refl

-- A module whose snapshot has a buffer.
abbrev toy_starter : Starter Toy
toy_starter = record {
  load = λ _. some (toy 0 none [] (1 ∷ []) none);
  invalidate_buffers = λ e. elim e [ toy n w c _ f ↦ toy n w c [] f ];
  get_buffer_addr = λ _ _. 1;
}

-- A dump, one that stops, and a kill.
abbrev endings : List Ending
endings = killed (1 ∷ []) ∷ dumps unreadable two_files ∷ dumps no_atomic_moves two_files ∷ []

endings-AreWalks : AreWalks endings
unfolding AreWalks
endings-AreWalks = (two_files-IsWalk, (two_files-IsWalk, tt))

endings-AreWhole : AreWhole text_zip (codes "db.zip") endings
unfolding AreWhole last_saved zip_entries is_dumped move_file breaks
endings-AreWhole = inr (refl, inl refl)

construct-after_endings_example :
    (fs : Disk) × ((construct toy_exports toy_starter bundle roomy text_zip
          (some (codes "db.zip"))
          (after_endings text_zip (codes "db.zip") endings no_files)
        ≡ starts_on toy_exports toy_starter true fs)
      × Merges
          (saved_file (some two_files))
          (λ n. lookup (pgdata_prefix ++ n) (bundled bundle lines))
          (pgdata_of fs))
unfolding last_saved bundled has_no_twins trim same_text zip_entries move_file is_dumped
construct-after_endings_example =
    construct-after_endings toy_exports toy_starter bundle roomy text_zip (codes "db.zip") endings
      no_files lines unpack-pack roomy-IsRoomy refl refl refl endings-AreWalks endings-AreWhole

abbrev dirty_pool : Pool ℕ
dirty_pool = record {
  descriptors = λ i. record { state = i + 7; tag = 1 ∷ i ∷ [] };
  system_caches = 5;
}

pgl_invalidate_buffers_lem_example :
    ((pgl_invalidate_buffers 2 (λ _. 0) dirty_pool).descriptors 1
      ≡ record { state = 0; tag = 0 ∷ 0 ∷ [] })
    × ((pgl_invalidate_buffers 2 (λ _. 0) dirty_pool).system_caches ≡ 0)
pgl_invalidate_buffers_lem_example = pgl_invalidate_buffers_lem 2 (λ _. 0) dirty_pool 1
