-- ===== src/DataDir/Startup/Laws.antt =====
-- What the extraction of the class path leaves.
use pglite4j.Prelude.{
  ℕ, ◌≡◌, refl, ap, ◌∙◌, Bool, true, false, ◌&&◌, Option, none, some, List, [], ◌∷◌, ◌++◌,
  if◌then◌else◌, arith, Bool-cases, Option-cases, inl, inr,
}
use pglite4j.Prelude.Text.{CString, codes, same_text_sym}
use pglite4j.DataDir.{Entry, Disk, put}
use pglite4j.DataDir.Laws.{lookup, or_else, or_else-none, put-or_else}
use pglite4j.DataDir.Startup.{
  Resources, ZeroFs, is_empty, trim, copy_new, extract_line, extract_lines, no_files, extract_dist,
  is_some,
}

-- The files that the lines stand for.
unfoldable pub bundled : Resources → List CString → List Entry
bundled res [] = []
bundled res (line ∷ lines) =
    let name = codes "/" ++ trim line in
    let rest = bundled res lines in
    if is_empty (trim line)
    then rest
    else elim (res.resource name) [ none ↦ rest | some bytes ↦ (name, bytes) ∷ rest ]

-- No two of the files have the same name.
unfoldable pub has_no_twins : List Entry → Bool
has_no_twins [] = true
has_no_twins ((m, _) ∷ es) = (if is_some (lookup m es) then false else true) && has_no_twins es

-- `none` is an exception.
unfoldable pub IsExtracted : List Entry → Option Disk → Type 0
IsExtracted es none = has_no_twins es ≡ false
IsExtracted es (some d) = (has_no_twins es ≡ true) × ((n : CString) → d n ≡ lookup n es)

abbrev are_new : Disk → List Entry → Bool
are_new fs [] = true
are_new fs ((m, _) ∷ es) = (if is_some (fs m) then false else true) && are_new fs es

-- The files one after the other.
abbrev put_new : List Entry → Disk → Option Disk
put_new [] fs = some fs
put_new ((m, b) ∷ es) fs = elim (fs m) [ some _ ↦ none | none ↦ put_new es (put m b fs) ]

-- The file system refuses no file for another reason than that it is there.
unfoldable pub IsRoomy : ZeroFs → Type 0
IsRoomy z =
    (fs : Disk) (name : CString) → (z.makes_parent fs name ≡ true) × (z.has_room fs name ≡ true)

-- The file of a line, where there is one.
abbrev file_of : Resources → CString → Option Entry
file_of res line =
    if is_empty (trim line) then none else elim (res.resource (codes "/" ++ trim line)) [
      | none ↦ none
      | some bytes ↦ some (codes "/" ++ trim line, bytes)
    ]

put_file : Option Entry → Disk → Option Disk
put_file none fs = some fs
put_file (some (m, b)) fs = elim (fs m) [ some _ ↦ none | none ↦ some (put m b fs) ]

extract_line-put_file :
    (res : Resources) (z : ZeroFs) (line : CString) (fs : Disk)
    → IsRoomy z
    → extract_line res z line fs ≡ put_file (file_of res line) fs
unfolding extract_line copy_new IsRoomy put_file
extract_line-put_file res z line fs roomy =
    let name : CString = codes "/" ++ trim line in
    elim (Bool-cases (is_empty (trim line))) [
      | inl blank ↦ rw (blank, extract_line) refl
      | inr named ↦ elim (Option-cases (res.resource name)) [
        | inl missing ↦ ground (arith, named, missing, (roomy fs name).0)
        | inr (bytes, found) ↦ ground (arith, named, found, (roomy fs name).0, (roomy fs name).1)
      ]
    ]

with_file : Option Entry → List Entry → List Entry
with_file none es = es
with_file (some e) es = e ∷ es

bundled-with_file :
    (res : Resources) (line : CString) (lines : List CString)
    → bundled res (line ∷ lines) ≡ with_file (file_of res line) (bundled res lines)
unfolding bundled with_file
bundled-with_file res line lines = elim (Bool-cases (is_empty (trim line))) [
  | inl blank ↦ ground (arith, blank)
  | inr named ↦ elim (Option-cases (res.resource (codes "/" ++ trim line))) [
    | inl missing ↦ ground (arith, named, missing)
    | inr (bytes, found) ↦ ground (arith, named, found)
  ]
]

extract_lines-put_new :
    (res : Resources) (z : ZeroFs) (lines : List CString) (fs : Disk)
    → IsRoomy z
    → extract_lines res z lines fs ≡ put_new (bundled res lines) fs
unfolding extract_lines bundled put_file with_file
extract_lines-put_new res z [] fs roomy = refl
extract_lines-put_new res z (line ∷ lines) fs roomy =
    rw (extract_line-put_file res z line fs roomy, extract_lines)
      (rw (bundled-with_file res line lines)
        (go (λ fs'. extract_lines-put_new res z lines fs' roomy) (file_of res line)))
  where
    go :
        ((fs' : Disk) → extract_lines res z lines fs' ≡ put_new (bundled res lines) fs')
        → (f : Option Entry)
        → (elim (put_file f fs) [ none ↦ none | some fs' ↦ extract_lines res z lines fs' ])
          ≡ put_new (with_file f (bundled res lines)) fs
    go rest none = rest fs
    go rest (some (m, b)) = elim (Option-cases (fs m)) [
      | inl new ↦ rw (new, put_new) (rest (put m b fs))
      | inr (old, there) ↦ rw (there, put_new) refl
    ]

are_new-put :
    (m : CString) (b : List ℕ) (es : List Entry) (fs : Disk)
    → are_new (put m b fs) es ≡ ((if is_some (lookup m es) then false else true) && are_new fs es)
are_new-put m b [] fs = refl
are_new-put m b ((k, c) ∷ es) fs = ground (arith, are_new-put m b es fs, same_text_sym k m)

is_next :
    (m : CString) (b : List ℕ) (es : List Entry) (fs : Disk)
    → fs m ≡ none
    → (are_new (put m b fs) es && has_no_twins es)
      ≡ (are_new fs ((m, b) ∷ es) && has_no_twins ((m, b) ∷ es))
unfolding has_no_twins
is_next m b es fs new = ground (arith, are_new-put m b es fs)

put_new-twin :
    (es : List Entry) (fs : Disk)
    → (are_new fs es && has_no_twins es) ≡ false
    → put_new es fs ≡ none
unfolding has_no_twins
put_new-twin [] fs e = absurd (ground (arith, e))
put_new-twin ((m, b) ∷ es) fs e = elim (Option-cases (fs m)) [
  | inr (old, there) ↦ rw (there, put_new) refl
  | inl new ↦ rw (new, put_new) (put_new-twin es (put m b fs) (is_next m b es fs new ∙ e))
]

put_new-lookup :
    (es : List Entry) (fs : Disk)
    → (are_new fs es && has_no_twins es) ≡ true
    → (d : Disk) × ((put_new es fs ≡ some d) × ((n : CString) → d n ≡ or_else (lookup n es) (fs n)))
unfolding has_no_twins
put_new-lookup [] fs e = (fs, (refl, λ n. refl))
put_new-lookup ((m, b) ∷ es) fs e = elim (Option-cases (fs m)) [
  | inr (old, there) ↦ absurd (ground (arith, e, there))
  | inl new ↦
      let (d, (puts, at)) = put_new-lookup es (put m b fs) (is_next m b es fs new ∙ e) in
      let fresh : lookup m es ≡ none = ground (arith, e) in
      let puts' : put_new ((m, b) ∷ es) fs ≡ some d = rw (new, put_new) puts in
      (d, (puts', λ n. at n ∙ put-or_else n m b es fs fresh))
]

are_new-no_files : (es : List Entry) → are_new no_files es ≡ true
are_new-no_files [] = refl
are_new-no_files ((m, _) ∷ es) = are_new-no_files es

module _ (res : Resources) (z : ZeroFs) (lines : List CString) (roomy : IsRoomy z)
    (listed : res.manifest ≡ some lines) where
  from_manifest : Option (List CString) → Option Disk
  from_manifest none = none
  from_manifest (some lines') = extract_lines res z lines' no_files

  extract_dist-put_new : extract_dist res z ≡ put_new (bundled res lines) no_files
  unfolding extract_dist from_manifest
  extract_dist-put_new =
      ap (λ (m : Option (List CString)). from_manifest m) listed
      ∙ extract_lines-put_new res z lines no_files roomy

  pub extract_dist-lookup :
      has_no_twins (bundled res lines) ≡ true
      → (d : Disk) × ((extract_dist res z ≡ some d)
          × ((n : CString) → d n ≡ lookup n (bundled res lines)))
  extract_dist-lookup apart =
      let (d, (puts, at)) =
        put_new-lookup (bundled res lines) no_files
          (rw (are_new-no_files (bundled res lines)) apart) in
      (d, (extract_dist-put_new ∙ puts, λ n. at n ∙ or_else-none (lookup n (bundled res lines))))

  -- Where the manifest is on the class path and the file system has room for all: the extraction
  -- fails exactly if two lines of the manifest that have a resource have the same name, and else it gives
  -- each of them, without the blanks around it, the contents of its resource, and leaves no other file.
  pub extract_dist-IsExtracted : IsExtracted (bundled res lines) (extract_dist res z)
  unfolding IsExtracted
  extract_dist-IsExtracted = elim (Bool-cases (has_no_twins (bundled res lines))) [
    | inl apart ↦ let (d, (e, at)) = extract_dist-lookup apart in rw e (apart, at)
    | inr twins ↦
        rw
          (extract_dist-put_new
            ∙ put_new-twin (bundled res lines) no_files
                (rw (are_new-no_files (bundled res lines)) twins))
          twins
  ]
