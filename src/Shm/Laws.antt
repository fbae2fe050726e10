-- ===== src/Shm/Laws.antt =====
-- Which files the shared-memory calls touch.
use pglite4j.Prelude.{
  ℕ, ◌+◌, ◌≡◌, ◌≢◌, ◌≤◌, ◌↔◌, refl, Option, none, some, ◌++◌, pos, length, arith, sym, ap, ◌∙◌,
  length-append, take-all, drop, drop-append_left,
}
use pglite4j.Prelude.Text.{CString, codes}
use pglite4j.Prelude.Decimal.{decimal, decimal-injective}
use pglite4j.Shm.{fit, Host, State, get_shm_path, opened_as, shm_open, shm_unlink}

append-cancel : (start a b : CString) → start ++ a ≡ start ++ b → a ≡ b
append-cancel start a b e =
    sym (drop-append_left start a (length start) refl)
    ∙ ap (drop (length start)) e
    ∙ drop-append_left start b (length start) refl

some-injective {ℓ} : {A : Type ℓ} {a b : A} → some a ≡ some b → a ≡ b
some-injective e = cc

module _ {Disk : Type 0} (host : Host Disk) where
  path_unset :
      host.shm ≡ none
      → (i : ℕ) (name : CString) → get_shm_path host i name ≡ (fit (codes "/tmp" ++ name), i)
  unfolding get_shm_path
  path_unset e i name = rw (e, get_shm_path) refl

  path_set :
      (shm : CString)
      → host.shm ≡ some shm
      → (i : ℕ) (name : CString)
      → get_shm_path host i name ≡ (fit (shm ++ codes "." ++ decimal i), i + 1)
  unfolding get_shm_path
  path_set shm e i name = rw (e, get_shm_path) refl

  fit-short : (text : CString) → length text ≤ 127 → fit text ≡ text
  fit-short text h = take-all 127 text h

  in_tmp-short :
      (name : CString) → length name ≤ 123 → fit (codes "/tmp" ++ name) ≡ codes "/tmp" ++ name
  in_tmp-short name h =
      fit-short (codes "/tmp" ++ name) (omega (arith, h, length-append (codes "/tmp") name))

  -- Without SHM, two names of at most 123 bytes get the same path exactly if they are the same, at
  -- whatever count of calls.
  pub get_shm_path_iff :
      host.shm ≡ none
      → (i j : ℕ) (a b : CString) → length a ≤ 123
      → length b ≤ 123
      → ((get_shm_path host i a).0 ≡ (get_shm_path host j b).0) ↔ (a ≡ b)
  get_shm_path_iff e i j a b la lb =
      let pa = ap (λ p. p.0) (path_unset e i a) ∙ in_tmp-short a la in
      let pb = ap (λ p. p.0) (path_unset e j b) ∙ in_tmp-short b lb in
      (
        λ same. append-cancel (codes "/tmp") a b (sym pa ∙ same ∙ pb),
        λ same. pa ∙ ap (λ n. codes "/tmp" ++ n) same ∙ sym pb,
      )

  numbered-length :
      (shm : CString) (i : ℕ)
      → length shm + 1 + length (decimal i) ≤ 127
      → length (shm ++ codes "." ++ decimal i) ≤ 127
  numbered-length shm i h =
      omega (arith, h, length-append (shm ++ codes ".") (decimal i), length-append shm (codes "."))

  numbered-differ :
      (shm : CString) (i j : ℕ)
      → i ≢ j
      → length shm + 1 + length (decimal i) ≤ 127
      → length shm + 1 + length (decimal j) ≤ 127
      → fit (shm ++ codes "." ++ decimal i) ≢ fit (shm ++ codes "." ++ decimal j)
  numbered-differ shm i j other hi hj same =
      let li : fit (shm ++ codes "." ++ decimal i) ≡ shm ++ codes "." ++ decimal i =
        fit-short _ (numbered-length shm i hi) in
      let lj : fit (shm ++ codes "." ++ decimal j) ≡ shm ++ codes "." ++ decimal j =
        fit-short _ (numbered-length shm j hj) in
      other (
        decimal-injective i j
          (append-cancel (shm ++ codes ".") (decimal i) (decimal j) (sym li ∙ same ∙ lj)))

  opened_as-index :
      (i : ℕ) (o : Option (ℕ × Disk)) (fd : ℕ) (t : State Disk)
      → opened_as host i o ≡ some (fd, t)
      → t.shm_index ≡ i
  unfolding opened_as
  opened_as-index i none fd t h = cc
  opened_as-index i (some (got, disk)) fd t h = ap (λ r. r.1.shm_index) (sym (some-injective h))

  opened-index :
      (shm : CString)
      → host.shm ≡ some shm
      → (s : State Disk) (name : CString) (fd : ℕ) (t : State Disk)
      → shm_open host s name ≡ some (fd, t)
      → t.shm_index ≡ s.shm_index + 1
  unfolding shm_open
  opened-index shm e s name fd t h =
      opened_as-index (get_shm_path host s.shm_index name).1
        (host.open_file s.disk (get_shm_path host s.shm_index name).0) fd t h
      ∙ ap (λ p. p.1) (path_set shm e s.shm_index name)

  unlink_set :
      (shm : CString)
      → host.shm ≡ some shm
      → (s : State Disk) (name : CString) → shm_unlink host s name ≡ (pos 0, s)
  unfolding shm_unlink
  unlink_set shm e s name = rw (e, shm_unlink) refl

  shm_open_set :
      (shm : CString)
      → host.shm ≡ some shm
      → (s : State Disk) (name : CString)
      → shm_open host s name
        ≡ opened_as host
            (s.shm_index + 1)
            (host.open_file s.disk (fit (shm ++ codes "." ++ decimal s.shm_index)))
  unfolding shm_open
  shm_open_set shm e s name =
      ap (λ p. opened_as host p.1 (host.open_file s.disk p.0)) (path_set shm e s.shm_index name)

  -- With SHM set, and as long as the paths fit in the buffer, `shm_open` of a name and the next
  -- `shm_open` of the same name open two files of different paths, the variable's text with the
  -- count of the calls so far, and `shm_unlink` between them returns 0 with no file removed.
  pub shm_open_again :
      (shm : CString)
      → host.shm ≡ some shm
      → (s : State Disk) (name : CString) (fd : ℕ) (t : State Disk)
      → shm_open host s name ≡ some (fd, t)
      → length shm + 1 + length (decimal (s.shm_index)) ≤ 127
      → length shm + 1 + length (decimal (s.shm_index + 1)) ≤ 127
      → (first second : CString) × (first ≢ second)
        × (first ≡ shm ++ codes "." ++ decimal s.shm_index)
        × (second ≡ shm ++ codes "." ++ decimal (s.shm_index + 1))
        × (shm_open host s name ≡ opened_as host (s.shm_index + 1) (host.open_file s.disk first))
        × (shm_open host t name ≡ opened_as host (s.shm_index + 2) (host.open_file t.disk second))
        × (shm_unlink host t name ≡ (pos 0, t))
  shm_open_again shm e s name fd t h hi hj =
      let next = opened-index shm e s name fd t h in
      let path : ℕ → CString = λ i. fit (shm ++ codes "." ++ decimal i) in
      (
        path s.shm_index,
        path (s.shm_index + 1),
        numbered-differ shm s.shm_index (s.shm_index + 1) (λ q. absurd (omega (arith, q))) hi hj,
        fit-short (shm ++ codes "." ++ decimal s.shm_index) (numbered-length shm s.shm_index hi),
        fit-short (shm ++ codes "." ++ decimal (s.shm_index + 1))
            (numbered-length shm (s.shm_index + 1) hj),
        shm_open_set shm e s name,
        shm_open_set shm e t name
            ∙ ap (λ i. opened_as host (i + 1) (host.open_file t.disk (path i))) next
            ∙ ap (λ i. opened_as host i (host.open_file t.disk (path (s.shm_index + 1))))
                (omega arith),
        unlink_set shm e t name,
      )
