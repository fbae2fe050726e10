-- ===== src/Temp/Name/Laws.antt =====
-- What `mktemp` of wasm-build/sdk/hotfix/patch.h promises.
use pglite4j.Prelude.{
  ℕ, zero, suc, ◌+◌, ◌-◌, ◌≤◌, ◌<◌, ◌≡◌, refl, inl, inr, Option, [], arith, length, take, drop,
  true, Bool-cases, ◌==◌, length-append, length-take, take-append_left, drop-append_left, sym,
}
use pglite4j.Prelude.Text.{CString, same_text}
use pglite4j.Temp.Letters.{AreLetters, rand_name-AreLetters, rand_name}
use pglite4j.Temp.Name.{
  Stat, exists, enoent, other, World, name, invalid, failed, exhausted, candidate, make_loop,
  is_template, mktemp, sdk_tmpfile,
}

module _ (w : World) (tmpl : CString) where
  -- A name that the loop returns is a candidate of one of its attempts, which `stat` did not find.
  record IsFresh (attempt retries : ℕ) (n : CString) : Type 0 where
    at : ℕ
    from : attempt ≤ at
    until : at < attempt + retries
    made : n ≡ candidate w at tmpl
    missing : w.stat at n ≡ enoent

  name-injective : {a b : CString} → name a ≡ name b → a ≡ b
  name-injective e = cc

  make_loop-IsFresh :
      (retries attempt : ℕ) (n : CString)
      → make_loop w retries attempt tmpl ≡ name n
      → IsFresh attempt retries n
  unfolding make_loop
  make_loop-IsFresh zero attempt n h = cc
  make_loop-IsFresh (suc retries) attempt n h =
      step (w.stat attempt (candidate w attempt tmpl)) refl
        (make_loop-IsFresh retries (attempt + 1) n)
    where
      step :
          (o : Stat)
          → w.stat attempt (candidate w attempt tmpl) ≡ o
          → (make_loop w retries (attempt + 1) tmpl ≡ name n → IsFresh (attempt + 1) retries n)
          → IsFresh attempt (suc retries) n
      step exists e ih =
          let f = ih (ground (arith, e, h)) in
          record {
            at = f.at;
            from = omega (arith, f.from);
            until = omega (arith, f.until);
            made = f.made;
            missing = f.missing;
          }
      step enoent e ih =
          let made : n ≡ candidate w attempt tmpl = name-injective (ground (arith, e, h)) in
          record {
            at = attempt;
            from = omega arith;
            until = omega arith;
            made = made;
            missing = rw made e;
          }
      step other e ih = let wrong : failed ≡ name n = ground (arith, e, h) in cc

  make_loop-found :
      (retries attempt i : ℕ)
      → attempt ≤ i
      → i < attempt + retries
      → ((j : ℕ) → attempt ≤ j → j < i → w.stat j (candidate w j tmpl) ≡ exists)
      → w.stat i (candidate w i tmpl) ≡ enoent
      → make_loop w retries attempt tmpl ≡ name (candidate w i tmpl)
  unfolding make_loop
  make_loop-found zero attempt i lo hi there missing = absurd (omega arith)
  make_loop-found (suc retries) attempt i lo hi there missing = elim (Bool-cases (i == attempt)) [
    | inl now ↦ ground (arith, missing)
    | inr later ↦ ground (
      arith,
      there attempt (omega arith) (ground arith),
      make_loop-found retries (attempt + 1) i (ground arith) (omega arith)
          (λ j p q. there j (omega arith) q) missing,
    )
  ]

  make_loop-exhausted :
      (retries attempt : ℕ)
      → ((j : ℕ) → attempt ≤ j → j < attempt + retries → w.stat j (candidate w j tmpl) ≡ exists)
      → make_loop w retries attempt tmpl ≡ exhausted
  unfolding make_loop
  make_loop-exhausted zero attempt there = refl
  make_loop-exhausted (suc retries) attempt there = ground (
    arith,
    there attempt (omega arith) (omega arith),
    make_loop-exhausted retries (attempt + 1) (λ j p q. there j (omega arith) (omega arith)),
  )

  -- A candidate keeps what stands before the six last bytes, and ends in six letters.
  pub candidate-shape :
      (i : ℕ)
      → 6 ≤ length tmpl
      → (length (candidate w i tmpl) ≡ length tmpl)
        × (take (length tmpl - 6) (candidate w i tmpl) ≡ take (length tmpl - 6) tmpl)
        × AreLetters (drop (length tmpl - 6) (candidate w i tmpl))
  unfolding candidate
  candidate-shape i long =
      let six = rand_name-AreLetters (w.nsec i) w.ts_address (w.tmpl_address + (length tmpl - 6)) in
      let before : length (take (length tmpl - 6) tmpl) ≡ length tmpl - 6 =
        omega (arith, length-take (length tmpl - 6) tmpl) in
      (
        omega (
          arith,
          before,
          six.1,
          length-append (take (length tmpl - 6) tmpl)
              (rand_name (w.nsec i) w.ts_address (w.tmpl_address + (length tmpl - 6))),
        ),
        take-append_left (take (length tmpl - 6) tmpl)
            (rand_name (w.nsec i) w.ts_address (w.tmpl_address + (length tmpl - 6)))
            (length tmpl - 6) (sym before),
        rw
            (drop-append_left (take (length tmpl - 6) tmpl)
              (rand_name (w.nsec i) w.ts_address (w.tmpl_address + (length tmpl - 6)))
              (length tmpl - 6) (sym before))
            six.0,
      )

  template-long : is_template tmpl ≡ true → 6 ≤ length tmpl
  unfolding is_template
  template-long h = ground arith

  -- A name that `mktemp` returns has the length of the template and begins like it up to the six
  -- last bytes, which are letters from A to P or a to p, and `stat` did not find it at one of the
  -- 100 attempts.
  pub mktemp-name :
      (n : CString)
      → mktemp w tmpl ≡ name n
      → (length n ≡ length tmpl)
        × (take (length tmpl - 6) n ≡ take (length tmpl - 6) tmpl)
        × AreLetters (drop (length tmpl - 6) n)
        × (i : ℕ) × (i < 100)
        × (w.stat i n ≡ enoent)
  unfolding mktemp
  mktemp-name n h = elim (Bool-cases (is_template tmpl)) [
    | inl good ↦
        let f = make_loop-IsFresh 100 0 n (rw good at h) in
        let (l, t, a) = candidate-shape f.at (template-long good) in
        (rw f.made l, rw f.made t, rw f.made a, f.at, omega (arith, f.until), f.missing)
    | inr bad ↦ let wrong : invalid ≡ name n = rw bad at h in cc
  ]

  -- On a proper template `mktemp` returns the candidate of the first attempt, among 100, that
  -- `stat` does not find, if `stat` finds all before it.
  pub mktemp-first :
      is_template tmpl ≡ true
      → (i : ℕ) → i < 100
      → ((j : ℕ) → j < i → w.stat j (candidate w j tmpl) ≡ exists)
      → w.stat i (candidate w i tmpl) ≡ enoent
      → mktemp w tmpl ≡ name (candidate w i tmpl)
  unfolding mktemp
  mktemp-first good i h there missing =
      rw good (make_loop-found 100 0 i (omega arith) (omega arith) (λ j p q. there j q) missing)

  -- On a proper template `mktemp` gives up with EEXIST if `stat` finds all 100 candidates.
  pub mktemp-exhausted :
      is_template tmpl ≡ true
      → ((j : ℕ) → j < 100 → w.stat j (candidate w j tmpl) ≡ exists)
      → mktemp w tmpl ≡ exhausted
  unfolding mktemp
  mktemp-exhausted good there = rw good (make_loop-exhausted 100 0 (λ j p q. there j (omega arith)))

-- `sdk_tmpfile` opens the empty path, whatever the clock, the addresses and the file system.
sdk_tmpfile_lem :
    (w : World) (open_file : CString → Option ℕ) → sdk_tmpfile w open_file ≡ open_file []
unfolding sdk_tmpfile is_template same_text
sdk_tmpfile_lem w open_file = refl
