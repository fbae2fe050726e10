-- ===== src/Signals/Sets/Laws.antt =====
-- What the signal-set functions of wasm-build/wasm-build/sdk_port-wasi/sdk_port-wasi.c do to the
-- members of a set.
use pglite4j.Prelude.{
  ℕ, zero, suc, ◌≤◌, ◌<◌, ◌≡◌, refl, Bool, true, false, ◌&&◌, ◌||◌, not, arith, ltb, ◌==◌,
}
use pglite4j.Prelude.{pos, ==_iff}
use pglite4j.Signals.Sets.{
  done, member, with_signal, without_signal, full_set, sigaddset, sigdelset, sigfillset,
  member-with_signal, member-without_signal, with_signal-lt, without_signal-lt, member_high,
  set_ext,
}
use pglite4j.Prelude.{Bool-cases, inl, inr}

-- With at most 32 signals, `sigaddset` of a signal in range returns 0 and leaves a set whose
-- members are the old ones and, if it is below 8, the new one. From 8 on it returns 0 and adds
-- nothing.
pub sigaddset-member :
    (nsig set sig : ℕ)
    → nsig ≤ 32
    → sig < nsig
    → set < 256
    → (s : ℕ) × (sigaddset nsig set (pos sig) ≡ done s)
      × (s < 256)
      × ((k : ℕ) → member s k ≡ (ltb sig 8 && (k == sig) || member set k))
unfolding sigaddset
sigaddset-member nsig set sig few in_range fits = (
  with_signal set sig,
  ground arith,
  with_signal-lt set sig,
  λ k. ground (
    arith,
    member-with_signal set sig k,
    member_high set k fits,
    member_high (with_signal set sig) k (with_signal-lt set sig),
  ),
)

-- With at most 32 signals, `sigdelset` of a signal in range returns 0 and removes that member
-- alone.
sigdelset-member :
    (nsig set sig : ℕ)
    → nsig ≤ 32
    → sig < nsig
    → set < 256
    → (s : ℕ) × (sigdelset nsig set (pos sig) ≡ done s)
      × (s < 256)
      × ((k : ℕ) → member s k ≡ (not (k == sig) && member set k))
unfolding sigdelset
sigdelset-member nsig set sig few in_range fits = (
  without_signal set sig,
  ground arith,
  without_signal-lt set sig,
  λ k. ground (
    arith,
    member-without_signal set sig k,
    member_high set k fits,
    member_high (without_signal set sig) k (without_signal-lt set sig),
  ),
)

-- With at most 32 signals, `sigdelset` of a signal in range undoes `sigaddset` on a set that lacked
-- the signal.
sigdelset-sigaddset :
    (nsig set sig : ℕ)
    → nsig ≤ 32
    → sig < nsig
    → set < 256
    → member set sig ≡ false
    → (s : ℕ) × (sigaddset nsig set (pos sig) ≡ done s) × (sigdelset nsig s (pos sig) ≡ done set)
unfolding sigaddset sigdelset
sigdelset-sigaddset nsig set sig few in_range fits lacks =
    (with_signal set sig, ground arith, ground (arith, same))
  where
    same : without_signal (with_signal set sig) sig ≡ set
    same = set_ext _ set (without_signal-lt _ sig) fits λ k h. ground (
      arith,
      member-without_signal (with_signal set sig) sig k h,
      member-with_signal set sig k h,
      ==_iff k sig,
    )

-- The check of every full set, member by member.
agrees : Bool → Bool → Bool
agrees true b = b
agrees false b = not b

below : ℕ → (ℕ → Bool) → Bool
below zero p = true
below (suc n) p = p n && below n p

below_sound : (n : ℕ) (p : ℕ → Bool) (x : ℕ) → below n p ≡ true → x < n → p x ≡ true
unfolding below
below_sound zero p x h lt = absurd (omega arith)
below_sound (suc n) p x h lt = ground (arith, below_sound n p x)

agrees_sound : (a b : Bool) → agrees a b ≡ true → a ≡ b
unfolding agrees
agrees_sound a b h = ground arith

full_set_row : ℕ → ℕ → Bool
unfolding agrees full_set
full_set_row n k = agrees (member (full_set (suc n)) k) (ltb k (suc n))

full_set_table : below 32 (λ n. below 8 (full_set_row n)) ≡ true
unfolding below full_set_row
full_set_table = refl

full_set_checked : (n k : ℕ) → n < 32 → k < 8 → member (full_set (suc n)) k ≡ ltb k (suc n)
full_set_checked n k small low = agrees_sound _ _ (
    unfold full_set_row in
    below_sound 8 (full_set_row n) k
      (below_sound 32 (λ n. below 8 (full_set_row n)) n full_set_table small) low)

full_set-lt : (nsig : ℕ) → full_set nsig < 256
unfolding full_set
full_set-lt nsig = omega arith

-- With 1 to 32 signals `sigfillset` returns 0 and leaves every signal that has a bit in the set:
-- those below both NSIG and 8.
sigfillset-member :
    (nsig : ℕ)
    → 0 < nsig
    → nsig ≤ 32
    → (s : ℕ) × (sigfillset nsig ≡ done s) × ((k : ℕ) → member s k ≡ (ltb k 8 && ltb k nsig))
unfolding sigfillset
sigfillset-member zero some_signals few = absurd (omega arith)
sigfillset-member (suc n) some_signals few = (
  full_set (suc n),
  ground arith,
  λ k. elim (Bool-cases (ltb k 8)) [
    | inl low ↦ ground (arith, full_set_checked n k (omega arith) (ground arith))
    | inr high ↦ ground (arith, member_high (full_set (suc n)) k (full_set-lt (suc n)))
  ],
)
