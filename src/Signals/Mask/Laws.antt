-- ===== src/Signals/Mask/Laws.antt =====
-- The contract of `sigprocmask` of wasm-build/wasm-build/sdk_port-wasi/sdk_port-wasi.c.
use pglite4j.Prelude.{
  ℕ, zero, suc, ◌+◌, ◌≤◌, ◌<◌, ◌≡◌, inl, inr, Bool, false, ◌&&◌, ◌||◌, not, ◌≢◌, Option, none, some,
  arith, ltb, ◌==◌, if◌then◌else◌, Bool-cases, pos,
}
use pglite4j.Signals.State.{Signals, raise}
use pglite4j.Signals.Mask.{Outcome, new_blocked_set, sigprocmask, block_loop}
use pglite4j.Signals.Mask.Effect.{minus}

-- The member `k` of the mask asked for, where `b` is its place in the old mask and `m` in `*set`.
abbrev pub wanted : (operation : ℕ) → (b m : Bool) → Bool
wanted operation b m = if operation == 0 then b || m else if operation == 2 then m else b && not m

-- What `*old_set` gets.
abbrev pub old_mask : Bool → Signals → Option ℕ
old_mask wants_old s = if wants_old then some s.blocked_set else none

module _ (nsig : ℕ) (refuses : ℕ → Bool) (resets : Bool) where
  -- A blocked signal stays caught however often it is raised, and is noted as pending.
  pub record IsPending (sig : ℕ) (s t : Signals) : Type 0 where
    pub mask : t.blocked_set ≡ s.blocked_set
    pub handlers : (k : ℕ) → t.handlers k ≡ s.handlers k
    pub old_handlers : t.old_handlers ≡ s.old_handlers
    pub delivered : t.delivered ≡ s.delivered
    pub others : (k : ℕ) → (k == sig) ≡ false → t.pending_array k ≡ s.pending_array k
    pub noted : t.pending_array sig ≡ 1

  abbrev pub raise_times : (n sig : ℕ) → Signals → Signals
  raise_times zero sig s = s
  raise_times (suc n) sig s = raise nsig refuses resets sig (raise_times n sig s)

  only : ℕ → ℕ → ℕ
  only sig k = if k == sig then 1 else 0

  block_loop_wide :
      (set n i : ℕ) (s : Signals)
      → i ≤ 32
      → 32 < i + n
      → block_loop nsig refuses resets n i set s ≡ none
  unfolding block_loop
  block_loop_wide set zero i s h wide = absurd (omega arith)
  block_loop_wide set (suc n) i s h wide = elim (Bool-cases (ltb i 32)) [
    | inl low ↦ rw low (block_loop_wide set n (i + 1) _ (ground arith) (omega arith))
    | inr high ↦ rw high
  ]

  -- With more than 32 signals, every SIG_SETMASK that asks for a signal outside the mask meets an
  -- undefined shift, from any state.
  pub sigprocmask_wide :
      (set : ℕ) (wants_old : Bool) (s : Signals)
      → 32 < nsig
      → minus set s.blocked_set ≢ 0
      → sigprocmask nsig refuses resets (pos 2) (some set) wants_old s ≡ Outcome.undefined
  unfolding sigprocmask new_blocked_set
  sigprocmask_wide set wants_old s wide some_new =
      ground (arith, block_loop_wide (minus set s.blocked_set) nsig 0 s)
