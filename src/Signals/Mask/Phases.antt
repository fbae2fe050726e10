-- ===== src/Signals/Mask/Phases.antt =====
-- The two halves of a change of the mask by `sigprocmask`: the signals that it blocks, and those that
-- it unblocks and raises.
use mathlib.Core.List.{append-nil}
use pglite4j.Prelude.{
  ℕ, ◌≤◌, ◌<◌, ◌≡◌, refl, sym, ◌∙◌, inl, inr, Bool, true, false, ◌&&◌, not, Option, some, ◌++◌,
  arith, ◌==◌, if◌then◌else◌, Bool-cases,
}
use pglite4j.Prelude.Bits.{bit-zero}
use pglite4j.Signals.Sets.{member}
use pglite4j.Signals.State.{is_blocked, is_err, Signals}
use pglite4j.Signals.Mask.{block_loop, done, unblock_and_raise, raise_loop}
use pglite4j.Signals.Mask.Blocking.{chosen, BlockedIn, block_loop-BlockedIn}
use pglite4j.Signals.Mask.Unblocking.{unblock_loop-UnblockedIn}
use pglite4j.Signals.Mask.Raising.{due, due-ext, due-nothing, raise_loop-RaisedIn}

module _ (nsig : ℕ) (refuses : ℕ → Bool) (resets : Bool) where
  pub block_phase :
      (set : ℕ) (s : Signals)
      → nsig ≤ 32
      → s.blocked_set < 256
      → ((k : ℕ) → is_err (s.handlers k) ≡ false)
      → (t : Signals) × ((if set == 0 then some s else block_loop nsig refuses resets nsig 0 set s)
          ≡ some t)
        × BlockedIn nsig refuses resets set 0 nsig s t
  block_phase set s few fits no_err = elim (Bool-cases (set == 0)) [
    | inl empty ↦ (
      s,
      rw empty,
      record {
        handlers = λ k. ground (arith, member-empty k empty);
        old_handlers = λ k. ground (arith, member-empty k empty);
        pending = λ k. ground (arith, member-empty k empty);
        mask = λ k h. ground (arith, member-empty k empty);
        fits = fits;
        delivered = refl;
      },
    )
    | inr some_set ↦
        let (t, e, b) =
          block_loop-BlockedIn nsig refuses resets set nsig 0 s (omega arith) fits no_err in
        (t, rw some_set e, b)
  ]
    where
      member-empty : (k : ℕ) → (set == 0) ≡ true → member set k ≡ false
      member-empty k empty = ground (arith, bit-zero k)

  -- The loop that unblocks and the one that raises, as one step.
  pub record FreedIn (set : ℕ) (s t : Signals) : Type 0 where
    pub received : ℕ → ℕ
    pub was_received : (k : ℕ) → received k ≡ (if chosen set 0 nsig k then s.pending_array k else 0)
    pub handlers :
        (k : ℕ)
        → received k ≡ 0
        → t.handlers k ≡ (if chosen set 0 nsig k then s.old_handlers k else s.handlers k)
    pub kept :
        resets ≡ false
        → (k : ℕ) → t.handlers k ≡ (if chosen set 0 nsig k then s.old_handlers k else s.handlers k)
    pub not_blocked :
        (k : ℕ)
        → is_blocked (t.handlers k)
          ≡ is_blocked (if chosen set 0 nsig k then s.old_handlers k else s.handlers k)
    pub no_err : (k : ℕ) → is_err (t.handlers k) ≡ false
    pub old_handlers : (k : ℕ) → t.old_handlers k ≡ s.old_handlers k
    pub pending :
        (k : ℕ) → t.pending_array k ≡ (if chosen set 0 nsig k then 0 else s.pending_array k)
    pub mask :
        (k : ℕ)
        → k < 8
        → member t.blocked_set k ≡ (not (chosen set 0 nsig k) && member s.blocked_set k)
    pub fits : t.blocked_set < 256
    pub delivered : t.delivered ≡ s.delivered ++ due nsig 0 received s.old_handlers

  -- Every signal of the set is caught, may be changed, and has a proper handler saved.
  pub record Releasable (set : ℕ) (s : Signals) : Type 0 where
    pub no_err : (k : ℕ) → is_err (s.handlers k) ≡ false
    pub caught : (k : ℕ) → member set k ≡ true → is_blocked (s.handlers k) ≡ true
    pub allowed : (k : ℕ) → member set k ≡ true → refuses k ≡ false
    pub saved : (k : ℕ) → member set k ≡ true → is_blocked (s.old_handlers k) ≡ false
    pub saved_no_err : (k : ℕ) → member set k ≡ true → is_err (s.old_handlers k) ≡ false

  free_phase :
      (set : ℕ) (old : Option ℕ) (s : Signals)
      → nsig ≤ 32
      → s.blocked_set < 256
      → Releasable set s
      → (t : Signals) × (unblock_and_raise nsig refuses resets set old s ≡ done old t)
        × FreedIn set s t
  unfolding unblock_and_raise
  free_phase set old s few fits ready =
      let (out, u, e, freed) =
        unblock_loop-UnblockedIn nsig refuses resets set nsig 0 (λ _. 0) s (omega arith) fits
          (λ k _ m. (ready.caught k m, ready.allowed k m)) in
      let raised =
        raise_loop-RaisedIn nsig refuses resets out nsig 0 u
          (λ k z. ground (arith, freed.was_received k, freed.handlers k, ready.saved k)) in
      (
        raise_loop nsig refuses resets nsig 0 out u,
        rw (e, unblock_and_raise),
        record {
          received = out;
          was_received = λ k. ground (arith, freed.was_received k);
          handlers = λ k z. ground (arith, raised.handlers k z, freed.handlers k);
          kept = λ e k. raised.kept e k ∙ freed.handlers k;
          not_blocked = λ k. ground (arith, raised.not_blocked k, freed.handlers k);
          no_err = λ k.
              ground
                (arith, raised.no_err k, freed.handlers k, ready.no_err k, ready.saved_no_err k);
          old_handlers = λ k. ground (arith, raised.old_handlers, freed.old_handlers k);
          pending = λ k. ground (arith, raised.pending, freed.pending k);
          mask = λ k h. ground (arith, raised.mask, freed.mask k h);
          fits = ground (arith, raised.mask, freed.fits);
          delivered =
              raised.delivered
              ∙ rw
                  (
                    freed.delivered,
                    due-ext nsig refuses resets nsig 0 out out u.handlers s.old_handlers (λ k. refl)
                        (λ k z. ground (arith, freed.was_received k, freed.handlers k)),
                  )
                  refl;
        },
      )

  nothing_freed :
      (set : ℕ) (s : Signals)
      → s.blocked_set < 256
      → ((k : ℕ) → is_err (s.handlers k) ≡ false)
      → (set == 0) ≡ true
      → FreedIn set s s
  nothing_freed set s fits no_err empty = record {
    received = λ _. 0;
    was_received = λ k. ground (arith, bit-zero k);
    handlers = λ k z. ground (arith, bit-zero k);
    kept = λ e k. ground (arith, bit-zero k);
    not_blocked = λ k. ground (arith, bit-zero k);
    no_err = no_err;
    old_handlers = λ k. refl;
    pending = λ k. ground (arith, bit-zero k);
    mask = λ k h. ground (arith, bit-zero k);
    fits = fits;
    delivered = rw (due-nothing nsig 0 s.old_handlers) (sym (append-nil s.delivered));
  }

  pub second_phase :
      (set : ℕ) (old : Option ℕ) (s : Signals)
      → nsig ≤ 32
      → s.blocked_set < 256
      → Releasable set s
      → (t : Signals) × ((if set == 0
            then done old s
            else unblock_and_raise nsig refuses resets set old s)
          ≡ done old t)
        × FreedIn set s t
  second_phase set old s few fits ready = elim (Bool-cases (set == 0)) [
    | inl empty ↦ (s, rw empty, nothing_freed set s fits ready.no_err empty)
    | inr some_set ↦ let (t, e, f) = free_phase set old s few fits ready in (t, rw some_set e, f)
  ]
