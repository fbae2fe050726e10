-- ===== src/Signals/Mask/Unblocking.antt =====
-- The loop of `sigprocmask` that unblocks signals, described signal by signal.
use pglite4j.Prelude.{
  ℕ, zero, suc, ◌+◌, ◌≤◌, ◌<◌, ◌≡◌, refl, inl, inr, Bool, true, false, ◌&&◌, not, some, arith, ltb,
  leb, if◌then◌else◌, Bool-cases, update,
}
use pglite4j.Signals.Sets.{member, member-without_signal, without_signal, without_signal-lt}
use pglite4j.Signals.State.{is_blocked, Signals}
use pglite4j.Signals.Mask.{unblocked, unblock_one, unblock_loop}
use pglite4j.Signals.Mask.Blocking.{chosen, chosen-suc, selected-eq-member}

-- `s` after the saved handler of `i` has been put back.
abbrev pub released : ℕ → Signals → Signals
released i s = record s {
  handlers = update s.handlers i (s.old_handlers i);
  blocked_set = without_signal s.blocked_set i;
  pending_array = update s.pending_array i 0;
}

module _ (nsig : ℕ) (refuses : ℕ → Bool) (resets : Bool) where
  -- What unblocking the chosen signals makes of `s`, and of the array of received signals.
  pub record UnblockedIn (set i n : ℕ) (received : ℕ → ℕ) (s : Signals) (out : ℕ → ℕ) (t : Signals)
      : Type 0 where
    pub handlers :
        (k : ℕ) → t.handlers k ≡ (if chosen set i n k then s.old_handlers k else s.handlers k)
    pub old_handlers : (k : ℕ) → t.old_handlers k ≡ s.old_handlers k
    pub pending : (k : ℕ) → t.pending_array k ≡ (if chosen set i n k then 0 else s.pending_array k)
    pub was_received :
        (k : ℕ)
        → out k ≡ (
            if chosen set i n k
            then s.pending_array k
            else if leb i k && ltb k (i + n)
            then 0
            else received k)
    pub mask :
        (k : ℕ)
        → k < 8
        → member t.blocked_set k ≡ (not (chosen set i n k) && member s.blocked_set k)
    pub fits : t.blocked_set < 256
    pub delivered : t.delivered ≡ s.delivered

  -- Every signal of the set from `i` on is caught by `blocked_handler`, and may be changed.
  abbrev pub Caught : (set i : ℕ) → Signals → Type 0
  Caught set i s =
      (k : ℕ)
      → i ≤ k
      → member set k ≡ true
      → (is_blocked (s.handlers k) ≡ true) × (refuses k ≡ false)

  Caught-suc : (set i : ℕ) (s : Signals) → Caught set i s → Caught set (i + 1) s
  Caught-suc set i s c k h m = c k (omega arith) m

  Caught-released : (set i : ℕ) (s : Signals) → Caught set i s → Caught set (i + 1) (released i s)
  Caught-released set i s c k h m = ground (arith, c k (omega arith) m)

  unblock_one-released :
      (i : ℕ) (received : ℕ → ℕ) (s : Signals)
      → is_blocked (s.handlers i) ≡ true
      → refuses i ≡ false
      → unblock_one nsig refuses resets i received s
        ≡ some (update received i (s.pending_array i), released i s)
  unfolding unblock_one
  unblock_one-released i received s caught allowed = rw (allowed, caught)

  none_left :
      (set i : ℕ) (received : ℕ → ℕ) (s : Signals)
      → s.blocked_set < 256
      → UnblockedIn set i 0 received s received s
  none_left set i received s fits = record {
    handlers = λ k. ground arith;
    old_handlers = λ k. refl;
    pending = λ k. ground arith;
    was_received = λ k. ground arith;
    mask = λ k h. ground arith;
    fits = fits;
    delivered = refl;
  }

  module _ (set i n : ℕ) (received : ℕ → ℕ) (s : Signals) (out : ℕ → ℕ) (t : Signals) where
    UnblockedIn-skip :
        member set i ≡ false
        → UnblockedIn set (i + 1) n (update received i 0) s out t
        → UnblockedIn set i (suc n) received s out t
    UnblockedIn-skip outside u = record {
      handlers = λ k. ground (arith, chosen-suc set i n k, u.handlers k);
      old_handlers = u.old_handlers;
      pending = λ k. ground (arith, chosen-suc set i n k, u.pending k);
      was_received = λ k. ground (arith, chosen-suc set i n k, u.was_received k);
      mask = λ k h. ground (arith, chosen-suc set i n k, u.mask k h);
      fits = u.fits;
      delivered = u.delivered;
    }

    UnblockedIn-step :
        member set i ≡ true
        → i < 32
        → UnblockedIn set (i + 1) n (update received i (s.pending_array i)) (released i s) out t
        → UnblockedIn set i (suc n) received s out t
    UnblockedIn-step inside low u = record {
      handlers = λ k. ground (arith, chosen-suc set i n k, u.handlers k);
      old_handlers = u.old_handlers;
      pending = λ k. ground (arith, chosen-suc set i n k, u.pending k);
      was_received = λ k. ground (arith, chosen-suc set i n k, u.was_received k);
      mask = λ k h.
          ground (
            arith,
            chosen-suc set i n k,
            u.mask k h,
            member-without_signal s.blocked_set i k h low,
          );
      fits = u.fits;
      delivered = u.delivered;
    }

  -- With at most 32 signals, all caught, the loop ends without `abort`.
  pub unblock_loop-UnblockedIn :
      (set n i : ℕ) (received : ℕ → ℕ) (s : Signals)
      → i + n ≤ 32
      → s.blocked_set < 256
      → Caught set i s
      → (out : ℕ → ℕ) × (t : Signals) × (unblock_loop nsig refuses resets n i set received s
          ≡ unblocked out t)
        × UnblockedIn set i n received s out t
  unfolding unblock_loop
  unblock_loop-UnblockedIn set zero i received s few fits caught =
      (received, s, refl, none_left set i received s fits)
  unblock_loop-UnblockedIn set (suc n) i received s few fits caught =
      let room : ltb i 32 ≡ true = ground arith in
      elim (Bool-cases (member set i)) [
        | inl inside ↦
            let (held, allowed) = caught i (omega arith) inside in
            let (out, t, e, u) =
              unblock_loop-UnblockedIn set n (i + 1) (update received i (s.pending_array i))
                (released i s) (omega arith) (without_signal-lt s.blocked_set i)
                (Caught-released set i s caught) in
            (
              out,
              t,
              rw (room, selected-eq-member, inside, unblock_one-released i received s held allowed)
                  e,
              UnblockedIn-step set i n received s out t inside (omega arith) u,
            )
        | inr outside ↦
            let (out, t, e, u) =
              unblock_loop-UnblockedIn set n (i + 1) (update received i 0) s (omega arith) fits
                (Caught-suc set i s caught) in
            (
              out,
              t,
              rw (room, selected-eq-member, outside) e,
              UnblockedIn-skip set i n received s out t outside u,
            )
      ]
