-- ===== src/Signals/Mask/Raising.antt =====
-- The loop of `sigprocmask` that raises the signals received while they were blocked.
use mathlib.Core.List.{append_assoc, append-nil}
use pglite4j.Prelude.{
  ℕ, zero, suc, ◌+◌, ◌≤◌, ◌≡◌, refl, sym, ◌∙◌, inl, inr, Bool, true, false, List, [], ◌∷◌, ◌++◌,
  arith, ◌==◌, if◌then◌else◌, Bool-cases,
}
use pglite4j.Signals.State.{Handler, is_blocked, is_err, Signals, raise}
use pglite4j.Signals.Mask.{raise_loop}

-- The received signals among the `n` from `i` on, in order, with their handlers.
abbrev pub due : (n i : ℕ) (received : ℕ → ℕ) (handlers : ℕ → Handler) → List (ℕ × Handler)
due zero i received handlers = []
due (suc n) i received handlers =
    if received i == 0
    then due n (i + 1) received handlers
    else (i, handlers i) ∷ due n (i + 1) received handlers

pub due-nothing : (n i : ℕ) (handlers : ℕ → Handler) → due n i (λ _. 0) handlers ≡ []
due-nothing zero i handlers = refl
due-nothing (suc n) i handlers = due-nothing n (i + 1) handlers

module _ (nsig : ℕ) (refuses : ℕ → Bool) (resets : Bool) where
  -- What raising the received signals makes of `s`.
  pub record RaisedIn (received : ℕ → ℕ) (n i : ℕ) (s t : Signals) : Type 0 where
    pub delivered : t.delivered ≡ s.delivered ++ due n i received s.handlers
    pub not_blocked : (k : ℕ) → is_blocked (t.handlers k) ≡ is_blocked (s.handlers k)
    pub no_err : (k : ℕ) → is_err (s.handlers k) ≡ false → is_err (t.handlers k) ≡ false
    pub handlers : (k : ℕ) → received k ≡ 0 → t.handlers k ≡ s.handlers k
    pub kept : resets ≡ false → (k : ℕ) → t.handlers k ≡ s.handlers k
    pub old_handlers : t.old_handlers ≡ s.old_handlers
    pub pending : t.pending_array ≡ s.pending_array
    pub mask : t.blocked_set ≡ s.blocked_set

  -- Of one signal, whose handler is not `blocked_handler`.
  record RaisedOne (i : ℕ) (s t : Signals) : Type 0 where
    delivered : t.delivered ≡ s.delivered ++ (i, s.handlers i) ∷ []
    not_blocked : (k : ℕ) → is_blocked (t.handlers k) ≡ is_blocked (s.handlers k)
    no_err : (k : ℕ) → is_err (s.handlers k) ≡ false → is_err (t.handlers k) ≡ false
    handlers : (k : ℕ) → (k == i) ≡ false → t.handlers k ≡ s.handlers k
    kept : resets ≡ false → (k : ℕ) → t.handlers k ≡ s.handlers k
    old_handlers : t.old_handlers ≡ s.old_handlers
    pending : t.pending_array ≡ s.pending_array
    mask : t.blocked_set ≡ s.blocked_set

  raise-RaisedOne :
      (i : ℕ) (s : Signals)
      → is_blocked (s.handlers i) ≡ false
      → RaisedOne i s (raise nsig refuses resets i s)
  unfolding raise
  raise-RaisedOne i s free = record {
    delivered = ground arith;
    not_blocked = λ k. ground arith;
    no_err = λ k h. ground arith;
    handlers = λ k ne. ground arith;
    kept = λ r k. ground arith;
    old_handlers = ground arith;
    pending = ground arith;
    mask = ground arith;
  }

  due-same :
      (n i : ℕ) (received : ℕ → ℕ) (f g : ℕ → Handler)
      → ((k : ℕ) → i ≤ k → f k ≡ g k)
      → due n i received f ≡ due n i received g
  due-same zero i received f g same = refl
  due-same (suc n) i received f g same =
      ground (arith, same i, due-same n (i + 1) received f g (λ k h. same k (omega arith)))

  pub due-ext :
      (n i : ℕ) (received received' : ℕ → ℕ) (f g : ℕ → Handler)
      → ((k : ℕ) → received k ≡ received' k)
      → ((k : ℕ) → (received k == 0) ≡ false → f k ≡ g k)
      → due n i received f ≡ due n i received' g
  due-ext zero i received received' f g same_received same = refl
  due-ext (suc n) i received received' f g same_received same =
      ground (
        arith,
        same_received i,
        same i,
        due-ext n (i + 1) received received' f g same_received same,
      )

  module _ (received : ℕ → ℕ) where
    RaisedIn-skip :
        (n i : ℕ) (s t : Signals)
        → (received i == 0) ≡ true
        → RaisedIn received n (i + 1) s t
        → RaisedIn received (suc n) i s t
    RaisedIn-skip n i s t quiet r = record {
      delivered = ground (arith, r.delivered);
      not_blocked = r.not_blocked;
      no_err = r.no_err;
      handlers = r.handlers;
      kept = r.kept;
      old_handlers = r.old_handlers;
      pending = r.pending;
      mask = r.mask;
    }

    RaisedIn-step :
        (n i : ℕ) (s u t : Signals)
        → (received i == 0) ≡ false
        → RaisedOne i s u
        → RaisedIn received n (i + 1) u t
        → RaisedIn received (suc n) i s t
    RaisedIn-step n i s u t loud one r = record {
      delivered =
          r.delivered
          ∙ rw
              (
                one.delivered,
                append_assoc,
                due-same n (i + 1) received u.handlers s.handlers
                    (λ k h. one.handlers k (ground arith)),
              )
              (rw loud);
      not_blocked = λ k. r.not_blocked k ∙ one.not_blocked k;
      no_err = λ k h. r.no_err k (one.no_err k h);
      handlers = λ k z. r.handlers k z ∙ one.handlers k (ground arith);
      kept = λ e k. r.kept e k ∙ one.kept e k;
      old_handlers = r.old_handlers ∙ one.old_handlers;
      pending = r.pending ∙ one.pending;
      mask = r.mask ∙ one.mask;
    }

    pub raise_loop-RaisedIn :
        (n i : ℕ) (s : Signals)
        → ((k : ℕ) → (received k == 0) ≡ false → is_blocked (s.handlers k) ≡ false)
        → RaisedIn received n i s (raise_loop nsig refuses resets n i received s)
    unfolding raise_loop
    raise_loop-RaisedIn zero i s free = record {
      delivered = sym (append-nil s.delivered);
      not_blocked = λ k. refl;
      no_err = λ k h. h;
      handlers = λ k z. refl;
      kept = λ e k. refl;
      old_handlers = refl;
      pending = refl;
      mask = refl;
    }
    raise_loop-RaisedIn (suc n) i s free = elim (Bool-cases (received i == 0)) [
      | inl quiet ↦ rw quiet (RaisedIn-skip n i s _ quiet (raise_loop-RaisedIn n (i + 1) s free))
      | inr loud ↦
          let one = raise-RaisedOne i s (free i loud) in
          rw loud (
            RaisedIn-step n i s (raise nsig refuses resets i s) _ loud one (
              raise_loop-RaisedIn n (i + 1) (raise nsig refuses resets i s)
                (λ k z. one.not_blocked k ∙ free k z)))
    ]
