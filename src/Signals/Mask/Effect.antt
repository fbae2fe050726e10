-- ===== src/Signals/Mask/Effect.antt =====
-- What a change of the mask by `sigprocmask` comes to, with 8 to 32 signals.
use pglite4j.Prelude.{
  ℕ, ◌≤◌, ◌<◌, ◌≡◌, refl, ◌∙◌, inl, inr, Bool, true, false, ◌&&◌, ◌||◌, not, Option, ◌++◌, arith,
  ltb, if◌then◌else◌, Bool-cases, bit_and,
}
use pglite4j.Prelude.Bits.{bit-le-one, bit-bit_and, bit-byte, bit-complement}
use pglite4j.Signals.Sets.{member, member_high, to_byte, complement}
use pglite4j.Signals.State.{blocked, sig_err, is_blocked, is_err, Signals}
use pglite4j.Signals.Mask.{done, change_mask}
use pglite4j.Signals.Mask.Blocking.{chosen, BlockedIn}
use pglite4j.Signals.Mask.Raising.{due, due-ext}
use pglite4j.Signals.Mask.Phases.{FreedIn, Releasable, block_phase, second_phase}

-- `a & ~b`
abbrev pub minus : ℕ → ℕ → ℕ
minus a b = to_byte (bit_and a (complement b))

pub member-minus :
    (a b k : ℕ) → a < 256 → b < 256 → member (minus a b) k ≡ (member a k && not (member b k))
member-minus a b k la lb = elim (Bool-cases (ltb k 8)) [
  | inl low ↦ ground (
    arith,
    bit-byte (bit_and a (complement b)) k,
    bit-bit_and a (complement b) k,
    bit-complement b k,
    bit-le-one a k,
    bit-le-one b k,
  )
  | inr high ↦ ground (arith, member_high (minus a b) k, member_high a k la)
]

pub chosen-all : (nsig set k : ℕ) → 8 ≤ nsig → set < 256 → chosen set 0 nsig k ≡ member set k
chosen-all nsig set k enough fits = ground (arith, member_high set k fits)

-- The pending signals that are unblocked on the way to the mask `new`.
abbrev pub received_on : (new : ℕ) → Signals → ℕ → ℕ
received_on new s k = if member s.blocked_set k && not (member new k) then s.pending_array k else 0

module _ (nsig : ℕ) (refuses : ℕ → Bool) (resets : Bool) where
  -- The signals of the mask are exactly those that `blocked_handler` catches, each with another
  -- handler saved, and SIG_ERR is never a handler.
  pub record IsConsistent (s : Signals) : Type 0 where
    pub fits : s.blocked_set < 256
    pub no_err : (k : ℕ) → is_err (s.handlers k) ≡ false
    pub caught : (k : ℕ) → is_blocked (s.handlers k) ≡ member s.blocked_set k
    pub allowed : (k : ℕ) → member s.blocked_set k ≡ true → refuses k ≡ false
    pub saved :
        (k : ℕ)
        → member s.blocked_set k ≡ true
        → (is_blocked (s.old_handlers k) ≡ false) × (is_err (s.old_handlers k) ≡ false)

  -- `t` is `s` with the mask changed to `new`, signal by signal.
  pub record MaskedTo (new : ℕ) (s t : Signals) : Type 0 where
    pub mask :
        (k : ℕ)
        → member t.blocked_set k ≡ (member new k && (member s.blocked_set k || not (refuses k)))
    pub handlers :
        (k : ℕ)
        → received_on new s k ≡ 0
        → t.handlers k ≡ (
            if member new k && not (member s.blocked_set k) && not (refuses k)
            then blocked
            else if member s.blocked_set k && not (member new k)
            then s.old_handlers k
            else s.handlers k)
    pub kept :
        resets ≡ false
        → (k : ℕ)
        → t.handlers k ≡ (
            if member new k && not (member s.blocked_set k) && not (refuses k)
            then blocked
            else if member s.blocked_set k && not (member new k)
            then s.old_handlers k
            else s.handlers k)
    pub old_handlers :
        (k : ℕ)
        → t.old_handlers k ≡ (
            if member new k && not (member s.blocked_set k)
            then (if refuses k then sig_err else s.handlers k)
            else s.old_handlers k)
    pub pending :
        (k : ℕ)
        → t.pending_array k ≡ (
            if member new k && member s.blocked_set k
            then s.pending_array k
            else if member new k || member s.blocked_set k
            then 0
            else s.pending_array k)
    pub delivered : t.delivered ≡ s.delivered ++ due nsig 0 (received_on new s) s.old_handlers

  module _ (new : ℕ) (s u : Signals) (enough : 8 ≤ nsig) (new_fits : new < 256)
      (ok : IsConsistent s)
      (blocking : BlockedIn nsig refuses resets (minus new s.blocked_set) 0 nsig s u) where
    minus-lt : (a b : ℕ) → minus a b < 256
    minus-lt a b = omega arith

    newly :
        (k : ℕ)
        → chosen (minus new s.blocked_set) 0 nsig k ≡ (member new k && not (member s.blocked_set k))
    newly k =
        chosen-all nsig _ k enough (minus-lt _ _)
        ∙ member-minus new s.blocked_set k new_fits ok.fits

    freed :
        (k : ℕ)
        → chosen (minus s.blocked_set new) 0 nsig k ≡ (member s.blocked_set k && not (member new k))
    freed k =
        chosen-all nsig _ k enough (minus-lt _ _)
        ∙ member-minus s.blocked_set new k ok.fits new_fits

    ready : Releasable nsig refuses resets (minus s.blocked_set new) u
    ready = record {
      no_err = λ k. ground (arith, blocking.handlers k, ok.no_err k);
      caught = λ k m. ground (
        arith,
        m,
        member-minus s.blocked_set new k ok.fits new_fits,
        newly k,
        blocking.handlers k,
        ok.caught k,
      );
      allowed =
          λ k m. ground (arith, m, member-minus s.blocked_set new k ok.fits new_fits, ok.allowed k);
      saved = λ k m. ground (
        arith,
        m,
        member-minus s.blocked_set new k ok.fits new_fits,
        newly k,
        blocking.old_handlers k,
        ok.saved k,
      );
      saved_no_err = λ k m. ground (
        arith,
        m,
        member-minus s.blocked_set new k ok.fits new_fits,
        newly k,
        blocking.old_handlers k,
        ok.saved k,
      );
    }

    module _ (t : Signals)
        (freeing : FreedIn nsig refuses resets (minus s.blocked_set new) u t) where
      final_mask :
          (k : ℕ)
          → member t.blocked_set k ≡ (member new k && (member s.blocked_set k || not (refuses k)))
      final_mask k = elim (Bool-cases (ltb k 8)) [
        | inl low ↦ ground (arith, freeing.mask k, blocking.mask k, newly k, freed k)
        | inr high ↦
            ground (arith, member_high t.blocked_set k freeing.fits, member_high new k new_fits)
      ]

      final_received : (k : ℕ) → freeing.received k ≡ received_on new s k
      final_received k =
          ground (arith, freeing.was_received k, freed k, newly k, blocking.pending k)

      final_MaskedTo : MaskedTo new s t
      final_MaskedTo = record {
        mask = final_mask;
        handlers = λ k z. ground (
          arith,
          final_received k,
          freeing.handlers k,
          freed k,
          newly k,
          blocking.handlers k,
          blocking.old_handlers k,
        );
        kept = λ e k. ground (
          arith,
          freeing.kept e k,
          freed k,
          newly k,
          blocking.handlers k,
          blocking.old_handlers k,
        );
        old_handlers =
            λ k. ground (arith, freeing.old_handlers k, blocking.old_handlers k, newly k);
        pending = λ k. ground (arith, freeing.pending k, freed k, newly k, blocking.pending k);
        delivered =
            freeing.delivered
            ∙ rw
                (
                  blocking.delivered,
                  due-ext nsig refuses resets nsig 0 freeing.received (received_on new s)
                      u.old_handlers s.old_handlers final_received
                      (λ k z.
                        ground (
                          arith,
                          freeing.was_received k,
                          freed k,
                          newly k,
                          blocking.old_handlers k,
                        )),
                )
                refl;
      }

      final_IsConsistent : IsConsistent t
      final_IsConsistent = record {
        fits = freeing.fits;
        no_err = freeing.no_err;
        caught = λ k. ground (
          arith,
          freeing.not_blocked k,
          freed k,
          newly k,
          final_mask k,
          blocking.handlers k,
          blocking.old_handlers k,
          ok.caught k,
          ok.saved k,
        );
        allowed = λ k m. ground (arith, m, final_mask k, ok.allowed k);
        saved = λ k m. ground (
          arith,
          m,
          final_mask k,
          freeing.old_handlers k,
          blocking.old_handlers k,
          newly k,
          ok.caught k,
          ok.no_err k,
          ok.saved k,
        );
      }

  -- From a consistent state a change of the mask returns 0, whatever the new mask.
  pub change_mask-MaskedTo :
      (new : ℕ) (old : Option ℕ) (s : Signals)
      → 8 ≤ nsig
      → nsig ≤ 32
      → new < 256
      → IsConsistent s
      → (t : Signals) × (change_mask nsig refuses resets new old s ≡ done old t)
        × IsConsistent t
        × MaskedTo new s t
  unfolding change_mask
  change_mask-MaskedTo new old s enough few new_fits ok =
      let (u, e, blocking) =
        block_phase nsig refuses resets (minus new s.blocked_set) s few ok.fits ok.no_err in
      let (t, e', freeing) =
        second_phase nsig refuses resets (minus s.blocked_set new) old u few blocking.fits
          (ready new s u enough new_fits ok blocking) in
      (
        t,
        rw (e, change_mask) e',
        final_IsConsistent new s u enough new_fits ok blocking t freeing,
        final_MaskedTo new s u enough new_fits ok blocking t freeing,
      )
