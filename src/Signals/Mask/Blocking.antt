-- ===== src/Signals/Mask/Blocking.antt =====
-- The loop of `sigprocmask` that blocks signals, described signal by signal.
use pglite4j.Prelude.{
  ℕ, zero, suc, ◌+◌, ◌≤◌, ◌<◌, ◌≡◌, refl, ◌∙◌, inl, inr, Bool, true, false, ◌&&◌, ◌||◌, not, some,
  arith, ltb, leb, ◌==◌, if◌then◌else◌, Bool-cases,
}
use pglite4j.Prelude.Bits.{low_bit-shift}
use pglite4j.Signals.Sets.{member, member-with_signal, with_signal-lt}
use pglite4j.Signals.State.{blocked, sig_err, is_err, Signals}
use pglite4j.Signals.Mask.{selected, block_one, block_loop}

-- `k` is one of the `n` signals from `i` on, and in the set.
abbrev pub chosen : (set i n k : ℕ) → Bool
chosen set i n k = leb i k && ltb k (i + n) && member set k

pub selected-eq-member : (set sig : ℕ) → selected set sig ≡ member set sig
selected-eq-member set sig = rw low_bit-shift

pub chosen-suc :
    (set i n k : ℕ) → chosen set i (suc n) k ≡ (k == i && member set i || chosen set (i + 1) n k)
chosen-suc set i n k = ground arith

module _ (nsig : ℕ) (refuses : ℕ → Bool) (resets : Bool) where
  -- What blocking the chosen signals makes of `s`.
  pub record BlockedIn (set i n : ℕ) (s t : Signals) : Type 0 where
    pub handlers :
        (k : ℕ)
        → t.handlers k ≡ (if chosen set i n k && not (refuses k) then blocked else s.handlers k)
    pub old_handlers :
        (k : ℕ)
        → t.old_handlers k ≡ (
            if chosen set i n k
            then (if refuses k then sig_err else s.handlers k)
            else s.old_handlers k)
    pub pending : (k : ℕ) → t.pending_array k ≡ (if chosen set i n k then 0 else s.pending_array k)
    pub mask :
        (k : ℕ)
        → k < 8
        → member t.blocked_set k ≡ (chosen set i n k && not (refuses k) || member s.blocked_set k)
    pub fits : t.blocked_set < 256
    pub delivered : t.delivered ≡ s.delivered

  none_left : (set i : ℕ) (s : Signals) → s.blocked_set < 256 → BlockedIn set i 0 s s
  none_left set i s fits = record {
    handlers = λ k. ground arith;
    old_handlers = λ k. ground arith;
    pending = λ k. ground arith;
    mask = λ k h. ground arith;
    fits = fits;
    delivered = refl;
  }

  module _ (i : ℕ) (s : Signals) (no_err : (k : ℕ) → is_err (s.handlers k) ≡ false) where
    block_one-handlers :
        (k : ℕ)
        → (block_one nsig refuses resets i s).handlers k
          ≡ (if k == i && not (refuses i) then blocked else s.handlers k)
    unfolding block_one
    block_one-handlers k = ground (arith, no_err i)

    block_one-old_handlers :
        (k : ℕ)
        → (block_one nsig refuses resets i s).old_handlers k
          ≡ (if k == i then (if refuses i then sig_err else s.handlers i) else s.old_handlers k)
    unfolding block_one
    block_one-old_handlers k = ground (arith, no_err i)

    block_one-pending :
        (k : ℕ)
        → (block_one nsig refuses resets i s).pending_array k
          ≡ (if k == i then 0 else s.pending_array k)
    unfolding block_one
    block_one-pending k = ground (arith, no_err i)

    block_one-mask :
        (k : ℕ)
        → k < 8
        → member (block_one nsig refuses resets i s).blocked_set k
          ≡ (k == i && not (refuses i) || member s.blocked_set k)
    unfolding block_one
    block_one-mask k h = ground (arith, no_err i, member-with_signal s.blocked_set i k)

    block_one-fits : s.blocked_set < 256 → (block_one nsig refuses resets i s).blocked_set < 256
    unfolding block_one
    block_one-fits fits = ground (arith, no_err i, with_signal-lt s.blocked_set i)

    block_one-delivered : (block_one nsig refuses resets i s).delivered ≡ s.delivered
    unfolding block_one
    block_one-delivered = ground (arith, no_err i)

  block_one-no_err :
      (i : ℕ) (s : Signals) (no_err : (k : ℕ) → is_err (s.handlers k) ≡ false)
      → (k : ℕ) → is_err ((block_one nsig refuses resets i s).handlers k) ≡ false
  block_one-no_err i s no_err k = ground (arith, block_one-handlers i s no_err k, no_err k)

  BlockedIn-skip :
      (set i n : ℕ) (s t : Signals)
      → member set i ≡ false
      → BlockedIn set (i + 1) n s t
      → BlockedIn set i (suc n) s t
  BlockedIn-skip set i n s t out b = record {
    handlers = λ k. ground (arith, chosen-suc set i n k, b.handlers k);
    old_handlers = λ k. ground (arith, chosen-suc set i n k, b.old_handlers k);
    pending = λ k. ground (arith, chosen-suc set i n k, b.pending k);
    mask = λ k h. ground (arith, chosen-suc set i n k, b.mask k h);
    fits = b.fits;
    delivered = b.delivered;
  }

  BlockedIn-step :
      (set i n : ℕ) (s t : Signals)
      → member set i ≡ true
      → (no_err : (k : ℕ) → is_err (s.handlers k) ≡ false)
      → BlockedIn set (i + 1) n (block_one nsig refuses resets i s) t
      → BlockedIn set i (suc n) s t
  BlockedIn-step set i n s t out no_err b = record {
    handlers =
        λ k. ground (arith, chosen-suc set i n k, b.handlers k, block_one-handlers i s no_err k);
    old_handlers = λ k. ground (
      arith,
      chosen-suc set i n k,
      b.old_handlers k,
      block_one-old_handlers i s no_err k,
      block_one-handlers i s no_err k,
    );
    pending =
        λ k. ground (arith, chosen-suc set i n k, b.pending k, block_one-pending i s no_err k);
    mask = λ k h. ground (arith, chosen-suc set i n k, b.mask k h, block_one-mask i s no_err k h);
    fits = b.fits;
    delivered = b.delivered ∙ block_one-delivered i s no_err;
  }

  -- With at most 32 signals the loop ends, and has blocked the chosen ones.
  pub block_loop-BlockedIn :
      (set n i : ℕ) (s : Signals)
      → i + n ≤ 32
      → s.blocked_set < 256
      → ((k : ℕ) → is_err (s.handlers k) ≡ false)
      → (t : Signals) × (block_loop nsig refuses resets n i set s ≡ some t) × BlockedIn set i n s t
  unfolding block_loop
  block_loop-BlockedIn set zero i s few fits no_err = (s, refl, none_left set i s fits)
  block_loop-BlockedIn set (suc n) i s few fits no_err =
      let room : ltb i 32 ≡ true = ground arith in
      elim (Bool-cases (member set i)) [
        | inl inside ↦
            let (t, e, b) =
              block_loop-BlockedIn set n (i + 1) (block_one nsig refuses resets i s) (omega arith)
                (block_one-fits i s no_err fits) (block_one-no_err i s no_err) in
            (t, rw (room, selected-eq-member, inside) e, BlockedIn-step set i n s t inside no_err b)
        | inr outside ↦
            let (t, e, b) = block_loop-BlockedIn set n (i + 1) s (omega arith) fits no_err in
            (t, rw (room, selected-eq-member, outside) e, BlockedIn-skip set i n s t outside b)
      ]
