-- ===== src/Witnesses/Masks.antt =====
-- `sigprocmask` where signal 1 is blocked and signal 3 has a handler.
use pglite4j.Prelude.{ℕ, ◌≡◌, ◌≢◌, Bool, true, false, [], ◌==◌, if◌then◌else◌, arith, some, pos}
use pglite4j.Signals.State.{default, user, blocked, Signals}
use pglite4j.Signals.Mask.{Outcome, sigprocmask}
use pglite4j.Signals.Mask.Effect.{minus}
use pglite4j.Signals.Mask.Laws.{sigprocmask_wide}

abbrev allows : ℕ → Bool
allows k = k == 9

abbrev one_blocked : Signals
one_blocked = record {
  blocked_set = 2;
  pending_array = λ k. 0;
  old_handlers = λ k. user 7;
  handlers = λ k. if k == 1 then blocked else if k == 3 then user 5 else default;
  delivered = [];
}

eight_new : minus 8 2 ≢ 0
eight_new e = absurd (omega (arith, e))

-- With 65 signals.
sigprocmask_wide_example :
    sigprocmask 65 allows true (pos 2) (some 8) false one_blocked ≡ Outcome.undefined
sigprocmask_wide_example =
    sigprocmask_wide 65 allows true 8 false one_blocked (omega arith) eight_new
