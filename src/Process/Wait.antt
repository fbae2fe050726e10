-- ===== src/Process/Wait.antt =====
-- What the wait statuses mean.
use pglite4j.Prelude.{ℕ, ◌+◌, ◌*◌, ◌/◌, ◌%◌, ◌^◌, ◌<◌, ◌≡◌, ◌≢◌, ◌⊎◌, inl, inr, true, false, arith}
use pglite4j.Process.{exit_status, term_sig, if_exited, if_stopped, if_signaled, to_short}

swapped : (s : ℕ) → s % 2 ^ 16 * 65537 % 2 ^ 32 / 2 ^ 8 % 2 ^ 16 ≡ s % 256 * 256 + s / 256 % 256
swapped s = omega arith

if_stopped-true : (s : ℕ) → s % 256 ≡ 127 → 0 < s / 256 % 256 → if_stopped s ≡ true
unfolding if_stopped to_short
if_stopped-true s low high = rw (swapped s) (ground arith)

if_stopped-false : (s : ℕ) → (s % 256 ≢ 127) ⊎ (s / 256 % 256 ≡ 0) → if_stopped s ≡ false
unfolding if_stopped to_short
if_stopped-false s h = rw (swapped s) (ground (arith, h))

if_signaled-true : (s : ℕ) → s / 256 % 256 ≡ 0 → 0 < s % 256 → if_signaled s ≡ true
unfolding if_signaled
if_signaled-true s high low = ground arith

if_signaled-false : (s : ℕ) → (0 < s / 256 % 256) ⊎ (s % 65536 ≡ 0) → if_signaled s ≡ false
unfolding if_signaled
if_signaled-false s h = ground (arith, h)

-- An exit code below 256, in the second byte, is read back by WEXITSTATUS, and the status counts as
-- an exit, and neither as a stop nor as a signal.
exited_status :
    (code : ℕ)
    → code < 256
    → (if_exited (code * 256) ≡ true)
      × (exit_status (code * 256) ≡ code)
      × (if_stopped (code * 256) ≡ false)
      × (if_signaled (code * 256) ≡ false)
unfolding if_exited exit_status
exited_status code small = (
  ground arith,
  omega arith,
  if_stopped-false (code * 256) (inl (λ e. absurd (omega (arith, e)))),
  if_signaled-false (code * 256) (grind arith),
)

-- A signal from 1 to 126, in the first byte with or without the core bit, is read back by WTERMSIG,
-- and the status counts as a signal, and neither as an exit nor as a stop.
signaled_status :
    (sig core : ℕ)
    → 0 < sig
    → sig < 127
    → core < 2
    → (if_exited (sig + 128 * core) ≡ false)
      × (term_sig (sig + 128 * core) ≡ sig)
      × (if_stopped (sig + 128 * core) ≡ false)
      × (if_signaled (sig + 128 * core) ≡ true)
unfolding if_exited
signaled_status sig core low high bit = (
  ground arith,
  omega arith,
  if_stopped-false (sig + 128 * core) (inr (omega arith)),
  if_signaled-true (sig + 128 * core) (omega arith) (omega arith),
)

-- A stop by a signal from 1 to 255, in the second byte above 127, is read back by WSTOPSIG, and the
-- status counts as a stop, and neither as an exit nor as a signal.
stopped_status :
    (sig : ℕ)
    → 0 < sig
    → sig < 256
    → (if_exited (sig * 256 + 127) ≡ false)
      × (exit_status (sig * 256 + 127) ≡ sig)
      × (if_stopped (sig * 256 + 127) ≡ true)
      × (if_signaled (sig * 256 + 127) ≡ false)
unfolding if_exited exit_status
stopped_status sig low high = (
  ground arith,
  omega arith,
  if_stopped-true (sig * 256 + 127) (omega arith) (omega arith),
  if_signaled-false (sig * 256 + 127) (inl (omega arith)),
)
