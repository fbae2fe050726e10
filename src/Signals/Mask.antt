-- ===== src/Signals/Mask.antt =====
-- `sigprocmask` of wasm-build/wasm-build/sdk_port-wasi/sdk_port-wasi.c. Each loop over the signals
-- recurs on the rounds left. A set is shifted right by each signal, which C leaves undefined from
-- 32 on.
pub mod Blocking
pub mod Laws
pub mod Effect
mod Phases
pub mod Raising
pub mod Unblocking
use pglite4j.Prelude.{
  ℕ, zero, suc, ◌+◌, ◌/◌, ◌^◌, bit_and, bit_or, Bool, Option, none, some, ltb, ◌==◌, if◌then◌else◌,
  update, ℤ, pos, negsuc,
}
use pglite4j.Signals.Sets.{to_byte, complement, with_signal, without_signal}
use pglite4j.Signals.State.{is_blocked, is_err, Signals, signal, raise, blocked}

-- The state after the loop that unblocks, with the array `received`.
pub data Unblocked : Type 0 where
  unblocked : (received : ℕ → ℕ) → Signals → Unblocked
  aborted undefined : Unblocked

-- `done` is a return of 0 and `einval` one of -1 with `errno` at EINVAL, each with what is written
-- to `*old_set`.
pub data Outcome : Type 0 where
  done einval : Option ℕ → Signals → Outcome
  aborted undefined : Outcome

-- SIG_BLOCK is 0, SIG_UNBLOCK is 1 and SIG_SETMASK is 2.
unfoldable pub new_blocked_set : (operation : ℤ) → (blocked_set set : ℕ) → Option ℕ
new_blocked_set (negsuc n) old set = none
new_blocked_set (pos n) old set =
    if n == 0
    then some (to_byte (bit_or old set))
    else if n == 2
    then some set
    else if n == 1
    then some (to_byte (bit_and old (complement set)))
    else none

-- `(set >> sig) & 1`
abbrev pub selected : (set sig : ℕ) → Bool
selected set sig = bit_and (set / 2 ^ sig) 1 == 1

module _ (nsig : ℕ) (refuses : ℕ → Bool) (resets : Bool) where
  unfoldable pub block_one : (sig : ℕ) → Signals → Signals
  unfolding signal
  block_one sig s =
      let s0 = record s { pending_array = update s.pending_array sig 0 } in
      let (old, s1) = signal nsig refuses resets sig blocked s0 in
      let s2 = record s1 { old_handlers = update s1.old_handlers sig old } in
      if is_err old then s2 else record s2 { blocked_set = with_signal s2.blocked_set sig }

  unfoldable pub block_loop : (rounds sig to_block : ℕ) → Signals → Option Signals
  block_loop zero sig to_block s = some s
  block_loop (suc rounds) sig to_block s =
      let rest =
        block_loop rounds (sig + 1) to_block
          (if selected to_block sig then block_one sig s else s) in
      if ltb sig 32 then rest else none

  -- `none` is the call of `abort`.
  unfoldable pub unblock_one : (sig : ℕ) (received : ℕ → ℕ) → Signals → Option ((ℕ → ℕ) × Signals)
  unfolding signal
  unblock_one sig received s =
      let (old, s1) = signal nsig refuses resets sig (s.old_handlers sig) s in
      if is_blocked old
      then some (
        update received sig (s1.pending_array sig),
        record s1 {
          blocked_set = without_signal s1.blocked_set sig;
          pending_array = update s1.pending_array sig 0;
        },
      )
      else none

  unfoldable pub unblock_loop : (rounds sig to_unblock : ℕ) (received : ℕ → ℕ) → Signals → Unblocked
  unblock_loop zero sig to_unblock received s = unblocked received s
  unblock_loop (suc rounds) sig to_unblock received s =
      let skip = unblock_loop rounds (sig + 1) to_unblock (update received sig 0) s in
      let step : Unblocked = elim (unblock_one sig received s) [
        | none ↦ Unblocked.aborted
        | some (received', s') ↦ unblock_loop rounds (sig + 1) to_unblock received' s'
      ] in
      if ltb sig 32 then (if selected to_unblock sig then step else skip) else Unblocked.undefined

  unfoldable pub raise_loop : (rounds sig : ℕ) (received : ℕ → ℕ) → Signals → Signals
  unfolding raise
  raise_loop zero sig received s = s
  raise_loop (suc rounds) sig received s =
      raise_loop rounds (sig + 1) received
        (if received sig == 0 then s else raise nsig refuses resets sig s)

  -- `received` is not initialised in C; every element is written before it is read.
  unfoldable pub unblock_and_raise : (to_unblock : ℕ) → Option ℕ → Signals → Outcome
  unblock_and_raise to_unblock old s = elim (unblock_loop nsig 0 to_unblock (λ _. 0) s) [
    | unblocked received s' ↦ done old (raise_loop nsig 0 received s')
    | Unblocked.aborted ↦ Outcome.aborted
    | Unblocked.undefined ↦ Outcome.undefined
  ]

  unfoldable pub change_mask : (new_blocked : ℕ) → Option ℕ → Signals → Outcome
  unfolding unblock_and_raise
  change_mask new old s =
      let to_unblock = to_byte (bit_and s.blocked_set (complement new)) in
      let to_block = to_byte (bit_and new (complement s.blocked_set)) in
      elim (if to_block == 0 then some s else block_loop nsig 0 to_block s) [
        | none ↦ Outcome.undefined
        | some s1 ↦ if to_unblock == 0 then done old s1 else unblock_and_raise to_unblock old s1
      ]

  -- `set` is `none` for NULL, and `wants_old` says that `old_set` is not NULL.
  unfoldable pub sigprocmask :
      (operation : ℤ) (set : Option ℕ) (wants_old : Bool) → Signals → Outcome
  unfolding change_mask
  sigprocmask operation none wants_old s = done (if wants_old then some s.blocked_set else none) s
  sigprocmask operation (some set) wants_old s =
      let old = if wants_old then some s.blocked_set else none in
      elim (new_blocked_set operation s.blocked_set set) [
        | none ↦ einval old s
        | some new ↦ change_mask new old s
      ]
