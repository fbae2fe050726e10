-- ===== src/Signals/State.antt =====
-- The variables of the signal emulation in wasm-build/wasm-build/sdk_port-wasi/sdk_port-wasi.c,
-- `blocked_handler`, and the C library's `signal` and `raise`, which it calls.
-- The arrays have NSIG elements, and every access here is below NSIG, so they are functions.
use pglite4j.Prelude.{ℕ, Bool, true, false, List, [], ◌∷◌, ◌++◌, ltb, if◌then◌else◌, update}

-- A handler: SIG_DFL, SIG_IGN, SIG_ERR, `blocked_handler`, or a function of the application.
pub data Handler : Type 0 where
  default ignore sig_err blocked : Handler
  user : ℕ → Handler

abbrev pub is_blocked : Handler → Bool
is_blocked blocked = true
is_blocked _ = false

abbrev pub is_err : Handler → Bool
is_err sig_err = true
is_err _ = false

-- `handlers` is the C library's table of handlers, and `delivered` the log of the signals that
-- `raise` has given to a handler other than `blocked_handler`.
pub record Signals : Type 0 where
  pub blocked_set : ℕ
  pub pending_array : ℕ → ℕ
  pub old_handlers : ℕ → Handler
  pub handlers : ℕ → Handler
  pub delivered : List (ℕ × Handler)

-- `nsig` is NSIG. `refuses` says for which signals `signal` returns SIG_ERR. `resets` says whether
-- a handler is put back to SIG_DFL before it runs, which C leaves to the implementation.
module _ (nsig : ℕ) (refuses : ℕ → Bool) (resets : Bool) where
  -- The C library's `signal(sig, h)`, with the handler that it returns.
  unfoldable pub signal : (sig : ℕ) → Handler → Signals → Handler × Signals
  signal sig h s =
      if refuses sig
      then (sig_err, s)
      else (s.handlers sig, record s { handlers = update s.handlers sig h })

  -- For a `sig` that is not negative.
  unfoldable pub blocked_handler : (sig : ℕ) → Signals → Signals
  unfolding signal
  blocked_handler sig s =
      let s' = (signal sig blocked s).1 in
      if ltb sig nsig then record s' { pending_array = update s'.pending_array sig 1 } else s'

  unfoldable pub reset : (sig : ℕ) → Signals → Signals
  reset sig s = if resets then record s { handlers = update s.handlers sig default } else s

  unfoldable pub log : (sig : ℕ) → Handler → Signals → Signals
  log sig h s = record s { delivered = s.delivered ++ (sig, h) ∷ [] }

  -- A handler of the application is taken to leave these variables alone.
  unfoldable pub run : Handler → (sig : ℕ) → Signals → Signals
  unfolding blocked_handler reset log
  run blocked sig s = blocked_handler sig (reset sig s)
  run (user n) sig s = log sig (user n) (reset sig s)
  run h sig s = log sig h s

  -- The C library's `raise(sig)`.
  unfoldable pub raise : (sig : ℕ) → Signals → Signals
  unfolding run
  raise sig s = run (s.handlers sig) sig s
