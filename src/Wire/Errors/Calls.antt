-- ===== src/Wire/Errors/Calls.antt =====
-- What the flag of the module tells `execProtocolRaw` of PGLite.java.
use mathlib.Core.Path.{subst}
use pglite4j.Prelude.{ℕ, ◌≡◌, refl, pos, Bool, true, false, List, if◌then◌else◌}
use pglite4j.Wire.Exports.{Exports, Tick, ticked, trapped}
use pglite4j.Wire.Transport.{
  PgLite, returned, thrown, M, one_tick, recover, on_trap, tick_once, exec_protocol_raw, ◌>>◌,
  ◌>>=◌,
}
use pglite4j.Wire.Errors.{Flagged, pgl_on_error, pgl_check_error, errfinish, flagged, with_rest}
use pglite4j.Wire.Errors.Laws.{IsClear, Leaves, recovering, exec_protocol_raw-Leaves}

module _ {E : Type 0} (x : Exports E) (is_error : E → Bool) where
  -- A tick that traps, where `T` says what an ERROR leaves and what another trap leaves.
  one_tick-Leaves :
      (T : PgLite (Flagged E) → Type 0) (h : PgLite (Flagged E))
      → IsClear h
      → ((e : E)
          → x.interactive_one h.engine.rest ≡ trapped e
          → T (record h {
            engine =
                if is_error h.engine.rest
                then pgl_on_error (with_rest h.engine e)
                else with_rest h.engine e;
          }))
      → Leaves T (one_tick (flagged x is_error) h)
  unfolding one_tick flagged errfinish
  one_tick-Leaves T h c traps = go (x.interactive_one h.engine.rest) refl
    where
      go :
          (k : Tick E)
          → x.interactive_one h.engine.rest ≡ k
          → Leaves T (one_tick (flagged x is_error) h)
      go (ticked e) k = rw (k, one_tick) c
      go (trapped e) k = rw (k, one_tick) (traps e k)

  -- A call that returns leaves the flag clear where it was clear: it has asked for the flag after each
  -- ERROR that it recovered from.
  pub exec_protocol_raw-IsClear :
      (msg : List ℕ) (h t : PgLite (Flagged E)) (r : List ℕ)
      → IsClear h
      → exec_protocol_raw (flagged x is_error) msg h ≡ returned r t
      → IsClear t
  exec_protocol_raw-IsClear msg h t r c run = subst (Leaves (λ _. Unit {0})) run (
      exec_protocol_raw-Leaves x is_error (λ _. Unit {0}) (λ _ _. tt)
        (λ g e cg.
          one_tick-Leaves (λ _. Unit {0})
            (record g { engine = with_rest g.engine (recovering x e) }) cg (λ _ _. tt))
        msg h c)

  -- Where no recovery raises an ERROR of its own, the flag is clear after each call, those that
  -- throw among them.
  pub exec_protocol_raw_quiet :
      (msg : List ℕ) (h : PgLite (Flagged E))
      → ((e : E) → is_error (recovering x e) ≡ false)
      → IsClear h
      → Leaves IsClear (exec_protocol_raw (flagged x is_error) msg h)
  exec_protocol_raw_quiet msg h quiet c =
      exec_protocol_raw-Leaves x is_error IsClear (λ _ cg. cg)
        (λ g e cg.
          one_tick-Leaves IsClear (record g { engine = with_rest g.engine (recovering x e) }) cg
            (λ e' _. rw (quiet e) cg))
        msg h c

  -- With a clear flag, the host recovers from the traps that are ERRORs of PostgreSQL and throws at the
  -- others; in both cases it goes on with a clear flag.
  pub tick_once-errfinish :
      (more : List (List ℕ) → M (Flagged E) (List (List ℕ))) (before : Bool × List (List ℕ))
      (h : PgLite (Flagged E)) (e : E)
      → IsClear h
      → x.interactive_one h.engine.rest ≡ trapped e
      → tick_once (flagged x is_error) more before h ≡ (
          if is_error h.engine.rest
          then recover
              (flagged x is_error)
              before.1
              (record h { engine = record { rest = e; pgl_error_flag = pos 0 } })
          else thrown (record h { engine = record { rest = e; pgl_error_flag = pos 0 } }))
  unfolding tick_once flagged errfinish on_trap pgl_check_error
  tick_once-errfinish more before h e c trap = go (is_error h.engine.rest) refl
    where
      go :
          (b : Bool)
          → is_error h.engine.rest ≡ b
          → tick_once (flagged x is_error) more before h ≡ (
              if is_error h.engine.rest
              then recover
                  (flagged x is_error)
                  before.1
                  (record h { engine = record { rest = e; pgl_error_flag = pos 0 } })
              else thrown (record h { engine = record { rest = e; pgl_error_flag = pos 0 } }))
      go true b = rw (trap, tick_once) (rw (b, errfinish) refl)
      go false b = rw (trap, tick_once) (rw (b, errfinish) (rw (c, on_trap) refl))

  -- An ERROR in the recovery stays flagged, for a call that was not raised by it.
  pub recover_stale :
      (replies : List (List ℕ)) (h : PgLite (Flagged E)) (e : E)
      → x.interactive_one (recovering x h.engine.rest) ≡ trapped e
      → is_error (recovering x h.engine.rest) ≡ true
      → recover (flagged x is_error) replies h
        ≡ thrown (record h { engine = record { rest = e; pgl_error_flag = pos 1 } })
  unfolding recover flagged errfinish
  recover_stale replies h e trap raised = rw (trap, recover, ◌>>◌, ◌>>=◌, one_tick) (rw raised refl)
