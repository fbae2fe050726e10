-- ===== src/Driver/Clients.antt =====
-- The threads of a `ManagedInstance` of PgLiteDriver.java: one per connection, the backup and the
-- one that closes the instance. A thread moves from one point of its code to the next; between two
-- of its moves any other may move.
pub mod Locking
pub mod Startup
pub mod Points
pub mod Cache
pub mod Served
pub mod Answers
pub mod Progress
use pglite4j.Prelude.{
  ℕ, ◌+◌, ◌≡◌, Bool, true, false, ◌||◌, Option, none, some, List, [], ◌∷◌, ◌++◌, length, ◌==◌,
  if◌then◌else◌, update,
}
use pglite4j.Prelude.Text.{codes}
use pglite4j.Wire.Exports.{Exports, ticked, trapped}
use pglite4j.Wire.Transport.{PgLite, Attempt, returned, thrown, M, pure, ◌>>◌, exec_protocol_raw}
use pglite4j.Wire.Frame.{build_simple_query, ends_with_ready_for_query}
use pglite4j.Driver.State.{
  Point, holds, Saving, Input, Shared, LockMove, Act, goes, is_written, with_host, unlock, started,
  wants_startup, checks, reads, listens, replays, starts, hears, asks, calls, answers, wants_backup,
  backs_up, closes, wants_dump, dumps, shuts, ended, saved, io_exception, runtime_exception, keeps,
  enters, leaves,
}

module _ {E : Type 0} where
  unfoldable pub replay_startup : (locked : Bool) → List (List ℕ) → Input → Shared E → Act E
  replay_startup locked [] i s = goes (unlock locked) reads s
  replay_startup locked (response ∷ left) i s = elim (i.received) [
    | none ↦ goes (unlock locked) ended s
    | some [] ↦ goes (unlock locked) ended s
    | some (_ ∷ _) ↦
        if is_written response i
        then record { lock = keeps; point = replays locked left; wrote = response; shared = s }
        else goes (unlock locked) ended s
  ]

  -- The end of the loop that starts the session.
  abbrev pub set_cached : List (List ℕ) → Shared E → Shared E
  set_cached responses s = record s { cached_startup_responses = some responses }

  unfoldable pub after_startup_call :
      (responses : List (List ℕ)) → Attempt E (List ℕ) → Input → Shared E → Act E
  after_startup_call responses (thrown h) i s = goes leaves ended (with_host s h)
  after_startup_call responses (returned response h) i s =
      if is_written response i
      then (if ends_with_ready_for_query response
          then record {
            lock = leaves;
            point = reads;
            wrote = response;
            shared = set_cached (responses ++ response ∷ []) (with_host s h);
          }
          else record {
            lock = keeps;
            point = starts (responses ++ response ∷ []);
            wrote = response;
            shared = with_host s h;
          })
      else goes leaves ended (with_host s h)

  -- The tests of the two loops. A read comes in a move of its own, since it may wait.
  unfoldable pub startup_loop : (responses : List (List ℕ)) → Shared E → Act E
  startup_loop responses s =
      if s.running
      then goes keeps (hears responses) s
      else goes leaves reads (set_cached responses s)

  unfoldable pub message_loop : Shared E → Act E
  message_loop s = if s.running then goes keeps listens s else goes keeps ended s

  unfoldable pub message_read : Input → Shared E → Act E
  message_read i s = elim (i.received) [
    | none ↦ goes keeps ended s
    | some [] ↦ goes keeps ended s
    | some (b ∷ message) ↦ goes keeps (asks (b ∷ message)) s
  ]

module _ {E : Type 0} (x : Exports E) where
  unfoldable pub startup_read : (responses : List (List ℕ)) → Input → Shared E → Act E
  unfolding after_startup_call
  startup_read responses i s = elim (i.received) [
    | none ↦ goes leaves ended s
    | some [] ↦ goes leaves ended s
    | some (b ∷ message) ↦
        after_startup_call responses (exec_protocol_raw x (b ∷ message) s.host) i s
  ]

  unfoldable pub call_message : (message : List ℕ) → Shared E → Act E
  call_message message s = elim (exec_protocol_raw x message s.host) [
    | thrown h ↦ goes leaves ended (with_host s h)
    | returned response h ↦ goes leaves (answers response) (with_host s h)
  ]

  unfoldable pub answer_message : (response : List ℕ) → Input → Shared E → Act E
  answer_message response i s =
      if is_written response i
      then record { lock = keeps; point = reads; wrote = response; shared = s }
      else goes keeps ended s

  unfoldable pub exec_query : (sql : List ℕ) → M E (List ℕ)
  exec_query sql h = elim (build_simple_query sql) [
    | none ↦ thrown h
    | some message ↦ exec_protocol_raw x message h
  ]

  -- The part of `dumpDataDir` of PGLite.java that uses the module.
  unfoldable pub dump_queries : M E (Unit {0})
  dump_queries = exec_query (codes "VACUUM FREEZE;") >> exec_query (codes "CHECKPOINT;") >> pure tt

  -- `dumpDataDir`, and where the thread goes when it returns, or throws an `IOException`, which is
  -- caught, or throws something else.
  unfoldable pub locked_dump : (caught : Point) → Input → Shared E → Act E
  locked_dump caught i s = elim (dump_queries s.host) [
    | thrown h ↦ goes leaves ended (with_host s h)
    | returned _ h ↦ elim (i.saving) [
      | saved ↦ goes leaves caught (with_host s h)
      | io_exception ↦ goes leaves caught (with_host s h)
      | runtime_exception ↦ goes leaves ended (with_host s h)
    ]
  ]

  -- What is left of the state when a call has thrown or not.
  abbrev pub host_after : {A : Type 0} → Attempt E A → PgLite E
  host_after (returned _ h) = h
  host_after (thrown h) = h

  -- `pglShutdown`, which may trap.
  abbrev pub shut_down : PgLite E → PgLite E
  shut_down h = elim (x.pgl_shutdown h.engine) [
    | ticked e ↦ record h { engine = e }
    | trapped e ↦ record h { engine = e }
  ]

  -- `close` of PGLite.java, as far as it uses the module.
  unfoldable pub close_engine : Shared E → PgLite E
  unfolding dump_queries
  close_engine s = shut_down (if s.has_data_dir then host_after (dump_queries s.host) else s.host)

  -- The move of a thread at a point.
  unfoldable pub act : Point → Input → Shared E → Act E
  unfolding replay_startup startup_loop startup_read message_loop message_read call_message
      answer_message locked_dump
  act started i s = elim (s.cached_startup_responses) [
    | none ↦ goes keeps wants_startup s
    | some responses ↦ goes keeps (replays false responses) s
  ]
  act wants_startup i s = goes enters checks s
  act checks i s = elim (s.cached_startup_responses) [
    | none ↦ goes keeps (starts []) s
    | some responses ↦ goes keeps (replays true responses) s
  ]
  act (replays locked left) i s = replay_startup locked left i s
  act (starts responses) i s = startup_loop responses s
  act (hears responses) i s = startup_read responses i s
  act reads i s = message_loop s
  act listens i s = message_read i s
  act (asks message) i s = goes enters (calls message) s
  act (calls message) i s = call_message message s
  act (answers response) i s = answer_message response i s
  act wants_backup i s = goes enters backs_up s
  act backs_up i s = locked_dump wants_backup i s
  act closes i s =
      goes keeps (if s.has_data_dir then wants_dump else shuts) (record s { running = false })
  act wants_dump i s = goes enters dumps s
  act dumps i s = locked_dump shuts i s
  act shuts i s = goes keeps ended (with_host s (close_engine s))
  act ended i s = goes keeps ended s

-- Where threads begin.
abbrev pub IsFresh : Point → Type 0
IsFresh started = Unit {0}
IsFresh wants_backup = Unit {0}
IsFresh closes = Unit {0}
IsFresh ended = Unit {0}
IsFresh _ = ⊥

-- `lock` is the thread that holds the lock.
pub record System (E : Type 0) : Type 0 where
  pub lock : Option ℕ
  pub shared : Shared E
  pub point : ℕ → Point
  pub written : ℕ → List ℕ

abbrev pub moved : {E : Type 0} → ℕ → Option ℕ → Act E → System E → System E
moved thread lock a s = record s {
  lock = lock;
  shared = a.shared;
  point = update s.point thread a.point;
  written = update s.written thread (s.written thread ++ a.wrote);
}

-- `none` is a thread that waits for the lock.
abbrev pub take_move : {E : Type 0} → ℕ → Act E → System E → Option (System E)
take_move thread a s = elim (a.lock) [
  | keeps ↦ some (moved thread s.lock a s)
  | leaves ↦ some (moved thread none a s)
  | enters ↦ elim (s.lock) [ none ↦ some (moved thread (some thread) a s) | some _ ↦ none ]
]

module _ {E : Type 0} (x : Exports E) where
  unfoldable pub advance : (thread : ℕ) → Input → System E → Option (System E)
  unfolding act
  advance thread i s = take_move thread (act x (s.point thread) i s.shared) s

  -- The states that the threads can reach, from one where nothing has happened yet.
  pub data Reached : System E → Type 0 where
    boot :
        (s : System E)
        → s.lock ≡ none
        → s.shared.cached_startup_responses ≡ none
        → ((t : ℕ) → IsFresh (s.point t) × (s.written t ≡ []))
        → Reached s
    then_moves :
        (s s' : System E) (thread : ℕ) (i : Input)
        → Reached s
        → advance thread i s ≡ some s'
        → Reached s'
