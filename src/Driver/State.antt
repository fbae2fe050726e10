-- ===== src/Driver/State.antt =====
-- The state of the threads of a `ManagedInstance` of PgLiteDriver.java, and what a move is.
use pglite4j.Prelude.{ℕ, Bool, true, false, ◌||◌, Option, List, [], length, ◌==◌, if◌then◌else◌}
use pglite4j.Wire.Transport.{PgLite}

-- Where a thread stands. `replays` holds the lock or not, and has these responses left; `starts`
-- and `hears` have these responses so far. `reads` and `starts` stand before the test of `running`,
-- `listens` and `hears` behind it, before the read.
pub data Point : Type 0 where
  started wants_startup checks reads listens : Point
  replays : (locked : Bool) → (left : List (List ℕ)) → Point
  starts hears : (responses : List (List ℕ)) → Point
  asks calls : (message : List ℕ) → Point
  answers : (response : List ℕ) → Point
  wants_backup backs_up : Point
  closes wants_dump dumps shuts : Point
  ended : Point

-- The points inside a `synchronized (pgLock)`.
abbrev pub holds : Point → Bool
holds checks = true
holds (replays locked _) = locked
holds (starts _) = true
holds (hears _) = true
holds (calls _) = true
holds backs_up = true
holds dumps = true
holds _ = false

-- What the rest of the world does at a move: the bytes that a read gives, of which `none` is an
-- exception and no byte is the end of the stream; whether a write succeeds; how the part of
-- `dumpDataDir` that writes files ends.
pub data Saving : Type 0 where
  saved io_exception runtime_exception : Saving

pub record Input : Type 0 where
  pub received : Option (List ℕ)
  pub accepted : Bool
  pub saving : Saving

-- The fields that the threads share, but for the lock.
pub record Shared (E : Type 0) : Type 0 where
  pub has_data_dir : Bool
  pub running : Bool
  pub cached_startup_responses : Option (List (List ℕ))
  pub host : PgLite E

pub data LockMove : Type 0 where
  keeps enters leaves : LockMove

-- A move: what it does with the lock, where it leads, and what it writes to the client.
pub record Act (E : Type 0) : Type 0 where
  pub lock : LockMove
  pub point : Point
  pub wrote : List ℕ
  pub shared : Shared E

abbrev pub goes : {E : Type 0} → LockMove → Point → Shared E → Act E
goes l p s = record { lock = l; point = p; wrote = []; shared = s }

-- A response is written, unless it is empty, and the write fails or not.
abbrev pub is_written : (response : List ℕ) → Input → Bool
is_written response i = (length response == 0) || i.accepted

abbrev pub with_host : {E : Type 0} → Shared E → PgLite E → Shared E
with_host s h = record s { host = h }

-- `leaves` where the lock is held.
abbrev pub unlock : (locked : Bool) → LockMove
unlock locked = if locked then leaves else keeps
