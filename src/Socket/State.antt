-- ===== src/Socket/State.antt =====
-- The state behind the socket emulation of wasm-build/sdk/hotfix/sdk_socket.c: the variables that
-- one translation unit has of it, the files, and the calls of the C library that it makes.
use pglite4j.Prelude.{ℕ, ◌+◌, Bool, Option, none, some, List, [], if◌then◌else◌, ℤ}

-- PGS_ILOCK, PGS_IN and PGS_OUT, each with its bytes if it is there. `writable` says that the
-- folder of the files is there, so that a file can be created. A file of the emulated system is
-- shorter than 2 ^ 31 bytes, so its size and the positions in it are values of an `int`.
pub record Files : Type 0 where
  pub lock_in : Option (List ℕ)
  pub request : Option (List ℕ)
  pub reply : Option (List ℕ)
  pub writable : Bool

pub data Errno : Type 0 where
  clear eintr : Errno

-- `fd_file` is the stream `fd_FILE`, by its descriptor; it is always one open on PGS_ILOCK.
-- `next_fd` is the descriptor that the system gives to the next file opened.
pub record Socket : Type 0 where
  pub fd_sock : ℕ
  pub fd_file : Option ℕ
  pub fd_out : ℕ
  pub fd_queue : ℤ
  pub watchdog : ℕ
  pub fd_current_pos : ℕ
  pub fd_filesize : ℕ
  pub web_warned : Bool
  pub errno : Errno
  pub next_fd : ℕ
  pub files : Files

-- A call returns, ends the process by `abort` or by `sdk_exit`, or does what C leaves undefined.
pub data Run (A : Type 0) : Type 0 where
  returned : A → Socket → Run A
  aborted : Socket → Run A
  exited : ℕ → Socket → Run A
  undefined : Run A

abbrev pub M : Type 0 → Type 0
M A = Socket → Run A

module _ {A B : Type 0} where
  abbrev pub and_then : Run A → (A → M B) → Run B
  and_then (returned a s) k = k a s
  and_then (aborted s) k = aborted s
  and_then (exited code s) k = exited code s
  and_then undefined k = undefined

  infixl 5 ◌>>=◌ ◌>>◌
  abbrev pub ◌>>=◌ : M A → (A → M B) → M B
  m >>= k = λ s. and_then (m s) k

  abbrev pub ◌>>◌ : M A → M B → M B
  m >> n = m >>= λ _. n

abbrev pub pure : {A : Type 0} → A → M A
pure = returned

abbrev pub modify : (Socket → Socket) → M (Unit {0})
modify f s = returned tt (f s)

-- `fopen(PGS_ILOCK, "w")`: empties or creates the file, and returns the stream's descriptor.
abbrev pub fopen_lock : M (Option ℕ)
fopen_lock s =
    if s.files.writable
    then returned (some s.next_fd)
        (record s { next_fd = s.next_fd + 1; files = record (s.files) { lock_in = some [] } })
    else returned none s

-- `rename(PGS_ILOCK, PGS_IN)`
abbrev pub rename_lock : Files → Files
rename_lock f = elim f.lock_in [
  | none ↦ f
  | some bytes ↦ record f { lock_in = none; request = some bytes }
]

-- The host runs while the client is in `sched_yield`, and may change every file.
abbrev pub sched_yield : (host : Files → Files) → M (Unit {0})
sched_yield host = modify λ s. record s { files = host s.files }
