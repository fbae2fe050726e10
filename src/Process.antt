-- ===== src/Process.antt =====
-- Process numbers, file offsets and wait statuses: `sdk_getpid`, `sdk_getppid`, `sdk_fdtell` and
-- `sdk_ftell` of wasm-build/sdk/hotfix/patch.h and the macros of wasm-build/sdk/hotfix/sys/wait.h.
pub mod Pids
pub mod Offsets
pub mod Wait
use pglite4j.Prelude.{
  ℕ, ◌+◌, ◌-◌, ◌*◌, ◌/◌, ◌%◌, ◌^◌, Option, none, some, List, [], ◌∷◌, ℤ, pos, negsuc, ltb, leb,
  ◌==◌, if◌then◌else◌, Bool, true, false, ◌&&◌, not,
}
use pglite4j.Prelude.Text.{CString, codes}
use pglite4j.Prelude.Decimal.{strtol}

-- The value of a variable that is set, or `fallback` where it is empty.
unfoldable pub pid_from : (fallback : ℤ) (val : CString) → ℤ
pid_from fallback [] = fallback
pid_from fallback (c ∷ cs) = strtol (c ∷ cs)

-- `none` is the undefined `strlen(NULL)` of a variable that is not set.
unfoldable pub sdk_getpid : (getenv : CString → Option CString) → Option ℤ
unfolding pid_from
sdk_getpid getenv = elim (getenv (codes "WASIX_PID")) [
  | none ↦ none
  | some val ↦ some (pid_from (pos 42) val)
]

abbrev pub default_ppid : (wasix_ppid : Option ℤ) → ℤ
default_ppid none = pos 1
default_ppid (some p) = p

-- `wasix_ppid` is the macro `_WASIX_PPID`, where the build defines it.
unfoldable pub sdk_getppid : (wasix_ppid : Option ℤ) (getenv : CString → Option CString) → Option ℤ
unfolding pid_from
sdk_getppid wasix_ppid getenv = elim (getenv (codes "WASIX_PPID")) [
  | none ↦ none
  | some val ↦ some (pid_from (default_ppid wasix_ppid) val)
]

-- A 64-bit number as the target's `long`, of 32 bits.
unfoldable pub to_long : ℕ → ℤ
to_long n = if ltb (n % 2 ^ 32) (2 ^ 31) then pos (n % 2 ^ 32) else negsuc (2 ^ 32 - 1 - n % 2 ^ 32)

-- The result, and whether `errno` is set to EIO. `fd_seek` gives the position, or `none` for an
-- error.
unfoldable pub sdk_fdtell : (fd_seek : ℕ → Option ℕ) (fd : ℕ) → ℤ × Bool
unfolding to_long
sdk_fdtell fd_seek fd = elim (fd_seek fd) [
  | none ↦ (negsuc 0, true)
  | some position ↦ (to_long position, false)
]

-- `fileno` belongs to the C library.
unfoldable pub sdk_ftell :
    {A : Type 0} (fileno : A → ℕ) (fd_seek : ℕ → Option ℕ) (stream : A) → ℤ × Bool
unfolding sdk_fdtell
sdk_ftell fileno fd_seek stream = sdk_fdtell fd_seek (fileno stream)

-- WEXITSTATUS, and WSTOPSIG, of a status that is not negative.
unfoldable pub exit_status : ℕ → ℕ
exit_status s = s / 256 % 256

-- WTERMSIG
unfoldable pub term_sig : ℕ → ℕ
term_sig s = s % 128

-- WIFEXITED
unfoldable pub if_exited : ℕ → Bool
unfolding term_sig
if_exited s = term_sig s == 0

-- The value of 16 bits as a `short`.
unfoldable pub to_short : ℕ → ℤ
to_short n =
    if ltb (n % 2 ^ 16) (2 ^ 15) then pos (n % 2 ^ 16) else negsuc (2 ^ 16 - 1 - n % 2 ^ 16)

abbrev pub above : ℤ → ℕ → Bool
above (pos n) m = ltb m n
above (negsuc n) m = false

-- WIFSTOPPED. The product is taken to wrap in 32 bits; the bits that `short` keeps do not depend on
-- its sign.
unfoldable pub if_stopped : ℕ → Bool
unfolding to_short
if_stopped s = above (to_short (s % 2 ^ 16 * 65537 % 2 ^ 32 / 2 ^ 8)) 32512

-- WIFSIGNALED, where `-1U` wraps in 32 bits.
unfoldable pub if_signaled : ℕ → Bool
if_signaled s = ltb ((s % 2 ^ 16 + (2 ^ 32 - 1)) % 2 ^ 32) 255
