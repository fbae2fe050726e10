-- ===== src/Process/Pids.antt =====
-- The process numbers that the environment gives.
use pglite4j.Prelude.{ℕ, ◌^◌, ◌<◌, ◌≡◌, ◌↔◌, refl, ap, ◌∙◌, sym, Option, none, some, ◌∷◌, ℤ, pos}
use pglite4j.Prelude.Text.{CString, codes}
use pglite4j.Prelude.Decimal.{decimal, strtol, strtol-decimal, decimal-nonempty}
use pglite4j.Process.{pid_from, default_ppid, sdk_getpid, sdk_getppid}

pid_from-decimal : (fallback : ℤ) (n : ℕ) → n < 2 ^ 31 → pid_from fallback (decimal n) ≡ pos n
unfolding pid_from
pid_from-decimal fallback n h =
    let (c, cs, e, _, _) = decimal-nonempty n in
    let read : strtol (c ∷ cs) ≡ pos n = ap strtol (sym e) ∙ strtol-decimal n h in
    ap (pid_from fallback) e ∙ read

-- `sdk_getpid` reads back every number below 2^31 that WASIX_PID holds in decimal.
sdk_getpid-decimal :
    (getenv : CString → Option CString) (n : ℕ)
    → n < 2 ^ 31
    → getenv (codes "WASIX_PID") ≡ some (decimal n)
    → sdk_getpid getenv ≡ some (pos n)
unfolding sdk_getpid
sdk_getpid-decimal getenv n h e = rw (e, sdk_getpid) (ap some (pid_from-decimal (pos 42) n h))

-- `sdk_getppid` reads back every number below 2^31 that WASIX_PPID holds in decimal, whatever number
-- the build defines.
sdk_getppid-decimal :
    (getenv : CString → Option CString) (p : Option ℤ) (n : ℕ)
    → n < 2 ^ 31
    → getenv (codes "WASIX_PPID") ≡ some (decimal n)
    → sdk_getppid p getenv ≡ some (pos n)
unfolding sdk_getppid
sdk_getppid-decimal getenv p n h e = rw (e, sdk_getppid) (ap some (pid_from-decimal _ n h))

getpid_cases :
    (fallback : ℤ) (o : Option CString)
    → (elim o as (λ _. Option ℤ) [ none ↦ none | some val ↦ some (pid_from fallback val) ] ≡ none)
      ↔ (o ≡ none)
getpid_cases fallback none = (λ e. refl, λ e. refl)
getpid_cases fallback (some val) = (λ e. cc, λ e. cc)

-- `sdk_getpid` is undefined exactly where WASIX_PID is not set, and `sdk_getppid`, whatever number
-- the build defines, exactly where WASIX_PPID is not set.
getpid_undefined_iff :
    (getenv : CString → Option CString) (p : Option ℤ)
    → ((sdk_getpid getenv ≡ none) ↔ (getenv (codes "WASIX_PID") ≡ none))
      × ((sdk_getppid p getenv ≡ none) ↔ (getenv (codes "WASIX_PPID") ≡ none))
unfolding sdk_getpid sdk_getppid
getpid_undefined_iff getenv p = (
  getpid_cases (pos 42) (getenv (codes "WASIX_PID")),
  getpid_cases (default_ppid p) (getenv (codes "WASIX_PPID")),
)
