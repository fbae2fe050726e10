-- ===== src/Stubs/Laws.antt =====
-- What the constant answers come to.
use pglite4j.Prelude.{◌≡◌, refl, List, ℤ, pos, negsuc, String, map}
use pglite4j.Stubs.{
  Answer, number, null, popen, file_stub, fork, system_wasi, waitpid, semget, semop, sem_stub,
}

-- The four ways to start a process or to wait for one.
pub data Spawn : Type 0 where
  by_fork : Spawn
  by_popen : (command type : String) → Spawn
  by_system : (command : String) → Spawn
  by_waitpid : (pid options : ℤ) → Spawn

abbrev pub spawn : Spawn → Answer
spawn by_fork = fork
spawn (by_popen command type) = file_stub (popen command type)
spawn (by_system command) = system_wasi command
spawn (by_waitpid pid options) = waitpid pid options

-- The answer by which POSIX reports a failure.
abbrev pub failure_of : Spawn → Answer
failure_of (by_popen command type) = null
failure_of _ = number (negsuc 0)

-- Every call that would start a process, or wait for one, reports the failure that POSIX gives it,
-- whatever the command, the process and the options.
spawn-failure_of : (c : Spawn) → spawn c ≡ failure_of c
unfolding fork file_stub system_wasi waitpid
spawn-failure_of by_fork = refl
spawn-failure_of (by_popen command type) = refl
spawn-failure_of (by_system command) = refl
spawn-failure_of (by_waitpid pid options) = refl

-- `semget` gives the same set for every key, and whatever operations `semop` is given, in whatever
-- order, it returns 0.
semaphores_shared :
    (key other nsems semflg semid : ℤ) (ops : List (ℤ × ℤ))
    → (sem_stub (semget key nsems semflg) ≡ sem_stub (semget other nsems semflg))
      × (map (λ op. sem_stub (semop semid op.0 op.1)) ops ≡ map (λ op. number (pos 0)) ops)
unfolding sem_stub
semaphores_shared key other nsems semflg semid ops = (refl, refl)
