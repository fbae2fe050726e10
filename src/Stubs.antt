-- ===== src/Stubs.antt =====
-- The calls that the port answers by a constant, by the file and the place that they stand at:
-- wasm-build/sdk/hotfix/sdk_socket.c, wasm-build/sdk/hotfix/patch.h, wasm-build/sdk/hotfix/pwd.h,
-- wasm-build/wasm-build/sdk_port.h, wasm-build/wasm-build/sdk_port-wasi/sdk_port-wasi.c and others. What
-- they print is left out.
pub mod Laws
use pglite4j.Prelude.{ℕ, ℤ, pos, negsuc, String}

-- What a call returns: an `int` or another number, ENOENT, NULL, a text, nothing; or it aborts.
pub data Answer : Type 0 where
  number : ℤ → Answer
  enoent null nothing aborts : Answer
  text : String → Answer

-- The network: addresses, names and options of sockets.
pub data NetworkCall : Type 0 where
  bind setsockopt getsockopt getsockname : NetworkCall
  getservbyname getservbyport getprotobyname getprotoent gethostbyname gethostbyaddr : NetworkCall
  h_errno_location : NetworkCall
  hstrerror : (ecode : ℤ) → NetworkCall

unfoldable pub network_stub : NetworkCall → Answer
network_stub bind = number (pos 0)
network_stub setsockopt = number (pos 0)
network_stub getservbyname = null
network_stub getservbyport = null
network_stub getprotobyname = null
network_stub gethostbyname = null
network_stub gethostbyaddr = null
network_stub getprotoent = null
network_stub h_errno_location = null
network_stub (hstrerror ecode) = text "hstrerror"
network_stub getsockopt = number (pos 0)
network_stub getsockname = number (pos 0)

-- Pipes to a command, the effective user and modes of files.
pub data FileCall : Type 0 where
  popen : (command type : String) → FileCall
  pclose getegid geteuid : FileCall
  umask sdk_chmod : (mode : ℕ) → FileCall

unfoldable pub file_stub : FileCall → Answer
file_stub (popen command type) = null
file_stub pclose = number (pos 0)
file_stub getegid = number (pos 99)
file_stub geteuid = number (pos 1000)
file_stub (umask mode) = number (pos 18)
file_stub (sdk_chmod mode) = number (pos 0)

-- The user's entry and signals to another process.
pub data PeerCall : Type 0 where
  sdk_getpwuid_r : (uid : ℕ) → PeerCall
  sdk_kill : (pid sig : ℤ) → PeerCall

unfoldable pub peer_stub : PeerCall → Answer
peer_stub (sdk_getpwuid_r uid) = enoent
peer_stub (sdk_kill pid sig) = number (pos 0)

-- `getpwnam` and `getpwuid` of pwd.h.
pub data PasswdCall : Type 0 where
  getpwnam : (name : String) → PasswdCall
  getpwuid : (uid : ℕ) → PasswdCall

unfoldable pub passwd_stub : PasswdCall → Answer
passwd_stub (getpwnam name) = null
passwd_stub (getpwuid uid) = null

-- `fork` of sdk_port.h, `system_wasi` and `waitpid` of sdk_port-wasi.c.
unfoldable pub fork : Answer
fork = number (negsuc 0)

unfoldable pub system_wasi : (command : String) → Answer
system_wasi command = number (negsuc 0)

unfoldable pub waitpid : (pid options : ℤ) → Answer
waitpid pid options = number (negsuc 0)

-- Descriptors, the user and limits, in sdk_port.h.
pub data PortCall : Type 0 where
  getuid pipe : PortCall
  dup : (fd : ℤ) → PortCall
  dup2 : (old new : ℤ) → PortCall
  getrlimit : (resource : ℤ) → PortCall
  gai_strerror : (errcode : ℤ) → PortCall

unfoldable pub port_stub : PortCall → Answer
port_stub getuid = number (pos 1000)
port_stub (dup fd) = number fd
port_stub (dup2 old new) = number (negsuc 0)
port_stub pipe = aborts
port_stub (getrlimit resource) = number (negsuc 0)
port_stub (gai_strerror errcode) = text "# 165: gai_strerror_msg"

-- Semaphores, in sdk_port.h.
pub data SemCall : Type 0 where
  semctl : (semid semnum cmd : ℤ) → SemCall
  semget : (key nsems semflg : ℤ) → SemCall
  semop : (semid : ℤ) (sem_num sem_op : ℤ) → SemCall

unfoldable pub sem_stub : SemCall → Answer
sem_stub (semctl semid semnum cmd) = number (pos 0)
sem_stub (semget key nsems semflg) = number (pos 1)
sem_stub (semop semid sem_num sem_op) = number (pos 0)

-- `lockf` and `sdk_getrusage`, `sdk_sigsetjmp` and `sdk_siglongjmp`, `sdk_pthread_sigmask` and
-- `sdk_sigpending`, each pair at one place of patch.h.
unfoldable pub lockf : (fd cmd : ℤ) → Answer
lockf fd cmd = number (pos 0)

unfoldable pub sdk_getrusage : (who : ℤ) → Answer
sdk_getrusage who = number (negsuc 0)

pub data JumpCall : Type 0 where
  sdk_sigsetjmp : (savesigs : ℤ) → JumpCall
  sdk_siglongjmp : (val : ℤ) → JumpCall

-- `sdk_siglongjmp` returns to its caller.
unfoldable pub jump_stub : JumpCall → Answer
jump_stub (sdk_sigsetjmp savesigs) = number (pos 0)
jump_stub (sdk_siglongjmp val) = nothing

pub data ThreadCall : Type 0 where
  sdk_pthread_sigmask : (how : ℤ) → ThreadCall
  sdk_sigpending : ThreadCall

unfoldable pub thread_stub : ThreadCall → Answer
thread_stub (sdk_pthread_sigmask how) = number (pos 0)
thread_stub sdk_sigpending = number (negsuc 0)

-- `sigaction`, `sigwait` and `alarm` of sdk_port-wasi.c.
unfoldable pub sigaction : (signum : ℤ) → Answer
sigaction signum = number (pos 0)

pub data WaitCall : Type 0 where
  sigwait : WaitCall
  alarm : (seconds : ℕ) → WaitCall

unfoldable pub wait_stub : WaitCall → Answer
wait_stub sigwait = number (pos 0)
wait_stub (alarm seconds) = number (pos 0)

-- `setjmp` and `longjmp` of wasm-build/sdk/hotfix/wasi-setjmp.h.
pub data BareJump : Type 0 where
  setjmp : BareJump
  longjmp : (value : ℤ) → BareJump

unfoldable pub bare_jump_stub : BareJump → Answer
bare_jump_stub setjmp = number (pos 0)
bare_jump_stub (longjmp value) = nothing

-- `dlopen` and `dlsym` of wasm-build/sdk/hotfix/dlfcn.h, for the builds without the loader.
pub data LoadCall : Type 0 where
  dlopen : (filename : String) (flags : ℤ) → LoadCall
  dlsym : (handle : ℕ) (symbol : String) → LoadCall

unfoldable pub load_stub : LoadCall → Answer
load_stub (dlopen filename flags) = null
load_stub (dlsym handle symbol) = null
