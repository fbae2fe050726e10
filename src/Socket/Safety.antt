-- ===== src/Socket/Safety.antt =====
-- What holds of the socket of wasm-build/sdk/hotfix/sdk_socket.c after any calls.
use pglite4j.Prelude.{
  ℕ, ◌+◌, ◌≤◌, ◌<◌, ◌^◌, ◌≡◌, ◌⊎◌, true, false, Option, none, some, List, [], ◌∷◌, arith, ◌==◌,
  length, pos_part, neg_part, bit_or,
}
use pglite4j.Prelude.Bits.{bit-bit_or}
use pglite4j.Socket.State.{Files, Socket, Run, returned, aborted, exited, undefined, M, ◌>>◌, pure}
use pglite4j.Socket.{sdk_socket, sdk_connect, sdk_sendto, sdk_recvfrom}

-- `sdk_socket` does the same for every domain.
sdk_socket_any_domain :
    (domain other type protocol : ℕ) (s : Socket)
    → sdk_socket domain type protocol s ≡ sdk_socket other type protocol s
unfolding sdk_socket
sdk_socket_any_domain domain other type protocol s = ground (arith, passes domain, passes other)
  where
    passes : (d : ℕ) → (bit_or d 1 == 0) ≡ false
    passes d = ground (arith, bit-bit_or d 1 0)

-- A call of a client, with what `write` returns and with the caller's buffer.
pub data Call : Type 0 where
  socket : (domain type protocol : ℕ) → Call
  connect : Call
  send : (written : Option ℕ) (bytes : List ℕ) → Call
  recv : (len : ℕ) (buffer : List ℕ) → Call

abbrev pub cost : Call → ℕ
cost (send (some n) bytes) = n
cost (send none bytes) = 1
cost _ = 0

-- A buffer has room for a byte and for what is asked for; `write` writes no more than it is given.
abbrev pub IsProper : Call → Type 0
IsProper (send (some n) bytes) = n ≤ length bytes
IsProper (recv len buffer) = (0 < length buffer) × (len ≤ length buffer)
IsProper _ = Unit {0}

-- `budget` bytes and failed writes, each of which counts as -1, can still be queued.
pub record IsSound (budget : ℕ) (s : Socket) : Type 0 where
  pub folder : s.files.writable ≡ true
  pub counters : (s.fd_current_pos < s.fd_filesize) ⊎ ((s.fd_current_pos ≡ 0) × (s.fd_filesize ≡ 0))
  pub stream : (fd : ℕ) → s.fd_file ≡ some fd → s.fd_out ≡ fd
  pub watched : s.watchdog ≤ 33
  pub queue : pos_part s.fd_queue + budget < 2 ^ 31
  pub below : neg_part s.fd_queue + budget < 2 ^ 31

-- The call does nothing undefined, and if it returns, `P` holds.
abbrev pub Safe : {A : Type 0} (P : Socket → Type 0) → Run A → Type 0
Safe P (returned a s) = P s
Safe P (aborted s) = Unit {0}
Safe P (exited code s) = Unit {0}
Safe P undefined = ⊥

pub perform : (host : Files → Files) → Call → M (Unit {0})
perform host (socket domain type protocol) = sdk_socket domain type protocol >> pure tt
perform host connect = sdk_connect >> pure tt
perform host (send written bytes) = sdk_sendto written bytes >> pure tt
perform host (recv len buffer) = sdk_recvfrom host len buffer >> pure tt

pub perform_all : (host : Files → Files) → List Call → M (Unit {0})
perform_all host [] = pure tt
perform_all host (c ∷ cs) = perform host c >> perform_all host cs

abbrev pub total : List Call → ℕ
total [] = 0
total (c ∷ cs) = cost c + total cs

abbrev pub AllProper : List Call → Type 0
AllProper [] = Unit {0}
AllProper (c ∷ cs) = IsProper c × AllProper cs
