-- ===== src/Witnesses/Sockets.antt =====
-- The socket with a host that answers a request by a fixed reply.
use pglite4j.Prelude.{
  ℕ, ◌≡◌, refl, true, false, List, [], ◌∷◌, some, none, pos, negsuc, replicate, arith,
}
use pglite4j.Socket.State.{Files, Socket, returned, exited, clear, ◌>>◌}
use pglite4j.Socket.{sdk_connect, sdk_recvfrom}
use pglite4j.Socket.Reading.{receive, receive-content, IsFinished, Covers}
use pglite4j.Socket.Exchange.{exchange, send_all}
use pglite4j.Socket.Watchdog.{IsWaiting, polled, watchdog_bites}
use pglite4j.Socket.Safety.{Call, socket, connect, send, recv}

abbrev reply_bytes : List ℕ
reply_bytes = 7 ∷ 8 ∷ 9 ∷ []

-- A request is taken away and answered.
abbrev host : Files → Files
host f = record f { request = none; reply = some reply_bytes; writable = true }

abbrev fresh_files : Files
fresh_files = record { lock_in = none; request = none; reply = none; writable = true }

abbrev fresh_socket : Socket
fresh_socket = record {
  fd_sock = 0;
  fd_file = none;
  fd_out = 0;
  fd_queue = pos 0;
  watchdog = 0;
  fd_current_pos = 0;
  fd_filesize = 0;
  web_warned = false;
  errno = clear;
  next_fd = 4;
  files = fresh_files;
}

abbrev two_buffers : List (List ℕ)
two_buffers = (0 ∷ 0 ∷ []) ∷ (0 ∷ 0 ∷ []) ∷ []

two_cover : Covers reply_bytes 0 two_buffers
two_cover = (omega arith, omega arith, (omega arith, omega arith))

exchange_example :
    (t : Socket) × ((sdk_connect
          >> send_all ((1 ∷ 2 ∷ []) ∷ (3 ∷ []) ∷ [])
          >> receive host two_buffers)
        fresh_socket
      ≡ returned reply_bytes t)
    × IsFinished t
exchange_example =
    exchange host (1 ∷ 2 ∷ 3 ∷ []) reply_bytes (λ f h. (refl, refl)) ((1 ∷ 2 ∷ []) ∷ (3 ∷ []) ∷ [])
      two_buffers fresh_socket refl (omega arith) (omega arith) (omega arith) two_cover refl refl
      refl

abbrev answered_files : Files
answered_files = record {
  lock_in = none;
  request = none;
  reply = some reply_bytes;
  writable = true;
}

abbrev answered_socket : Socket
answered_socket = record fresh_socket { files = answered_files }

receive-content_example :
    (t : Socket) × (receive host two_buffers answered_socket ≡ returned reply_bytes t)
    × IsFinished t
receive-content_example =
    receive-content host reply_bytes two_buffers answered_socket refl refl refl refl (omega arith)
      (omega arith) two_cover

fresh_socket-IsWaiting : IsWaiting 0 fresh_socket
fresh_socket-IsWaiting = record { queue = refl; start = refl; reply = refl; polls = refl }

watchdog_bites_example :
    (t u : Socket) × (polled host 2 (0 ∷ 0 ∷ []) 33 fresh_socket
      ≡ returned (replicate 33 (negsuc 0)) t)
    × (t.files ≡ fresh_files)
    × (sdk_recvfrom host 2 (0 ∷ 0 ∷ []) t ≡ exited 0 u)
watchdog_bites_example =
    watchdog_bites host 2 (0 ∷ 0 ∷ []) 0 fresh_socket fresh_socket-IsWaiting (omega arith)

abbrev calls : List Call
calls = socket 1 1 0 ∷ connect ∷ send (some 2) (1 ∷ 2 ∷ []) ∷ recv 2 (0 ∷ 0 ∷ []) ∷ []
