-- ===== src/Socket/Exchange.antt =====
-- A whole exchange over the socket of wasm-build/sdk/hotfix/sdk_socket.c: connect, send a request
-- in pieces, and read the reply in pieces.
use mathlib.Core.List.{append-nil, append_assoc}
use pglite4j.Prelude.{
  ℕ, ◌+◌, ◌<◌, ◌^◌, ◌≡◌, refl, inr, true, some, List, [], ◌∷◌, ◌++◌, arith, length, pos, take-all,
  length-append,
}
use pglite4j.Socket.State.{Files, Socket, returned, M, ◌>>=◌, ◌>>◌, pure, rename_lock}
use pglite4j.Socket.{sdk_connect, sdk_sendto, hand_over, sdk_sock_flush}
use pglite4j.Socket.Reading.{IsReading, IsFinished, Covers, receive, receive-all}

-- The stream is open on PGS_ILOCK, which holds `sent`, and nothing of a reply has been read.
pub record IsOpen (sent : List ℕ) (s : Socket) : Type 0 where
  pub lock : s.files.lock_in ≡ some sent
  pub stream : s.fd_file ≡ some s.fd_out
  pub queue : s.fd_queue ≡ pos (length sent)
  pub start : s.fd_current_pos ≡ 0
  pub fresh : s.fd_filesize ≡ 0

-- Every piece is written whole.
abbrev pub send_all : (pieces : List (List ℕ)) → M (Unit {0})
send_all [] = pure tt
send_all (b ∷ bs) = sdk_sendto (some (length b)) b >>= λ _. send_all bs

abbrev pub joined : List (List ℕ) → List ℕ
joined [] = []
joined (b ∷ bs) = b ++ joined bs

connect-IsOpen :
    (s : Socket)
    → s.files.writable ≡ true
    → s.fd_current_pos ≡ 0
    → s.fd_filesize ≡ 0
    → (t : Socket) × (sdk_connect s ≡ returned (pos 0) t) × IsOpen [] t
unfolding sdk_connect
connect-IsOpen s ready start fresh = (
  record s {
    fd_queue = pos 0;
    fd_file = some s.next_fd;
    fd_out = s.next_fd;
    next_fd = s.next_fd + 1;
    files = record (s.files) { lock_in = some [] };
  },
  ground (arith, ready),
  record { lock = refl; stream = refl; queue = refl; start = start; fresh = fresh },
)

send-IsOpen :
    (b sent : List ℕ) (s : Socket)
    → IsOpen sent s
    → length sent + length b < 2 ^ 31
    → (t : Socket) × (sdk_sendto (some (length b)) b s ≡ returned (pos (length b)) t)
      × IsOpen (sent ++ b) t
unfolding sdk_sendto
send-IsOpen b sent s o fits = (
  record s {
    files = record (s.files) { lock_in = some (sent ++ b) };
    watchdog = 0;
    fd_queue = pos (length (sent ++ b));
  },
  ground (arith, o.lock, o.stream, o.queue, take-all (length b) b, length-append sent b),
  record { lock = refl; stream = o.stream; queue = refl; start = o.start; fresh = o.fresh },
)

send_all-IsOpen :
    (bs : List (List ℕ)) (sent : List ℕ) (s : Socket)
    → IsOpen sent s
    → length sent + length (joined bs) < 2 ^ 31
    → (t : Socket) × (send_all bs s ≡ returned tt t) × IsOpen (sent ++ joined bs) t
send_all-IsOpen [] sent s o fits = (s, refl, rw append-nil o)
send_all-IsOpen (b ∷ bs) sent s o fits =
    let (t, e, o') = send-IsOpen b sent s o (omega (arith, length-append b (joined bs))) in
    let (u, e', o'') =
      send_all-IsOpen bs (sent ++ b) t o'
        (omega (arith, length-append b (joined bs), length-append sent b)) in
    (u, rw e e', rw append_assoc at o'')

module _ (host : Files → Files) (request content : List ℕ)
    (answers : (f : Files)
      → f.request ≡ some request
      → ((host f).reply ≡ some content) × ((host f).writable ≡ true)) where
  given : Socket → Files
  given s = rename_lock s.files

  answered :
      (s : Socket)
      → IsOpen request s
      → ((host (given s)).reply ≡ some content) × ((host (given s)).writable ≡ true)
  unfolding given
  answered s o = answers (rename_lock s.files) (ground (arith, o.lock))

  -- After the request was handed over, and the next one opened.
  after_flush : Socket → Socket
  after_flush s = record s {
    files = record (host (given s)) { lock_in = some [] };
    fd_file = some s.next_fd;
    fd_out = s.next_fd;
    next_fd = s.next_fd + 1;
    fd_queue = pos 0;
  }

  hand_over-eq : (s : Socket) → IsOpen request s → hand_over host s ≡ returned tt (after_flush s)
  unfolding hand_over after_flush given
  hand_over-eq s o =
      let ready : (host (rename_lock s.files)).writable ≡ true = unfold given in (answered s o).1 in
      ground (arith, ready)

  -- A flush with bytes queued gives the host the request, and opens the next one.
  flush-request :
      (s : Socket)
      → IsOpen request s
      → 0 < length request
      → 0 < length content
      → (sdk_sock_flush host s ≡ returned tt (after_flush s))
        × IsReading content 0 (after_flush s)
        × ((after_flush s).files.lock_in ≡ some [])
  unfolding sdk_sock_flush after_flush
  flush-request s o some_request some_content = (
    ground (arith, o.queue, o.stream, hand_over-eq s o),
    record {
      reply = (answered s o).0;
      at = o.start;
      more = some_content;
      size = inr (refl, o.fresh);
    },
    refl,
  )

  -- If the host answers the request with `content` and keeps the folder, then a client with the
  -- folder and no reply half read, which connects, sends the request in any pieces, each written
  -- whole, and reads into buffers of any sizes that cover the reply, gets exactly `content`; the
  -- reply file is then gone and every counter is back at 0.
  pub exchange :
      (pieces bs : List (List ℕ)) (s : Socket)
      → joined pieces ≡ request
      → 0 < length request
      → length request < 2 ^ 31
      → 0 < length content
      → Covers content 0 bs
      → s.files.writable ≡ true
      → s.fd_current_pos ≡ 0
      → s.fd_filesize ≡ 0
      → (t : Socket) × ((sdk_connect >> send_all pieces >> receive host bs) s ≡ returned content t)
        × IsFinished t
  exchange pieces bs s whole some_request fits some_content covers ready start fresh =
      let (t, e, o) = connect-IsOpen s ready start fresh in
      let (u, e', o') = send_all-IsOpen pieces [] t o (ground (arith, whole)) in
      let o'' : IsOpen request u = rw whole at o' in
      let (flushed, r, _) = flush-request u o'' some_request some_content in
      let (v, e'', f) = receive-all host content bs u (after_flush u) o''.start flushed r covers in
      (v, rw (e, e', e'') refl, f)
