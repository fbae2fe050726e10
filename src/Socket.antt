-- ===== src/Socket.antt =====
-- The socket emulation of wasm-build/sdk/hotfix/sdk_socket.c: a client socket made of three files
-- that the host exchanges with the client whenever the client yields. What the functions print is
-- left out.
pub mod State
pub mod Reading
pub mod Safety
pub mod Watchdog
pub mod Exchange
use pglite4j.Prelude.{
  ℕ, ◌+◌, ◌^◌, bit_or, true, Option, none, some, List, [], ◌++◌, ltb, leb, ◌==◌, if◌then◌else◌,
  length, take, drop, set, ℤ, pos, negsuc, ◌+ℤ◌, is_nonzero, pos_part, neg_part, ◌||◌, Bool, false,
}
use State.{
  Files, eintr, Socket, Run, returned, aborted, exited, undefined, M, ◌>>=◌, ◌>>◌, pure, modify,
  fopen_lock, rename_lock, sched_yield,
}

abbrev pub abort : {A : Type 0} → M A
abort = aborted

-- `sdk_exit` of wasm-build/sdk/hotfix/patch.h, which ends in `abort`.
abbrev pub sdk_exit : {A : Type 0} → ℕ → M A
sdk_exit = exited

abbrev pub lost : {A : Type 0} → M A
lost s = undefined

-- `domain` is an `int` by its 32-bit pattern. AF_UNIX is 1.
unfoldable pub sdk_socket : (domain type protocol : ℕ) → M ℕ
sdk_socket domain type protocol s =
    let open_select : M (Unit {0}) = λ s.
      if s.files.writable
      then returned tt (record s { fd_sock = s.next_fd; next_fd = s.next_fd + 1 })
      else undefined in
    let check : M ℕ = λ s.
      if s.fd_sock == 0
      then aborted s
      else if bit_or domain 1 == 0
      then aborted s
      else returned s.fd_sock s in
    (if s.fd_sock == 0 then open_select >> check else check) s

unfoldable pub sdk_connect : M ℤ
sdk_connect = do
  modify λ s. record s { fd_queue = pos 0 }
  opened ← fopen_lock
  modify λ s. record s { fd_file = opened }
  elim opened [ none ↦ abort | some fd ↦ (modify λ s. record s { fd_out = fd }) >> pure (pos 0) ]

-- The part of `sdk_sock_flush` that hands the request to the host and opens the next one.
unfoldable pub hand_over : (host : Files → Files) → M (Unit {0})
hand_over host = do
  modify λ s. record s { files = rename_lock s.files }
  sched_yield host
  opened ← fopen_lock
  modify λ s. record s { fd_file = opened }
  elim opened [ none ↦ lost | some fd ↦ modify λ s. record s { fd_out = fd; fd_queue = pos 0 } ]

unfoldable pub sdk_sock_flush : (host : Files → Files) → M (Unit {0})
sdk_sock_flush host s =
    if is_nonzero s.fd_queue
    then elim s.fd_file [
      | none ↦ aborted (record s { web_warned = true })
      | some fd ↦ hand_over host s
    ]
    else let s' = record s { watchdog = s.watchdog + 1 } in
      if ltb 32 s.watchdog then exited 0 s' else returned tt s'

-- `fread` of `chunk` to the start of the caller's buffer.
abbrev pub fill : (buffer chunk : List ℕ) → List ℕ
fill buffer chunk = chunk ++ drop (length chunk) buffer

-- The position that a read of `chunk` leaves, and the end of a reply that is read to its end.
abbrev pub advanced : (size : ℕ) (chunk : List ℕ) → Socket → Socket
advanced size chunk s = record s {
  fd_filesize = size;
  fd_current_pos = s.fd_current_pos + length chunk;
}

abbrev pub finished : Socket → Socket
finished s = record s {
  fd_queue = pos 0;
  fd_filesize = 0;
  fd_current_pos = 0;
  files = record (s.files) { reply = none };
  watchdog = 0;
}

-- The size that the reads of one reply share, and the bytes that one of them gets.
abbrev pub size_for : (content : List ℕ) → Socket → ℕ
size_for content s = if s.fd_filesize == 0 then length content else s.fd_filesize

abbrev pub chunk_for : (content : List ℕ) (len : ℕ) → Socket → List ℕ
chunk_for content len s = take len (drop s.fd_current_pos content)

-- After the read: more is to come, or the reply is at its end.
unfoldable pub after_read : (size : ℕ) (chunk buffer : List ℕ) → M (ℤ × List ℕ)
after_read size chunk buffer s =
    if ltb (s.fd_current_pos + length chunk) size
    then returned (pos (length chunk), buffer) (advanced size chunk s)
    else returned (pos (length chunk), buffer) (finished (advanced size chunk s))

-- The part of `sdk_recvfrom` with PGS_OUT open. `buf[0] = 0` writes to the buffer also where
-- `len` is 0; a write outside the buffer is undefined.
unfoldable pub read_content : (content : List ℕ) (len : ℕ) (buffer : List ℕ) → M (ℤ × List ℕ)
unfolding after_read
read_content content len buffer s =
    let chunk = chunk_for content len s in
    if length buffer == 0
    then undefined
    else if ltb (length buffer) (length chunk)
    then undefined
    else after_read (size_for content s) chunk (fill (set buffer 0 0) chunk) s

-- The part of `sdk_recvfrom` after the flush. It returns the number of bytes read and the buffer.
unfoldable pub read_reply : (len : ℕ) (buffer : List ℕ) → M (ℤ × List ℕ)
unfolding read_content
read_reply len buffer s = elim s.files.reply [
  | none ↦ returned (negsuc 0, buffer) (record s { errno = eintr })
  | some content ↦ read_content content len buffer s
]

unfoldable pub sdk_recvfrom : (host : Files → Files) (len : ℕ) (buffer : List ℕ) → M (ℤ × List ℕ)
sdk_recvfrom host len buffer s =
    if s.fd_current_pos == 0
    then (sdk_sock_flush host >> read_reply len buffer) s
    else read_reply len buffer (record s { watchdog = 0 })

-- `written` is what `write` returns, `none` for -1. The bytes go to PGS_ILOCK if `fd_out` is the
-- descriptor of the stream, and elsewhere if it is not. A sum that no `int` holds is undefined.
unfoldable pub sdk_sendto : (written : Option ℕ) (bytes : List ℕ) → M ℤ
sdk_sendto written bytes s =
    let sent : ℤ = elim written [ none ↦ negsuc 0 | some n ↦ pos n ] in
    let accepted : List ℕ = elim written [ none ↦ [] | some n ↦ take n bytes ] in
    let to_lock : Bool = elim s.fd_file [ none ↦ false | some fd ↦ fd == s.fd_out ] in
    let lock' : Option (List ℕ) =
      if to_lock
      then elim s.files.lock_in [ none ↦ none | some old ↦ some (old ++ accepted) ]
      else s.files.lock_in in
    let queue = s.fd_queue +ℤ sent in
    if leb (2 ^ 31) (pos_part queue) || ltb (2 ^ 31) (neg_part queue)
    then undefined
    else returned sent
        (record s { files = record (s.files) { lock_in = lock' }; watchdog = 0; fd_queue = queue })

unfoldable pub sdk_send : (written : Option ℕ) (bytes : List ℕ) → M ℤ
unfolding sdk_sendto
sdk_send written bytes = sdk_sendto written bytes

unfoldable pub sdk_recv : (host : Files → Files) (len : ℕ) (buffer : List ℕ) → M (ℤ × List ℕ)
unfolding sdk_recvfrom
sdk_recv host len buffer = sdk_recvfrom host len buffer
