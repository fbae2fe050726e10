-- ===== src/Socket/Reading.antt =====
-- A reply read by `sdk_recvfrom` of wasm-build/sdk/hotfix/sdk_socket.c in pieces of any sizes.
use mathlib.Core.List.{append-nil}
use pglite4j.Prelude.{
  ℕ, ◌+◌, ◌≤◌, ◌<◌, min, ◌≡◌, refl, ap, ◌∙◌, ◌⊎◌, false, none, some, List, [], ◌∷◌, ◌++◌, arith,
  ltb, ◌==◌, length, take, drop, set, ℤ, pos, negsuc, ◌-◌, inl, inr, length-take, length-drop,
  take-append-drop, take-all, drop-drop, take-append_left,
}
use pglite4j.Socket.State.{Files, Socket, returned, M, ◌>>=◌, pure}
use pglite4j.Socket.{
  fill, advanced, finished, size_for, chunk_for, after_read, read_content, read_reply,
  sdk_sock_flush, sdk_recvfrom,
}

-- `n` bytes of the reply `content` have been read, and there are more.
pub record IsReading (content : List ℕ) (n : ℕ) (s : Socket) : Type 0 where
  pub reply : s.files.reply ≡ some content
  pub at : s.fd_current_pos ≡ n
  pub more : n < length content
  pub size : (s.fd_filesize ≡ length content) ⊎ ((n ≡ 0) × (s.fd_filesize ≡ 0))

-- The buffer after a read: the bytes from position `n` on, and then what was there.
abbrev pub piece : (content : List ℕ) (n len : ℕ) → List ℕ
piece content n len = take len (drop n content)

length-piece :
    (content : List ℕ) (n len : ℕ) → length (piece content n len) ≡ min len (length content - n)
length-piece content n len = omega (arith, length-take len (drop n content), length-drop n content)

size_for-eq :
    (content : List ℕ) (n : ℕ) (s : Socket)
    → IsReading content n s
    → size_for content s ≡ length content
size_for-eq content n s r = ground arith

chunk_for-eq :
    (content : List ℕ) (n len : ℕ) (s : Socket)
    → IsReading content n s
    → chunk_for content len s ≡ piece content n len
chunk_for-eq content n len s r = ap (λ i. take len (drop i content)) r.at

-- A read of at least one byte, into a buffer of that size, of a reply that is being read.
read_reply-eq :
    (content : List ℕ) (n len : ℕ) (buffer : List ℕ) (s : Socket)
    → IsReading content n s
    → 0 < len
    → len ≤ length buffer
    → read_reply len buffer s
      ≡ after_read
          (length content)
          (piece content n len)
          (fill (set buffer 0 0) (piece content n len))
          s
read_reply-eq content n len buffer s r some_bytes room = opens ∙ reads
  where
    opens : read_reply len buffer s ≡ read_content content len buffer s
    opens = unfold read_reply in ground (arith, r.reply)

    not_empty : (length buffer == 0) ≡ false
    not_empty = ground arith

    no_overrun : ltb (length buffer) (length (piece content n len)) ≡ false
    no_overrun = ground (arith, length-piece content n len)

    reads :
        read_content content len buffer s
        ≡ after_read
            (length content)
            (piece content n len)
            (fill (set buffer 0 0) (piece content n len))
            s
    reads =
        unfold read_content in
        rw (chunk_for-eq content n len s r, size_for-eq content n s r, not_empty, no_overrun) refl

-- A reply that has been read to its end is gone, and the counters are back at 0.
pub record IsFinished (s : Socket) : Type 0 where
  pub reply : s.files.reply ≡ none
  pub at : s.fd_current_pos ≡ 0
  pub size : s.fd_filesize ≡ 0
  pub queue : s.fd_queue ≡ pos 0
  pub watchdog : s.watchdog ≡ 0

-- The bytes that a call of `sdk_recvfrom` reports.
abbrev pub reported : ℤ × List ℕ → List ℕ
reported (pos n, buffer) = take n buffer
reported (negsuc n, buffer) = []

take-fill : (buffer chunk : List ℕ) → take (length chunk) (fill buffer chunk) ≡ chunk
take-fill buffer chunk = take-append_left chunk (drop (length chunk) buffer) (length chunk) refl

module _ (content : List ℕ) (n len : ℕ) (buffer : List ℕ) (s : Socket) (r : IsReading content n s)
    (some_bytes : 0 < len) (room : len ≤ length buffer) where
  read_more :
      n + len < length content
      → (x : ℤ × List ℕ) × (t : Socket) × (read_reply len buffer s ≡ returned x t)
        × (reported x ≡ piece content n len)
        × IsReading content (n + len) t
  read_more more = (
    (pos (length chunk), fill (set buffer 0 0) chunk),
    advanced (length content) chunk s,
    read_reply-eq content n len buffer s r some_bytes room
        ∙ (unfold after_read in ground (arith, length-piece content n len, r.at)),
    take-fill (set buffer 0 0) chunk,
    record {
      reply = r.reply;
      at = omega (arith, length-piece content n len, r.at);
      more = more;
      size = inl refl;
    },
  )
    where
      chunk : List ℕ
      chunk = piece content n len

  read_last :
      length content ≤ n + len
      → (x : ℤ × List ℕ) × (t : Socket) × (read_reply len buffer s ≡ returned x t)
        × (reported x ≡ drop n content)
        × IsFinished t
  read_last end = (
    (pos (length chunk), fill (set buffer 0 0) chunk),
    finished (advanced (length content) chunk s),
    read_reply-eq content n len buffer s r some_bytes room
        ∙ (unfold after_read in ground (arith, length-piece content n len, r.at)),
    take-fill (set buffer 0 0) chunk
        ∙ take-all len (drop n content) (omega (arith, length-drop n content)),
    record { reply = refl; at = refl; size = refl; queue = refl; watchdog = refl },
  )
    where
      chunk : List ℕ
      chunk = piece content n len

-- A client that calls `sdk_recvfrom` with one buffer after another, and joins what it is given.
abbrev pub receive : (host : Files → Files) (buffers : List (List ℕ)) → M (List ℕ)
receive host [] = pure []
receive host (b ∷ bs) = do
  x ← sdk_recvfrom host (length b) b
  rest ← receive host bs
  pure (reported x ++ rest)

-- The buffers have room for what is left of `content` from `n` on, and the last one is needed.
abbrev pub Covers : (content : List ℕ) (n : ℕ) (buffers : List (List ℕ)) → Type 0
Covers content n [] = ⊥
Covers content n (b ∷ []) = (0 < length b) × (length content ≤ n + length b)
Covers content n (b ∷ c ∷ bs) =
    (0 < length b) × (n + length b < length content) × Covers content (n + length b) (c ∷ bs)

module _ (host : Files → Files) (content : List ℕ) where
  recvfrom-later :
      (n len : ℕ) (buffer : List ℕ) (s : Socket)
      → IsReading content n s
      → 0 < n
      → sdk_recvfrom host len buffer s ≡ read_reply len buffer (record s { watchdog = 0 })
  unfolding sdk_recvfrom
  recvfrom-later n len buffer s r later = ground (arith, r.at)

  calm :
      (n : ℕ) (s : Socket) → IsReading content n s → IsReading content n (record s { watchdog = 0 })
  calm n s r = record { reply = r.reply; at = r.at; more = r.more; size = r.size }

  drop-piece : (n k : ℕ) → piece content n k ++ drop (n + k) content ≡ drop n content
  drop-piece n k = rw (← drop-drop n k (n + k) content refl) (take-append-drop k (drop n content))

  -- The reads after the first.
  receive-rest :
      (bs : List (List ℕ)) (n : ℕ) (s : Socket)
      → IsReading content n s
      → 0 < n
      → Covers content n bs
      → (t : Socket) × (receive host bs s ≡ returned (drop n content) t) × IsFinished t
  receive-rest [] n s r later c = absurd c
  receive-rest (b ∷ []) n s r later c =
      let (x, t, e, bytes, f) =
        read_last content n (length b) b (record s { watchdog = 0 }) (calm n s r) c.0 (omega arith)
          c.1 in
      (t, rw (recvfrom-later n (length b) b s r later, e, bytes, append-nil) refl, f)
  receive-rest (b ∷ c ∷ bs) n s r later cov =
      let (x, t, e, bytes, r') =
        read_more content n (length b) b (record s { watchdog = 0 }) (calm n s r) cov.0
          (omega arith) cov.1 in
      let (u, e', f) = receive-rest (c ∷ bs) (n + length b) t r' (omega arith) cov.2 in
      (
        u,
        rw (recvfrom-later n (length b) b s r later, e, e', bytes, drop-piece n (length b)) refl,
        f,
      )

  -- The first read comes after a flush.
  recvfrom-first :
      (len : ℕ) (buffer : List ℕ) (s u : Socket)
      → s.fd_current_pos ≡ 0
      → sdk_sock_flush host s ≡ returned tt u
      → sdk_recvfrom host len buffer s ≡ read_reply len buffer u
  unfolding sdk_recvfrom
  recvfrom-first len buffer s u start flushed = ground (arith, flushed, start)

  pub receive-all :
      (bs : List (List ℕ)) (s u : Socket)
      → s.fd_current_pos ≡ 0
      → sdk_sock_flush host s ≡ returned tt u
      → IsReading content 0 u
      → Covers content 0 bs
      → (t : Socket) × (receive host bs s ≡ returned content t) × IsFinished t
  receive-all [] s u start flushed r c = absurd c
  receive-all (b ∷ []) s u start flushed r c =
      let (x, t, e, bytes, f) = read_last content 0 (length b) b u r c.0 (omega arith) c.1 in
      (t, rw (recvfrom-first (length b) b s u start flushed, e, bytes, append-nil) refl, f)
  receive-all (b ∷ c ∷ bs) s u start flushed r cov =
      let (x, t, e, bytes, r') = read_more content 0 (length b) b u r cov.0 (omega arith) cov.1 in
      let (v, e', f) = receive-rest (c ∷ bs) (0 + length b) t r' (omega arith) cov.2 in
      (
        v,
        rw (recvfrom-first (length b) b s u start flushed, e, e', bytes, drop-piece 0 (length b))
            refl,
        f,
      )

  flush-idle :
      (s : Socket)
      → s.fd_queue ≡ pos 0
      → s.watchdog ≤ 32
      → sdk_sock_flush host s ≡ returned tt (record s { watchdog = s.watchdog + 1 })
  unfolding sdk_sock_flush
  flush-idle s idle patient = ground (arith, idle)

  -- With nothing queued, nothing read yet and a watchdog of at most 32, reads into buffers of any
  -- sizes that cover a waiting reply return its bytes, all of them and in order, without a write
  -- outside a buffer; then the reply file is gone and every counter is back at 0.
  pub receive-content :
      (bs : List (List ℕ)) (s : Socket)
      → s.files.reply ≡ some content
      → s.fd_current_pos ≡ 0
      → s.fd_filesize ≡ 0
      → s.fd_queue ≡ pos 0
      → s.watchdog ≤ 32
      → 0 < length content
      → Covers content 0 bs
      → (t : Socket) × (receive host bs s ≡ returned content t) × IsFinished t
  receive-content bs s waiting start fresh idle patient some_bytes c =
      receive-all bs s (record s { watchdog = s.watchdog + 1 }) start (flush-idle s idle patient)
        (record { reply = waiting; at = start; more = some_bytes; size = inr (refl, fresh) }) c
