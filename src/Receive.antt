-- ===== src/Receive.antt =====
-- How PostgreSQL receives a packet from a file: `pq_recvbuf_fill`, and what `pq_recvbuf` does in the
-- module, of wasm-build/patches/postgresql-pglite/src-backend-libpq-pqcomm.c.diff.
pub mod Laws
pub mod Bounds
use pglite4j.Prelude.{
  ℕ, zero, suc, ◌+◌, ◌-◌, ◌≤◌, ◌<◌, ◌≡◌, min, ℤ, pos, negsuc, sub_ℕ, is_nonzero, Bool, true, false,
  Option, none, some, List, [], ◌∷◌, ◌++◌, length, take, drop, ltb, if◌then◌else◌,
}

-- PqRecvBuffer with all its bytes, PqRecvPointer, PqRecvLength, what is left to read of `queryfp`,
-- which may be NULL, and `querylen`.
pub record Buffer : Type 0 where
  pub bytes : List ℕ
  pub pointer : ℕ
  pub len : ℕ
  pub queryfp : Option (List ℕ)
  pub querylen : ℤ

abbrev pub take_off : ℤ → ℕ → ℤ
take_off (pos a) n = sub_ℕ a n
take_off (negsuc a) n = negsuc (a + n)

abbrev pub bytes_left : ℤ → Bool
bytes_left (pos n) = ltb 0 n
bytes_left (negsuc n) = false

-- `fread` of at most `room` bytes: how many, and the buffer after it.
abbrev pub got_of : (room : ℕ) → (file : List ℕ) → ℕ
got_of room file = min room (length file)

abbrev pub read_into : (got : ℕ) → (file bytes : List ℕ) → List ℕ
read_into got file bytes = take got file ++ drop got bytes

-- `size` is PQ_RECV_BUFFER_SIZE.
module _ (size : ℕ) where
  unfoldable pub pq_recvbuf_fill : (fp : List ℕ) → (packetlen : ℕ) → Buffer → Buffer
  pq_recvbuf_fill fp packetlen b =
      if ltb size packetlen
      then (let got = got_of size fp in
          record {
            bytes = read_into got fp b.bytes;
            pointer = 0;
            len = got;
            queryfp = some (drop got fp);
            querylen = sub_ℕ packetlen got;
          })
      else record {
        bytes = read_into (got_of packetlen fp) fp b.bytes;
        pointer = 0;
        len = packetlen;
        queryfp = none;
        querylen = pos 0;
      }

  -- The read of `pq_recvbuf`, with what it leaves of the stream.
  unfoldable pub recvbuf_read : (file : List ℕ) → Buffer → Buffer × Bool
  recvbuf_read file b =
      let got = got_of (size - b.pointer) file in
      let left = take_off b.querylen got in
      (
        record {
          bytes = read_into got file b.bytes;
          pointer = b.pointer;
          len = b.len + got;
          queryfp = if bytes_left left then some (drop got file) else none;
          querylen = left;
        },
        ltb 0 got,
      )

  -- The buffer, and whether there are more bytes; EOF otherwise.
  unfoldable pub pq_recvbuf : Buffer → Buffer × Bool
  unfolding recvbuf_read
  pq_recvbuf b = elim (b.queryfp) [
    | none ↦ (b, false)
    | some file ↦ if is_nonzero b.querylen then recvbuf_read file b else (b, false)
  ]

-- The bytes that are there to be taken.
abbrev pub to_take : Buffer → List ℕ
to_take b = drop b.pointer (take b.len b.bytes)

-- Once all bytes are taken, `pq_recvbuf` starts with an empty buffer.
abbrev pub emptied : Buffer → Buffer
emptied b = record b { pointer = 0; len = 0 }

-- A reader that takes all there is, and asks for more at most `rounds` times.
unfoldable pub take_all : (size rounds : ℕ) → Buffer → List ℕ
take_all size zero b = to_take b
take_all size (suc rounds) b =
    let more = pq_recvbuf size (emptied b) in
    let rest = take_all size rounds more.0 in to_take b ++ (if more.1 then rest else [])
