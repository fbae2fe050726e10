-- ===== src/Witnesses/Packets.antt =====
-- A packet of five bytes through a buffer of two.
use pglite4j.Prelude.{ℕ, ◌≡◌, none, pos, List, [], ◌∷◌, arith}
use pglite4j.Receive.{Buffer, pq_recvbuf_fill, take_all}
use pglite4j.Receive.Laws.{take_all-pq_recvbuf_fill}

abbrev two_bytes : Buffer
two_bytes = record { bytes = 0 ∷ 0 ∷ []; pointer = 0; len = 0; queryfp = none; querylen = pos 0 }

abbrev five : List ℕ
five = 1 ∷ 2 ∷ 3 ∷ 4 ∷ 5 ∷ []

take_all-pq_recvbuf_fill_example : take_all 2 5 (pq_recvbuf_fill 2 five 5 two_bytes) ≡ five
take_all-pq_recvbuf_fill_example =
    take_all-pq_recvbuf_fill 2 5 five two_bytes (ground arith) (ground arith)
