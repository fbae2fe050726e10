-- ===== src/Receive/Laws.antt =====
-- A packet is received as it was sent.
use mathlib.Core.List.{append-nil}
use pglite4j.Prelude.{
  ℕ, zero, suc, ◌+◌, ◌-◌, ◌≤◌, ◌<◌, ◌≡◌, ◌⊎◌, inl, inr, refl, sym, ap, ◌∙◌, min, ℤ, pos, sub_ℕ,
  is_nonzero, true, false, none, some, List, [], ◌∷◌, ◌++◌, length, take, drop, ltb, if◌then◌else◌,
  arith, length-take, length-drop, take-append-drop, take-append_left, take-all, Bool-cases,
}
use pglite4j.Receive.{
  Buffer, take_off, bytes_left, read_into, pq_recvbuf_fill, recvbuf_read, pq_recvbuf, to_take,
  emptied, take_all,
}

sub_ℕ-pos : (a b : ℕ) → b ≤ a → sub_ℕ a b ≡ pos (a - b)
sub_ℕ-pos a b h = ground arith

-- The buffer after a read of `pq_recvbuf` into the empty buffer.
abbrev refilled : (size : ℕ) → List ℕ → Buffer → Buffer
refilled size file b = record {
  bytes = read_into (min size (length file)) file b.bytes;
  pointer = 0;
  len = min size (length file);
  queryfp =
      if ltb 0 (length file - min size (length file))
      then some (drop (min size (length file)) file)
      else none;
  querylen = pos (length file - min size (length file));
}

abbrev read_with : (size len : ℕ) → List ℕ → Buffer → ℤ → Buffer
read_with size len file b left = record {
  bytes = read_into (min size (length file)) file b.bytes;
  pointer = 0;
  len = len;
  queryfp = if bytes_left left then some (drop (min size (length file)) file) else none;
  querylen = left;
}

pq_recvbuf-refilled :
    (size : ℕ) (file : List ℕ) (b : Buffer)
    → 0 < size
    → 0 < length file
    → b.queryfp ≡ some file
    → b.querylen ≡ pos (length file)
    → pq_recvbuf size (emptied b) ≡ (refilled size file b, true)
unfolding pq_recvbuf
pq_recvbuf-refilled size file b room more fp len =
    let left : take_off b.querylen (min size (length file))
        ≡ pos (length file - min size (length file)) =
      ap (λ z. take_off z (min size (length file))) len
      ∙ sub_ℕ-pos (length file) (min size (length file)) (omega arith) in
    let test : is_nonzero b.querylen ≡ true = ground (arith, len) in
    let opened : pq_recvbuf size (emptied b) ≡ recvbuf_read size file (emptied b) =
      ground (arith, fp, test) in
    let whole : size - 0 ≡ size = omega arith in
    let none_before : 0 + min size (length file) ≡ min size (length file) = omega arith in
    let n = length file in
    opened
    ∙ ap (λ w. (read_with w (0 + min w n) file b (take_off b.querylen (min w n)), ltb 0 (min w n)))
        whole
    ∙ ap (λ l. (read_with size l file b (take_off b.querylen (min size n)), ltb 0 (min size n)))
        none_before
    ∙ ap (λ z. (read_with size (min size n) file b z, ltb 0 (min size n))) left
    ∙ ap (λ t. (refilled size file b, t)) (ground arith)

pq_recvbuf-eof :
    (size : ℕ) (b : Buffer) → b.queryfp ≡ none → pq_recvbuf size (emptied b) ≡ (emptied b, false)
unfolding pq_recvbuf
pq_recvbuf-eof size b fp = rw fp refl

pq_recvbuf-zero :
    (size : ℕ) (b : Buffer) (file : List ℕ)
    → b.queryfp ≡ some file
    → b.querylen ≡ pos 0
    → pq_recvbuf size (emptied b) ≡ (emptied b, false)
unfolding pq_recvbuf
pq_recvbuf-zero size b file fp len = ground (arith, fp, len)

no_bytes : (xs : List ℕ) → length xs ≡ 0 → xs ≡ []
no_bytes [] e = refl
no_bytes (_ ∷ _) e = absurd (omega arith)

-- What is left of the packet, with the stream that has it.
abbrev Left : List ℕ → Buffer → Type 0
Left file b =
    ((b.queryfp ≡ some file) × (b.querylen ≡ pos (length file)))
    ⊎ ((b.queryfp ≡ none) × (file ≡ []))

refilled-Left :
    (size : ℕ) (file : List ℕ) (b : Buffer)
    → Left (drop (min size (length file)) file) (refilled size file b)
refilled-Left size file b =
    let got = min size (length file) in
    let rest : length (drop got file) ≡ length file - got = length-drop got file in
    elim (Bool-cases (ltb 0 (length file - got))) [
      | inl more ↦ inl (rw more refl, ap pos (sym rest))
      | inr over ↦ inr (rw over refl, no_bytes (drop got file) (rest ∙ ground arith))
    ]

to_take-refilled :
    (size : ℕ) (file : List ℕ) (b : Buffer)
    → to_take (refilled size file b) ≡ take (min size (length file)) file
to_take-refilled size file b =
    let got = min size (length file) in
    take-append_left (take got file) (drop got b.bytes) got
      (sym (length-take got file ∙ omega arith))

take_all-Left :
    (size rounds : ℕ) (file : List ℕ) (b : Buffer)
    → 0 < size
    → length file ≤ rounds
    → Left file b
    → take_all size rounds b ≡ to_take b ++ file
unfolding take_all
take_all-Left size zero file b room enough left =
    sym (append-nil (to_take b)) ∙ ap (λ f. to_take b ++ f) (sym (no_bytes file (omega arith)))
take_all-Left size (suc rounds) file b room enough (inr (fp, empty)) =
    rw (pq_recvbuf-eof size b fp, take_all) (ap (λ f. to_take b ++ f) (sym empty))
take_all-Left size (suc rounds) [] b room enough (inl (fp, len)) =
    rw (pq_recvbuf-zero size b [] fp len, take_all) refl
take_all-Left size (suc rounds) (c ∷ file) b room enough (inl (fp, len)) =
    let got = min size (length (c ∷ file)) in
    let more = refilled size (c ∷ file) b in
    let shorter : length (drop got (c ∷ file)) ≤ rounds =
      ground (arith, length-drop got (c ∷ file)) in
    let rest =
      take_all-Left size rounds (drop got (c ∷ file)) more room shorter
        (refilled-Left size (c ∷ file) b) in
    rw (pq_recvbuf-refilled size (c ∷ file) b room (ground arith) fp len, take_all)
      (ap (λ t. to_take b ++ t)
        (rest
          ∙ ap (λ t. t ++ drop got (c ∷ file)) (to_take-refilled size (c ∷ file) b)
          ∙ take-append-drop got (c ∷ file)))

-- A packet of any length, alone in its file, is received whole and in order, by a reader that takes
-- all there is in the buffer and asks for more as often as the packet has bytes, or more often.
pub take_all-pq_recvbuf_fill :
    (size rounds : ℕ) (packet : List ℕ) (b : Buffer)
    → 0 < size
    → length packet ≤ rounds
    → take_all size rounds (pq_recvbuf_fill size packet (length packet) b) ≡ packet
unfolding pq_recvbuf_fill
take_all-pq_recvbuf_fill size rounds packet b room enough =
    elim (Bool-cases (ltb size (length packet))) [
      | inl long ↦
          let got = min size (length packet) in
          let rest : length (drop got packet) ≡ length packet - got = length-drop got packet in
          let b' : Buffer = record {
            bytes = read_into got packet b.bytes;
            pointer = 0;
            len = got;
            queryfp = some (drop got packet);
            querylen = sub_ℕ (length packet) got;
          } in
          let left = sub_ℕ-pos (length packet) got (omega arith) ∙ ap pos (sym rest) in
          rw (long, pq_recvbuf_fill)
            (take_all-Left size rounds (drop got packet) b' room (omega arith) (inl (refl, left))
              ∙ ap (λ t. t ++ drop got packet)
                  (take-append_left (take got packet) (drop got b.bytes) got
                    (sym (length-take got packet ∙ omega arith)))
              ∙ take-append-drop got packet)
      | inr short ↦
          let n = length packet in
          let whole : take (min n n) packet ≡ packet = take-all (min n n) packet (omega arith) in
          let b' : Buffer = record {
            bytes = read_into (min n n) packet b.bytes;
            pointer = 0;
            len = n;
            queryfp = none;
            querylen = pos 0;
          } in
          rw (short, pq_recvbuf_fill)
            (take_all-Left size rounds [] b' room (omega arith) (inr (refl, refl))
              ∙ append-nil (to_take b')
              ∙ take-append_left (take (min n n) packet) (drop (min n n) b.bytes) n
                  (sym (ap (λ (t : List ℕ). length t) whole))
              ∙ whole)
    ]
