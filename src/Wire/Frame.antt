-- ===== src/Wire/Frame.antt =====
-- The messages that PGLite.java builds and that PgLiteDriver.java (jdbc/src/main/java/io/
-- roastedroot/pglite4j/jdbc) looks for. A byte is a number below 256.
use pglite4j.Prelude.{
  ℕ, ◌+◌, ◌-◌, ◌*◌, ◌/◌, ◌%◌, ◌^◌, ◌≤◌, ◌<◌, ◌≡◌, ◌↔◌, refl, sym, ap, ◌∙◌, Bool, true, false, ◌&&◌,
  Option, none, some, List, [], ◌∷◌, ◌++◌, length, length-append, length-drop, take-append-drop,
  drop-append_left, take-append_left, ltb-false, lt→ltb, take, drop, ltb, leb, ◌==◌, if◌then◌else◌,
  arith,
}

-- `(byte) (len >> 24)` and so on.
abbrev pub int_bytes : (len : ℕ) → List ℕ
int_bytes len = len / 2 ^ 24 % 2 ^ 8 ∷ len / 2 ^ 16 % 2 ^ 8 ∷ len / 2 ^ 8 % 2 ^ 8 ∷ len % 2 ^ 8 ∷ []

-- `none` is the exception where the size of the array passes what an int holds.
unfoldable pub build_simple_query : (sql : List ℕ) → Option (List ℕ)
build_simple_query sql =
    let len = 4 + length sql + 1 in
    if ltb (1 + len) (2 ^ 31) then some (b'Q' ∷ int_bytes len ++ sql ++ 0 ∷ []) else none

-- The last six bytes, where there are as many.
abbrev pub is_ready : List ℕ → Bool
is_ready (a ∷ b ∷ c ∷ d ∷ e ∷ _) = (a == b'Z') && (b == 0) && (c == 0) && (d == 0) && (e == 5)
is_ready _ = false

unfoldable pub ends_with_ready_for_query : (response : List ℕ) → Bool
ends_with_ready_for_query response =
    if ltb (length response) 6 then false else is_ready (drop (length response - 6) response)

-- A message of the protocol: its type, the four bytes of its length, which counts itself, and the
-- rest; what follows it is given too.
pub record Message : Type 0 where
  pub kind : ℕ
  pub body : List ℕ
  pub after : List ℕ

unfoldable pub read_message : List ℕ → Option Message
read_message (kind ∷ a ∷ b ∷ c ∷ d ∷ bytes) =
    let len = a * 2 ^ 24 + b * 2 ^ 16 + c * 2 ^ 8 + d in
    if leb 4 len && leb (len - 4) (length bytes)
    then some record { kind = kind; body = take (len - 4) bytes; after = drop (len - 4) bytes }
    else none
read_message _ = none

int_bytes-sum :
    (len : ℕ)
    → len < 2 ^ 31
    → len / 2 ^ 24 % 2 ^ 8 * 2 ^ 24
        + len / 2 ^ 16 % 2 ^ 8 * 2 ^ 16
        + len / 2 ^ 8 % 2 ^ 8 * 2 ^ 8
        + len % 2 ^ 8
      ≡ len
int_bytes-sum len small = omega arith

int_bytes-read :
    (kind len : ℕ) (bytes : List ℕ)
    → len < 2 ^ 31
    → 4 ≤ len
    → len - 4 ≤ length bytes
    → read_message (kind ∷ int_bytes len ++ bytes)
      ≡ some record { kind = kind; body = take (len - 4) bytes; after = drop (len - 4) bytes }
unfolding read_message
int_bytes-read kind len bytes small long enough = rw (int_bytes-sum len small) (ground arith)

-- A query of fewer than 2 ^ 31 - 6 bytes is sent as one message of type Q, which a reader of the
-- protocol takes apart into the query with its terminating NUL and whatever follows the message.
pub read_message-build_simple_query :
    (sql after : List ℕ)
    → length sql < 2 ^ 31 - 6
    → (msg : List ℕ) × (build_simple_query sql ≡ some msg)
      × (read_message (msg ++ after)
          ≡ some record { kind = b'Q'; body = sql ++ 0 ∷ []; after = after })
unfolding build_simple_query
read_message-build_simple_query sql after small =
    let len = 4 + length sql + 1 in
    let fits : ltb (1 + len) (2 ^ 31) ≡ true = lt→ltb (1 + len) (2 ^ 31) (omega arith) in
    let body = sql ++ 0 ∷ [] in
    let body_len : len - 4 ≡ length body = ground (arith, length-append sql (0 ∷ [])) in
    (
      b'Q' ∷ int_bytes len ++ sql ++ 0 ∷ [],
      rw (fits) refl,
      (int_bytes-read b'Q' len (body ++ after) (omega arith) (omega arith)
            (ground (arith, body_len, length-append body after))
          ∙ rw (
            take-append_left body after (len - 4) body_len,
            drop-append_left body after (len - 4) body_len,
          )),
    )

-- ReadyForQuery with a status byte.
abbrev pub ready_for_query : (status : ℕ) → List ℕ
ready_for_query status = b'Z' ∷ int_bytes 5 ++ status ∷ []

is_ready-six :
    (bytes : List ℕ)
    → length bytes ≡ 6
    → is_ready bytes ≡ true
    → (status : ℕ) × (bytes ≡ ready_for_query status)
is_ready-six (a ∷ b ∷ c ∷ d ∷ e ∷ f ∷ []) six h = (f, ground arith)
is_ready-six [] six h = cc
is_ready-six (a ∷ []) six h = cc
is_ready-six (a ∷ b ∷ []) six h = cc
is_ready-six (a ∷ b ∷ c ∷ []) six h = cc
is_ready-six (a ∷ b ∷ c ∷ d ∷ []) six h = cc
is_ready-six (a ∷ b ∷ c ∷ d ∷ e ∷ []) six h = absurd (omega arith)
is_ready-six (a ∷ b ∷ c ∷ d ∷ e ∷ f ∷ g ∷ bytes) six h = absurd (omega arith)

-- The test holds of the responses that end with a ReadyForQuery message, of any status, and of no others.
pub ends_with_ready_for_query_iff :
    (response : List ℕ)
    → (ends_with_ready_for_query response ≡ true)
      ↔ ((before : List ℕ) × (status : ℕ) × (response ≡ before ++ ready_for_query status))
unfolding ends_with_ready_for_query
ends_with_ready_for_query_iff response = (split, join)
  where
    start : ℕ
    start = length response - 6

    split :
        (if ltb (length response) 6 then false else is_ready (drop start response)) ≡ true
        → (before : List ℕ) × (status : ℕ) × (response ≡ before ++ ready_for_query status)
    split h =
        let long : 6 ≤ length response = ground arith in
        let six : length (drop start response) ≡ 6 = length-drop start response ∙ omega arith in
        let (status, e) = is_ready-six (drop start response) six (ground arith) in
        (
          take start response,
          status,
          sym (take-append-drop start response) ∙ ap (λ t. take start response ++ t) e,
        )

    join :
        (before : List ℕ) × (status : ℕ) × (response ≡ before ++ ready_for_query status)
        → (if ltb (length response) 6 then false else is_ready (drop start response)) ≡ true
    join (before, status, e) =
        let len : length response ≡ length before + 6 =
          ap (λ (t : List ℕ). length t) e ∙ length-append before (ready_for_query status) in
        let last : drop start response ≡ ready_for_query status =
          ap (λ t. drop start t) e
          ∙ drop-append_left before (ready_for_query status) start (omega arith) in
        rw (ltb-false (length response) 6 (omega arith)) (rw last refl)
