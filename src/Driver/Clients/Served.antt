-- ===== src/Driver/Clients/Served.antt =====
-- What the clients of PgLiteDriver.java are answered, over a module that keeps the laws of
-- Wire/Engine.
use pglite4j.Prelude.{
  ℕ, ◌≡◌, ◌≤◌, ◌<◌, inl, inr, refl, Bool, true, false, some, List, [], ◌∷◌, length, ◌==◌, update,
  arith, Bool-cases,
}
use pglite4j.Wire.Exports.{Exports}
use pglite4j.Wire.Transport.{PgLite, returned}
use pglite4j.Wire.Engine.{View, IsSettled}
use pglite4j.Driver.State.{
  Point, started, wants_startup, checks, reads, listens, replays, starts, hears, asks, calls,
  answers, wants_backup, backs_up, closes, wants_dump, dumps, shuts, ended, Input, Shared, Act,
}
use pglite4j.Driver.Clients.{
  replay_startup, after_startup_call, startup_loop, message_loop, answer_message, dump_queries,
  locked_dump, act, System, advance, IsFresh,
}

-- A message that a call can send.
abbrev pub IsMessage : (size : ℕ) → List ℕ → Type 0
IsMessage size msg = (0 < length msg) × (length msg ≤ size)

abbrev pub PointFits : (size : ℕ) → Point → Type 0
PointFits size (asks msg) = IsMessage size msg
PointFits size (calls msg) = IsMessage size msg
PointFits size _ = Unit {0}

-- A read fills at most the buffer.
abbrev pub InputFits : (size : ℕ) → Input → Type 0
InputFits size i = (msg : List ℕ) → i.received ≡ some msg → length msg ≤ size

abbrev pub is_shuts : Point → Bool
is_shuts shuts = true
is_shuts _ = false

pub false_is_not_true : false ≡ true → ⊥
false_is_not_true e = cc

-- Where a thread holds no message.
abbrev pub is_plain : Point → Bool
is_plain (asks _) = false
is_plain (calls _) = false
is_plain _ = true

pub plain-PointFits : (size : ℕ) (p : Point) → is_plain p ≡ true → PointFits size p
plain-PointFits size (asks _) h = absurd (false_is_not_true h)
plain-PointFits size (calls _) h = absurd (false_is_not_true h)
plain-PointFits size started h = tt
plain-PointFits size wants_startup h = tt
plain-PointFits size checks h = tt
plain-PointFits size reads h = tt
plain-PointFits size listens h = tt
plain-PointFits size (replays _ _) h = tt
plain-PointFits size (starts _) h = tt
plain-PointFits size (hears _) h = tt
plain-PointFits size (answers _) h = tt
plain-PointFits size wants_backup h = tt
plain-PointFits size backs_up h = tt
plain-PointFits size closes h = tt
plain-PointFits size wants_dump h = tt
plain-PointFits size dumps h = tt
plain-PointFits size shuts h = tt
plain-PointFits size ended h = tt

pub fresh-PointFits : (size : ℕ) (p : Point) → IsFresh p → PointFits size p
fresh-PointFits size started f = tt
fresh-PointFits size wants_backup f = tt
fresh-PointFits size closes f = tt
fresh-PointFits size ended f = tt
fresh-PointFits size _ f = absurd f

pub update-PointFits :
    (size : ℕ) (f : ℕ → Point) (p : Point) (u t : ℕ)
    → PointFits size p
    → PointFits size (f u)
    → PointFits size (update f t p u)
update-PointFits size f p u t mine before = elim (Bool-cases (u == t)) [
  | inl same ↦ rw same mine
  | inr other ↦ rw other before
]

-- A move that calls nothing and leads to no message.
abbrev pub IsPlain : {E : Type 0} → PgLite E → Act E → Type 0
IsPlain h a = (a.shared.host ≡ h) × (is_plain a.point ≡ true)

module _ {E : Type 0} where
  pub replay_startup-IsPlain :
      (locked : Bool) (left : List (List ℕ)) (i : Input) (s : Shared E)
      → IsPlain s.host (replay_startup locked left i s)
  unfolding replay_startup
  replay_startup-IsPlain locked [] i s = (refl, refl)
  replay_startup-IsPlain locked (r ∷ left) i s = (ground arith, ground arith)

  pub after_startup_call-IsPlain :
      (rs : List (List ℕ)) (r : List ℕ) (t : PgLite E) (i : Input) (s : Shared E)
      → IsPlain t (after_startup_call rs (returned r t) i s)
  unfolding after_startup_call
  after_startup_call-IsPlain rs r t i s = (ground arith, ground arith)

  pub startup_loop-IsPlain :
      (rs : List (List ℕ)) (s : Shared E) → IsPlain s.host (startup_loop rs s)
  unfolding startup_loop
  startup_loop-IsPlain rs s = (ground arith, ground arith)

  pub message_loop-IsPlain : (s : Shared E) → IsPlain s.host (message_loop s)
  unfolding message_loop
  message_loop-IsPlain s = (ground arith, ground arith)

module _ {E : Type 0} (x : Exports E) where
  pub answer_message-IsPlain :
      (r : List ℕ) (i : Input) (s : Shared E) → IsPlain s.host (answer_message x r i s)
  unfolding answer_message
  answer_message-IsPlain r i s = (ground arith, ground arith)

  pub begins-IsPlain :
      (i : Input) (s : Shared E)
      → IsPlain s.host (act x started i s)
        × IsPlain s.host (act x checks i s)
        × IsPlain s.host (act x closes i s)
  unfolding act
  begins-IsPlain i s =
      ((ground arith, ground arith), (ground arith, ground arith), (ground arith, ground arith))

  pub locked_dump-IsPlain :
      (caught : Point) (i : Input) (s : Shared E) (t : PgLite E)
      → is_plain caught ≡ true
      → dump_queries x s.host ≡ returned tt t
      → IsPlain t (locked_dump x caught i s)
  unfolding locked_dump
  locked_dump-IsPlain caught i s t p e = (ground (arith, e), ground (arith, e))

module _ {E : Type 0} (x : Exports E) (v : View E) (base size : ℕ) where
  -- The states up to the last `close`, of clients whose reads fit the buffer of the module.
  pub data Served : System E → Type 0 where
    boots :
        (s : System E)
        → ((t : ℕ) → IsFresh (s.point t))
        → IsSettled x v base size [] s.shared.host
        → Served s
    goes_on :
        (s s' : System E) (thread : ℕ) (i : Input)
        → Served s
        → InputFits size i
        → is_shuts (s.point thread) ≡ false
        → advance x thread i s ≡ some s'
        → Served s'

  pub record IsServed (s : System E) : Type 0 where
    pub settled : IsSettled x v base size [] s.shared.host
    pub fits : (t : ℕ) → PointFits size (s.point t)

  -- A move keeps both.
  unfoldable pub ActServed : Act E → Type 0
  ActServed a = IsSettled x v base size [] a.shared.host × PointFits size a.point
