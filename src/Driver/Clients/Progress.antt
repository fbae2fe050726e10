-- ===== src/Driver/Clients/Progress.antt =====
-- That the threads of PgLiteDriver.java go on: no deadlock, and the end of the clients.
use mathlib.Core.Path.{subst}
use pglite4j.Prelude.{
  length, sym, ℕ, suc, ◌+◌, ◌-◌, ◌≤◌, ◌≡◌, ◌≢◌, refl, ap, ◌∙◌, Bool, true, false, none, some, [],
  ◌∷◌, ==_iff, arith, ◌⊎◌, inl, inr, Option-cases,
}
use pglite4j.Wire.Exports.{Exports}
use pglite4j.Driver.State.{
  Point, reads, listens, replays, starts, hears, asks, calls, answers, ended, holds, Input, Shared,
  LockMove, keeps, enters, leaves, Act,
}
use pglite4j.Driver.Clients.{
  replay_startup, after_startup_call, startup_loop, startup_read, message_loop, message_read,
  call_message, answer_message, locked_dump, act, System, moved, take_move, advance, Reached,
}
use pglite4j.Driver.Clients.Locking.{act-Fits, ActFits, Fits, Reached-IsLocked, take_move-moved}

false_is_not_true : false ≡ true → ⊥
false_is_not_true e = cc

module _ {E : Type 0} (t : ℕ) (a : Act E) (s : System E) where
  -- Only a thread that is to enter, with the lock held, has no move.
  take_move-free : s.lock ≡ none → (s' : System E) × (take_move t a s ≡ some s')
  take_move-free free = go a.lock refl
    where
      go : (m : LockMove) → a.lock ≡ m → (s' : System E) × (take_move t a s ≡ some s')
      go keeps e = (moved t s.lock a s, rw e refl)
      go enters e = (moved t (some t) a s, rw e (rw free refl))
      go leaves e = (moved t none a s, rw e refl)

  take_move-inside : ActFits true a → (s' : System E) × (take_move t a s ≡ some s')
  take_move-inside fits = go a.lock refl fits
    where
      go :
          (m : LockMove)
          → a.lock ≡ m
          → Fits m true (holds a.point)
          → (s' : System E) × (take_move t a s ≡ some s')
      go keeps e f = (moved t s.lock a s, rw e refl)
      go enters e (f, _) = absurd (ground (arith, f))
      go leaves e f = (moved t none a s, rw e refl)

module _ {E : Type 0} (x : Exports E) where
  -- There is no deadlock: in each state that the threads can reach, for each thread that has not
  -- ended, this thread can move, whatever is read next, or another thread that has not ended can,
  -- and that one holds the lock.
  pub Reached-advance :
      (s : System E) (t : ℕ)
      → Reached x s
      → s.point t ≢ ended
      → (u : ℕ) × ((u ≡ t) ⊎ (s.lock ≡ some u))
        × (s.point u ≢ ended)
        × ((i : Input) → (s' : System E) × (advance x u i s ≡ some s'))
  unfolding advance
  Reached-advance s t r goes_on = elim (Option-cases s.lock) [
    | inl free ↦ (t, inl refl, goes_on, λ i. take_move-free t (act x (s.point t) i s.shared) s free)
    | inr (u, held) ↦
        let inside = (Reached-IsLocked x s r).owner u held in
        (
          u,
          inr held,
          λ over. false_is_not_true (sym (ap holds over) ∙ inside),
          λ i. take_move-inside u (act x (s.point u) i s.shared) s (
              subst (λ b. ActFits b (act x (s.point u) i s.shared)) inside
                (act-Fits x (s.point u) i s.shared)),
        )
  ]

-- The points of a connection from where it knows how it is started.
abbrev pub is_client : Point → Bool
is_client (replays _ _) = true
is_client (starts _) = true
is_client (hears _) = true
is_client reads = true
is_client listens = true
is_client (asks _) = true
is_client (calls _) = true
is_client (answers _) = true
is_client ended = true
is_client _ = false

-- The moves that such a thread has left at most when `running` is false.
abbrev pub left_over : Point → ℕ
left_over (replays _ left) = length left + 2
left_over (starts _) = 2
left_over (hears _) = 3
left_over reads = 1
left_over listens = 5
left_over (asks _) = 4
left_over (calls _) = 3
left_over (answers _) = 2
left_over _ = 0

module _ {E : Type 0} (x : Exports E) where
  act-running :
      (p : Point) (i : Input) (s : Shared E)
      → s.running ≡ false
      → (act x p i s).shared.running ≡ false
  unfolding act replay_startup startup_loop after_startup_call message_loop call_message
      answer_message locked_dump
  act-running (replays l []) i s off = off
  act-running (replays l (m ∷ left)) i s off = ground (arith, off)
  act-running p i s off = ground (arith, off)

  -- A move of a client, whatever it reads.
  act-left_over :
      (p : Point) (i : Input) (s : Shared E)
      → s.running ≡ false
      → is_client p ≡ true
      → (is_client (act x p i s).point ≡ true) × (left_over (act x p i s).point ≤ left_over p - 1)
  unfolding act replay_startup startup_loop startup_read after_startup_call message_loop
      message_read call_message answer_message
  act-left_over (replays l []) i s off c = (refl, ground arith)
  act-left_over (replays l (m ∷ left)) i s off c = (ground arith, ground arith)
  act-left_over (starts rs) i s off c = (ground (arith, off), ground (arith, off))
  act-left_over (hears rs) i s off c = (ground arith, ground arith)
  act-left_over reads i s off c = (ground (arith, off), ground (arith, off))
  act-left_over listens i s off c = (ground arith, ground arith)
  act-left_over (asks message) i s off c = (refl, ground arith)
  act-left_over (calls message) i s off c = (ground arith, ground arith)
  act-left_over (answers response) i s off c = (ground arith, ground arith)
  act-left_over ended i s off c = (refl, ground arith)
  act-left_over _ i s off c = absurd (false_is_not_true c)

  -- A run in which the thread `t` makes `n` moves, with any reads.
  pub data Runs (t : ℕ) : (n : ℕ) → System E → System E → Type 0 where
    stays : {s : System E} → Runs t 0 s s
    own :
        {n : ℕ} {s s' s'' : System E}
        → (i : Input) → advance x t i s ≡ some s'
        → Runs t n s' s''
        → Runs t (suc n) s s''
    other :
        {n : ℕ} {s s' s'' : System E}
        → (u : ℕ) → (i : Input) → u ≢ t
        → advance x u i s ≡ some s'
        → Runs t n s' s''
        → Runs t n s s''

  advance-running :
      (s s' : System E) (u : ℕ) (i : Input)
      → advance x u i s ≡ some s'
      → s.shared.running ≡ false
      → s'.shared.running ≡ false
  unfolding advance
  advance-running s s' u i moves off =
      let (_, same, _) = take_move-moved u (act x (s.point u) i s.shared) s s' moves in
      ap (λ z. z.shared.running) same ∙ act-running (s.point u) i s.shared off

  advance-point :
      (s s' : System E) (u : ℕ) (i : Input)
      → advance x u i s ≡ some s'
      → s'.point u ≡ (act x (s.point u) i s.shared).point
  unfolding advance
  advance-point s s' u i moves =
      let (_, same, _) = take_move-moved u (act x (s.point u) i s.shared) s s' moves in
      ap (λ z. z.point u) same ∙ ground (arith, ==_iff u u)

  advance-other :
      (s s' : System E) (u t : ℕ) (i : Input)
      → u ≢ t
      → advance x u i s ≡ some s'
      → s'.point t ≡ s.point t
  unfolding advance
  advance-other s s' u t i apart moves =
      let (_, same, _) = take_move-moved u (act x (s.point u) i s.shared) s s' moves in
      ap (λ z. z.point t) same ∙ ground (arith, ==_iff t u, apart)

  Runs-left_over :
      (t n : ℕ) (s s' : System E)
      → Runs t n s s'
      → s.shared.running ≡ false
      → is_client (s.point t) ≡ true
      → (is_client (s'.point t) ≡ true) × (left_over (s'.point t) ≤ left_over (s.point t) - n)
  Runs-left_over t _ s _ stays off c = (c, ground arith)
  Runs-left_over t _ s s'' (own {n} {s' = s'} i moves rest) off c =
      let at = advance-point s s' t i moves in
      let (client, fewer) = act-left_over (s.point t) i s.shared off c in
      let (end_client, end) =
        Runs-left_over t n s' s'' rest (advance-running s s' t i moves off)
          (ap is_client at ∙ client) in
      let here : left_over (s'.point t) ≡ left_over (act x (s.point t) i s.shared).point =
        ap left_over at in
      (end_client, omega (arith, end, fewer, here))
  Runs-left_over t n s s'' (other {s' = s'} u i apart moves rest) off c =
      let at = advance-other s s' u t i apart moves in
      let (end_client, end) =
        Runs-left_over t n s' s'' rest (advance-running s s' u i moves off) (ap is_client at ∙ c) in
      let here : left_over (s'.point t) ≡ left_over (s.point t) = ap left_over at in
      (end_client, omega (arith, end, here))

  left_over-ended : (p : Point) → is_client p ≡ true → left_over p ≡ 0 → p ≡ ended
  left_over-ended ended c e = refl
  left_over-ended reads c e = absurd (ground (arith, e))
  left_over-ended listens c e = absurd (ground (arith, e))
  left_over-ended (replays _ _) c e = absurd (ground (arith, e))
  left_over-ended (starts _) c e = absurd (ground (arith, e))
  left_over-ended (hears _) c e = absurd (ground (arith, e))
  left_over-ended (asks _) c e = absurd (ground (arith, e))
  left_over-ended (calls _) c e = absurd (ground (arith, e))
  left_over-ended (answers _) c e = absurd (ground (arith, e))
  left_over-ended _ c e = absurd (false_is_not_true c)

  -- When the instance has been closed, a client that is past its look at the cache has ended after
  -- at most five moves of its own, or two more than the responses that it has to replay, whatever it
  -- reads and whatever the other threads do in between: `running` stops it even if its socket
  -- stays open and messages keep coming.
  pub Runs-ended :
      (t n : ℕ) (s s' : System E)
      → Runs t n s s'
      → s.shared.running ≡ false
      → is_client (s.point t) ≡ true
      → left_over (s.point t) ≤ n
      → s'.point t ≡ ended
  Runs-ended t n s s' run off c enough =
      let (client, end) = Runs-left_over t n s s' run off c in
      left_over-ended (s'.point t) client (omega (arith, end, enough))
