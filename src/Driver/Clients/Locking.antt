-- ===== src/Driver/Clients/Locking.antt =====
-- The lock `pgLock` of PgLiteDriver.java.
use mathlib.Core.Path.{subst}
use pglite4j.Prelude.{
  ℕ, ◌≡◌, refl, sym, ap, ◌∙◌, Bool, true, false, Option, none, some, List, [], ◌∷◌, ==_iff, arith,
}
use pglite4j.Wire.Exports.{Exports}
use pglite4j.Wire.Transport.{Attempt}
use pglite4j.Driver.State.{
  Point, started, wants_startup, checks, reads, listens, replays, starts, hears, asks, calls,
  answers, wants_backup, backs_up, closes, wants_dump, dumps, shuts, ended, holds, Input, Shared,
  LockMove, keeps, enters, leaves, Act,
}
use pglite4j.Driver.Clients.{
  replay_startup, after_startup_call, startup_loop, startup_read, message_loop, message_read,
  call_message, answer_message, locked_dump, act, System, moved, take_move, advance, IsFresh,
  Reached, boot, then_moves,
}

-- What a move does with the lock fits the points that it joins.
abbrev pub Fits : LockMove → (before after : Bool) → Type 0
Fits keeps before after = before ≡ after
Fits enters before after = (before ≡ false) × (after ≡ true)
Fits leaves before after = (before ≡ true) × (after ≡ false)

abbrev pub ActFits : {E : Type 0} → Bool → Act E → Type 0
ActFits before a = Fits a.lock before (holds a.point)

some-injective : {a b : ℕ} → some a ≡ some b → a ≡ b
some-injective e = cc

true_is_not_false : true ≡ false → ⊥
true_is_not_false e = cc

module _ {E : Type 0} where
  replay_startup-Fits :
      (locked : Bool) (left : List (List ℕ)) (i : Input) (s : Shared E)
      → ActFits locked (replay_startup locked left i s)
  unfolding replay_startup
  replay_startup-Fits true [] i s = (refl, refl)
  replay_startup-Fits false [] i s = refl
  replay_startup-Fits true (r ∷ left) i s = ground arith
  replay_startup-Fits false (r ∷ left) i s = ground arith

  after_startup_call-Fits :
      (rs : List (List ℕ)) (run : Attempt E (List ℕ)) (i : Input) (s : Shared E)
      → ActFits true (after_startup_call rs run i s)
  unfolding after_startup_call
  after_startup_call-Fits rs run i s = ground arith

  startup_loop-Fits : (rs : List (List ℕ)) (s : Shared E) → ActFits true (startup_loop rs s)
  unfolding startup_loop
  startup_loop-Fits rs s = ground arith

  message_loop-Fits : (s : Shared E) → ActFits false (message_loop s)
  unfolding message_loop
  message_loop-Fits s = ground arith

  message_read-Fits : (i : Input) (s : Shared E) → ActFits false (message_read i s)
  unfolding message_read
  message_read-Fits i s = ground arith

module _ {E : Type 0} (x : Exports E) where
  startup_read-Fits :
      (rs : List (List ℕ)) (i : Input) (s : Shared E) → ActFits true (startup_read x rs i s)
  unfolding startup_read
  startup_read-Fits rs i s = grind (arith, after_startup_call-Fits)

  call_message-Fits : (message : List ℕ) (s : Shared E) → ActFits true (call_message x message s)
  unfolding call_message
  call_message-Fits message s = ground arith

  answer_message-Fits :
      (response : List ℕ) (i : Input) (s : Shared E) → ActFits false (answer_message x response i s)
  unfolding answer_message
  answer_message-Fits response i s = ground arith

  locked_dump-Fits :
      (caught : Point) (i : Input) (s : Shared E)
      → holds caught ≡ false
      → ActFits true (locked_dump x caught i s)
  unfolding locked_dump
  locked_dump-Fits caught i s h = ground arith

  pub act-Fits : (p : Point) (i : Input) (s : Shared E) → ActFits (holds p) (act x p i s)
  unfolding act
  act-Fits started i s = ground arith
  act-Fits wants_startup i s = (refl, refl)
  act-Fits checks i s = ground arith
  act-Fits (replays locked left) i s = replay_startup-Fits locked left i s
  act-Fits (starts responses) i s = startup_loop-Fits responses s
  act-Fits (hears responses) i s = startup_read-Fits responses i s
  act-Fits reads i s = message_loop-Fits s
  act-Fits listens i s = message_read-Fits i s
  act-Fits (asks message) i s = (refl, refl)
  act-Fits (calls message) i s = call_message-Fits message s
  act-Fits (answers response) i s = answer_message-Fits response i s
  act-Fits wants_backup i s = (refl, refl)
  act-Fits backs_up i s = locked_dump-Fits wants_backup i s refl
  act-Fits closes i s = ground arith
  act-Fits wants_dump i s = (refl, refl)
  act-Fits dumps i s = locked_dump-Fits shuts i s refl
  act-Fits shuts i s = refl
  act-Fits ended i s = refl

-- The lock is held by a thread exactly where that thread stands inside a `synchronized`.
pub record IsLocked {E : Type 0} (s : System E) : Type 0 where
  pub owner : (t : ℕ) → s.lock ≡ some t → holds (s.point t) ≡ true
  pub held : (t : ℕ) → holds (s.point t) ≡ true → s.lock ≡ some t

module _ {E : Type 0} (t : ℕ) (a : Act E) (s : System E) (inv : IsLocked s) where
  keeps-IsLocked : holds (s.point t) ≡ holds a.point → IsLocked (moved t s.lock a s)
  keeps-IsLocked same = record {
    owner = λ u h. ground (arith, inv.owner u h, ==_iff u t, ap (λ p. holds (s.point p)));
    held = λ u h.
        let before : holds (s.point u) ≡ true =
          ground (arith, ==_iff u t, ap (λ v. holds (s.point v))) in
        inv.held u before;
  }

  enters-IsLocked : s.lock ≡ none → holds a.point ≡ true → IsLocked (moved t (some t) a s)
  enters-IsLocked free inside = record {
    owner = λ u h. ground (arith, h, ==_iff u t);
    held = λ u h. ground (arith, ==_iff u t, inv.held u, free);
  }

  leaves-IsLocked : holds (s.point t) ≡ true → holds a.point ≡ false → IsLocked (moved t none a s)
  leaves-IsLocked inside outside = record {
    owner = λ u h. cc;
    held = λ u h. ground (arith, ==_iff u t, inv.held u, inv.held t inside);
  }

-- The lock after a move.
abbrev pub LockAfter : LockMove → (thread : ℕ) → (before after : Option ℕ) → Type 0
LockAfter keeps t before after = after ≡ before
LockAfter enters t before after = (before ≡ none) × (after ≡ some t)
LockAfter leaves t before after = after ≡ none

module _ {E : Type 0} (t : ℕ) (a : Act E) where
  pub take_move-moved :
      (s s' : System E)
      → take_move t a s ≡ some s'
      → (l : Option ℕ) × (s' ≡ moved t l a s) × LockAfter a.lock t s.lock l
  take_move-moved s s' moves = go a.lock refl s.lock refl
    where
      go :
          (m : LockMove)
          → a.lock ≡ m
          → (o : Option ℕ) → s.lock ≡ o
          → (l : Option ℕ) × (s' ≡ moved t l a s) × LockAfter a.lock t s.lock l
      go keeps e o eo = (s.lock, ground arith, rw e refl)
      go enters e none eo = (some t, ground arith, rw e (eo, refl))
      go enters e (some u) eo = ground arith
      go leaves e o eo = (none, ground arith, rw e refl)

  take_move-IsLocked :
      (s s' : System E)
      → ActFits (holds (s.point t)) a
      → IsLocked s
      → take_move t a s ≡ some s'
      → IsLocked s'
  take_move-IsLocked s s' fits inv moves =
      let (l, same, lock) = take_move-moved s s' moves in
      subst IsLocked (sym same) (go a.lock refl l fits lock)
    where
      go :
          (m : LockMove)
          → a.lock ≡ m
          → (l : Option ℕ) → Fits m (holds (s.point t)) (holds a.point)
          → LockAfter m t s.lock l
          → IsLocked (moved t l a s)
      go keeps e l f la = rw la (keeps-IsLocked t a s inv f)
      go enters e l (outside, inside) (free, la) = rw la (enters-IsLocked t a s inv free inside)
      go leaves e l (inside, outside) la = rw la (leaves-IsLocked t a s inv inside outside)

IsFresh-holds : (p : Point) → IsFresh p → holds p ≡ false
IsFresh-holds started f = refl
IsFresh-holds wants_backup f = refl
IsFresh-holds closes f = refl
IsFresh-holds ended f = refl
IsFresh-holds _ f = absurd f

module _ {E : Type 0} (x : Exports E) where
  -- Whatever the clients send, however their sockets and the file system fail, and in whatever order
  -- the threads move, the lock is held by a thread exactly where the thread stands inside a
  -- `synchronized (pgLock)`.
  pub Reached-IsLocked : (s : System E) → Reached x s → IsLocked s
  unfolding advance
  Reached-IsLocked _ (boot s free _ fresh) = record {
    owner = λ t h. cc;
    held = λ t h. absurd (true_is_not_false (sym h ∙ IsFresh-holds (s.point t) (fresh t).0));
  }
  Reached-IsLocked _ (then_moves s0 s t i r moves) =
      take_move-IsLocked t (act x (s0.point t) i s0.shared) s0 s
        (act-Fits x (s0.point t) i s0.shared) (Reached-IsLocked s0 r) moves

  -- No two threads stand inside a `synchronized (pgLock)`, where each use of the module is but the
  -- one by `close` of PGLite.
  pub one_holder :
      (s : System E) (t u : ℕ)
      → Reached x s
      → holds (s.point t) ≡ true
      → holds (s.point u) ≡ true
      → t ≡ u
  one_holder s t u r ht hu =
      let inv = Reached-IsLocked s r in some-injective (sym (inv.held t ht) ∙ inv.held u hu)
