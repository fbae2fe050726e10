-- ===== src/Witnesses/Clients.antt =====
-- Clients of one instance, over the small module of the wire transport.
use mathlib.Core.Path.{subst}
use pglite4j.Prelude.{
  arith, inl, inr, ℕ, ◌≡◌, refl, true, Option, none, some, List, [], ◌∷◌, ◌++◌, ◌==◌, if◌then◌else◌,
  Bool-cases, length, ◌≤◌, false,
}
use pglite4j.Wire.Transport.{PgLite, concat, exec_protocol_raw}
use pglite4j.Wire.Frame.{build_simple_query, ends_with_ready_for_query}
use pglite4j.Driver.State.{
  goes, leaves, answers, with_host, Point, started, closes, ended, calls, shuts, wants_backup,
  saved, Input,
}
use pglite4j.Driver.Clients.{
  act, dump_queries, exec_query, System, advance, Reached, boot, then_moves, IsFresh,
}
use pglite4j.Driver.Clients.Locking.{Reached-IsLocked, IsLocked}
use pglite4j.Driver.Clients.Cache.{advance_cached, clients_agree}
use pglite4j.Witnesses.Toy.{Toy, toy_exports, toy_host, toy_view, toy-IsLawful, toy_host-IsSettled}
use pglite4j.Wire.Engine.{IsAnswer, replies}
use pglite4j.Driver.Clients.Served.{Served, boots, goes_on, is_shuts}
use pglite4j.Driver.Clients.Answers.{call_message_lem}

some-injective : {a b : System Toy} → some a ≡ some b → a ≡ b
some-injective e = cc

-- A thread that reads `received`, if it reads at all, and whose writes succeed.
abbrev given : List ℕ → Input
given received = record { received = some received; accepted = true; saving = saved }

abbrev run : List (ℕ × Input) → System Toy → Option (System Toy)
run [] s = some s
run ((t, i) ∷ moves) s = elim (advance toy_exports t i s) [ none ↦ none | some s' ↦ run moves s' ]

run-Reached :
    (moves : List (ℕ × Input)) (s s' : System Toy)
    → Reached toy_exports s
    → run moves s ≡ some s'
    → Reached toy_exports s'
run-Reached [] s s' r e = subst (Reached toy_exports) (some-injective e) r
run-Reached ((t, i) ∷ moves) s s' r e =
    go (λ q. run-Reached moves q s') (advance toy_exports t i s) refl e
  where
    go :
        ((q : System Toy) → Reached toy_exports q → run moves q ≡ some s' → Reached toy_exports s')
        → (o : Option (System Toy)) → advance toy_exports t i s ≡ o
        → elim o [ none ↦ none | some q ↦ run moves q ] ≡ some s'
        → Reached toy_exports s'
    go rest none eo h = cc
    go rest (some q) eo h = rest q (then_moves s q t i r eo) h

-- Two clients, the backup, and the thread that closes the instance.
abbrev point_of : ℕ → Point
point_of t =
    if t == 1
    then started
    else if t == 2
    then started
    else if t == 3
    then wants_backup
    else if t == 4
    then closes
    else ended

abbrev at_boot : System Toy
at_boot = record {
  lock = none;
  shared = record {
    has_data_dir = true;
    running = true;
    cached_startup_responses = none;
    host = toy_host [];
  };
  point = point_of;
  written = λ _. [];
}

point_of-IsFresh : (t : ℕ) → IsFresh (point_of t)
point_of-IsFresh t = ground arith

at_boot-Reached : Reached toy_exports at_boot
at_boot-Reached = boot at_boot refl refl (λ t. (point_of-IsFresh t, refl))

abbrev pub or_boot : Option (System Toy) → System Toy
or_boot none = at_boot
or_boot (some s) = s

-- Client 1 starts the session with two reads, client 2 is served from the cache.
abbrev two_started : List (ℕ × Input)
two_started =
    (1, given [])
    ∷ (1, given [])
    ∷ (1, given [])
    ∷ (1, given [])
    ∷ (1, given (b'Q' ∷ []))
    ∷ (2, given [])
    ∷ (2, given (7 ∷ []))
    ∷ (2, given [])
    ∷ []

abbrev both_ready : System Toy
both_ready = or_boot (run two_started at_boot)

both_ready-run : run two_started at_boot ≡ some both_ready
unfolding advance exec_protocol_raw ends_with_ready_for_query
both_ready-run = refl

both_ready-Reached : Reached toy_exports both_ready
both_ready-Reached = run-Reached two_started at_boot both_ready at_boot-Reached both_ready-run

clients_agree_example :
    (rs : List (List ℕ)) × (mine : List ℕ) × (yours : List ℕ)
    × (both_ready.shared.cached_startup_responses ≡ some rs)
    × (both_ready.written 1 ≡ concat rs ++ mine)
    × (both_ready.written 2 ≡ concat rs ++ yours)
unfolding advance exec_protocol_raw ends_with_ready_for_query
clients_agree_example = clients_agree toy_exports both_ready 1 2 both_ready-Reached refl refl

-- While the instance is closed: a client asks, the last dump under the lock ends, and the client
-- enters before `close` of PGLite starts the next one.
abbrev pub while_closed : List (ℕ × Input)
while_closed =
    two_started
    ++ (1, given [])
      ∷ (1, given (b'Q' ∷ []))
      ∷ (4, given [])
      ∷ (4, given [])
      ∷ (4, given [])
      ∷ (1, given [])
      ∷ []

abbrev pub race : System Toy
race = or_boot (run while_closed at_boot)

-- A client and `close` of PGLite use the module at the same time.
close_races_client : (race.point 1 ≡ calls (b'Q' ∷ [])) × (race.point 4 ≡ shuts)
unfolding advance exec_protocol_raw ends_with_ready_for_query dump_queries exec_query
    build_simple_query
close_races_client = (refl, refl)

pub race-Reached : Reached toy_exports race
unfolding advance exec_protocol_raw ends_with_ready_for_query dump_queries exec_query
    build_simple_query
race-Reached = run-Reached while_closed at_boot race at_boot-Reached refl

Reached-IsLocked_example : IsLocked race
Reached-IsLocked_example = Reached-IsLocked toy_exports race race-Reached

-- Client 1 goes on.
abbrev after_ask : System Toy
after_ask = or_boot (advance toy_exports 1 (given (b'Q' ∷ [])) both_ready)

abbrev cached_bytes : List (List ℕ)
cached_bytes = (b'T' ∷ b'D' ∷ 1 ∷ 2 ∷ 3 ∷ b'Z' ∷ 0 ∷ 0 ∷ 0 ∷ 5 ∷ b'I' ∷ []) ∷ []

advance_cached_example : after_ask.shared.cached_startup_responses ≡ some cached_bytes
unfolding advance exec_protocol_raw ends_with_ready_for_query
advance_cached_example =
    advance_cached toy_exports both_ready after_ask 1 (given (b'Q' ∷ [])) cached_bytes
      both_ready-Reached refl refl

toy-IsAnswer : (msg : List ℕ) (e : Toy) → IsAnswer 256 (toy_view.answer msg e)
unfolding IsAnswer
toy-IsAnswer [] e = tt
toy-IsAnswer (b ∷ msg) e = elim (Bool-cases (b == b'Q')) [
  | inl query ↦ rw query tt
  | inr other ↦ elim (Bool-cases (b == b'E')) [
    | inl fails ↦ rw other (rw fails tt)
    | inr neither ↦ rw other (rw neither tt)
  ]
]

abbrev IsToyServed : System Toy → Type 0
IsToyServed = Served toy_exports toy_view 1 32

abbrev next : (t : ℕ) → (received : List ℕ) → System Toy → System Toy
next t received s = or_boot (advance toy_exports t (given received) s)

moves_on :
    (t : ℕ) (received : List ℕ) (s : System Toy)
    → IsToyServed s
    → length received ≤ 32
    → is_shuts (s.point t) ≡ false
    → advance toy_exports t (given received) s ≡ some (next t received s)
    → IsToyServed (next t received s)
moves_on t received s r fits on e =
    goes_on s (next t received s) t (given received) r given_fits on e
  where
    given_fits : (msg : List ℕ) → some received ≡ some msg → length msg ≤ 32
    given_fits msg same = let len : length msg ≡ length received = cc in omega arith

-- Client 1 stands at its first call after the startup.
abbrev cached_at : System Toy
cached_at = next 1 (b'Q' ∷ []) (next 1 [] (next 1 [] (next 1 [] (next 1 [] at_boot))))

abbrev a_call : System Toy
a_call = next 1 [] (next 1 (b'E' ∷ []) (next 1 [] cached_at))

a_call-Served : IsToyServed a_call
unfolding advance exec_protocol_raw ends_with_ready_for_query
a_call-Served =
    moves_on 1 [] _
      (moves_on 1 (b'E' ∷ []) _
        (moves_on 1 [] _
          (moves_on 1 (b'Q' ∷ []) _
            (moves_on 1 [] _
              (moves_on 1 [] _
                (moves_on 1 [] _
                  (moves_on 1 [] at_boot (boots at_boot point_of-IsFresh (toy_host-IsSettled []))
                    (ground arith) refl refl)
                  (ground arith) refl refl)
                (ground arith) refl refl)
              (ground arith) refl refl)
            (ground arith) refl refl)
          (ground arith) refl refl)
        (ground arith) refl refl)
      (ground arith) refl refl

call_message_lem_example :
    (h : PgLite Toy) × (act toy_exports (a_call.point 1) (given []) a_call.shared
      ≡ goes leaves (answers (b'T' ∷ b'E' ∷ b'Z' ∷ [])) (with_host a_call.shared h))
unfolding advance exec_protocol_raw ends_with_ready_for_query replies
call_message_lem_example =
    call_message_lem toy_exports toy_view 1 32 toy-IsLawful toy-IsAnswer a_call 1 (given [])
      (b'E' ∷ []) (ground arith) a_call-Served refl
