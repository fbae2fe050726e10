-- ===== src/Wire/Session.antt =====
-- `execProtocolRaw` of PGLite.java, and a session of its calls, over a lawful module.
use mathlib.Core.Path.{subst}
use pglite4j.Prelude.{ℕ, zero, suc, pos, some, ◌≤◌, ◌<◌, ◌≡◌, refl, sym, List, [], ◌∷◌, length}
use pglite4j.Wire.Exports.{Exports}
use pglite4j.Wire.Transport.{
  and_then, ◌>>◌, ◌>>=◌, on_engine?, pure, M, PgLite, Attempt, returned, thrown, concat,
  wire_send_cma, tick_loop, exec_protocol_raw,
}
use pglite4j.Wire.Engine.{
  Event, View, IsLawful, IsSettled, TicksOutcome, answered, threw, transcript, replies, IsAnswer,
  reply, error, crash, Brings,
}
use pglite4j.Wire.Engine.Laws.{tick_loop-transcript, nonzero-==}

module _ {E : Type 0} (x : Exports E) (v : View E) (base size : ℕ) where
  -- What a call returns.
  abbrev pub Answers : TicksOutcome → Attempt E (List ℕ) → Type 0
  Answers (answered rs es) run =
      (t : PgLite E) × (run ≡ returned (concat rs) t) × IsSettled x v base size es t
  Answers threw run = (t : PgLite E) × (run ≡ thrown t)

module _ {E : Type 0} (x : Exports E) (v : View E) (base size : ℕ)
    (law : IsLawful x v base size) where
  wire_send_cma-IsSettled :
      (msg : List ℕ) (h : PgLite E)
      → 0 < length msg
      → length msg ≤ size
      → IsSettled x v base size [] h
      → (t : PgLite E) × (wire_send_cma x msg h ≡ returned tt t)
        × IsSettled x v base size (v.answer msg h.engine) t
  unfolding wire_send_cma
  wire_send_cma-IsSettled msg h some_bytes fits s =
      let (e, written, len, ready, later) =
        law.sent h.engine msg some_bytes fits s.none_ready s.to_come in
      let written_there : x.write_memory h.buffer_addr msg (x.use_wire (pos 1) h.engine) ≡ some e =
        rw s.at_base written in
      (
        record h {
          engine = x.interactive_write (pos (length msg)) e;
          pending_wire_len = length msg;
        },
        rw (written_there, wire_send_cma, ◌>>◌, ◌>>=◌, on_engine?),
        record { at_base = s.at_base; synced = sym len; none_ready = ready; to_come = later },
      )

  Answers-Brings :
      (o : TicksOutcome) (run : Attempt E (List (List ℕ)))
      → Brings x v base size [] o run
      → Answers x v base size o (and_then run (λ replies. pure (concat replies)))
  Answers-Brings (answered rs es) run (t, e, s) = (t, rw (e, and_then) refl, s)
  Answers-Brings threw run (t, e) = (t, rw (e, and_then) refl)

  exec_protocol_raw-sent :
      (msg : List ℕ) (h t : PgLite E)
      → 0 < length msg
      → wire_send_cma x msg h ≡ returned tt t
      → exec_protocol_raw x msg h
        ≡ and_then (tick_loop x 256 [] t) (λ replies. pure (concat replies))
  unfolding exec_protocol_raw
  exec_protocol_raw-sent msg h t some_bytes sent =
      rw (nonzero-== (length msg) some_bytes, exec_protocol_raw, ◌>>◌, ◌>>=◌) (rw (sent) refl)

  -- Over a module that keeps the laws of Wire/Engine, for a message that fits the buffer, sent
  -- while the module has nothing left to say: a call returns the replies of the answer, of 256
  -- events at most, in their order and without a gap, the reply to an error included, and leaves
  -- the rest of the answer to the next call; it throws where the answer has a trap that PostgreSQL
  -- did not raise.
  pub exec_protocol_raw-transcript :
      (msg : List ℕ) (h : PgLite E)
      → 0 < length msg
      → length msg ≤ size
      → IsSettled x v base size [] h
      → Answers x v base size (transcript 256 (v.answer msg h.engine)) (exec_protocol_raw x msg h)
  exec_protocol_raw-transcript msg h some_bytes fits s =
      let (t, sent, st) = wire_send_cma-IsSettled msg h some_bytes fits s in
      let o = transcript 256 (v.answer msg h.engine) in
      subst (Answers x v base size o) (sym (exec_protocol_raw-sent msg h t some_bytes sent)) (
        Answers-Brings o (tick_loop x 256 [] t)
          (tick_loop-transcript x v base size law 256 (v.answer msg h.engine) [] t st))

  -- Over such a module, a call with no message returns the replies of what is left of an answer, of
  -- 256 events at most, and leaves the rest; it throws where there is a trap that PostgreSQL did
  -- not raise.
  pub exec_protocol_raw-rest :
      (es : List Event) (h : PgLite E)
      → IsSettled x v base size es h
      → Answers x v base size (transcript 256 es) (exec_protocol_raw x [] h)
  unfolding exec_protocol_raw
  exec_protocol_raw-rest es h s =
      let o = transcript 256 es in
      Answers-Brings o (tick_loop x 256 [] h) (tick_loop-transcript x v base size law 256 es [] h s)

-- A session: one call per message.
module _ {E : Type 0} (x : Exports E) where
  abbrev pub exec_session : List (List ℕ) → M E (List (List ℕ))
  exec_session [] = pure []
  exec_session (msg ∷ msgs) =
      exec_protocol_raw x msg >>= λ r. exec_session msgs >>= λ rs. pure (r ∷ rs)

  -- Each message got the whole answer that the module, in the state it had then, gives to it.
  pub data InStep (v : View E) : PgLite E → List (List ℕ) → List (List ℕ) → PgLite E → Type 0 where
    ended : (h : PgLite E) → InStep v h [] [] h
    replied :
        (h t u : PgLite E) (msg : List ℕ) (msgs rs : List (List ℕ))
        → exec_protocol_raw x msg h ≡ returned (concat (replies (v.answer msg h.engine))) t
        → InStep v t msgs rs u
        → InStep v h (msg ∷ msgs) (concat (replies (v.answer msg h.engine)) ∷ rs) u

abbrev pub Fits : (size : ℕ) → List (List ℕ) → Type 0
Fits size [] = Unit {0}
Fits size (msg ∷ msgs) = (0 < length msg) × (length msg ≤ size) × Fits size msgs

-- In whatever state the module is, its answers to these messages are complete within a call.
abbrev pub HasAnswers : {E : Type 0} → View E → List (List ℕ) → Type 0
HasAnswers v [] = Unit {0}
HasAnswers {E} v (msg ∷ msgs) = ((e : E) → IsAnswer 256 (v.answer msg e)) × HasAnswers v msgs

transcript-IsAnswer :
    (ticks : ℕ) (es : List Event)
    → IsAnswer ticks es
    → transcript ticks es ≡ answered (replies es) []
unfolding transcript replies IsAnswer
transcript-IsAnswer zero [] a = refl
transcript-IsAnswer zero (_ ∷ es) a = absurd a
transcript-IsAnswer (suc ticks) [] a = refl
transcript-IsAnswer (suc ticks) (reply bs ∷ es) a = rw (transcript-IsAnswer ticks es a) refl
transcript-IsAnswer (suc ticks) (error bs ∷ es) a = refl
transcript-IsAnswer (suc ticks) (crash ∷ es) a = absurd a

module _ {E : Type 0} (x : Exports E) (v : View E) (base size : ℕ)
    (law : IsLawful x v base size) where
  -- A call whose answer is complete.
  pub exec_protocol_raw-IsAnswer :
      (msg : List ℕ) (h : PgLite E)
      → 0 < length msg
      → length msg ≤ size
      → IsAnswer 256 (v.answer msg h.engine)
      → IsSettled x v base size [] h
      → (t : PgLite E) × (exec_protocol_raw x msg h
          ≡ returned (concat (replies (v.answer msg h.engine))) t)
        × IsSettled x v base size [] t
  exec_protocol_raw-IsAnswer msg h some_bytes fits short s =
      subst (λ o. Answers x v base size o (exec_protocol_raw x msg h))
        (transcript-IsAnswer 256 (v.answer msg h.engine) short)
        (exec_protocol_raw-transcript x v base size law msg h some_bytes fits s)

  -- Over a module that keeps the laws of Wire/Engine, in a session of messages that fit the buffer
  -- and whose answers have at most 256 events and no trap that PostgreSQL did not raise: every call
  -- returns, with the whole answer to its own message, and the module has nothing left to say after
  -- the last one.
  pub exec_session-InStep :
      (msgs : List (List ℕ)) (h : PgLite E)
      → Fits size msgs
      → HasAnswers v msgs
      → IsSettled x v base size [] h
      → (rs : List (List ℕ)) × (t : PgLite E) × (exec_session x msgs h ≡ returned rs t)
        × InStep x v h msgs rs t
        × IsSettled x v base size [] t
  exec_session-InStep [] h fits short s = ([], h, refl, ended h, s)
  exec_session-InStep (msg ∷ msgs) h fits short s =
      let es = v.answer msg h.engine in
      let (t, call, st) = exec_protocol_raw-IsAnswer msg h fits.0 fits.1 (short.0 h.engine) s in
      let (rs, u, calls, steps, su) = exec_session-InStep msgs t fits.2 short.1 st in
      (
        concat (replies es) ∷ rs,
        u,
        rw (call, ◌>>=◌) (rw (calls, ◌>>=◌)),
        replied h t u msg msgs rs call steps,
        su,
      )
