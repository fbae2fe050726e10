-- ===== src/Wire/Engine.antt =====
-- What PGLite.java relies on of the WASM module, as an abstract view of the module's state and the
-- laws of its exports.
pub mod Laws
use pglite4j.Prelude.{
  ℕ, zero, suc, ◌+◌, ◌≤◌, ◌<◌, ◌≡◌, ◌⊎◌, ℤ, pos, negsuc, is_nonzero, true, false, Option, none,
  some, List, [], ◌∷◌, ◌++◌, length,
}
use pglite4j.Wire.Exports.{Exports, ticked, trapped, missing, holds}
use pglite4j.Wire.Transport.{PgLite, Attempt, returned, thrown, concat}

-- What a tick does for the messages that were sent: it produces a reply, it traps with an error of
-- PostgreSQL that is answered after the recovery, or it traps otherwise.
pub data Event : Type 0 where
  reply error : List ℕ → Event
  crash : Event

-- `rsize` is the length of the last message, or 0 once its reply has been taken; `ready` is a reply
-- that waits; `later` is what the next ticks do; `answer` is what they do for a message.
pub record View (E : Type 0) : Type 0 where
  pub rsize : E → ℕ
  pub ready : E → Option (List ℕ)
  pub later : E → List Event
  pub answer : List ℕ → E → List Event

-- A move to another state of the module where `rsize` is as before.
abbrev pub Moved : {E : Type 0} → View E → E → Option (List ℕ) → List Event → E → Type 0
Moved v e now next e' = (v.rsize e' ≡ v.rsize e) × (v.ready e' ≡ now) × (v.later e' ≡ next)

module _ {E : Type 0} (x : Exports E) (v : View E) (base size : ℕ) where
  -- A reply lies one byte behind the message in the buffer (wasm-build/patches/postgresql-pglite/
  -- src-backend-libpq-pqcomm.c.diff puts the message at 1 and the reply at 2 + `cma_rsize`).
  pub record IsLawful : Type 0 where
    pub read_ready :
        (e : E) (c : ℕ) (bs : List ℕ)
        → x.get_channel e ≡ pos c
        → v.ready e ≡ some bs
        → (0 < length bs)
          × ((x.interactive_read e).0 ≡ pos (length bs))
          × (x.read_memory (base + v.rsize e + 1) (length bs) (x.interactive_read e).1 ≡ some bs)
          × (v.later (x.interactive_read e).1 ≡ v.later e)
    pub read_idle :
        (e : E) (c : ℕ)
        → x.get_channel e ≡ pos c
        → v.ready e ≡ none
        → ((x.interactive_read e).0 ≡ pos 0) × Moved v e none (v.later e) (x.interactive_read e).1
    pub file_ready :
        (e : E) (c : ℕ) (bs : List ℕ)
        → x.get_channel e ≡ negsuc c
        → v.ready e ≡ some bs
        → (x.out_file e ≡ holds bs)
          × (e' : E) × (x.delete_out e ≡ some e')
          × (v.later e' ≡ v.later e)
    pub file_idle :
        (e : E) (c : ℕ) → x.get_channel e ≡ negsuc c → v.ready e ≡ none → x.out_file e ≡ missing
    pub cleared :
        (e : E)
        → (v.rsize (x.interactive_write (pos 0) e) ≡ 0)
          × (v.ready (x.interactive_write (pos 0) e) ≡ none)
          × (v.later (x.interactive_write (pos 0) e) ≡ v.later e)
    pub sent :
        (e : E) (msg : List ℕ)
        → 0 < length msg
        → length msg ≤ size
        → v.ready e ≡ none
        → v.later e ≡ []
        → (e' : E) × (x.write_memory base msg (x.use_wire (pos 1) e) ≡ some e')
          × (v.rsize (x.interactive_write (pos (length msg)) e') ≡ length msg)
          × (v.ready (x.interactive_write (pos (length msg)) e') ≡ none)
          × (v.later (x.interactive_write (pos (length msg)) e') ≡ v.answer msg e)
    pub tick_idle :
        (e : E)
        → v.ready e ≡ none
        → v.later e ≡ []
        → (e' : E) × (x.interactive_one e ≡ ticked e') × Moved v e none [] e'
    pub tick_reply :
        (e : E) (bs : List ℕ) (es : List Event)
        → v.ready e ≡ none
        → v.later e ≡ reply bs ∷ es
        → (e' : E) × (x.interactive_one e ≡ ticked e') × Moved v e (some bs) es e'
    pub tick_error :
        (e : E) (bs : List ℕ) (es : List Event)
        → v.ready e ≡ none
        → v.later e ≡ error bs ∷ es
        → (e' e'' : E) × (x.interactive_one e ≡ trapped e')
          × (is_nonzero (x.pgl_check_error e').0 ≡ true)
          × (x.interactive_one
                (x.interactive_write (negsuc 0) (x.clear_error (x.pgl_check_error e').1))
              ≡ ticked e'')
          × Moved v e (some bs) [] e''
    pub tick_crash :
        (e : E) (es : List Event)
        → v.ready e ≡ none
        → v.later e ≡ crash ∷ es
        → (e' : E) × (x.interactive_one e ≡ trapped e')
          × (is_nonzero (x.pgl_check_error e').0 ≡ false)

  -- Between two ticks: no reply waits, the events `es` are to come, and the host reads a reply where
  -- the module puts it.
  pub record IsSettled (es : List Event) (h : PgLite E) : Type 0 where
    pub at_base : h.buffer_addr ≡ base
    pub synced : h.pending_wire_len ≡ v.rsize h.engine
    pub none_ready : v.ready h.engine ≡ none
    pub to_come : v.later h.engine ≡ es

-- What the ticks of a call bring: replies, with the events that are left, or an exception.
pub data TicksOutcome : Type 0 where
  answered : List (List ℕ) → List Event → TicksOutcome
  threw : TicksOutcome

abbrev pub with_reply : List ℕ → TicksOutcome → TicksOutcome
with_reply bs (answered rs es) = answered (bs ∷ rs) es
with_reply bs threw = threw

-- The replies up to the end, up to an error with its reply, or of as many ticks as there are.
unfoldable pub transcript : (ticks : ℕ) → List Event → TicksOutcome
transcript zero es = answered [] es
transcript (suc ticks) [] = answered [] []
transcript (suc ticks) (reply bs ∷ es) = with_reply bs (transcript ticks es)
transcript (suc ticks) (error bs ∷ es) = answered (bs ∷ []) []
transcript (suc ticks) (crash ∷ es) = threw

-- The whole answer, up to an error with its reply.
unfoldable pub replies : List Event → List (List ℕ)
replies [] = []
replies (reply bs ∷ es) = bs ∷ replies es
replies (error bs ∷ es) = bs ∷ []
replies (crash ∷ es) = []

-- An answer of at most `ticks` events that has no trap before its end.
unfoldable pub IsAnswer : (ticks : ℕ) → List Event → Type 0
IsAnswer zero [] = Unit {0}
IsAnswer zero (_ ∷ es) = ⊥
IsAnswer (suc ticks) [] = Unit {0}
IsAnswer (suc ticks) (reply _ ∷ es) = IsAnswer ticks es
IsAnswer (suc ticks) (error _ ∷ es) = Unit {0}
IsAnswer (suc ticks) (crash ∷ es) = ⊥

module _ {E : Type 0} (x : Exports E) (v : View E) (base size : ℕ) where
  -- A run that adds what the ticks bring to `replies`.
  abbrev pub Brings : List (List ℕ) → TicksOutcome → Attempt E (List (List ℕ)) → Type 0
  Brings replies (answered rs es) run =
      (t : PgLite E) × (run ≡ returned (replies ++ rs) t) × IsSettled x v base size es t
  Brings replies threw run = (t : PgLite E) × (run ≡ thrown t)
