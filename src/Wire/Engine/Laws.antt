-- ===== src/Wire/Engine/Laws.antt =====
-- `execProtocolRaw` of PGLite.java over a lawful module.
use mathlib.Core.List.{append-nil, append_assoc}
use mathlib.Core.Path.{subst}
use pglite4j.Prelude.{
  ℕ, zero, suc, ◌+◌, ◌<◌, ◌≡◌, ◌⊎◌, inl, inr, refl, sym, ap, ◌∙◌, ℤ, pos, negsuc, is_nonzero, true,
  false, none, some, List, [], ◌∷◌, ◌++◌, length, ◌==◌, if◌then◌else◌, arith,
}
use pglite4j.Wire.Exports.{Exports, ticked, trapped}
use pglite4j.Wire.Transport.{
  and_then, ◌>>◌, ◌>>=◌, on_engine?, pure, PgLite, Attempt, returned, thrown, take_reply,
  wire_recv_cma, wire_recv_file, wire_recv, collect_reply, one_tick, recover, on_trap, tick_once,
  tick_loop,
}
use pglite4j.Wire.Engine.{
  Brings, Event, reply, error, crash, View, Moved, IsLawful, IsSettled, TicksOutcome, answered,
  threw, with_reply, transcript,
}

-- A channel of either sign.
ℤ-cases : (z : ℤ) → ((c : ℕ) × (z ≡ pos c)) ⊎ ((c : ℕ) × (z ≡ negsuc c))
ℤ-cases (pos c) = inl (c, refl)
ℤ-cases (negsuc c) = inr (c, refl)

pub nonzero-== : (n : ℕ) → 0 < n → (n == 0) ≡ false
nonzero-== n h = ground arith

module _ {E : Type 0} (x : Exports E) (v : View E) (base size : ℕ)
    (law : IsLawful x v base size) where
  recv_idle :
      (es : List Event) (h : PgLite E)
      → IsSettled x v base size es h
      → (t : PgLite E) × (wire_recv x h ≡ returned none t) × IsSettled x v base size es t
  unfolding wire_recv
  recv_idle es h s = elim (ℤ-cases (x.get_channel h.engine)) [
    | inl (c, e) ↦
        let (none_read, moved) = law.read_idle h.engine c e s.none_ready in
        (
          record h { engine = (x.interactive_read h.engine).1 },
          rw (e, wire_recv) (rw (none_read, wire_recv_cma)),
          record {
            at_base = s.at_base;
            synced = s.synced ∙ sym (moved.0);
            none_ready = moved.1;
            to_come = moved.2 ∙ s.to_come;
          },
        )
    | inr (c, e) ↦
        let gone = law.file_idle h.engine c e s.none_ready in
        (h, rw (e, wire_recv) (rw (gone, wire_recv_file)), s)
  ]

  -- The host of a call that took a reply which the module `e` held out.
  abbrev taken : (h : PgLite E) (e : E) → PgLite E
  taken h e = record h { engine = x.interactive_write (pos 0) e; pending_wire_len = 0 }

  taken-IsSettled :
      (es : List Event) (h : PgLite E) (e : E)
      → h.buffer_addr ≡ base
      → v.later e ≡ es
      → IsSettled x v base size es (taken h e)
  taken-IsSettled es h e at_base to_come = record {
    at_base = at_base;
    synced = sym (law.cleared e).0;
    none_ready = (law.cleared e).1;
    to_come = (law.cleared e).2 ∙ to_come;
  }

  take_reply-engine :
      (bs : List ℕ) (len : ℕ) (h : PgLite E)
      → x.read_memory (h.buffer_addr + h.pending_wire_len + 1) len h.engine ≡ some bs
      → take_reply x len h ≡ returned (some bs) (taken h h.engine)
  unfolding take_reply
  take_reply-engine bs len h read = rw (read, take_reply)

  wire_recv_cma-engine :
      (bs : List ℕ) (n : ℕ) (h : PgLite E)
      → 0 < n
      → (x.interactive_read h.engine).0 ≡ pos n
      → x.read_memory (h.buffer_addr + h.pending_wire_len + 1) n (x.interactive_read h.engine).1
        ≡ some bs
      → wire_recv_cma x h ≡ returned (some bs) (taken h (x.interactive_read h.engine).1)
  unfolding wire_recv_cma
  wire_recv_cma-engine bs n h some_bytes len read =
      rw (len, wire_recv_cma) (rw (nonzero-== n some_bytes) (take_reply-engine bs n _ read))

  -- A reply that waits is taken, and the module is ready for the next tick.
  recv_ready :
      (es : List Event) (bs : List ℕ) (h : PgLite E)
      → h.buffer_addr ≡ base
      → h.pending_wire_len ≡ v.rsize h.engine
      → v.ready h.engine ≡ some bs
      → v.later h.engine ≡ es
      → (t : PgLite E) × (wire_recv x h ≡ returned (some bs) t) × IsSettled x v base size es t
  unfolding wire_recv
  recv_ready es bs h at_base synced ready to_come = elim (ℤ-cases (x.get_channel h.engine)) [
    | inl (c, e) ↦
        let (some_bytes, len, read, later) = law.read_ready h.engine c bs e ready in
        let e' = (x.interactive_read h.engine).1 in
        (
          taken h e',
          rw (e, wire_recv)
              (wire_recv_cma-engine bs (length bs) h some_bytes len (rw (at_base, synced) read)),
          taken-IsSettled es h e' at_base (later ∙ to_come),
        )
    | inr (c, e) ↦
        let (found, e', deleted, later) = law.file_ready h.engine c bs e ready in
        (
          taken h e',
          rw (e, wire_recv) (rw (found, wire_recv_file) (rw (deleted, ◌>>◌, ◌>>=◌, on_engine?))),
          taken-IsSettled es h e' at_base (later ∙ to_come),
        )
  ]

  collect_idle :
      (es : List Event) (replies : List (List ℕ)) (h : PgLite E)
      → IsSettled x v base size es h
      → (t : PgLite E) × (collect_reply x replies h ≡ returned (false, replies) t)
        × IsSettled x v base size es t
  unfolding collect_reply
  collect_idle es replies h s =
      let (t, none_came, settled) = recv_idle es h s in
      (t, rw (none_came, collect_reply, ◌>>=◌), settled)

  -- After a tick that produced `bs`.
  collect_ready :
      (es : List Event) (bs : List ℕ) (replies : List (List ℕ)) (h : PgLite E) (e : E)
      → h.buffer_addr ≡ base
      → h.pending_wire_len ≡ v.rsize h.engine
      → Moved v h.engine (some bs) es e
      → (t : PgLite E) × (collect_reply x replies (record h { engine = e })
          ≡ returned (true, replies ++ bs ∷ []) t)
        × IsSettled x v base size es t
  unfolding collect_reply
  collect_ready es bs replies h e at_base synced moved =
      let (t, came, settled) =
        recv_ready es bs (record h { engine = e }) at_base (synced ∙ sym moved.0) moved.1 moved.2 in
      (t, rw (came, collect_reply, ◌>>=◌), settled)

  tick_loop-ticked :
      (ticks : ℕ) (replies : List (List ℕ)) (h t : PgLite E) (e : E)
      → collect_reply x replies h ≡ returned (false, replies) t
      → x.interactive_one t.engine ≡ ticked e
      → tick_loop x (suc ticks) replies h
        ≡ and_then
            (collect_reply x replies (record t { engine = e }))
            (λ after. if after.0 then tick_loop x ticks after.1 else pure after.1)
  unfolding tick_loop
  tick_loop-ticked ticks replies h t e before tick =
      rw (before, tick_loop, ◌>>=◌) (rw (tick, tick_once))

  tick_loop-trapped :
      (ticks : ℕ) (replies : List (List ℕ)) (h t : PgLite E) (e : E)
      → collect_reply x replies h ≡ returned (false, replies) t
      → x.interactive_one t.engine ≡ trapped e
      → tick_loop x (suc ticks) replies h ≡ on_trap x replies (record t { engine = e })
  unfolding tick_loop
  tick_loop-trapped ticks replies h t e before tick =
      rw (before, tick_loop, ◌>>=◌) (rw (tick, tick_once))

  on_trap-error :
      (bs : List ℕ) (replies : List (List ℕ)) (h : PgLite E) (e e'' : E)
      → h.buffer_addr ≡ base
      → h.pending_wire_len ≡ v.rsize h.engine
      → is_nonzero (x.pgl_check_error e).0 ≡ true
      → x.interactive_one (x.interactive_write (negsuc 0) (x.clear_error (x.pgl_check_error e).1))
        ≡ ticked e''
      → Moved v h.engine (some bs) [] e''
      → (t : PgLite E) × (on_trap x replies (record h { engine = e })
          ≡ returned (replies ++ bs ∷ []) t)
        × IsSettled x v base size [] t
  unfolding on_trap
  on_trap-error bs replies h e e'' at_base synced is_error again moved =
      let (t, came, settled) = collect_ready [] bs replies h e'' at_base synced moved in
      (t, rw (is_error, on_trap) (rw (again, recover, ◌>>◌, ◌>>=◌, one_tick) (rw came)), settled)

  on_trap-crash :
      (replies : List (List ℕ)) (h : PgLite E) (e : E)
      → is_nonzero (x.pgl_check_error e).0 ≡ false
      → on_trap x replies (record h { engine = e })
        ≡ thrown (record h { engine = (x.pgl_check_error e).1 })
  unfolding on_trap
  on_trap-crash replies h e other = rw (other, on_trap)

  Brings-with_reply :
      (replies : List (List ℕ)) (bs : List ℕ) (o : TicksOutcome) (run : Attempt E (List (List ℕ)))
      → Brings x v base size (replies ++ bs ∷ []) o run
      → Brings x v base size replies (with_reply bs o) run
  Brings-with_reply replies bs (answered rs es) run (t, e, s) =
      (t, e ∙ ap (λ l. returned l t) (append_assoc replies (bs ∷ []) rs), s)
  Brings-with_reply replies bs threw run b = b

  pub tick_loop-transcript :
      (ticks : ℕ) (es : List Event) (replies : List (List ℕ)) (h : PgLite E)
      → IsSettled x v base size es h
      → Brings x v base size replies (transcript ticks es) (tick_loop x ticks replies h)
  unfolding tick_loop transcript
  tick_loop-transcript zero es replies h s =
      (h, ap (λ l. returned l h) (sym (append-nil replies)), s)
  tick_loop-transcript (suc ticks) [] replies h s =
      let (t, before, st) = collect_idle [] replies h s in
      let (e, tick, moved) = law.tick_idle t.engine st.none_ready st.to_come in
      let settled : IsSettled x v base size [] (record t { engine = e }) = record {
        at_base = st.at_base;
        synced = st.synced ∙ sym moved.0;
        none_ready = moved.1;
        to_come = moved.2;
      } in
      let (u, after, su) = collect_idle [] replies (record t { engine = e }) settled in
      (
        u,
        tick_loop-ticked ticks replies h t e before tick
            ∙ rw (after, and_then) (ap (λ l. returned l u) (sym (append-nil replies))),
        su,
      )
  tick_loop-transcript (suc ticks) (reply bs ∷ es) replies h s =
      let (t, before, st) = collect_idle (reply bs ∷ es) replies h s in
      let (e, tick, moved) = law.tick_reply t.engine bs es st.none_ready st.to_come in
      let (u, after, su) = collect_ready es bs replies t e st.at_base st.synced moved in
      subst (Brings x v base size replies (with_reply bs (transcript ticks es)))
        (sym (tick_loop-ticked ticks replies h t e before tick ∙ rw (after, and_then) refl))
        (Brings-with_reply replies bs (transcript ticks es) _
          (tick_loop-transcript ticks es (replies ++ bs ∷ []) u su))
  tick_loop-transcript (suc ticks) (error bs ∷ es) replies h s =
      let (t, before, st) = collect_idle (error bs ∷ es) replies h s in
      let (e, e'', tick, is_error, again, moved) =
        law.tick_error t.engine bs es st.none_ready st.to_come in
      let (u, run, su) =
        on_trap-error bs replies t e e'' st.at_base st.synced is_error again moved in
      (u, tick_loop-trapped ticks replies h t e before tick ∙ run, su)
  tick_loop-transcript (suc ticks) (crash ∷ es) replies h s =
      let (t, before, st) = collect_idle (crash ∷ es) replies h s in
      let (e, tick, other) = law.tick_crash t.engine es st.none_ready st.to_come in
      (_, tick_loop-trapped ticks replies h t e before tick ∙ on_trap-crash replies t e other)
