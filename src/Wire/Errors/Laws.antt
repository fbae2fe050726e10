-- ===== src/Wire/Errors/Laws.antt =====
-- The flag through a call of `execProtocolRaw` of PGLite.java.
use pglite4j.Prelude.{
  ℕ, zero, suc, ◌+◌, ◌≡◌, refl, ◌∙◌, ℤ, pos, negsuc, is_nonzero, Bool, true, false, ◌||◌, Option,
  none, some, List, [], length, ◌==◌, if◌then◌else◌, arith,
}
use pglite4j.Wire.Exports.{Exports, Tick, ticked, trapped, OutFile, missing, unreadable, holds}
use pglite4j.Wire.Transport.{
  PgLite, Attempt, returned, thrown, M, and_then, ◌>>=◌, ◌>>◌, pure, on_engine?, concat, take_reply,
  wire_recv_cma, wire_recv_file, wire_recv, collect_reply, one_tick, recover, on_trap, tick_once,
  tick_loop, wire_send_cma, exec_protocol_raw,
}
use pglite4j.Wire.Engine.Laws.{nonzero-==}
use pglite4j.Wire.Errors.{
  with_rest?, with_rest, Flagged, pgl_on_error, pgl_check_error, errfinish, flagged,
}

-- No ERROR is flagged.
abbrev pub IsClear : {E : Type 0} → PgLite (Flagged E) → Type 0
IsClear h = h.engine.pgl_error_flag ≡ pos 0

-- A call that returns leaves the flag clear, and one that throws leaves what `T` says.
abbrev pub Leaves :
    {E A : Type 0} → (T : PgLite (Flagged E) → Type 0) → Attempt (Flagged E) A → Type 0
Leaves T (returned _ h) = IsClear h
Leaves T (thrown h) = T h

module _ {E : Type 0} (x : Exports E) (is_error : E → Bool) (T : PgLite (Flagged E) → Type 0)
    (clear_fits : (h : PgLite (Flagged E)) → IsClear h → T h) where
  and_then-Leaves :
      {A B : Type 0} (m : Attempt (Flagged E) A) (k : A → M (Flagged E) B)
      → Leaves T m
      → ((a : A) (h : PgLite (Flagged E)) → IsClear h → Leaves T (k a h))
      → Leaves T (and_then m k)
  and_then-Leaves (returned a h) k l next = next a h l
  and_then-Leaves (thrown h) k l next = l

  on_engine?-Leaves :
      (f : Flagged E → Option (Flagged E)) (h : PgLite (Flagged E))
      → IsClear h
      → ((s s' : Flagged E) → f s ≡ some s' → s'.pgl_error_flag ≡ s.pgl_error_flag)
      → Leaves T (on_engine? f h)
  on_engine?-Leaves f h c same = go (f h.engine) refl
    where
      go : (o : Option (Flagged E)) → f h.engine ≡ o → Leaves T (on_engine? f h)
      go none e = rw (e, on_engine?) (clear_fits h c)
      go (some s) e = rw (e, on_engine?) (same h.engine s e ∙ c)

  take_reply-Leaves :
      (len : ℕ) (h : PgLite (Flagged E))
      → IsClear h
      → Leaves T (take_reply (flagged x is_error) len h)
  unfolding take_reply flagged
  take_reply-Leaves len h c =
      go (x.read_memory (h.buffer_addr + h.pending_wire_len + 1) len h.engine.rest) refl
    where
      go :
          (o : Option (List ℕ))
          → x.read_memory (h.buffer_addr + h.pending_wire_len + 1) len h.engine.rest ≡ o
          → Leaves T (take_reply (flagged x is_error) len h)
      go none e = rw (e, take_reply) (clear_fits h c)
      go (some bs) e = rw (e, take_reply) c

  wire_recv_cma-Leaves :
      (h : PgLite (Flagged E)) → IsClear h → Leaves T (wire_recv_cma (flagged x is_error) h)
  unfolding wire_recv_cma flagged
  wire_recv_cma-Leaves h c = go ((x.interactive_read h.engine.rest).0) refl
    where
      go :
          (z : ℤ)
          → (x.interactive_read h.engine.rest).0 ≡ z
          → Leaves T (wire_recv_cma (flagged x is_error) h)
      go (negsuc n) e = rw (e, wire_recv_cma) c
      go (pos zero) e = rw (e, wire_recv_cma) c
      go (pos (suc n)) e =
          rw (e, wire_recv_cma)
            (rw (nonzero-== (suc n) (ground arith)) (
              take_reply-Leaves (suc n)
                (record h { engine = with_rest h.engine (x.interactive_read h.engine.rest).1 }) c))

  wire_recv_file-Leaves :
      (h : PgLite (Flagged E)) → IsClear h → Leaves T (wire_recv_file (flagged x is_error) h)
  unfolding wire_recv_file flagged
  wire_recv_file-Leaves h c = go (x.out_file h.engine.rest) refl (x.delete_out h.engine.rest) refl
    where
      go :
          (f : OutFile)
          → x.out_file h.engine.rest ≡ f
          → (o : Option E) → x.delete_out h.engine.rest ≡ o
          → Leaves T (wire_recv_file (flagged x is_error) h)
      go missing e o eo = rw (e, wire_recv_file) c
      go unreadable e o eo = rw (e, wire_recv_file) (clear_fits h c)
      go (holds bs) e none eo =
          rw (e, wire_recv_file) (rw (eo, ◌>>◌, ◌>>=◌, on_engine?) (clear_fits h c))
      go (holds bs) e (some s) eo = rw (e, wire_recv_file) (rw (eo, ◌>>◌, ◌>>=◌, on_engine?) c)

  wire_recv-Leaves :
      (h : PgLite (Flagged E)) → IsClear h → Leaves T (wire_recv (flagged x is_error) h)
  unfolding wire_recv flagged
  wire_recv-Leaves h c = go (x.get_channel h.engine.rest) refl
    where
      go : (z : ℤ) → x.get_channel h.engine.rest ≡ z → Leaves T (wire_recv (flagged x is_error) h)
      go (pos n) e = rw (e, wire_recv) (wire_recv_cma-Leaves h c)
      go (negsuc n) e = rw (e, wire_recv) (wire_recv_file-Leaves h c)

  collect_reply-Leaves :
      (replies : List (List ℕ)) (h : PgLite (Flagged E))
      → IsClear h
      → Leaves T (collect_reply (flagged x is_error) replies h)
  unfolding collect_reply
  collect_reply-Leaves replies h c =
      and_then-Leaves (wire_recv (flagged x is_error) h) _ (wire_recv-Leaves h c) (λ a t ct. ct)

-- The module at the tick of the recovery.
abbrev pub recovering : {E : Type 0} → Exports E → E → E
recovering x e = x.interactive_write (negsuc 0) (x.clear_error e)

module _ {E : Type 0} (x : Exports E) (is_error : E → Bool) (T : PgLite (Flagged E) → Type 0)
    (clear_fits : (h : PgLite (Flagged E)) → IsClear h → T h)
    (recovery_fits : (h : PgLite (Flagged E)) (e : E)
      → IsClear h
      → Leaves T (
          one_tick
            (flagged x is_error)
            (record h { engine = with_rest h.engine (recovering x e) }))) where
  recover-Leaves :
      (replies : List (List ℕ)) (h : PgLite (Flagged E))
      → IsClear h
      → Leaves T (recover (flagged x is_error) replies h)
  unfolding recover flagged
  recover-Leaves replies h c =
      and_then-Leaves x is_error T clear_fits
        (and_then
          (one_tick (flagged x is_error)
            (record h { engine = with_rest h.engine (recovering x h.engine.rest) }))
          (λ _. collect_reply (flagged x is_error) replies))
        (λ r. pure r.1)
        (and_then-Leaves x is_error T clear_fits
          (one_tick (flagged x is_error)
            (record h { engine = with_rest h.engine (recovering x h.engine.rest) }))
          (λ _. collect_reply (flagged x is_error) replies) (recovery_fits h h.engine.rest c)
          (λ _ t ct. collect_reply-Leaves x is_error T clear_fits replies t ct))
        (λ a t ct. ct)

  on_trap-Leaves :
      (replies : List (List ℕ)) (h : PgLite (Flagged E))
      → Leaves T (on_trap (flagged x is_error) replies h)
  unfolding on_trap flagged pgl_check_error
  on_trap-Leaves replies h = go (is_nonzero h.engine.pgl_error_flag) refl
    where
      cleared : PgLite (Flagged E)
      cleared = record h { engine = record h.engine { pgl_error_flag = pos 0 } }

      go :
          (b : Bool)
          → is_nonzero h.engine.pgl_error_flag ≡ b
          → Leaves T (on_trap (flagged x is_error) replies h)
      go true e = rw (e, on_trap) (recover-Leaves replies cleared refl)
      go false e = rw (e, on_trap) (clear_fits cleared refl)

  tick_once-Leaves :
      (more : List (List ℕ) → M (Flagged E) (List (List ℕ))) (before : Bool × List (List ℕ))
      (h : PgLite (Flagged E))
      → ((rs : List (List ℕ)) (t : PgLite (Flagged E)) → IsClear t → Leaves T (more rs t))
      → IsClear h
      → Leaves T (tick_once (flagged x is_error) more before h)
  unfolding tick_once flagged errfinish
  tick_once-Leaves more before h more_leaves c = go (x.interactive_one h.engine.rest) refl
    where
      after :
          (b : Bool) (rs : List (List ℕ)) (t : PgLite (Flagged E))
          → IsClear t
          → Leaves T ((if b then more rs else pure rs) t)
      after true rs t ct = more_leaves rs t ct
      after false rs t ct = ct

      go :
          (k : Tick E)
          → x.interactive_one h.engine.rest ≡ k
          → Leaves T (tick_once (flagged x is_error) more before h)
      go (trapped e) k =
          rw (k, tick_once)
            (on_trap-Leaves before.1 (record h {
              engine =
                  if is_error h.engine.rest
                  then pgl_on_error (with_rest h.engine e)
                  else with_rest h.engine e;
            }))
      go (ticked e) k =
          rw (k, tick_once)
            (and_then-Leaves x is_error T clear_fits
              (collect_reply (flagged x is_error) before.1
                (record h { engine = with_rest h.engine e }))
              (λ r. if before.0 || r.0 then more r.1 else pure r.1)
              (collect_reply-Leaves x is_error T clear_fits before.1
                (record h { engine = with_rest h.engine e }) c)
              (λ r t ct. after (before.0 || r.0) r.1 t ct))

  tick_loop-Leaves :
      (ticks : ℕ) (replies : List (List ℕ)) (h : PgLite (Flagged E))
      → IsClear h
      → Leaves T (tick_loop (flagged x is_error) ticks replies h)
  unfolding tick_loop
  tick_loop-Leaves zero replies h c = c
  tick_loop-Leaves (suc ticks) replies h c =
      and_then-Leaves x is_error T clear_fits (collect_reply (flagged x is_error) replies h)
        (tick_once (flagged x is_error) (λ rs. tick_loop (flagged x is_error) ticks rs))
        (collect_reply-Leaves x is_error T clear_fits replies h c)
        (λ before t ct. tick_once-Leaves _ before t (tick_loop-Leaves ticks) ct)

  wire_send_cma-Leaves :
      (msg : List ℕ) (h : PgLite (Flagged E))
      → IsClear h
      → Leaves T (wire_send_cma (flagged x is_error) msg h)
  unfolding wire_send_cma flagged
  wire_send_cma-Leaves msg h c =
      go (x.write_memory h.buffer_addr msg (x.use_wire (pos 1) h.engine.rest)) refl
    where
      go :
          (o : Option E)
          → x.write_memory h.buffer_addr msg (x.use_wire (pos 1) h.engine.rest) ≡ o
          → Leaves T (wire_send_cma (flagged x is_error) msg h)
      go none e =
          rw (e, wire_send_cma, ◌>>◌, ◌>>=◌, on_engine?, with_rest?)
            (clear_fits
              (record h { engine = with_rest h.engine (x.use_wire (pos 1) h.engine.rest) }) c)
      go (some s) e = rw (e, wire_send_cma, ◌>>◌, ◌>>=◌, on_engine?, with_rest?) c

  pub exec_protocol_raw-Leaves :
      (msg : List ℕ) (h : PgLite (Flagged E))
      → IsClear h
      → Leaves T (exec_protocol_raw (flagged x is_error) msg h)
  unfolding exec_protocol_raw
  exec_protocol_raw-Leaves msg h c =
      and_then-Leaves x is_error T clear_fits
        (and_then (send (length msg == 0) h) (λ _. tick_loop (flagged x is_error) 256 []))
        (λ replies. pure (concat replies))
        (and_then-Leaves x is_error T clear_fits (send (length msg == 0) h)
          (λ _. tick_loop (flagged x is_error) 256 []) (sent (length msg == 0))
          (λ _ t ct. tick_loop-Leaves 256 [] t ct))
        (λ a t ct. ct)
    where
      send : Bool → M (Flagged E) (Unit {0})
      send b = if b then pure tt else wire_send_cma (flagged x is_error) msg

      sent : (b : Bool) → Leaves T (send b h)
      sent true = c
      sent false = wire_send_cma-Leaves msg h c
