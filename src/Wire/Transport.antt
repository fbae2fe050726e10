-- ===== src/Wire/Transport.antt =====
-- `execProtocolRaw` of PGLite.java and the methods that it calls. A call returns, or throws.
use pglite4j.Prelude.{
  ℕ, zero, suc, ◌+◌, pos, negsuc, is_nonzero, Bool, true, false, ◌||◌, Option, none, some, List, [],
  ◌∷◌, ◌++◌, length, ◌==◌, if◌then◌else◌,
}
use pglite4j.Wire.Exports.{Exports, ticked, trapped, missing, unreadable, holds}

-- The fields of a `PGLite` that its calls use. `engine` is the state of the module.
pub record PgLite (E : Type 0) : Type 0 where
  pub engine : E
  pub buffer_addr : ℕ
  pub pending_wire_len : ℕ

pub data Attempt (E A : Type 0) : Type 0 where
  returned : A → PgLite E → Attempt E A
  thrown : PgLite E → Attempt E A

abbrev pub M : (E A : Type 0) → Type 0
M E A = PgLite E → Attempt E A

module _ {E A B : Type 0} where
  abbrev pub and_then : Attempt E A → (A → M E B) → Attempt E B
  and_then (returned a h) k = k a h
  and_then (thrown h) k = thrown h

  infixl 5 ◌>>=◌ ◌>>◌
  abbrev pub ◌>>=◌ : M E A → (A → M E B) → M E B
  m >>= k = λ h. and_then (m h) k

  abbrev pub ◌>>◌ : M E A → M E B → M E B
  m >> n = m >>= λ _. n

abbrev pub pure : {E A : Type 0} → A → M E A
pure = returned

abbrev pub on_engine : {E : Type 0} → (E → E) → M E (Unit {0})
on_engine f h = returned tt (record h { engine = f h.engine })

-- A call that throws where it gives `none`.
abbrev pub on_engine? : {E : Type 0} → (E → Option E) → M E (Unit {0})
on_engine? f h = elim (f h.engine) [
  | none ↦ thrown h
  | some e ↦ returned tt (record h { engine = e })
]

abbrev pub set_pending : {E : Type 0} → ℕ → M E (Unit {0})
set_pending n h = returned tt (record h { pending_wire_len = n })

-- `concat(replies)`
abbrev pub concat : List (List ℕ) → List ℕ
concat [] = []
concat (r ∷ rs) = r ++ concat rs

module _ {E : Type 0} (x : Exports E) where
  unfoldable pub wire_send_cma : (msg : List ℕ) → M E (Unit {0})
  wire_send_cma msg h =
      (on_engine (x.use_wire (pos 1))
          >> on_engine? (x.write_memory h.buffer_addr msg)
          >> on_engine (x.interactive_write (pos (length msg)))
          >> set_pending (length msg))
        h

  -- The `len` bytes of a reply, once `interactiveRead` gave their number.
  unfoldable pub take_reply : (len : ℕ) → M E (Option (List ℕ))
  take_reply len h = elim (x.read_memory (h.buffer_addr + h.pending_wire_len + 1) len h.engine) [
    | none ↦ thrown h
    | some resp ↦ (on_engine (x.interactive_write (pos 0)) >> set_pending 0 >> pure (some resp)) h
  ]

  -- `none` is the answer `null`.
  unfoldable pub wire_recv_cma : M E (Option (List ℕ))
  unfolding take_reply
  wire_recv_cma h =
      let answer = x.interactive_read h.engine in
      let h' = record h { engine = answer.1 } in
      elim (answer.0) [
        | negsuc _ ↦ returned none h'
        | pos len ↦ if len == 0 then returned none h' else take_reply len h'
      ]

  unfoldable pub wire_recv_file : M E (Option (List ℕ))
  wire_recv_file h = elim (x.out_file h.engine) [
    | missing ↦ returned none h
    | unreadable ↦ thrown h
    | holds resp ↦
        (on_engine? x.delete_out
            >> on_engine (x.interactive_write (pos 0))
            >> set_pending 0
            >> pure (some resp))
          h
  ]

  -- The transport that the channel names.
  unfoldable pub wire_recv : M E (Option (List ℕ))
  unfolding wire_recv_file wire_recv_cma
  wire_recv h = elim (x.get_channel h.engine) [
    | negsuc _ ↦ wire_recv_file h
    | pos _ ↦ wire_recv_cma h
  ]

  -- Whether a reply came, and the list with it.
  abbrev pub added : List (List ℕ) → Option (List ℕ) → Bool × List (List ℕ)
  added replies none = (false, replies)
  added replies (some resp) = (true, replies ++ resp ∷ [])

  unfoldable pub collect_reply : List (List ℕ) → M E (Bool × List (List ℕ))
  unfolding wire_recv
  collect_reply replies = wire_recv >>= λ r. pure (added replies r)

  -- `interactiveOne` where nothing catches what it throws.
  unfoldable pub one_tick : M E (Unit {0})
  one_tick h = elim (x.interactive_one h.engine) [
    | ticked e ↦ returned tt (record h { engine = e })
    | trapped e ↦ thrown (record h { engine = e })
  ]

  -- The `catch` block, after the test of `pglCheckError`.
  unfoldable pub recover : List (List ℕ) → M E (List (List ℕ))
  unfolding one_tick collect_reply
  recover replies =
      on_engine x.clear_error
      >> on_engine (x.interactive_write (negsuc 0))
      >> one_tick
      >> collect_reply replies
      >>= λ r. pure (r.1)

  unfoldable pub on_trap : List (List ℕ) → M E (List (List ℕ))
  unfolding recover
  on_trap replies h =
      let check = x.pgl_check_error h.engine in
      let h' = record h { engine = check.1 } in
      if is_nonzero check.0 then recover replies h' else thrown h'

  -- A round of the loop, after its first `collectReply`; `more` are the rounds after it.
  unfoldable pub tick_once :
      (more : List (List ℕ) → M E (List (List ℕ)))
      → (before : Bool × List (List ℕ)) → M E (List (List ℕ))
  unfolding collect_reply on_trap
  tick_once more before h = elim (x.interactive_one h.engine) [
    | trapped e ↦ on_trap before.1 (record h { engine = e })
    | ticked e ↦
        (collect_reply before.1 >>= λ after.
        if before.0 || after.0 then more after.1 else pure after.1)
          (record h { engine = e })
  ]

  -- The loop, with the ticks left.
  unfoldable pub tick_loop : (ticks : ℕ) → List (List ℕ) → M E (List (List ℕ))
  unfolding tick_once
  tick_loop zero replies = pure replies
  tick_loop (suc ticks) replies = collect_reply replies >>= tick_once (λ rs. tick_loop ticks rs)

  unfoldable pub exec_protocol_raw : (message : List ℕ) → M E (List ℕ)
  unfolding wire_send_cma tick_loop
  exec_protocol_raw message =
      let send = if length message == 0 then pure tt else wire_send_cma message in
      send >> tick_loop 256 [] >>= λ replies. pure (concat replies)
