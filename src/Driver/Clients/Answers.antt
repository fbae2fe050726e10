-- ===== src/Driver/Clients/Answers.antt =====
-- The answers that the clients of PgLiteDriver.java get, over a module that keeps the laws of
-- Wire/Engine.
use mathlib.Core.Path.{subst}
use pglite4j.Prelude.{ℕ, ◌≡◌, ◌≤◌, refl, sym, false, Option, none, some, List, [], ◌∷◌, arith}
use pglite4j.Prelude.Text.{codes}
use pglite4j.Wire.Exports.{Exports}
use pglite4j.Wire.Transport.{PgLite, returned, exec_protocol_raw, concat, ◌>>◌, ◌>>=◌}
use pglite4j.Wire.Frame.{build_simple_query}
use pglite4j.Wire.Engine.{View, IsLawful, IsSettled, IsAnswer, replies}
use pglite4j.Wire.Session.{exec_protocol_raw-IsAnswer}
use pglite4j.Driver.Clients.Locking.{take_move-moved}
use pglite4j.Driver.State.{
  Point, started, wants_startup, checks, reads, listens, replays, starts, hears, asks, calls,
  answers, wants_backup, backs_up, closes, wants_dump, dumps, shuts, ended, Input, Shared, keeps,
  leaves, Act, goes, with_host,
}
use pglite4j.Driver.Clients.{
  replay_startup, after_startup_call, startup_loop, startup_read, message_loop, message_read,
  call_message, answer_message, exec_query, dump_queries, locked_dump, act, System, advance,
}
use pglite4j.Driver.Clients.Served.{
  IsMessage, PointFits, InputFits, is_shuts, Served, boots, goes_on, IsServed, ActServed,
  false_is_not_true, plain-PointFits, fresh-PointFits, update-PointFits, IsPlain,
  replay_startup-IsPlain, startup_loop-IsPlain, message_loop-IsPlain, after_startup_call-IsPlain,
  answer_message-IsPlain, begins-IsPlain, locked_dump-IsPlain,
}

module _ {E : Type 0} (x : Exports E) (v : View E) (base size : ℕ) (law : IsLawful x v base size)
    (short : (msg : List ℕ) (e : E) → IsAnswer 256 (v.answer msg e)) where
  by_case : {a b : Act E} → a ≡ b → ActServed x v base size b → ActServed x v base size a
  by_case e fits = subst (ActServed x v base size) (sym e) fits

  call-IsSettled :
      (msg : List ℕ) (h : PgLite E)
      → IsMessage size msg
      → IsSettled x v base size [] h
      → (t : PgLite E) × (exec_protocol_raw x msg h
          ≡ returned (concat (replies (v.answer msg h.engine))) t)
        × IsSettled x v base size [] t
  call-IsSettled msg h m s =
      exec_protocol_raw-IsAnswer x v base size law msg h m.0 m.1 (short msg h.engine) s

  call_message-Served :
      (msg : List ℕ) (s : Shared E)
      → IsMessage size msg
      → IsSettled x v base size [] s.host
      → ActServed x v base size (call_message x msg s)
  unfolding call_message ActServed
  call_message-Served msg s m settled =
      let (t, call, st) = call-IsSettled msg s.host m settled in
      let r = concat (replies (v.answer msg s.host.engine)) in
      by_case {a = call_message x msg s} {b = goes leaves (answers r) (with_host s t)}
        (rw (call, call_message)) (st, tt)

  exec_query-IsSettled :
      (sql msg : List ℕ) (h : PgLite E)
      → build_simple_query sql ≡ some msg
      → IsMessage size msg
      → IsSettled x v base size [] h
      → (r : List ℕ) × (t : PgLite E) × (exec_query x sql h ≡ returned r t)
        × IsSettled x v base size [] t
  unfolding exec_query
  exec_query-IsSettled sql msg h built m settled =
      let (t, call, st) = call-IsSettled msg h m settled in
      (concat (replies (v.answer msg h.engine)), t, rw (built, exec_query) call, st)

  dump_queries-IsSettled :
      (h : PgLite E)
      → 20 ≤ size
      → IsSettled x v base size [] h
      → (t : PgLite E) × (dump_queries x h ≡ returned tt t) × IsSettled x v base size [] t
  unfolding dump_queries build_simple_query
  dump_queries-IsSettled h room settled =
      let (r, t, vacuum, st) =
        exec_query-IsSettled (codes "VACUUM FREEZE;") _ h refl (ground arith, ground arith)
          settled in
      let (q, u, checkpoint, su) =
        exec_query-IsSettled (codes "CHECKPOINT;") _ t refl (ground arith, ground arith) st in
      (u, rw (vacuum, dump_queries, ◌>>◌, ◌>>=◌) (rw checkpoint), su)

  plain-Served :
      (h : PgLite E) (a : Act E)
      → IsPlain h a
      → IsSettled x v base size [] h
      → ActServed x v base size a
  unfolding ActServed
  plain-Served h a (same, plain) s =
      (subst (IsSettled x v base size []) (sym same) s, plain-PointFits size a.point plain)

  startup_read-Served :
      (rs : List (List ℕ)) (i : Input) (s : Shared E)
      → InputFits size i
      → IsSettled x v base size [] s.host
      → ActServed x v base size (startup_read x rs i s)
  unfolding startup_read
  startup_read-Served rs i s fits settled = go i.received refl
    where
      go : (r : Option (List ℕ)) → i.received ≡ r → ActServed x v base size (startup_read x rs i s)
      go none er = plain-Served s.host (startup_read x rs i s) (ground arith, ground arith) settled
      go (some []) er =
          plain-Served s.host (startup_read x rs i s) (ground arith, ground arith) settled
      go (some (b ∷ m)) er =
          let (t, call, st) =
            call-IsSettled (b ∷ m) s.host (ground arith, fits (b ∷ m) er) settled in
          let now : startup_read x rs i s
              ≡ after_startup_call rs
                  (returned (concat (replies (v.answer (b ∷ m) s.host.engine))) t) i s =
            ground (arith, call) in
          by_case now (plain-Served t _ (after_startup_call-IsPlain rs _ t i s) st)

  message_read-Served :
      (i : Input) (s : Shared E)
      → InputFits size i
      → IsSettled x v base size [] s.host
      → ActServed x v base size (message_read i s)
  unfolding message_read ActServed
  message_read-Served i s fits settled = go i.received refl
    where
      go : (r : Option (List ℕ)) → i.received ≡ r → ActServed x v base size (message_read i s)
      go none er = plain-Served s.host (message_read i s) (ground arith, ground arith) settled
      go (some []) er = plain-Served s.host (message_read i s) (ground arith, ground arith) settled
      go (some (b ∷ m)) er =
          let now : message_read i s ≡ goes keeps (asks (b ∷ m)) s = ground arith in
          by_case now (settled, (ground arith, fits (b ∷ m) er))

  act-Served :
      (p : Point) (i : Input) (s : Shared E)
      → 20 ≤ size
      → InputFits size i
      → is_shuts p ≡ false
      → PointFits size p
      → IsSettled x v base size [] s.host
      → ActServed x v base size (act x p i s)
  unfolding act ActServed
  act-Served started i s room inp on fits settled =
      plain-Served s.host (act x started i s) (begins-IsPlain x i s).0 settled
  act-Served wants_startup i s room inp on fits settled = (settled, tt)
  act-Served checks i s room inp on fits settled =
      plain-Served s.host (act x checks i s) (begins-IsPlain x i s).1 settled
  act-Served (replays locked left) i s room inp on fits settled =
      plain-Served s.host (replay_startup locked left i s) (replay_startup-IsPlain locked left i s)
        settled
  act-Served (starts rs) i s room inp on fits settled =
      plain-Served s.host (startup_loop rs s) (startup_loop-IsPlain rs s) settled
  act-Served (hears rs) i s room inp on fits settled = startup_read-Served rs i s inp settled
  act-Served reads i s room inp on fits settled =
      plain-Served s.host (message_loop s) (message_loop-IsPlain s) settled
  act-Served listens i s room inp on fits settled = message_read-Served i s inp settled
  act-Served (asks m) i s room inp on fits settled = (settled, fits)
  act-Served (calls m) i s room inp on fits settled = call_message-Served m s fits settled
  act-Served (answers r) i s room inp on fits settled =
      plain-Served s.host (answer_message x r i s) (answer_message-IsPlain x r i s) settled
  act-Served wants_backup i s room inp on fits settled = (settled, tt)
  act-Served backs_up i s room inp on fits settled =
      let (t, dump, st) = dump_queries-IsSettled s.host room settled in
      plain-Served t (locked_dump x wants_backup i s)
        (locked_dump-IsPlain x wants_backup i s t refl dump) st
  act-Served closes i s room inp on fits settled =
      plain-Served s.host (act x closes i s) (begins-IsPlain x i s).2 settled
  act-Served wants_dump i s room inp on fits settled = (settled, tt)
  act-Served dumps i s room inp on fits settled =
      let (t, dump, st) = dump_queries-IsSettled s.host room settled in
      plain-Served t (locked_dump x shuts i s) (locked_dump-IsPlain x shuts i s t refl dump) st
  act-Served shuts i s room inp on fits settled = absurd (false_is_not_true (sym on))
  act-Served ended i s room inp on fits settled = (settled, tt)

  advance-IsServed :
      (s s' : System E) (t : ℕ) (i : Input)
      → 20 ≤ size
      → InputFits size i
      → is_shuts (s.point t) ≡ false
      → advance x t i s ≡ some s'
      → IsServed x v base size s
      → IsServed x v base size s'
  unfolding advance ActServed
  advance-IsServed s s' t i room inp on moves served =
      let a = act x (s.point t) i s.shared in
      let (l, same, _) = take_move-moved t a s s' moves in
      let (settled, fits) =
        act-Served (s.point t) i s.shared room inp on (served.fits t) served.settled in
      subst (IsServed x v base size) (sym same) (record {
        settled = settled;
        fits = λ u. update-PointFits size s.point a.point u t fits (served.fits u);
      })

  Served-IsServed : (s : System E) → 20 ≤ size → Served x v base size s → IsServed x v base size s
  Served-IsServed _ room (boots s fresh settled) = record {
    settled = settled;
    fits = λ t. fresh-PointFits size (s.point t) (fresh t);
  }
  Served-IsServed _ room (goes_on s s' t i before inp on moves) =
      advance-IsServed s s' t i room inp on moves (Served-IsServed s room before)

  -- Over a module that keeps the laws of Wire/Engine, whose buffer takes every read and whose
  -- answers are complete within a call, and until the last `close`: in whatever order the threads
  -- move, the call of a client returns the whole answer that the module gives to the message of
  -- this client, and nothing else.
  pub call_message_lem :
      (s : System E) (t : ℕ) (i : Input) (msg : List ℕ)
      → 20 ≤ size
      → Served x v base size s
      → s.point t ≡ calls msg
      → (h : PgLite E) × (act x (s.point t) i s.shared
          ≡ goes leaves
              (answers (concat (replies (v.answer msg s.shared.host.engine))))
              (with_host s.shared h))
  unfolding act call_message
  call_message_lem s t i msg room r e =
      let served = Served-IsServed s room r in
      let m : IsMessage size msg = subst (PointFits size) e (served.fits t) in
      let (h, call, _) = call-IsSettled msg s.shared.host m served.settled in
      (h, rw (e, act) (rw (call, call_message)))
