-- ===== src/Driver/Clients/Startup.antt =====
-- The startup of the clients of PgLiteDriver.java: the first one starts the session of PostgreSQL,
-- and what it is sent is cached for the others.
use mathlib.Core.List.{append-nil, append_assoc}
use mathlib.Core.Path.{subst}
use pglite4j.Prelude.{
  ℕ, ◌≡◌, ◌⊎◌, inl, inr, refl, sym, ap, ◌∙◌, Bool, Option, none, some, List, [], ◌∷◌, ◌++◌, arith,
}
use pglite4j.Wire.Exports.{Exports}
use pglite4j.Wire.Transport.{PgLite, Attempt, returned, thrown, exec_protocol_raw, concat}
use pglite4j.Driver.State.{
  Point, started, wants_startup, checks, reads, listens, replays, starts, hears, asks, calls,
  answers, ended, Input, Shared, keeps, leaves, Act, goes, with_host, unlock,
}
use pglite4j.Driver.Clients.{
  replay_startup, set_cached, after_startup_call, startup_loop, startup_read,
}

-- The bytes begin with the cached responses, and may go on.
abbrev pub IsStarted : (cached : Option (List (List ℕ))) → (written : List ℕ) → Type 0
IsStarted cached written =
    (rs : List (List ℕ)) × (tail : List ℕ) × (cached ≡ some rs) × (written ≡ concat rs ++ tail)

-- What a client was sent, at each point of its thread.
abbrev pub StartupFits : (cached : Option (List (List ℕ))) → Point → (written : List ℕ) → Type 0
StartupFits cached started written = written ≡ []
StartupFits cached wants_startup written = written ≡ []
StartupFits cached checks written = written ≡ []
StartupFits cached (replays _ left) written =
    (before : List (List ℕ)) × (cached ≡ some (before ++ left)) × (written ≡ concat before)
StartupFits cached (starts responses) written = (cached ≡ none) × (written ≡ concat responses)
StartupFits cached (hears responses) written = (cached ≡ none) × (written ≡ concat responses)
StartupFits cached reads written = IsStarted cached written
StartupFits cached listens written = IsStarted cached written
StartupFits cached (asks _) written = IsStarted cached written
StartupFits cached (calls _) written = IsStarted cached written
StartupFits cached (answers _) written = IsStarted cached written
StartupFits cached _ written = Unit {0}

abbrev pub ActStartup : {E : Type 0} → List ℕ → Act E → Type 0
ActStartup written a = StartupFits a.shared.cached_startup_responses a.point (written ++ a.wrote)

concat-append : (rs : List (List ℕ)) (r : List ℕ) → concat (rs ++ r ∷ []) ≡ concat rs ++ r
concat-append [] r = append-nil r
concat-append (q ∷ rs) r =
    ap (λ t. q ++ t) (concat-append rs r) ∙ sym (append_assoc q (concat rs) r)

pub more :
    (c : Option (List (List ℕ))) (w wrote : List ℕ) → IsStarted c w → IsStarted c (w ++ wrote)
more c w wrote (rs, tail, e, ew) =
    (rs, tail ++ wrote, e, ap (λ t. t ++ wrote) ew ∙ append_assoc (concat rs) tail wrote)

module _ {E : Type 0} where
  replay_startup-cases :
      (locked : Bool) (r : List ℕ) (left : List (List ℕ)) (i : Input) (s : Shared E)
      → (replay_startup locked (r ∷ left) i s ≡ goes (unlock locked) ended s)
        ⊎ (replay_startup locked (r ∷ left) i s
            ≡ record { lock = keeps; point = replays locked left; wrote = r; shared = s })
  unfolding replay_startup
  replay_startup-cases locked r left i s = ground arith

  pub by_case : (w : List ℕ) {a b : Act E} → a ≡ b → ActStartup w b → ActStartup w a
  by_case w e fits = subst (ActStartup w) (sym e) fits

  pub replay_startup-Startup :
      (locked : Bool) (left : List (List ℕ)) (i : Input) (s : Shared E) (w : List ℕ)
      → StartupFits s.cached_startup_responses (replays locked left) w
      → ActStartup w (replay_startup locked left i s)
  unfolding replay_startup
  replay_startup-Startup locked [] i s w (before, e, ew) =
      (before, [], e ∙ ap some (append-nil before), ap (λ t. t ++ []) ew)
  replay_startup-Startup locked (r ∷ left) i s w (before, e, ew) =
      elim (replay_startup-cases locked r left i s) [
        | inl out ↦ by_case w out tt
        | inr on ↦ by_case w on (
          before ++ r ∷ [],
          e ∙ ap some (sym (append_assoc before (r ∷ []) left)),
          ap (λ t. t ++ r) ew ∙ sym (concat-append before r),
        )
      ]

  after_startup_call-cases :
      (rs : List (List ℕ)) (r : List ℕ) (h : PgLite E) (i : Input) (s : Shared E)
      → (after_startup_call rs (returned r h) i s ≡ goes leaves ended (with_host s h))
        ⊎ ((after_startup_call rs (returned r h) i s ≡ record {
          lock = leaves;
          point = reads;
          wrote = r;
          shared = set_cached (rs ++ r ∷ []) (with_host s h);
        })
            ⊎ (after_startup_call rs (returned r h) i s ≡ record {
              lock = keeps;
              point = starts (rs ++ r ∷ []);
              wrote = r;
              shared = with_host s h;
            }))
  unfolding after_startup_call
  after_startup_call-cases rs r h i s = ground arith

  after_startup_call-Startup :
      (rs : List (List ℕ)) (run : Attempt E (List ℕ)) (i : Input) (s : Shared E) (w : List ℕ)
      → StartupFits s.cached_startup_responses (starts rs) w
      → ActStartup w (after_startup_call rs run i s)
  unfolding after_startup_call
  after_startup_call-Startup rs (thrown h) i s w fits = tt
  after_startup_call-Startup rs (returned r h) i s w (e, ew) =
      let sent : w ++ r ≡ concat (rs ++ r ∷ []) = ap (λ t. t ++ r) ew ∙ sym (concat-append rs r) in
      elim (after_startup_call-cases rs r h i s) [
        | inl out ↦ by_case w out tt
        | inr (inl last) ↦
            by_case w last (rs ++ r ∷ [], [], refl, sent ∙ sym (append-nil (concat (rs ++ r ∷ []))))
        | inr (inr on) ↦ by_case w on (e, sent)
      ]

  pub same-IsStarted :
      (s : Shared E) (w : List ℕ)
      → IsStarted s.cached_startup_responses w
      → IsStarted s.cached_startup_responses (w ++ [])
  same-IsStarted s w fits = more s.cached_startup_responses w [] fits

  startup_loop-cases :
      (rs : List (List ℕ)) (s : Shared E)
      → (startup_loop rs s ≡ goes keeps (hears rs) s)
        ⊎ (startup_loop rs s ≡ goes leaves reads (set_cached rs s))
  unfolding startup_loop
  startup_loop-cases rs s = ground arith

  pub startup_loop-Startup :
      (rs : List (List ℕ)) (s : Shared E) (w : List ℕ)
      → StartupFits s.cached_startup_responses (starts rs) w
      → ActStartup w (startup_loop rs s)
  startup_loop-Startup rs s w (e, ew) = elim (startup_loop-cases rs s) [
    | inl on ↦ by_case w on (e, ap (λ t. t ++ []) ew ∙ append-nil (concat rs))
    | inr stopped ↦ by_case w stopped (rs, [], refl, ap (λ t. t ++ []) ew)
  ]

module _ {E : Type 0} (x : Exports E) where
  startup_read-cases :
      (rs : List (List ℕ)) (i : Input) (s : Shared E)
      → (startup_read x rs i s ≡ goes leaves ended s)
        ⊎ ((run : Attempt E (List ℕ)) × (startup_read x rs i s ≡ after_startup_call rs run i s))
  unfolding startup_read
  startup_read-cases rs i s = go i.received refl
    where
      go :
          (r : Option (List ℕ))
          → i.received ≡ r
          → (startup_read x rs i s ≡ goes leaves ended s)
            ⊎ ((run : Attempt E (List ℕ)) × (startup_read x rs i s ≡ after_startup_call rs run i s))
      go none er = inl (ground arith)
      go (some []) er = inl (ground arith)
      go (some (b ∷ m)) er = inr (exec_protocol_raw x (b ∷ m) s.host, ground arith)

  pub startup_read-Startup :
      (rs : List (List ℕ)) (i : Input) (s : Shared E) (w : List ℕ)
      → StartupFits s.cached_startup_responses (hears rs) w
      → ActStartup w (startup_read x rs i s)
  startup_read-Startup rs i s w fits = elim (startup_read-cases rs i s) [
    | inl out ↦ by_case w out tt
    | inr (run, on) ↦ by_case w on (after_startup_call-Startup rs run i s w fits)
  ]
