-- ===== src/Driver/Clients/Cache.antt =====
-- The cached startup of PgLiteDriver.java, in every state that the threads can reach.
use mathlib.Core.Path.{subst}
use pglite4j.Prelude.{
  ℕ, ◌≡◌, ◌⊎◌, inl, inr, refl, sym, ap, ◌∙◌, Bool, true, false, Option, none, some, List, [], ◌∷◌,
  ◌++◌, ◌==◌, ==_iff, arith, Bool-cases,
}
use pglite4j.Wire.Exports.{Exports}
use pglite4j.Wire.Transport.{concat}
use pglite4j.Driver.State.{
  Point, started, wants_startup, checks, reads, listens, replays, starts, hears, asks, calls,
  answers, wants_backup, backs_up, closes, wants_dump, dumps, shuts, ended, holds, Input, Shared,
  Act,
}
use pglite4j.Driver.Clients.{
  replay_startup, message_loop, message_read, call_message, answer_message, locked_dump, act,
  System, moved, advance, IsFresh, Reached, boot, then_moves,
}
use pglite4j.Driver.Clients.Locking.{one_holder, take_move-moved}
use pglite4j.Driver.Clients.Startup.{IsStarted, StartupFits}
use pglite4j.Driver.Clients.Points.{act-Startup}

none_is_some : {a : List (List ℕ)} → none ≡ some a → ⊥
none_is_some e = cc

false_is_not_true : false ≡ true → ⊥
false_is_not_true e = cc

some-injective : {a b : List (List ℕ)} → some a ≡ some b → a ≡ b
some-injective e = cc

-- The points of the loop of messages.
abbrev pub is_past : Point → Bool
is_past reads = true
is_past listens = true
is_past (asks _) = true
is_past (calls _) = true
is_past (answers _) = true
is_past _ = false

past-IsStarted :
    (cached : Option (List (List ℕ))) (p : Point) (w : List ℕ)
    → is_past p ≡ true
    → StartupFits cached p w
    → IsStarted cached w
past-IsStarted cached reads w h fits = fits
past-IsStarted cached listens w h fits = fits
past-IsStarted cached (asks _) w h fits = fits
past-IsStarted cached (calls _) w h fits = fits
past-IsStarted cached (answers _) w h fits = fits
past-IsStarted cached _ w h fits = absurd (false_is_not_true h)

module _ {E : Type 0} (x : Exports E) where
  -- No move but the last one of the startup changes the cache.
  abbrev pub SameCache : Act E → Shared E → Type 0
  SameCache a s = a.shared.cached_startup_responses ≡ s.cached_startup_responses

  message_loop-SameCache : (s : Shared E) → SameCache (message_loop s) s
  unfolding message_loop
  message_loop-SameCache s = ground arith

  message_read-SameCache : (i : Input) (s : Shared E) → SameCache (message_read i s) s
  unfolding message_read
  message_read-SameCache i s = ground arith

  call_message-SameCache :
      (message : List ℕ) (s : Shared E) → SameCache (call_message x message s) s
  unfolding call_message
  call_message-SameCache message s = ground arith

  answer_message-SameCache :
      (r : List ℕ) (i : Input) (s : Shared E) → SameCache (answer_message x r i s) s
  unfolding answer_message
  answer_message-SameCache r i s = ground arith

  locked_dump-SameCache : (p : Point) (i : Input) (s : Shared E) → SameCache (locked_dump x p i s) s
  unfolding locked_dump
  locked_dump-SameCache p i s = ground arith

  replay_startup-SameCache :
      (locked : Bool) (left : List (List ℕ)) (i : Input) (s : Shared E)
      → SameCache (replay_startup locked left i s) s
  unfolding replay_startup
  replay_startup-SameCache locked [] i s = refl
  replay_startup-SameCache locked (r ∷ left) i s = ground arith

  act-SameCache :
      (p : Point) (i : Input) (s : Shared E)
      → SameCache (act x p i s) s ⊎ ((rs : List (List ℕ)) × ((p ≡ starts rs) ⊎ (p ≡ hears rs)))
  unfolding act
  act-SameCache started i s = inl (ground arith)
  act-SameCache wants_startup i s = inl refl
  act-SameCache checks i s = inl (ground arith)
  act-SameCache (replays locked left) i s = inl (replay_startup-SameCache locked left i s)
  act-SameCache (starts rs) i s = inr (rs, inl refl)
  act-SameCache (hears rs) i s = inr (rs, inr refl)
  act-SameCache reads i s = inl (message_loop-SameCache s)
  act-SameCache listens i s = inl (message_read-SameCache i s)
  act-SameCache (asks message) i s = inl refl
  act-SameCache (calls message) i s = inl (call_message-SameCache message s)
  act-SameCache (answers r) i s = inl (answer_message-SameCache r i s)
  act-SameCache wants_backup i s = inl refl
  act-SameCache backs_up i s = inl (locked_dump-SameCache wants_backup i s)
  act-SameCache closes i s = inl refl
  act-SameCache wants_dump i s = inl refl
  act-SameCache dumps i s = inl (locked_dump-SameCache shuts i s)
  act-SameCache shuts i s = inl refl
  act-SameCache ended i s = inl refl

other-Startup :
    (cached : Option (List (List ℕ))) (p : Point) (w : List ℕ)
    → (holds p ≡ true → ⊥)
    → StartupFits none p w
    → StartupFits cached p w
other-Startup cached started w h fits = fits
other-Startup cached wants_startup w h fits = fits
other-Startup cached checks w h fits = fits
other-Startup cached (replays locked left) w h (_, e, _) = absurd (none_is_some e)
other-Startup cached (starts rs) w h fits = absurd (h refl)
other-Startup cached (hears rs) w h fits = absurd (h refl)
other-Startup cached reads w h (_, _, e, _) = absurd (none_is_some e)
other-Startup cached listens w h (_, _, e, _) = absurd (none_is_some e)
other-Startup cached (asks m) w h (_, _, e, _) = absurd (none_is_some e)
other-Startup cached (calls m) w h (_, _, e, _) = absurd (none_is_some e)
other-Startup cached (answers r) w h (_, _, e, _) = absurd (none_is_some e)
other-Startup cached wants_backup w h fits = tt
other-Startup cached backs_up w h fits = tt
other-Startup cached closes w h fits = tt
other-Startup cached wants_dump w h fits = tt
other-Startup cached dumps w h fits = tt
other-Startup cached shuts w h fits = tt
other-Startup cached ended w h fits = tt

-- A thread that starts the session holds the lock, and nothing is cached.
starting :
    (cached : Option (List (List ℕ))) (p : Point) (w : List ℕ) (rs : List (List ℕ))
    → (p ≡ starts rs) ⊎ (p ≡ hears rs)
    → StartupFits cached p w
    → (holds p ≡ true) × (cached ≡ none)
starting cached p w rs (inl e) fits = (ap holds e, (subst (λ q. StartupFits cached q w) e fits).0)
starting cached p w rs (inr e) fits = (ap holds e, (subst (λ q. StartupFits cached q w) e fits).0)

-- Every thread stands where what it wrote fits the cache.
abbrev pub AllFit : {E : Type 0} → System E → Type 0
AllFit s = (t : ℕ) → StartupFits s.shared.cached_startup_responses (s.point t) (s.written t)

module _ {E : Type 0} (x : Exports E) where
  others_fit :
      (s : System E) (t u : ℕ) (i : Input)
      → Reached x s
      → AllFit s
      → (u ≡ t → ⊥)
      → StartupFits
          (act x (s.point t) i s.shared).shared.cached_startup_responses
          (s.point u)
          (s.written u)
  others_fit s t u i r all other = elim (act-SameCache x (s.point t) i s.shared) [
    | inl same ↦ subst (λ c. StartupFits c (s.point u) (s.written u)) (sym same) (all u)
    | inr (rs, at) ↦
        let (inside, empty) = starting _ (s.point t) (s.written t) rs at (all t) in
        other-Startup _ (s.point u) (s.written u) (λ h. other (one_holder x s u t r h inside))
          (subst (λ c. StartupFits c (s.point u) (s.written u)) empty (all u))
  ]

  moved-AllFit :
      (s : System E) (t : ℕ) (i : Input) (l : Option ℕ)
      → Reached x s
      → AllFit s
      → AllFit (moved t l (act x (s.point t) i s.shared) s)
  moved-AllFit s t i l r all u = elim (Bool-cases (u == t)) [
    | inl same ↦ rw same (act-Startup x (s.point t) i s.shared (s.written t) (all t))
    | inr other ↦
        rw other (others_fit s t u i r all (λ e. false_is_not_true (sym other ∙ (==_iff u t).1 e)))
  ]

  fresh-Startup : (p : Point) (w : List ℕ) → IsFresh p → w ≡ [] → StartupFits none p w
  fresh-Startup started w f e = e
  fresh-Startup wants_backup w f e = tt
  fresh-Startup closes w f e = tt
  fresh-Startup ended w f e = tt
  fresh-Startup _ w f e = absurd f

  pub Reached-AllFit : (s : System E) → Reached x s → AllFit s
  unfolding advance
  Reached-AllFit _ (boot s free no_cache fresh) t =
      let (is_fresh, empty) = fresh t in
      subst (λ c. StartupFits c (s.point t) (s.written t)) (sym no_cache)
        (fresh-Startup (s.point t) (s.written t) is_fresh empty)
  Reached-AllFit _ (then_moves s s' t i r moves) u =
      let (l, same, _) = take_move-moved t (act x (s.point t) i s.shared) s s' moves in
      subst AllFit (sym same) (moved-AllFit s t i l r (Reached-AllFit s r)) u

  -- Once the responses of the startup are cached, no move changes them.
  pub advance_cached :
      (s s' : System E) (t : ℕ) (i : Input) (rs : List (List ℕ))
      → Reached x s
      → advance x t i s ≡ some s'
      → s.shared.cached_startup_responses ≡ some rs
      → s'.shared.cached_startup_responses ≡ some rs
  unfolding advance
  advance_cached s s' t i rs r moves e =
      let (l, same, _) = take_move-moved t (act x (s.point t) i s.shared) s s' moves in
      elim (act-SameCache x (s.point t) i s.shared) [
        | inl kept ↦ ap (λ v. v.shared.cached_startup_responses) same ∙ kept ∙ e
        | inr (qs, at) ↦
            let (_, empty) = starting _ (s.point t) (s.written t) qs at (Reached-AllFit s r t) in
            absurd (none_is_some (sym empty ∙ e))
      ]

  -- Any two clients that are past their startup were sent the same bytes for it, those that are
  -- cached, whatever they sent and in whatever order the threads moved.
  pub clients_agree :
      (s : System E) (t u : ℕ)
      → Reached x s
      → is_past (s.point t) ≡ true
      → is_past (s.point u) ≡ true
      → (rs : List (List ℕ)) × (mine : List ℕ) × (yours : List ℕ)
        × (s.shared.cached_startup_responses ≡ some rs)
        × (s.written t ≡ concat rs ++ mine)
        × (s.written u ≡ concat rs ++ yours)
  clients_agree s t u r ht hu =
      let (rs, mine, e, et) = past-IsStarted _ (s.point t) _ ht (Reached-AllFit s r t) in
      let (qs, yours, e', eu) = past-IsStarted _ (s.point u) _ hu (Reached-AllFit s r u) in
      let same : qs ≡ rs = some-injective (sym e' ∙ e) in
      (rs, mine, yours, e, et, eu ∙ ap (λ v. concat v ++ yours) same)
