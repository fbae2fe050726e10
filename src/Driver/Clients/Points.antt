-- ===== src/Driver/Clients/Points.antt =====
-- What a client of PgLiteDriver.java was sent, through each of its moves.
use pglite4j.Prelude.{
  ℕ, ◌≡◌, ◌⊎◌, inl, inr, refl, ap, Bool, true, false, Option, none, some, List, [], ◌∷◌, ◌++◌,
  arith, Option-cases,
}
use pglite4j.Wire.Exports.{Exports}
use pglite4j.Wire.Transport.{PgLite, Attempt, returned, thrown, exec_protocol_raw}
use pglite4j.Driver.State.{
  Point, started, wants_startup, checks, reads, listens, replays, starts, hears, asks, calls,
  answers, wants_backup, backs_up, closes, wants_dump, dumps, shuts, ended, Input, Shared, keeps,
  leaves, goes, with_host,
}
use pglite4j.Driver.Clients.{
  message_loop, message_read, call_message, answer_message, locked_dump, act,
}
use pglite4j.Driver.Clients.Startup.{
  StartupFits, ActStartup, more, by_case, replay_startup-Startup, startup_loop-Startup,
  startup_read-Startup, same-IsStarted,
}

false_is_not_true : false ≡ true → ⊥
false_is_not_true e = cc

-- The points that say nothing of the startup.
abbrev is_silent : Point → Bool
is_silent wants_backup = true
is_silent backs_up = true
is_silent closes = true
is_silent wants_dump = true
is_silent dumps = true
is_silent shuts = true
is_silent ended = true
is_silent _ = false

silent-Startup :
    (cached : Option (List (List ℕ))) (p : Point) (w : List ℕ)
    → is_silent p ≡ true
    → StartupFits cached p w
silent-Startup cached wants_backup w h = tt
silent-Startup cached backs_up w h = tt
silent-Startup cached closes w h = tt
silent-Startup cached wants_dump w h = tt
silent-Startup cached dumps w h = tt
silent-Startup cached shuts w h = tt
silent-Startup cached ended w h = tt
silent-Startup cached started w h = cc
silent-Startup cached wants_startup w h = cc
silent-Startup cached checks w h = cc
silent-Startup cached reads w h = absurd (false_is_not_true h)
silent-Startup cached listens w h = absurd (false_is_not_true h)
silent-Startup cached (replays _ _) w h = absurd (false_is_not_true h)
silent-Startup cached (starts _) w h = absurd (false_is_not_true h)
silent-Startup cached (hears _) w h = absurd (false_is_not_true h)
silent-Startup cached (asks _) w h = absurd (false_is_not_true h)
silent-Startup cached (calls _) w h = absurd (false_is_not_true h)
silent-Startup cached (answers _) w h = absurd (false_is_not_true h)

module _ {E : Type 0} (x : Exports E) where
  locked_dump-is_silent :
      (p : Point) (i : Input) (s : Shared E)
      → is_silent p ≡ true
      → is_silent (locked_dump x p i s).point ≡ true
  unfolding locked_dump
  locked_dump-is_silent p i s h = ground arith

  closes-is_silent : (i : Input) (s : Shared E) → is_silent (act x closes i s).point ≡ true
  unfolding act
  closes-is_silent i s = ground arith

  message_loop-cases :
      (s : Shared E)
      → (message_loop s ≡ goes keeps ended s) ⊎ (message_loop s ≡ goes keeps listens s)
  unfolding message_loop
  message_loop-cases s = ground arith

  message_read-cases :
      (i : Input) (s : Shared E)
      → (message_read i s ≡ goes keeps ended s)
        ⊎ ((m : List ℕ) × (message_read i s ≡ goes keeps (asks m) s))
  unfolding message_read
  message_read-cases i s = go i.received refl
    where
      go :
          (r : Option (List ℕ))
          → i.received ≡ r
          → (message_read i s ≡ goes keeps ended s)
            ⊎ ((m : List ℕ) × (message_read i s ≡ goes keeps (asks m) s))
      go none e = inl (ground arith)
      go (some []) e = inl (ground arith)
      go (some (b ∷ m)) e = inr (b ∷ m, ground arith)

  call_message-cases :
      (m : List ℕ) (s : Shared E) (run : Attempt E (List ℕ))
      → exec_protocol_raw x m s.host ≡ run
      → (h : PgLite E) × ((call_message x m s ≡ goes leaves ended (with_host s h))
          ⊎ ((r : List ℕ) × (call_message x m s ≡ goes leaves (answers r) (with_host s h))))
  unfolding call_message
  call_message-cases m s (thrown h) e = (h, inl (ground arith))
  call_message-cases m s (returned r h) e = (h, inr (r, ground arith))

  answer_message-cases :
      (r : List ℕ) (i : Input) (s : Shared E)
      → (answer_message x r i s ≡ goes keeps ended s)
        ⊎ (answer_message x r i s ≡ record { lock = keeps; point = reads; wrote = r; shared = s })
  unfolding answer_message
  answer_message-cases r i s = ground arith

  pub act-Startup :
      (p : Point) (i : Input) (s : Shared E) (w : List ℕ)
      → StartupFits s.cached_startup_responses p w
      → ActStartup w (act x p i s)
  unfolding act
  act-Startup started i s w fits = elim (Option-cases s.cached_startup_responses) [
    | inl none_yet ↦
        let waits : act x started i s ≡ goes keeps wants_startup s = ground arith in
        by_case w waits (ap (λ t. t ++ []) fits)
    | inr (rs, e) ↦
        let replay : act x started i s ≡ goes keeps (replays false rs) s = ground arith in
        by_case w replay ([], e, ap (λ t. t ++ []) fits)
  ]
  act-Startup wants_startup i s w fits = ap (λ t. t ++ []) fits
  act-Startup checks i s w fits = elim (Option-cases s.cached_startup_responses) [
    | inl none_yet ↦
        let begins : act x checks i s ≡ goes keeps (starts []) s = ground arith in
        by_case w begins (none_yet, ap (λ t. t ++ []) fits)
    | inr (rs, e) ↦
        let replay : act x checks i s ≡ goes keeps (replays true rs) s = ground arith in
        by_case w replay ([], e, ap (λ t. t ++ []) fits)
  ]
  act-Startup (replays locked left) i s w fits = replay_startup-Startup locked left i s w fits
  act-Startup (starts rs) i s w fits = startup_loop-Startup rs s w fits
  act-Startup (hears rs) i s w fits = startup_read-Startup x rs i s w fits
  act-Startup reads i s w fits = elim (message_loop-cases s) [
    | inl out ↦ by_case w out tt
    | inr on ↦ by_case w on (same-IsStarted s w fits)
  ]
  act-Startup listens i s w fits = elim (message_read-cases i s) [
    | inl out ↦ by_case w out tt
    | inr (m, on) ↦ by_case w on (same-IsStarted s w fits)
  ]
  act-Startup (asks m) i s w fits = same-IsStarted s w fits
  act-Startup (calls m) i s w fits =
      let (h, which) = call_message-cases m s (exec_protocol_raw x m s.host) refl in
      elim which [
        | inl out ↦ by_case w out tt
        | inr (r, on) ↦ by_case w on (same-IsStarted s w fits)
      ]
  act-Startup (answers r) i s w fits = elim (answer_message-cases r i s) [
    | inl out ↦ by_case w out tt
    | inr on ↦ by_case w on (more s.cached_startup_responses w r fits)
  ]
  act-Startup wants_backup i s w fits = tt
  act-Startup backs_up i s w fits =
      silent-Startup _ _ _ (locked_dump-is_silent wants_backup i s refl)
  act-Startup closes i s w fits = silent-Startup _ _ _ (closes-is_silent i s)
  act-Startup wants_dump i s w fits = tt
  act-Startup dumps i s w fits = silent-Startup _ _ _ (locked_dump-is_silent shuts i s refl)
  act-Startup shuts i s w fits = tt
  act-Startup ended i s w fits = tt
