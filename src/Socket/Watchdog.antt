-- ===== src/Socket/Watchdog.antt =====
-- The watchdog of wasm-build/sdk/hotfix/sdk_socket.c, which ends a client that polls in vain.
use pglite4j.Prelude.{
  ℕ, zero, suc, ◌+◌, ◌-◌, ◌≤◌, ◌≡◌, refl, ◌∙◌, none, List, [], ◌∷◌, arith, replicate, ℤ, pos,
  negsuc,
}
use pglite4j.Socket.State.{Files, Socket, eintr, returned, exited, M, ◌>>=◌, pure}
use pglite4j.Socket.{read_reply, sdk_sock_flush, sdk_recvfrom}

-- Nothing is queued, no reply is there, and `w` polls have been made.
pub record IsWaiting (w : ℕ) (s : Socket) : Type 0 where
  pub queue : s.fd_queue ≡ pos 0
  pub start : s.fd_current_pos ≡ 0
  pub reply : s.files.reply ≡ none
  pub polls : s.watchdog ≡ w

module _ (host : Files → Files) (len : ℕ) (buffer : List ℕ) where
  -- The counts that `n` calls of `sdk_recvfrom` return.
  pub polled : ℕ → M (List ℤ)
  polled zero = pure []
  polled (suc n) = do x ← sdk_recvfrom host len buffer; rest ← polled n; pure (x.0 ∷ rest)

  poll :
      (w : ℕ) (s : Socket)
      → IsWaiting w s
      → w ≤ 32
      → (t : Socket) × (sdk_recvfrom host len buffer s ≡ returned (negsuc 0, buffer) t)
        × IsWaiting (suc w) t
        × (t.errno ≡ eintr)
        × (t.files ≡ s.files)
  unfolding sdk_recvfrom sdk_sock_flush read_reply
  poll w s i patient = (
    record s { watchdog = s.watchdog + 1; errno = eintr },
    ground (arith, i.queue, i.start, i.reply, i.polls),
    record { queue = i.queue; start = i.start; reply = i.reply; polls = omega (arith, i.polls) },
    refl,
    refl,
  )

  polled-fail :
      (n w : ℕ) (s : Socket)
      → IsWaiting w s
      → w + n ≤ 33
      → (t : Socket) × (polled n s ≡ returned (replicate n (negsuc 0)) t)
        × IsWaiting (w + n) t
        × (t.files ≡ s.files)
  unfolding polled
  polled-fail zero w s i h = (
    s,
    refl,
    record { queue = i.queue; start = i.start; reply = i.reply; polls = omega (arith, i.polls) },
    refl,
  )
  polled-fail (suc n) w s i h =
      let (t, e, i', _, same) = poll w s i (omega arith) in
      let (u, e', i'', same') = polled-fail n (suc w) t i' (omega arith) in
      (
        u,
        rw (e, e') refl,
        record {
          queue = i''.queue;
          start = i''.start;
          reply = i''.reply;
          polls = omega (arith, i''.polls);
        },
        same' ∙ same,
      )

  -- A client with nothing queued and no reply in sight gets -1 from `sdk_recvfrom` as often as is
  -- left of 33 polls, with no file changed, whatever the host would do, and the next poll ends it
  -- by `sdk_exit(0)`.
  pub watchdog_bites :
      (w : ℕ) (s : Socket)
      → IsWaiting w s
      → w ≤ 33
      → (t u : Socket) × (polled (33 - w) s ≡ returned (replicate (33 - w) (negsuc 0)) t)
        × (t.files ≡ s.files)
        × (sdk_recvfrom host len buffer t ≡ exited 0 u)
  unfolding sdk_recvfrom sdk_sock_flush
  watchdog_bites w s i patient =
      let (t, e, i', same) = polled-fail (33 - w) w s i (omega arith) in
      (
        t,
        record t { watchdog = t.watchdog + 1 },
        e,
        same,
        ground (arith, i'.queue, i'.start, i'.polls),
      )
