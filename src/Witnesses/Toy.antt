-- ===== src/Witnesses/Toy.antt =====
-- A small module for the wire transport, with the laws of Wire/Engine.
use pglite4j.Prelude.{
  ℕ, zero, suc, ◌+◌, ◌≤◌, ◌<◌, ◌≡◌, refl, ℤ, pos, negsuc, is_nonzero, true, false, ◌&&◌, Option,
  none, some, List, [], ◌∷◌, length, map, leb, ◌==◌, if◌then◌else◌, arith,
}
use pglite4j.Wire.Exports.{Exports, ticked, trapped, missing, holds}
use pglite4j.Wire.Transport.{PgLite}
use pglite4j.Wire.Engine.{Event, reply, error, crash, View, IsLawful, IsSettled, Moved}
use pglite4j.Wire.Session.{}

-- What is to come; a reply has a first byte.
pub data Coming : Type 0 where
  says fails : ℕ → List ℕ → Coming
  dies : Coming

-- The fields: the length of the message, the reply that waits, what is to come, the message in the
-- buffer, and the error that is not recovered from.
pub data Toy : Type 0 where
  toy : ℕ → Option (ℕ × List ℕ) → List Coming → List ℕ → Option (ℕ × List ℕ) → Toy

-- The answer to a message is named by its first byte; others get none.
abbrev pub toy_answer : List ℕ → List Coming
toy_answer [] = []
toy_answer (b ∷ _) =
    if b == b'Q'
    then says b'T' [] ∷ says b'D' (1 ∷ 2 ∷ 3 ∷ []) ∷ says b'Z' (0 ∷ 0 ∷ 0 ∷ 5 ∷ b'I' ∷ []) ∷ []
    else if b == b'E'
    then says b'T' [] ∷ fails b'E' (b'Z' ∷ []) ∷ []
    else []

abbrev pub toy_event : Coming → Event
toy_event (says b bs) = reply (b ∷ bs)
toy_event (fails b bs) = error (b ∷ bs)
toy_event dies = crash

abbrev bytes : Option (ℕ × List ℕ) → Option (List ℕ)
bytes none = none
bytes (some (b, bs)) = some (b ∷ bs)

-- A reply of more than two bytes goes to the file.
abbrev toy_channel : Option (ℕ × List ℕ) → ℤ
toy_channel none = pos 1
toy_channel (some (_, bs)) = if leb (length bs) 1 then pos 1 else negsuc 1

abbrev pub toy_exports : Exports Toy
toy_exports = record {
  use_wire = λ _ e. e;
  write_memory = λ _ msg e. elim e [ toy n w c _ f ↦ some (toy n w c msg f) ];
  read_memory = λ addr len e. elim e [
    | toy n w _ _ _ ↦ elim w [
      | none ↦ none
      | some (b, bs) ↦ if (addr == n + 2) && (len == length bs + 1) then some (b ∷ bs) else none
    ]
  ];
  interactive_write = λ z e. elim e [
    | toy n w c m f ↦ elim z [
      | negsuc _ ↦ toy n w c m f
      | pos zero ↦ toy 0 none c m f
      | pos (suc k) ↦ toy (suc k) none (toy_answer m) m f
    ]
  ];
  interactive_read = λ e. elim e [
    | toy n w c m f ↦ elim w [
      | none ↦ (pos 0, toy n none c m f)
      | some (b, bs) ↦ (pos (suc (length bs)), toy n (some (b, bs)) c m f)
    ]
  ];
  interactive_one = λ e. elim e [
    | toy n w c m f ↦ elim c [
      | [] ↦ ticked (toy n w [] m f)
      | says b bs ∷ c' ↦ ticked (toy n (some (b, bs)) c' m f)
      | fails b bs ∷ c' ↦ trapped (toy n w c' m (some (b, bs)))
      | dies ∷ c' ↦ trapped (toy n w c' m none)
    ]
  ];
  get_channel = λ e. elim e [ toy _ w _ _ _ ↦ toy_channel w ];
  pgl_check_error = λ e. elim e [
    | toy n w c m f ↦ elim f [
      | none ↦ (pos 0, toy n w c m none)
      | some bs ↦ (pos 1, toy n w c m (some bs))
    ]
  ];
  clear_error = λ e. elim e [
    | toy n w c m f ↦ elim f [
      | none ↦ toy n w c m none
      | some (b, bs) ↦ toy n w (says b bs ∷ []) m none
    ]
  ];
  out_file =
      λ e. elim e [ toy _ w _ _ _ ↦ elim w [ none ↦ missing | some (b, bs) ↦ holds (b ∷ bs) ] ];
  delete_out = some;
  pgl_shutdown = ticked;
}

abbrev pub toy_view : View Toy
toy_view = record {
  rsize = λ e. elim e [ toy n _ _ _ _ ↦ n ];
  ready = λ e. elim e [ toy _ w _ _ _ ↦ bytes w ];
  later = λ e. elim e [ toy _ _ c _ _ ↦ map toy_event c ];
  answer = λ msg e. map toy_event (toy_answer msg);
}

pub toy-IsLawful : IsLawful toy_exports toy_view 1 32
toy-IsLawful = record {
  read_ready = read_ready;
  read_idle = read_idle;
  file_ready = file_ready;
  file_idle = file_idle;
  cleared = cleared;
  sent = sent;
  tick_idle = tick_idle;
  tick_reply = tick_reply;
  tick_error = tick_error;
  tick_crash = tick_crash;
}
  where
    held :
        (n b : ℕ) (bs : List ℕ) (k : List Coming) (m : List ℕ) (f : Option (ℕ × List ℕ))
        → toy_exports.read_memory (1 + n + 1) (suc (length bs)) (toy n (some (b, bs)) k m f)
          ≡ some (b ∷ bs)
    held n b bs k m f = ground arith

    read_ready :
        (e : Toy) (c : ℕ) (bs : List ℕ)
        → toy_exports.get_channel e ≡ pos c
        → toy_view.ready e ≡ some bs
        → (0 < length bs)
          × ((toy_exports.interactive_read e).0 ≡ pos (length bs))
          × (toy_exports.read_memory
                (1 + toy_view.rsize e + 1)
                (length bs)
                (toy_exports.interactive_read e).1
              ≡ some bs)
          × (toy_view.later (toy_exports.interactive_read e).1 ≡ toy_view.later e)
    read_ready (toy n none k m f) c bs ch r = cc
    read_ready (toy n (some (b, bs')) k m f) c bs ch r =
        let same : bs ≡ b ∷ bs' = cc in
        rw (same, length) (ground arith, refl, held n b bs' k m f, refl)

    read_idle :
        (e : Toy) (c : ℕ)
        → toy_exports.get_channel e ≡ pos c
        → toy_view.ready e ≡ none
        → ((toy_exports.interactive_read e).0 ≡ pos 0)
          × Moved toy_view e none (toy_view.later e) (toy_exports.interactive_read e).1
    read_idle (toy n none k m f) c ch r = (refl, (refl, refl, refl))
    read_idle (toy n (some (b, bs)) k m f) c ch r = cc

    file_ready :
        (e : Toy) (c : ℕ) (bs : List ℕ)
        → toy_exports.get_channel e ≡ negsuc c
        → toy_view.ready e ≡ some bs
        → (toy_exports.out_file e ≡ holds bs)
          × (e' : Toy) × (toy_exports.delete_out e ≡ some e')
          × (toy_view.later e' ≡ toy_view.later e)
    file_ready (toy n none k m f) c bs ch r = cc
    file_ready (toy n (some (b, bs')) k m f) c bs ch r = (cc, _, refl, refl)

    file_idle :
        (e : Toy) (c : ℕ)
        → toy_exports.get_channel e ≡ negsuc c
        → toy_view.ready e ≡ none
        → toy_exports.out_file e ≡ missing
    file_idle (toy n none k m f) c ch r = refl
    file_idle (toy n (some (b, bs)) k m f) c ch r = cc

    cleared :
        (e : Toy)
        → (toy_view.rsize (toy_exports.interactive_write (pos 0) e) ≡ 0)
          × (toy_view.ready (toy_exports.interactive_write (pos 0) e) ≡ none)
          × (toy_view.later (toy_exports.interactive_write (pos 0) e) ≡ toy_view.later e)
    cleared (toy n w k m f) = (refl, refl, refl)

    sent :
        (e : Toy) (msg : List ℕ)
        → 0 < length msg
        → length msg ≤ 32
        → toy_view.ready e ≡ none
        → toy_view.later e ≡ []
        → (e' : Toy) × (toy_exports.write_memory 1 msg (toy_exports.use_wire (pos 1) e) ≡ some e')
          × (toy_view.rsize (toy_exports.interactive_write (pos (length msg)) e') ≡ length msg)
          × (toy_view.ready (toy_exports.interactive_write (pos (length msg)) e') ≡ none)
          × (toy_view.later (toy_exports.interactive_write (pos (length msg)) e')
              ≡ toy_view.answer msg e)
    sent (toy n w k m f) [] some_bytes fits r l = absurd (ground arith)
    sent (toy n w k m f) (b ∷ msg) some_bytes fits r l =
        (toy n w k (b ∷ msg) f, refl, refl, refl, refl)

    tick_idle :
        (e : Toy)
        → toy_view.ready e ≡ none
        → toy_view.later e ≡ []
        → (e' : Toy) × (toy_exports.interactive_one e ≡ ticked e') × Moved toy_view e none [] e'
    tick_idle (toy n w [] m f) r l = (toy n w [] m f, refl, (refl, r, refl))
    tick_idle (toy n w (c ∷ k) m f) r l = cc

    tick_reply :
        (e : Toy) (bs : List ℕ) (es : List Event)
        → toy_view.ready e ≡ none
        → toy_view.later e ≡ reply bs ∷ es
        → (e' : Toy) × (toy_exports.interactive_one e ≡ ticked e')
          × Moved toy_view e (some bs) es e'
    tick_reply (toy n w [] m f) bs es r l = cc
    tick_reply (toy n w (says b bs' ∷ k) m f) bs es r l = (_, refl, (refl, cc, cc))
    tick_reply (toy n w (fails b bs' ∷ k) m f) bs es r l = cc
    tick_reply (toy n w (dies ∷ k) m f) bs es r l = cc

    tick_error :
        (e : Toy) (bs : List ℕ) (es : List Event)
        → toy_view.ready e ≡ none
        → toy_view.later e ≡ error bs ∷ es
        → (e' : Toy) × (e'' : Toy) × (toy_exports.interactive_one e ≡ trapped e')
          × (is_nonzero (toy_exports.pgl_check_error e').0 ≡ true)
          × (toy_exports.interactive_one (
                toy_exports.interactive_write
                  (negsuc 0)
                  (toy_exports.clear_error (toy_exports.pgl_check_error e').1))
              ≡ ticked e'')
          × Moved toy_view e (some bs) [] e''
    tick_error (toy n w [] m f) bs es r l = cc
    tick_error (toy n w (says b bs' ∷ k) m f) bs es r l = cc
    tick_error (toy n w (fails b bs' ∷ k) m f) bs es r l =
        (_, _, refl, refl, refl, (refl, cc, refl))
    tick_error (toy n w (dies ∷ k) m f) bs es r l = cc

    tick_crash :
        (e : Toy) (es : List Event)
        → toy_view.ready e ≡ none
        → toy_view.later e ≡ crash ∷ es
        → (e' : Toy) × (toy_exports.interactive_one e ≡ trapped e')
          × (is_nonzero (toy_exports.pgl_check_error e').0 ≡ false)
    tick_crash (toy n w [] m f) es r l = cc
    tick_crash (toy n w (says b bs' ∷ k) m f) es r l = cc
    tick_crash (toy n w (fails b bs' ∷ k) m f) es r l = cc
    tick_crash (toy n w (dies ∷ k) m f) es r l = (_, refl, refl)

abbrev pub toy_host : List Coming → PgLite Toy
toy_host c = record { engine = toy 0 none c [] none; buffer_addr = 1; pending_wire_len = 0 }

pub toy_host-IsSettled :
    (c : List Coming) → IsSettled toy_exports toy_view 1 32 (map toy_event c) (toy_host c)
toy_host-IsSettled c = record { at_base = refl; synced = refl; none_ready = refl; to_come = refl }
