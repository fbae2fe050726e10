-- ===== src/Witnesses/Closings.antt =====
-- Clients of an instance that is closed, from the state of Witnesses/Clients where one of them calls.
use pglite4j.Prelude.{
  ℕ, ◌≡◌, ◌≢◌, ◌⊎◌, refl, none, some, ◌∷◌, true, false, arith, [], ◌==◌, if◌then◌else◌,
}
use pglite4j.Wire.Transport.{exec_protocol_raw}
use pglite4j.Wire.Frame.{build_simple_query, ends_with_ready_for_query}
use pglite4j.Driver.State.{Point, Input, saved, reads, replays, ended}
use pglite4j.Driver.Clients.{System, advance, dump_queries, exec_query}
use pglite4j.Driver.Clients.Progress.{Runs, stays, own, other, Runs-ended, Reached-advance}
use pglite4j.Witnesses.Toy.{Toy, toy_exports, toy_host}
use pglite4j.Witnesses.Clients.{or_boot, race, race-Reached}

abbrev sends : Input
sends = record { received = some (7 ∷ []); accepted = true; saving = saved }

calls_is_not_ended : race.point 1 ≢ ended
unfolding advance exec_protocol_raw ends_with_ready_for_query dump_queries exec_query
    build_simple_query
calls_is_not_ended e = cc

Reached-advance_example :
    (u : ℕ) × ((u ≡ 1) ⊎ (race.lock ≡ some u))
    × (race.point u ≢ ended)
    × ((i : Input) → (s' : System Toy) × (advance toy_exports u i race ≡ some s'))
unfolding advance exec_protocol_raw ends_with_ready_for_query dump_queries exec_query
    build_simple_query
Reached-advance_example = Reached-advance toy_exports race 1 race-Reached calls_is_not_ended

-- An instance that was closed while client 1 replays the startup and goes on reading, and client 2
-- is before the test of `running`.
abbrev points : ℕ → Point
points t =
    if t == 1 then replays false ((1 ∷ []) ∷ (2 ∷ []) ∷ []) else if t == 2 then reads else ended

abbrev closed_early : System Toy
closed_early = record {
  lock = none;
  shared = record {
    has_data_dir = false;
    running = false;
    cached_startup_responses = some ((1 ∷ []) ∷ (2 ∷ []) ∷ []);
    host = toy_host [];
  };
  point = points;
  written = λ _. [];
}

abbrev then_by : ℕ → System Toy → System Toy
then_by t s = or_boot (advance toy_exports t sends s)

abbrev after_1 : System Toy
after_1 = then_by 1 closed_early

step_1 : advance toy_exports 1 sends closed_early ≡ some after_1
unfolding advance
step_1 = refl

abbrev after_2 : System Toy
after_2 = then_by 2 after_1

step_2 : advance toy_exports 2 sends after_1 ≡ some after_2
unfolding advance
step_2 = refl

abbrev after_3 : System Toy
after_3 = then_by 1 after_2

step_3 : advance toy_exports 1 sends after_2 ≡ some after_3
unfolding advance
step_3 = refl

abbrev after_4 : System Toy
after_4 = then_by 1 after_3

step_4 : advance toy_exports 1 sends after_3 ≡ some after_4
unfolding advance
step_4 = refl

abbrev after_5 : System Toy
after_5 = then_by 1 after_4

step_5 : advance toy_exports 1 sends after_4 ≡ some after_5
unfolding advance
step_5 = refl

four_moves : Runs toy_exports 1 4 closed_early after_5
four_moves = own sends step_1 (
    other 2 sends (λ e. ground (arith, e)) step_2
      (own sends step_3 (own sends step_4 (own sends step_5 stays))))

Runs-ended_example : after_5.point 1 ≡ ended
Runs-ended_example =
    Runs-ended toy_exports 1 4 closed_early after_5 four_moves refl refl (ground arith)
