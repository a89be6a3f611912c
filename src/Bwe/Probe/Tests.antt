-- ===== src/Bwe/Probe/Tests.antt =====
-- A run of the probing controller of crates/session/src/bwe/probe/control.rs, on rates in
-- ten-thousandths of a bit per second.
use game_streamer_agent.Base.{
  ℕ, ◌≡◌, refl, true, false, List, [], ◌∷◌, ◌++◌, ◌≤◌, map, length, arith, All,
}
use game_streamer_agent.Bwe.Rates.{kbps, secs}
use game_streamer_agent.Bwe.Fixed.{fixed}
use game_streamer_agent.Bwe.Probe.{Epochs, default_control, delay_based_limited}
use game_streamer_agent.Bwe.Probe.Trace.{
  Event, enabled_as, desired_as, estimated_as, timed_out, run, step,
}
use game_streamer_agent.Bwe.Probe.Plans.{IsPlanned, IsSound}
use game_streamer_agent.Bwe.Probe.Calls.{run-IsSound, default-IsSound}
use game_streamer_agent.Bwe.Probe.Drain.{handle_timeout_drains, enable_quiet}
use game_streamer_agent.Bwe.Probe.Tickets.{Dispense, numbers, tickets, run-Dispense}
use game_streamer_agent.Bwe.Probe.Order.{IsRising, probes-IsRising}
use game_streamer_agent.Bwe.Probe.Inputs.{enable}

abbrev epochs : Epochs
epochs = record { already_happened = 0; not_happening = secs 3_000_000_000 }

abbrev startup : List (Event ℕ)
startup =
    enabled_as true ∷ desired_as (kbps 50_000) ∷ estimated_as (kbps 300) delay_based_limited ∷ []

abbrev rates : List (Event ℕ) → List ℕ
rates es = map (λ c. c.target_bitrate) (run epochs es (default_control epochs)).1

-- Three and six times the estimate, one for each of two timeouts.
initial_probes :
    rates (startup ++ (timed_out 10 ∷ timed_out 10 ∷ timed_out 10 ∷ [])) ≡ kbps 900 ∷ kbps 1800 ∷ []
unfolding run step
initial_probes = refl

abbrev first_tick : List (Event ℕ)
first_tick = startup ++ (timed_out 10 ∷ [])

-- One probe is given, the other queued.
one_queued : 1 ≡ length (run epochs first_tick (default_control epochs)).0.pending
unfolding run step
one_queued = refl

abbrev IsFifty : ℕ → Type 0
IsFifty v = v ≡ kbps 50_000

run-IsSound_example :
    IsSound IsFifty epochs (run epochs first_tick (default_control epochs)).0
    × All (IsPlanned IsFifty) (run epochs first_tick (default_control epochs)).1
run-IsSound_example =
    run-IsSound IsFifty epochs first_tick (default_control epochs) (tt, (refl, (tt, (tt, tt))))
      (default-IsSound IsFifty epochs)

handle_timeout_drains_example :
    ((run epochs (timed_out 20 ∷ []) (run epochs first_tick (default_control epochs)).0).1
      ≡ (run epochs first_tick (default_control epochs)).0.pending)
    × ((run epochs (timed_out 20 ∷ []) (run epochs first_tick (default_control epochs)).0).0.pending
        ≡ [])
handle_timeout_drains_example =
    handle_timeout_drains epochs first_tick (20 ∷ []) one_queued (omega arith, tt)

enable_quiet_example :
    (run epochs
      (timed_out 20 ∷ timed_out 30 ∷ [])
      (enable epochs false (run epochs first_tick (default_control epochs)).0)).1
    ≡ []
enable_quiet_example =
    enable_quiet epochs first_tick (timed_out 20 ∷ timed_out 30 ∷ []) (tt, (tt, tt))

run-Dispense_example :
    Dispense first_tick
      (0, [])
      (numbers (run epochs first_tick (default_control epochs)).1)
      (tickets (run epochs first_tick (default_control epochs)).0)
run-Dispense_example = run-Dispense epochs first_tick (default_control epochs)

probes-IsRising_example :
    let (s, probes) = run epochs first_tick (default_control epochs) in
    IsRising 0 s.next_cluster_id (numbers probes ++ numbers s.pending) × (s.next_cluster_id ≤ 8)
probes-IsRising_example = probes-IsRising epochs first_tick (omega arith)
