-- ===== src/Bwe/Estimator/Tests.antt =====
-- Runs of the estimator of crates/session/src/bwe/probe/estimator.rs, and its theorems at them.
use game_streamer_agent.Base.{
  ℕ, inl, ◌+◌, ◌≡◌, ◌≢◌, ◌≤◌, ◌<◌, ◌⊎◌, refl, none, some, List, [], ◌∷◌, length, All, arith,
}
use game_streamer_agent.Bwe.Rates.{kbps, secs, millis}
use game_streamer_agent.Bwe.Types.{TwccSendRecord, new_record}
use game_streamer_agent.Bwe.Probe.{ProbeClusterConfig, Epochs, initial}
use game_streamer_agent.Bwe.Estimator.{
  ProbeEstimator, new_state, new_estimator, max_active_probes, missing_timing_info, poll_timeout,
  estimate,
}
use game_streamer_agent.Bwe.Estimator.Result.{update, do_calculate_bitrate, handle_timeout}
use game_streamer_agent.Bwe.Estimator.Summary.{IsSummary, feed, received, feed-IsSummary}
use game_streamer_agent.Bwe.Estimator.Updated.{last_of_each, hits, ids}
use game_streamer_agent.Bwe.Estimator.Rated.{Rated, update-last_of_each}
use game_streamer_agent.Bwe.Estimator.Bounded.{IsBounded}
use game_streamer_agent.Bwe.Estimator.Deadlines.{handle_timeout-poll_timeout}
use game_streamer_agent.Bwe.Estimator.Trace.{
  Event, started, reported, ended, timed_out, run, run-IsBounded,
}
use game_streamer_agent.Bwe.Fixed.{fixed, fixed_sizes}

abbrev epochs : Epochs
epochs = record { already_happened = 0; not_happening = secs 3_000_000_000 }

abbrev plan : ℕ → ProbeClusterConfig ℕ
plan cluster = record {
  cluster = cluster;
  target_bitrate = kbps 900;
  target_duration = millis 15;
  min_packet_count = 5;
  min_probe_delta = millis 2;
  kind = initial;
}

-- A packet of 1200 bytes sent at `at` milliseconds, received ten milliseconds later or lost.
abbrev sent_at : ℕ → ℕ → TwccSendRecord
sent_at cluster at =
    new_record (record { seq = at; cluster = some cluster }) (millis at) 1200
      (some (millis (at + 20))) (some (millis (at + 10)))

abbrev lost_at : ℕ → ℕ → TwccSendRecord
lost_at cluster at =
    new_record (record { seq = at; cluster = some cluster }) (millis at) 1200
      (some (millis (at + 20))) none

-- Five packets in 16 milliseconds, out of order, one more lost.
abbrev feedback : List TwccSendRecord
feedback =
    sent_at 7 104
    ∷ sent_at 7 100
    ∷ lost_at 7 120
    ∷ sent_at 7 116
    ∷ sent_at 7 108
    ∷ sent_at 7 112
    ∷ []

-- Four packets in 16 milliseconds: 2.4 megabits a second.
measured :
    do_calculate_bitrate (feed (new_state epochs (plan 7) 5) feedback)
    ≡ some (estimate (kbps 2_400))
unfolding do_calculate_bitrate feed
measured = refl

feed-IsSummary_example :
    IsSummary (feed (new_state epochs (plan 7) 5) feedback) (received [] feedback)
feed-IsSummary_example = feed-IsSummary epochs (plan 7) 5 feedback

-- One probe is due, the other is not.
abbrev two_probes : ProbeEstimator ℕ
two_probes = record {
  states =
      record (new_state epochs (plan 7) 5) { finalize_at = 50 }
      ∷ record (new_state epochs (plan 8) 6) { finalize_at = 90 }
      ∷ [];
  did_update = 8 ∷ [];
  clumped_probes = 0;
}

handle_timeout-poll_timeout_example :
    (e : ProbeEstimator ℕ) × (handle_timeout 60 two_probes ≡ some e)
    × (60 < poll_timeout epochs e)
    × ((60 < poll_timeout epochs two_probes) ⊎ (length e.states < length two_probes.states))
handle_timeout-poll_timeout_example =
    handle_timeout-poll_timeout epochs 60 two_probes ((1687, refl), ((1687, refl), tt))
      (omega arith)

-- Feedback on both probes, in turn, and on one that is not followed.
abbrev mixed : List TwccSendRecord
mixed = sent_at 8 1 ∷ sent_at 7 2 ∷ sent_at 9 3 ∷ sent_at 8 4 ∷ lost_at 7 5 ∷ []

two_probes-IsBounded : IsBounded two_probes
two_probes-IsBounded = record {
  fine = (
    record { measurable = (1687, refl); timed = inl refl },
    (record { measurable = (1687, refl); timed = inl refl }, tt),
  );
  few = omega arith;
}

update-last_of_each_example :
    (e' : ProbeEstimator ℕ) × (rates : List (ProbeClusterConfig ℕ × ℕ)) × (update mixed two_probes
      ≡ some (e', rates))
    × (e'.did_update ≡ last_of_each (hits (ids two_probes.states) mixed))
    × Rated e'.states (last_of_each (hits (ids two_probes.states) mixed)) rates
update-last_of_each_example = update-last_of_each mixed two_probes two_probes-IsBounded

abbrev calls : List (Event ℕ)
calls = started (plan 7) 5 ∷ reported feedback ∷ ended (millis 120) 7 ∷ timed_out (secs 2) ∷ []

run-IsBounded_example :
    (e : ProbeEstimator ℕ) × (run epochs calls new_estimator ≡ some e)
    × (length e.states ≤ max_active_probes)
    × All (λ s. do_calculate_bitrate s ≢ some missing_timing_info) e.states
run-IsBounded_example = run-IsBounded epochs calls ((1687, refl), (tt, (tt, (tt, tt))))
