-- ===== src/Bwe/Probe.antt =====
-- The state of the probing controller of crates/session/src/bwe/probe/control.rs, and the plan of a
-- probe of crates/session/src/bwe/probe/cluster.rs.

pub mod Attempts
pub mod Inputs
pub mod Control
pub mod Kept
pub mod Trace
pub mod Plans
pub mod Sound
pub mod Calls
pub mod Drain
pub mod Tickets
pub mod Order
mod Tests
use game_streamer_agent.Base.{
  ℕ, ◌+◌, ◌%◌, min, max, Bool, true, false, not, ◌&&◌, ◌||◌, Option, none, some, List, [], ◌∷◌,
  ◌++◌, ltb, leb, if◌then◌else◌,
}
use game_streamer_agent.Bwe.Rates.{
  Float64, bps, kbps, decimal_times, millis, secs, longest, elapsed,
}

pub data ProbeKind : Type 0 where
  initial exponential increase_alr periodic_alr large_drop stagnant : ProbeKind

pub data BandwidthLimitedCause : Type 0 where
  loss_limited_bwe_increasing loss_limited_bwe delay_based_limited : BandwidthLimitedCause
  delay_based_limited_delay_increased : BandwidthLimitedCause

abbrev pub same_cause : BandwidthLimitedCause → BandwidthLimitedCause → Bool
same_cause loss_limited_bwe_increasing loss_limited_bwe_increasing = true
same_cause loss_limited_bwe loss_limited_bwe = true
same_cause delay_based_limited delay_based_limited = true
same_cause delay_based_limited_delay_increased delay_based_limited_delay_increased = true
same_cause _ _ = false

pub record ProbeClusterConfig (F : Type 0) : Type 0 where
  pub cluster : ℕ
  pub target_bitrate : F
  pub target_duration : ℕ
  pub min_packet_count : ℕ
  pub min_probe_delta : ℕ
  pub kind : ProbeKind

pub record LastProbe (F : Type 0) : Type 0 where
  pub at : ℕ
  pub last_kind : ProbeKind
  pub further : F
  pub was_estimate : Option F

pub record LargeDrop (F : Type 0) : Type 0 where
  pub dropped_at : ℕ
  pub bitrate_before : F

-- `config` is left out: it is `Config::default()` throughout, whose values are constants here.
pub record ProbeControl (F : Type 0) : Type 0 where
  pub next_timeout : ℕ
  pub enabled : Bool
  pub desired_bitrate : Option F
  pub prev_desired : Option F
  pub last_estimate : Option F
  pub progress_high : Option F
  pub last_progress : Option ℕ
  pub stagnant_backoff : ℕ
  pub duration_floor : ℕ
  pub last_cause : BandwidthLimitedCause
  pub prev_estimate : Option F
  pub recent_high : Option (F × ℕ)
  pub alr_start : Option ℕ
  pub alr_stop : Option ℕ
  pub last_probe : Option (LastProbe F)
  pub large_drop : Option (LargeDrop F)
  pub last_stagnant : Option ℕ
  pub next_cluster_id : ℕ
  pub pending : List (ProbeClusterConfig F)
  pub scheduled_exponential : Option ℕ
  pub scheduled_periodic_alr : Option ℕ
  pub scheduled_stagnant : Option ℕ

-- The two instants of the process that stand for the past and for never.
pub record Epochs : Type 0 where
  pub already_happened : ℕ
  pub not_happening : ℕ

abbrev pub max_waiting_time_for_probing_result : ℕ
max_waiting_time_for_probing_result = secs 1

abbrev pub min_time_between_alr_probes : ℕ
min_time_between_alr_probes = secs 5

abbrev pub min_time_between_stagnant_probes : ℕ
min_time_between_stagnant_probes = secs 15

abbrev pub bitrate_drop_timeout : ℕ
bitrate_drop_timeout = secs 5

abbrev pub alr_ended_timeout : ℕ
alr_ended_timeout = secs 3

abbrev pub recent_high_window : ℕ
recent_high_window = secs 10

abbrev pub max_stagnant_backoff : ℕ
max_stagnant_backoff = 4

abbrev pub min_probe_duration : ℕ
min_probe_duration = millis 15

abbrev pub max_probe_duration : ℕ
max_probe_duration = millis 100

abbrev pub default_control : {F : Type 0} → Epochs → ProbeControl F
default_control ep = record {
  next_timeout = ep.not_happening;
  enabled = false;
  desired_bitrate = none;
  prev_desired = none;
  last_estimate = none;
  progress_high = none;
  last_progress = none;
  stagnant_backoff = 1;
  duration_floor = min_probe_duration;
  last_cause = delay_based_limited;
  prev_estimate = none;
  recent_high = none;
  alr_start = none;
  alr_stop = none;
  last_probe = none;
  large_drop = none;
  last_stagnant = none;
  next_cluster_id = 0;
  pending = [];
  scheduled_exponential = none;
  scheduled_periodic_alr = none;
  scheduled_stagnant = none;
}

abbrev pub is_set {ℓ} : {A : Type ℓ} → Option A → Bool
is_set none = false
is_set (some a) = true

abbrev pub is_first_rungs : ProbeKind → Bool
is_first_rungs initial = true
is_first_rungs exponential = true
is_first_rungs _ = false

module _ {F : Type 0} where
  abbrev pub is_empty : List (ProbeClusterConfig F) → Bool
  is_empty [] = true
  is_empty (c ∷ cs) = false

  abbrev pub in_alr : ProbeControl F → Bool
  in_alr s = is_set s.alr_start && not (is_set s.alr_stop)

  unfoldable pub alr_ended_recently : ℕ → ProbeControl F → Bool
  alr_ended_recently now s = elim s.alr_stop [
    | none ↦ false
    | some stop ↦ ltb (elapsed now stop) alr_ended_timeout
  ]

  unfoldable pub time_since_last_probe : ℕ → ProbeControl F → ℕ
  time_since_last_probe now s = elim s.last_probe [ none ↦ longest | some p ↦ elapsed now p.at ]

  unfoldable pub is_during_initial : ℕ → ProbeControl F → Bool
  unfolding time_since_last_probe
  is_during_initial now s = elim s.last_probe [
    | none ↦ false
    | some p ↦
        is_first_rungs p.last_kind
        && leb (time_since_last_probe now s) max_waiting_time_for_probing_result
  ]

  unfoldable pub request_immediate : Epochs → ProbeControl F → ProbeControl F
  request_immediate ep s = record s {
    next_timeout = ep.already_happened;
    scheduled_exponential = none;
    scheduled_periodic_alr = none;
    scheduled_stagnant = none;
  }

module _ {F : Type 0} ⦃fl : Float64 F⦄ where
  -- `ProbeClusterConfig::new`
  unfoldable pub new_cluster : ℕ → F → ProbeKind → ProbeClusterConfig F
  new_cluster cluster rate kind = record {
    cluster = cluster;
    target_bitrate = rate;
    target_duration =
        min
          (max (fl.from_secs (fl.over (fl.decimal 96_000 1) (fl.max_of rate (fl.decimal 1 1))))
            (millis 15))
          (millis 100);
    min_packet_count = 8;
    min_probe_delta = millis 2;
    kind = kind;
  }

  unfoldable pub queue_probe : F → ProbeKind → F → ℕ → ProbeControl F → ProbeControl F
  unfolding new_cluster
  queue_probe bitrate kind desired now s =
      let rate = fl.min_of bitrate (decimal_times desired 2 1) in
      if fl.below rate (kbps 5) then s else record s {
        next_cluster_id = (s.next_cluster_id + 1) % 0x1_0000_0000_0000_0000;
        pending =
            s.pending
            ++ (record (new_cluster s.next_cluster_id rate kind) {
              min_packet_count = 5;
              target_duration = max (millis 15) s.duration_floor;
              min_probe_delta = millis 2;
            }
                ∷ []);
        last_probe = some (record {
          at = now;
          last_kind = kind;
          further = decimal_times rate 7 10;
          was_estimate = s.last_estimate;
        });
      }
