-- ===== src/Bwe/Probe/Inputs.antt =====
-- What tells the probing controller of crates/session/src/bwe/probe/control.rs of the session: its
-- switch, the two rates, application-limited phases and the outcomes of probes.
use game_streamer_agent.Base.{
  ℕ, ◌*◌, ◌/◌, min, max, Bool, true, false, not, ◌&&◌, ◌||◌, Option, none, some, [], if◌then◌else◌,
}
use game_streamer_agent.Bwe.Rates.{Float64, is_zero, decimal_times}
use game_streamer_agent.Bwe.Probe.{
  BandwidthLimitedCause, same_cause, ProbeControl, Epochs, is_set, request_immediate,
  max_stagnant_backoff, min_probe_duration, max_probe_duration,
}
use game_streamer_agent.Bwe.Probe.Attempts.{raised}

module _ {F : Type 0} where
  unfoldable pub enable : Epochs → Bool → ProbeControl F → ProbeControl F
  unfolding request_immediate
  enable ep v s =
      if not s.enabled && v
      then request_immediate ep (record s { enabled = true })
      else if s.enabled && not v
      then record s {
        enabled = false;
        pending = [];
        last_estimate = none;
        desired_bitrate = none;
        progress_high = none;
        last_progress = none;
        stagnant_backoff = 1;
        duration_floor = min_probe_duration;
        last_stagnant = none;
        last_probe = none;
        prev_estimate = none;
        recent_high = none;
        scheduled_exponential = none;
        scheduled_periodic_alr = none;
        scheduled_stagnant = none;
        next_timeout = ep.not_happening;
      }
      else s

  unfoldable pub set_alr_start_time : Epochs → ℕ → ProbeControl F → ProbeControl F
  unfolding request_immediate
  set_alr_start_time ep t s =
      if is_set s.alr_start
      then s
      else request_immediate ep (record s { alr_start = some t; alr_stop = none })

  unfoldable pub set_alr_stop_time : Epochs → ℕ → ProbeControl F → ProbeControl F
  unfolding request_immediate
  set_alr_stop_time ep t s =
      if not (is_set s.alr_start) || is_set s.alr_stop
      then s
      else request_immediate ep (record s { alr_start = none; alr_stop = some t })

module _ {F : Type 0} ⦃fl : Float64 F⦄ where
  unfoldable pub set_desired_bitrate : Epochs → F → ProbeControl F → ProbeControl F
  unfolding request_immediate
  set_desired_bitrate ep v s =
      if not (is_set s.desired_bitrate) && is_zero v
      then s
      else request_immediate ep (record s { desired_bitrate = some v })

  -- Within five per cent of the last estimate.
  abbrev pub dominated_by : F → Option F → Bool
  dominated_by v none = false
  dominated_by v (some last) =
      fl.at_most v (raised last)
      && fl.at_most (fl.times last (fl.minus (fl.decimal 1 1) (fl.decimal 5 100))) v

  unfoldable pub set_estimated_bitrate :
      Epochs → F → BandwidthLimitedCause → ProbeControl F → ProbeControl F
  unfolding request_immediate
  set_estimated_bitrate ep v cause s =
      if not (is_set s.last_estimate) && is_zero v
      then s
      else if dominated_by v s.last_estimate && same_cause s.last_cause cause
      then s
      else request_immediate ep (record s { last_estimate = some v; last_cause = cause })

  abbrev pub is_fruitful : Option F → F → Bool
  is_fruitful none target = false
  is_fruitful (some m) target = fl.at_most (decimal_times target 7 10) m

  unfoldable pub on_probe_outcome : Option F → F → Bool → ProbeControl F → ProbeControl F
  on_probe_outcome measured target overusing s =
      if is_fruitful measured target
      then record s {
        duration_floor = max (s.duration_floor / 2) min_probe_duration;
        stagnant_backoff = 1;
      }
      else if overusing
      then record s { stagnant_backoff = max_stagnant_backoff }
      else record s { duration_floor = min (s.duration_floor * 2) max_probe_duration }
