-- ===== src/Bwe/Probe/Attempts.antt =====
-- The probes that the controller of crates/session/src/bwe/probe/control.rs may queue: each
-- `maybe_*` function gives the state afterwards and whether it queued.
use game_streamer_agent.Base.{
  ℕ, ◌*◌, min, Bool, true, false, not, ◌&&◌, ◌||◌, Option, none, some, ltb, leb, if◌then◌else◌,
}
use game_streamer_agent.Bwe.Rates.{Float64, decimal_times, elapsed}
use game_streamer_agent.Bwe.Probe.{
  initial, exponential, increase_alr, periodic_alr, large_drop, stagnant, BandwidthLimitedCause,
  loss_limited_bwe_increasing, ProbeControl, LastProbe, LargeDrop, is_set, is_empty, in_alr,
  alr_ended_recently, time_since_last_probe, is_during_initial, queue_probe,
  max_waiting_time_for_probing_result, min_time_between_alr_probes,
  min_time_between_stagnant_probes, bitrate_drop_timeout, recent_high_window, max_stagnant_backoff,
}

module _ {F : Type 0} ⦃fl : Float64 F⦄ where
  abbrev pub probe_scale : BandwidthLimitedCause → F
  probe_scale loss_limited_bwe_increasing =
      fl.times (fl.decimal 15 10) (fl.plus (fl.decimal 1 1) (fl.decimal 5 100))
  probe_scale _ = fl.decimal 2 1

  -- `rate * (1.0 + ESTIMATE_CHANGE_THRESHOLD)`
  abbrev pub raised : F → F
  raised rate = fl.times rate (fl.plus (fl.decimal 1 1) (fl.decimal 5 100))

  unfoldable pub maybe_initial : ℕ → F → F → ProbeControl F → ProbeControl F × Bool
  unfolding queue_probe
  maybe_initial now desired estimate s = if is_set s.last_probe then (s, false) else (
    queue_probe (decimal_times estimate 6 1) initial desired now
        (queue_probe (decimal_times estimate 3 1) initial desired now s),
    true,
  )

  -- The estimate fell far below where it stood at the last probe.
  unfoldable pub has_collapsed : ℕ → F → LastProbe F → ProbeControl F → Bool
  unfolding time_since_last_probe
  has_collapsed now estimate last s =
      elim last.was_estimate [ none ↦ false | some w ↦ fl.below estimate (decimal_times w 5 10) ]
      && leb min_time_between_alr_probes (time_since_last_probe now s)

  abbrev pub same_estimate : F → Option F → Bool
  same_estimate estimate none = false
  same_estimate estimate (some w) = fl.same estimate w

  -- The highest rate was probed already.
  abbrev pub is_at_top : F → F → LastProbe F → Bool
  is_at_top target desired last =
      let most = decimal_times desired 2 1 in
      fl.at_most most target && fl.at_most (decimal_times most 7 10) last.further

  unfoldable pub climb : ℕ → F → F → LastProbe F → ProbeControl F → ProbeControl F × Bool
  unfolding has_collapsed time_since_last_probe queue_probe
  climb now desired estimate last s =
      if fl.below estimate last.further && not (has_collapsed now estimate last s)
      then (s, false)
      else if same_estimate estimate last.was_estimate
          && ltb (time_since_last_probe now s) max_waiting_time_for_probing_result
      then (s, false)
      else if is_at_top (fl.times estimate (probe_scale s.last_cause)) desired last
      then (s, false)
      else (
        queue_probe (fl.times estimate (probe_scale s.last_cause)) exponential desired now s,
        true,
      )

  abbrev pub next_rung : ℕ → F → F → Option (LastProbe F) → ProbeControl F → ProbeControl F × Bool
  next_rung now desired estimate none s = (s, false)
  next_rung now desired estimate (some last) s = climb now desired estimate last s

  unfoldable pub maybe_exponential : ℕ → F → F → ProbeControl F → ProbeControl F × Bool
  unfolding climb
  maybe_exponential now desired estimate s =
      if not (is_empty s.pending) then (s, false) else next_rung now desired estimate s.last_probe s

  -- The probes at once and twice the desired rate, within twice the estimate.
  unfoldable pub probe_allocation : ℕ → F → F → ProbeControl F → ProbeControl F
  unfolding queue_probe
  probe_allocation now desired estimate s =
      let limit = decimal_times estimate 2 1 in
      let p1 = fl.min_of (decimal_times desired 1 1) limit in
      let p2 = decimal_times desired 2 1 in
      let first = queue_probe p1 increase_alr desired now s in
      if fl.at_most p2 limit && fl.below p1 p2
      then queue_probe p2 increase_alr desired now first
      else first

  -- What follows once the desired rate is noted, from the one noted before.
  unfoldable pub allocation_since : ℕ → F → F → Option F → ProbeControl F → ProbeControl F × Bool
  unfolding probe_allocation
  allocation_since now desired estimate none s = (s, false)
  allocation_since now desired estimate (some prev) s =
      if fl.at_most desired prev || fl.at_most desired estimate
      then (s, false)
      else (probe_allocation now desired estimate s, true)

  unfoldable pub maybe_increase_alr : ℕ → F → F → ProbeControl F → ProbeControl F × Bool
  unfolding is_during_initial allocation_since
  maybe_increase_alr now desired estimate s =
      if is_during_initial now s || not (in_alr s)
      then (s, false)
      else allocation_since now desired estimate s.prev_desired
          (record s { prev_desired = some desired })

  unfoldable pub maybe_periodic_alr : ℕ → F → F → ProbeControl F → ProbeControl F × Bool
  unfolding is_during_initial time_since_last_probe queue_probe
  maybe_periodic_alr now desired estimate s =
      if (is_during_initial now s || not (in_alr s))
        || ltb (time_since_last_probe now s) min_time_between_alr_probes
      then (s, false)
      else (
        queue_probe (fl.min_of (decimal_times estimate 2 1) desired) periodic_alr desired now s,
        true,
      )

  -- Not yet as long after the last stagnant probe as the back-off asks.
  abbrev pub backs_off : ℕ → ProbeControl F → Bool
  backs_off now s = elim s.last_stagnant [
    | none ↦ false
    | some t ↦ ltb (elapsed now t) (min_time_between_stagnant_probes * s.stagnant_backoff)
  ]

  unfoldable pub probe_stagnant : ℕ → F → F → ProbeControl F → ProbeControl F
  unfolding queue_probe
  probe_stagnant now desired estimate s =
      let queued =
        queue_probe (fl.min_of (decimal_times estimate 2 1) desired) stagnant desired now s in
      record queued {
        last_stagnant = some now;
        stagnant_backoff = min (queued.stagnant_backoff * 2) max_stagnant_backoff;
      }

  unfoldable pub stagnant_since : ℕ → F → F → Option ℕ → ProbeControl F → ProbeControl F × Bool
  unfolding probe_stagnant
  stagnant_since now desired estimate none s = (s, false)
  stagnant_since now desired estimate (some progress) s =
      if ltb (elapsed now progress) min_time_between_stagnant_probes
      then (s, false)
      else if fl.at_most desired estimate || backs_off now s
      then (s, false)
      else (probe_stagnant now desired estimate s, true)

  unfoldable pub maybe_stagnant : ℕ → F → F → ProbeControl F → ProbeControl F × Bool
  unfolding is_during_initial stagnant_since
  maybe_stagnant now desired estimate s =
      if is_during_initial now s || in_alr s
      then (s, false)
      else stagnant_since now desired estimate s.last_progress s

  -- The high-water mark with the time it was set, set anew where it is stale.
  unfoldable pub recent_mark : ℕ → F → Option (F × ℕ) → F × ℕ
  recent_mark now estimate none = (estimate, now)
  recent_mark now estimate (some (v, t)) =
      if fl.at_most estimate v && leb (elapsed now t) recent_high_window
      then (v, t)
      else (estimate, now)

  unfoldable pub track_drop : ℕ → F → ProbeControl F → ProbeControl F
  unfolding recent_mark
  track_drop now estimate s =
      let mark = recent_mark now estimate s.recent_high in
      let marked = record s { recent_high = some mark } in
      if not (is_set s.large_drop) && fl.below estimate (decimal_times mark.0 5 10)
      then record marked {
        large_drop = some (record { dropped_at = now; bitrate_before = mark.0 });
      }
      else marked

  abbrev pub is_collapsed : F → LargeDrop F → Bool
  is_collapsed estimate drop = fl.below estimate (decimal_times drop.bitrate_before 5 10)

  abbrev pub min_wait : F → LargeDrop F → ℕ
  min_wait estimate drop =
      if is_collapsed estimate drop
      then max_waiting_time_for_probing_result
      else min_time_between_alr_probes

  unfoldable pub probe_drop : ℕ → F → F → LargeDrop F → ProbeControl F → ProbeControl F × Bool
  unfolding alr_ended_recently time_since_last_probe queue_probe
  probe_drop now desired estimate drop s =
      if (not (is_collapsed estimate drop) && not (in_alr s)) && not (alr_ended_recently now s)
      then (s, false)
      else if ltb (time_since_last_probe now s) (min_wait estimate drop)
      then (s, false)
      else (queue_probe (decimal_times drop.bitrate_before 85 100) large_drop desired now s, true)

  unfoldable pub drop_since :
      ℕ → F → F → Option (LargeDrop F) → ProbeControl F → ProbeControl F × Bool
  unfolding probe_drop
  drop_since now desired estimate none s = (s, false)
  drop_since now desired estimate (some drop) s =
      if ltb bitrate_drop_timeout (elapsed now drop.dropped_at)
      then (record s { large_drop = none }, false)
      else probe_drop now desired estimate drop s

  unfoldable pub maybe_large_drop : ℕ → F → F → ProbeControl F → ProbeControl F × Bool
  unfolding is_during_initial drop_since
  maybe_large_drop now desired estimate s =
      if is_during_initial now s then (s, false) else drop_since now desired estimate s.large_drop s
