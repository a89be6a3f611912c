-- ===== src/Bwe/Probe/Control.antt =====
-- `handle_timeout` and the other operations of the controller of
-- crates/session/src/bwe/probe/control.rs.
use game_streamer_agent.Base.{
  ℕ, ◌+◌, ◌*◌, Bool, true, false, not, ◌&&◌, ◌||◌, Option, none, some, List, [], ◌∷◌, ltb, leb,
  if◌then◌else◌,
}
use game_streamer_agent.Bwe.Rates.{Float64}
use game_streamer_agent.Bwe.Probe.{
  BandwidthLimitedCause, loss_limited_bwe_increasing, loss_limited_bwe, delay_based_limited,
  ProbeClusterConfig, ProbeControl, LastProbe, Epochs, is_set, is_first_rungs, in_alr,
  time_since_last_probe, request_immediate, max_waiting_time_for_probing_result,
  min_time_between_alr_probes, min_time_between_stagnant_probes,
}
use game_streamer_agent.Bwe.Probe.Attempts.{
  raised, maybe_initial, maybe_large_drop, maybe_exponential, maybe_increase_alr,
  maybe_periodic_alr, maybe_stagnant, track_drop,
}

abbrev pub or_at : Option ℕ → ℕ → ℕ
or_at none t = t
or_at (some u) t = u

module _ {F : Type 0} where
  abbrev pub is_laddering : Option (LastProbe F) → Bool
  is_laddering none = false
  is_laddering (some last) = is_first_rungs last.last_kind

  -- The state with the deadline scheduled, and the deadline.
  unfoldable pub compute_next_timeout : ℕ → ProbeControl F → ProbeControl F × ℕ
  compute_next_timeout now s =
      let exponential_at =
        or_at s.scheduled_exponential (now + max_waiting_time_for_probing_result) in
      let periodic_at = or_at s.scheduled_periodic_alr (now + min_time_between_alr_probes) in
      let stagnant_at = or_at s.scheduled_stagnant (now + min_time_between_stagnant_probes) in
      if is_laddering s.last_probe
      then (record s { scheduled_exponential = some exponential_at }, exponential_at)
      else if in_alr s
      then (record s { scheduled_periodic_alr = some periodic_at }, periodic_at)
      else (record s { scheduled_stagnant = some stagnant_at }, stagnant_at)

abbrev pub is_loss_limited : BandwidthLimitedCause → Bool
is_loss_limited loss_limited_bwe = true
is_loss_limited _ = false

abbrev pub allows_probes : BandwidthLimitedCause → Bool
allows_probes loss_limited_bwe_increasing = true
allows_probes delay_based_limited = true
allows_probes _ = false

module _ {F : Type 0} ⦃fl : Float64 F⦄ where
  -- The high-water mark that counts, with an estimate where there is none yet.
  abbrev pub mark_of : F → Option F → F
  mark_of estimate none = estimate
  mark_of estimate (some high) = high

  unfoldable pub raise_mark : ℕ → F → ProbeControl F → ProbeControl F
  raise_mark now estimate s =
      if fl.below (raised (mark_of estimate s.progress_high)) estimate
      then record s {
        progress_high = some estimate;
        last_progress = some now;
        stagnant_backoff = 1;
      }
      else record s { progress_high = some (mark_of estimate s.progress_high) }

  unfoldable pub update_progress : ℕ → F → ProbeControl F → ProbeControl F
  unfolding raise_mark
  update_progress now estimate s =
      let risen = raise_mark now estimate s in
      if is_set risen.last_progress then risen else record risen { last_progress = some now }

  unfoldable pub can_probe : F → ProbeControl F → Bool
  can_probe estimate s = not (fl.same estimate fl.infinity) && allows_probes s.last_cause

  -- The gate before the attempts, with its two exceptions.
  unfoldable pub may_probe : ℕ → F → ProbeControl F → Bool
  unfolding can_probe time_since_last_probe
  may_probe now estimate s =
      can_probe estimate s
      || ((is_loss_limited s.last_cause && is_set s.large_drop)
          && leb max_waiting_time_for_probing_result (time_since_last_probe now s))
      || (is_loss_limited s.last_cause
          && ltb (2 * min_time_between_alr_probes) (time_since_last_probe now s))

  -- `a || b` on attempts: the second one runs on what the first leaves, if that queued nothing.
  abbrev pub or_else :
      ProbeControl F × Bool → (ProbeControl F → ProbeControl F × Bool) → ProbeControl F × Bool
  or_else (s, true) next = (s, true)
  or_else (s, false) next = next s

  unfoldable pub attempt : ℕ → F → F → ProbeControl F → ProbeControl F × Bool
  unfolding maybe_initial maybe_large_drop maybe_exponential maybe_increase_alr maybe_periodic_alr
      maybe_stagnant
  attempt now desired estimate s =
      or_else
        (or_else
          (or_else
            (or_else
              (or_else (maybe_initial now desired estimate s)
                (maybe_large_drop now desired estimate))
              (maybe_exponential now desired estimate))
            (maybe_increase_alr now desired estimate))
          (maybe_periodic_alr now desired estimate))
        (maybe_stagnant now desired estimate)

  -- What is queued makes the next timeout due at once, and its first probe is given.
  unfoldable pub give_first :
      Epochs
      → List (ProbeClusterConfig F)
      → ProbeControl F
      → ProbeControl F × Option (ProbeClusterConfig F)
  unfolding request_immediate
  give_first ep [] s = (s, none)
  give_first ep (c ∷ cs) s = (request_immediate ep (record s { pending = cs }), some c)

  -- The progress noted and the next deadline set.
  unfoldable pub schedule : ℕ → F → ProbeControl F → ProbeControl F
  unfolding update_progress compute_next_timeout
  schedule now estimate s =
      let (scheduled, deadline) =
        compute_next_timeout now
          (record (update_progress now estimate s) { prev_estimate = some estimate }) in
      record scheduled { next_timeout = deadline }

  -- The end of `handle_timeout`, after the gate.
  unfoldable pub probe_now :
      Epochs → ℕ → F → F → ProbeControl F → ProbeControl F × Option (ProbeClusterConfig F)
  unfolding attempt schedule give_first
  probe_now ep now desired estimate s =
      let next = schedule now estimate (attempt now desired estimate s).0 in
      give_first ep next.pending next

  -- What follows when nothing is queued from before.
  unfoldable pub consider :
      Epochs → ℕ → F → F → ProbeControl F → ProbeControl F × Option (ProbeClusterConfig F)
  unfolding track_drop may_probe probe_now
  consider ep now desired estimate s =
      let tracked = track_drop now estimate s in
      if may_probe now estimate tracked
      then probe_now ep now desired estimate tracked
      else (tracked, none)

  unfoldable pub take_pending :
      Epochs
      → ℕ
      → F
      → F
      → List (ProbeClusterConfig F)
      → ProbeControl F
      → ProbeControl F × Option (ProbeClusterConfig F)
  unfolding consider give_first
  take_pending ep now desired estimate [] s = consider ep now desired estimate s
  take_pending ep now desired estimate (c ∷ cs) s = give_first ep (c ∷ cs) s

  -- What a due timeout does with the two rates, if both are known.
  unfoldable pub when_known :
      Epochs
      → ℕ
      → Option F
      → Option F
      → ProbeControl F
      → ProbeControl F × Option (ProbeClusterConfig F)
  unfolding take_pending
  when_known ep now none estimate s = (s, none)
  when_known ep now (some desired) none s = (s, none)
  when_known ep now (some desired) (some estimate) s =
      take_pending ep now desired estimate s.pending s

  unfoldable pub handle_timeout :
      Epochs → ℕ → ProbeControl F → ProbeControl F × Option (ProbeClusterConfig F)
  unfolding when_known
  handle_timeout ep now s =
      let waiting = record s { next_timeout = ep.not_happening } in
      if ltb now s.next_timeout
      then (s, none)
      else if not s.enabled
      then (waiting, none)
      else when_known ep now s.desired_bitrate s.last_estimate waiting
