-- ===== src/Bwe/Probe/Kept.antt =====
-- What the attempts of the probing controller of crates/session/src/bwe/probe/control.rs may touch: a
-- property of a state and of how many probes may still be queued, kept by four small changes, is kept
-- by `attempt`, which queues two at most.
use game_streamer_agent.Base.{
  ℕ, suc, ◌*◌, min, Bool, ◌&&◌, not, true, false, Option, none, some, by_test, ltb, if◌then◌else◌,
}
use game_streamer_agent.Bwe.Rates.{Float64, elapsed}
use game_streamer_agent.Bwe.Probe.{
  ProbeKind, ProbeControl, LastProbe, LargeDrop, max_stagnant_backoff, bitrate_drop_timeout,
  queue_probe,
}
use game_streamer_agent.Bwe.Probe.Attempts.{
  maybe_initial, maybe_large_drop, maybe_exponential, maybe_increase_alr, maybe_periodic_alr,
  maybe_stagnant, next_rung, climb, has_collapsed, probe_allocation, allocation_since,
  probe_stagnant, stagnant_since, probe_drop, drop_since,
}
use game_streamer_agent.Bwe.Probe.Control.{attempt, or_else}

module _ {F : Type 0} ⦃fl : Float64 F⦄ (now : ℕ) (desired : F) where
  pub record IsKept {ℓ} (P : ℕ → ProbeControl F → Type ℓ) : Type ℓ where
    pub queued :
        (n : ℕ) (rate : F) (kind : ProbeKind) (s : ProbeControl F)
        → P (suc n) s
        → P n (queue_probe rate kind desired now s)
    pub spared : (n : ℕ) (s : ProbeControl F) → P (suc n) s → P n s
    pub noted :
        (n : ℕ) (s : ProbeControl F) → P n s → P n (record s { prev_desired = some desired })
    pub undropped : (n : ℕ) (s : ProbeControl F) → P n s → P n (record s { large_drop = none })
    pub stalled :
        (n : ℕ) (s : ProbeControl F)
        → P n s
        → P n (record s {
          last_stagnant = some now;
          stagnant_backoff = min (s.stagnant_backoff * 2) max_stagnant_backoff;
        })

module _ {ℓ} {F : Type 0} ⦃fl : Float64 F⦄ {P : ℕ → ProbeControl F → Type ℓ} (now : ℕ)
    (desired estimate : F) (keep : IsKept now desired P) where
  -- An attempt that queues nothing leaves the right to queue two.
  record First (r : ProbeControl F × Bool) : Type ℓ where
    kept : P (if r.1 then 0 else 2) r.0

  one :
      (rate : F) (kind : ProbeKind) (s : ProbeControl F)
      → P 2 s
      → P 0 (queue_probe rate kind desired now s)
  one rate kind s h = keep.spared 0 _ (keep.queued 1 rate kind s h)

  or_else-First :
      (r : ProbeControl F × Bool) (next : ProbeControl F → ProbeControl F × Bool)
      → First r
      → ((s : ProbeControl F) → P 2 s → First (next s))
      → First (or_else r next)
  or_else-First (s, true) next h k = h
  or_else-First (s, false) next h k = k s h.kept

  skip_or :
      (b : Bool) (s : ProbeControl F) (r : ProbeControl F × Bool)
      → P 2 s
      → First r
      → First (if b then (s, false) else r)
  skip_or true s r h k = record { kept = h }
  skip_or false s r h k = k

  maybe_initial-First : (s : ProbeControl F) → P 2 s → First (maybe_initial now desired estimate s)
  unfolding maybe_initial
  maybe_initial-First s h =
      skip_or _ s _ h (record { kept = keep.queued 0 _ _ _ (keep.queued 1 _ _ s h) })

  climb-First :
      (last : LastProbe F) (s : ProbeControl F) → P 2 s → First (climb now desired estimate last s)
  unfolding climb
  climb-First last s h =
      skip_or (fl.below estimate last.further && not (has_collapsed now estimate last s)) s _ h
        (skip_or _ s _ h (skip_or _ s _ h (record { kept = one _ _ s h })))

  next_rung-First :
      (last : Option (LastProbe F)) (s : ProbeControl F)
      → P 2 s
      → First (next_rung now desired estimate last s)
  next_rung-First none s h = record { kept = h }
  next_rung-First (some last) s h = climb-First last s h

  maybe_exponential-First :
      (s : ProbeControl F) → P 2 s → First (maybe_exponential now desired estimate s)
  unfolding maybe_exponential
  maybe_exponential-First s h = skip_or _ s _ h (next_rung-First s.last_probe s h)

  probe_allocation-kept :
      (s : ProbeControl F) → P 2 s → P 0 (probe_allocation now desired estimate s)
  unfolding probe_allocation
  probe_allocation-kept s h =
      by_test (P 0) _ (keep.queued 0 _ _ _ (keep.queued 1 _ _ s h)) (one _ _ s h)

  allocation_since-First :
      (prev : Option F) (s : ProbeControl F)
      → P 2 s
      → First (allocation_since now desired estimate prev s)
  unfolding allocation_since
  allocation_since-First none s h = record { kept = h }
  allocation_since-First (some prev) s h =
      skip_or _ s _ h (record { kept = probe_allocation-kept s h })

  maybe_increase_alr-First :
      (s : ProbeControl F) → P 2 s → First (maybe_increase_alr now desired estimate s)
  unfolding maybe_increase_alr
  maybe_increase_alr-First s h =
      skip_or _ s _ h (allocation_since-First s.prev_desired _ (keep.noted 2 s h))

  maybe_periodic_alr-First :
      (s : ProbeControl F) → P 2 s → First (maybe_periodic_alr now desired estimate s)
  unfolding maybe_periodic_alr
  maybe_periodic_alr-First s h = skip_or _ s _ h (record { kept = one _ _ s h })

  probe_stagnant-kept : (s : ProbeControl F) → P 2 s → P 0 (probe_stagnant now desired estimate s)
  unfolding probe_stagnant
  probe_stagnant-kept s h = keep.stalled 0 _ (one _ _ s h)

  stagnant_since-First :
      (progress : Option ℕ) (s : ProbeControl F)
      → P 2 s
      → First (stagnant_since now desired estimate progress s)
  unfolding stagnant_since
  stagnant_since-First none s h = record { kept = h }
  stagnant_since-First (some progress) s h =
      skip_or _ s _ h (skip_or _ s _ h (record { kept = probe_stagnant-kept s h }))

  maybe_stagnant-First :
      (s : ProbeControl F) → P 2 s → First (maybe_stagnant now desired estimate s)
  unfolding maybe_stagnant
  maybe_stagnant-First s h = skip_or _ s _ h (stagnant_since-First s.last_progress s h)

  probe_drop-First :
      (drop : LargeDrop F) (s : ProbeControl F)
      → P 2 s
      → First (probe_drop now desired estimate drop s)
  unfolding probe_drop
  probe_drop-First drop s h = skip_or _ s _ h (skip_or _ s _ h (record { kept = one _ _ s h }))

  drop_since-First :
      (drop : Option (LargeDrop F)) (s : ProbeControl F)
      → P 2 s
      → First (drop_since now desired estimate drop s)
  unfolding drop_since
  drop_since-First none s h = record { kept = h }
  drop_since-First (some drop) s h =
      by_test First (ltb bitrate_drop_timeout (elapsed now drop.dropped_at))
        (record { kept = keep.undropped 2 s h }) (probe_drop-First drop s h)

  maybe_large_drop-First :
      (s : ProbeControl F) → P 2 s → First (maybe_large_drop now desired estimate s)
  unfolding maybe_large_drop
  maybe_large_drop-First s h = skip_or _ s _ h (drop_since-First s.large_drop s h)

  last_right : (r : ProbeControl F × Bool) → First r → P 0 r.0
  last_right (s, true) h = h.kept
  last_right (s, false) h = keep.spared 0 s (keep.spared 1 s h.kept)

  pub attempt-kept : (s : ProbeControl F) → P 2 s → P 0 (attempt now desired estimate s).0
  unfolding attempt
  attempt-kept s h = last_right (attempt now desired estimate s) (
      or_else-First _ _
        (or_else-First _ _
          (or_else-First _ _
            (or_else-First _ _ (or_else-First _ _ (maybe_initial-First s h) maybe_large_drop-First)
              maybe_exponential-First)
            maybe_increase_alr-First)
          maybe_periodic_alr-First)
        maybe_stagnant-First)
