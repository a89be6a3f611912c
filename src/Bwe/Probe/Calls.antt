-- ===== src/Bwe/Probe/Calls.antt =====
-- All the calls of the probing controller of crates/session/src/bwe/probe/control.rs together.
use game_streamer_agent.Base.{
  ℕ, ◌*◌, min, refl, ◌⊎◌, inl, inr, Bool, not, ◌&&◌, ◌||◌, Option, none, some, List, [], ◌∷◌,
  by_test, by_test_eq, arith, All,
}
use game_streamer_agent.Bwe.Rates.{Float64, is_zero, millis}
use game_streamer_agent.Bwe.Probe.{
  BandwidthLimitedCause, ProbeClusterConfig, ProbeControl, Epochs, is_set, request_immediate,
  same_cause, default_control,
}
use game_streamer_agent.Bwe.Probe.Inputs.{
  enable, set_desired_bitrate, set_estimated_bitrate, set_alr_start_time, set_alr_stop_time,
  on_probe_outcome, dominated_by, is_fruitful,
}
use game_streamer_agent.Bwe.Probe.Plans.{
  OnSome, IsPlanned, IsSound, with_pending, with_backoff, with_floor,
}
use game_streamer_agent.Bwe.Probe.Sound.{IsGood, handle_timeout-IsGood}
use game_streamer_agent.Bwe.Probe.Trace.{
  Event, enabled_as, desired_as, estimated_as, alr_started, alr_stopped, timed_out, probed, step,
  run, cons_some,
}

-- The desired rates that are set have a property.
abbrev pub Wants : {F : Type 0} → (F → Type 0) → Event F → Type 0
Wants D (desired_as v) = D v
Wants D _ = Unit

still : {A B C : Type 0} → A ⊎ B → (B → C) → A ⊎ C
still (inl a) go = inl a
still (inr b) go = inr (go b)

module _ {F : Type 0} ⦃fl : Float64 F⦄ (D : F → Type 0) (ep : Epochs) where
  enable-IsSound : (v : Bool) (s : ProbeControl F) → IsSound D ep s → IsSound D ep (enable ep v s)
  unfolding enable request_immediate
  enable-IsSound v s (t, d, ready) =
      by_test_eq (IsSound D ep) (not s.enabled && v)
        (λ e. (t, d, still ready (λ (on, p, q, due). (refl, p, q, refl))))
        (λ e.
          by_test (IsSound D ep) (s.enabled && not v)
            (
              with_floor D (with_backoff D (with_pending D t tt) (omega arith) (omega arith))
                  (omega arith) (omega arith),
              tt,
              inl refl,
            )
            (t, d, ready))

  desired-IsSound :
      (v : F) (s : ProbeControl F)
      → D v
      → IsSound D ep s
      → IsSound D ep (set_desired_bitrate ep v s)
  unfolding set_desired_bitrate request_immediate
  desired-IsSound v s dv (t, d, ready) =
      by_test (IsSound D ep) (not (is_set s.desired_bitrate) && is_zero v) (t, d, ready)
        (t, dv, still ready (λ (on, p, q, due). (on, refl, q, refl)))

  estimated-IsSound :
      (v : F) (cause : BandwidthLimitedCause) (s : ProbeControl F)
      → IsSound D ep s
      → IsSound D ep (set_estimated_bitrate ep v cause s)
  unfolding set_estimated_bitrate request_immediate
  estimated-IsSound v cause s (t, d, ready) =
      by_test (IsSound D ep) (not (is_set s.last_estimate) && is_zero v) (t, d, ready)
        (by_test (IsSound D ep) (dominated_by v s.last_estimate && same_cause s.last_cause cause)
          (t, d, ready) (t, d, still ready (λ (on, p, q, due). (on, p, refl, refl))))

  start-IsSound :
      (t : ℕ) (s : ProbeControl F) → IsSound D ep s → IsSound D ep (set_alr_start_time ep t s)
  unfolding set_alr_start_time request_immediate
  start-IsSound time s (t, d, ready) =
      by_test (IsSound D ep) (is_set s.alr_start) (t, d, ready)
        (t, d, still ready (λ (on, p, q, due). (on, p, q, refl)))

  stop-IsSound :
      (t : ℕ) (s : ProbeControl F) → IsSound D ep s → IsSound D ep (set_alr_stop_time ep t s)
  unfolding set_alr_stop_time request_immediate
  stop-IsSound time s (t, d, ready) =
      by_test (IsSound D ep) (not (is_set s.alr_start) || is_set s.alr_stop) (t, d, ready)
        (t, d, still ready (λ (on, p, q, due). (on, p, q, refl)))

  outcome-IsSound :
      (measured : Option F) (target : F) (overusing : Bool) (s : ProbeControl F)
      → IsSound D ep s
      → IsSound D ep (on_probe_outcome measured target overusing s)
  unfolding on_probe_outcome
  outcome-IsSound measured target overusing s (t, d, ready) =
      let low = t.lowest in
      let high = t.highest in
      by_test (IsSound D ep) (is_fruitful measured target)
        (
          with_floor D (with_backoff D {other = 1} t (omega arith) (omega arith)) (omega arith)
              (omega arith),
          d,
          ready,
        )
        (by_test (IsSound D ep) overusing
          (with_backoff D {other = 4} t (omega arith) (omega arith), d, ready)
          (
            with_floor D {other = min (s.duration_floor * 2) (millis 100)} t (omega arith)
                (omega arith),
            d,
            ready,
          ))

  step-IsGood :
      (e : Event F) (s : ProbeControl F) → Wants D e → IsSound D ep s → IsGood D ep (step ep e s)
  unfolding step
  step-IsGood (enabled_as v) s w h = (enable-IsSound v s h, tt)
  step-IsGood (desired_as v) s w h = (desired-IsSound v s w h, tt)
  step-IsGood (estimated_as v cause) s w h = (estimated-IsSound v cause s h, tt)
  step-IsGood (alr_started t) s w h = (start-IsSound t s h, tt)
  step-IsGood (alr_stopped t) s w h = (stop-IsSound t s h, tt)
  step-IsGood (timed_out now) s w h = handle_timeout-IsGood D ep now s h
  step-IsGood (probed measured target overusing) s w h =
      (outcome-IsSound measured target overusing s h, tt)

  All-cons_some :
      (c : Option (ProbeClusterConfig F)) (cs : List (ProbeClusterConfig F))
      → OnSome (IsPlanned D) c
      → All (IsPlanned D) cs
      → All (IsPlanned D) (cons_some c cs)
  All-cons_some none cs h hs = hs
  All-cons_some (some c) cs h hs = (h, hs)

  -- From a sound state, where the desired rates that are set have a property, any calls lead to a
  -- sound state: the back-off from 1 to 4, the duration floor from 15 to 100 ms, and what is queued
  -- ready to be given at once. Each probe given has 5 packets, 2 ms apart, in 15 to 100 ms; its rate
  -- is not below 5 kbit/s, and is the lesser of what was asked and twice a rate with the property.
  pub run-IsSound :
      (es : List (Event F)) (s : ProbeControl F)
      → All (Wants D) es
      → IsSound D ep s
      → IsSound D ep (run ep es s).0 × All (IsPlanned D) (run ep es s).1
  unfolding run
  run-IsSound [] s ws h = (h, tt)
  run-IsSound (e ∷ es) s ws h =
      let (sound, given) = step-IsGood e s ws.0 h in
      let (last, rest) = run-IsSound es (step ep e s).0 ws.1 sound in
      (last, All-cons_some (step ep e s).1 (run ep es (step ep e s).0).1 given rest)

  pub default-IsSound : IsSound D ep (default_control ep)
  default-IsSound = (
    record {
      backs = omega arith;
      backs_at_most = omega arith;
      lowest = omega arith;
      highest = omega arith;
      planned = tt;
    },
    tt,
    inl refl,
  )
