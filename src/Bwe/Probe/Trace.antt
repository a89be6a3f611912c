-- ===== src/Bwe/Probe/Trace.antt =====
-- The life of a probing controller of crates/session/src/bwe/probe/control.rs: its calls in any order,
-- and the probes they give.
use game_streamer_agent.Base.{ℕ, ◌≡◌, refl, ap, Bool, Option, none, some, List, [], ◌∷◌}
use game_streamer_agent.Bwe.Rates.{Float64}
use game_streamer_agent.Bwe.Probe.{BandwidthLimitedCause, ProbeClusterConfig, ProbeControl, Epochs}
use game_streamer_agent.Bwe.Probe.Control.{handle_timeout}
use game_streamer_agent.Bwe.Probe.Inputs.{
  enable, set_desired_bitrate, set_estimated_bitrate, set_alr_start_time, set_alr_stop_time,
  on_probe_outcome,
}

pub data Event (F : Type 0) : Type 0 where
  enabled_as : Bool → Event F
  desired_as : F → Event F
  estimated_as : F → BandwidthLimitedCause → Event F
  alr_started alr_stopped timed_out : ℕ → Event F
  probed : Option F → F → Bool → Event F

abbrev pub cons_some {ℓ} : {A : Type ℓ} → Option A → List A → List A
cons_some none cs = cs
cons_some (some c) cs = c ∷ cs

module _ {F : Type 0} ⦃fl : Float64 F⦄ (ep : Epochs) where
  unfoldable pub step : Event F → ProbeControl F → ProbeControl F × Option (ProbeClusterConfig F)
  unfolding enable set_desired_bitrate set_estimated_bitrate set_alr_start_time set_alr_stop_time
      on_probe_outcome handle_timeout
  step (enabled_as v) s = (enable ep v s, none)
  step (desired_as v) s = (set_desired_bitrate ep v s, none)
  step (estimated_as v cause) s = (set_estimated_bitrate ep v cause s, none)
  step (alr_started t) s = (set_alr_start_time ep t s, none)
  step (alr_stopped t) s = (set_alr_stop_time ep t s, none)
  step (timed_out now) s = handle_timeout ep now s
  step (probed measured target overusing) s = (on_probe_outcome measured target overusing s, none)

  -- The state afterwards, and the probes that were given, in order.
  unfoldable pub run :
      List (Event F) → ProbeControl F → ProbeControl F × List (ProbeClusterConfig F)
  unfolding step
  run [] s = (s, [])
  run (e ∷ es) s = let rest = run es (step e s).0 in (rest.0, cons_some (step e s).1 rest.1)

  pub run_nil : (s : ProbeControl F) → run [] s ≡ (s, [])
  unfolding run
  run_nil s = refl

  pub run_cons :
      (e : Event F) (es : List (Event F)) (s : ProbeControl F)
      {r : ProbeControl F × Option (ProbeClusterConfig F)}
      → step e s ≡ r
      → run (e ∷ es) s ≡ ((run es r.0).0, cons_some r.1 (run es r.0).1)
  unfolding run
  run_cons e es s go = ap (λ r. ((run es r.0).0, cons_some r.1 (run es r.0).1)) go
