-- ===== src/Bwe/Probe/Drain.antt =====
-- When the probing controller of crates/session/src/bwe/probe/control.rs gives probes, and when not.
use game_streamer_agent.Base.{
  ℕ, ◌≤◌, ◌≡◌, refl, ap, sym, ◌∙◌, ◌⊎◌, inl, inr, true, false, Option, none, some, List, [], ◌∷◌,
  map, length, by_test, by_test_eq, ltb, not, arith, All,
}
use game_streamer_agent.Bwe.Rates.{Float64}
use game_streamer_agent.Bwe.Probe.{
  ProbeClusterConfig, ProbeControl, Epochs, is_set, request_immediate, default_control,
}
use game_streamer_agent.Bwe.Probe.Control.{handle_timeout, when_known, take_pending, give_first}
use game_streamer_agent.Bwe.Probe.Inputs.{
  enable, set_desired_bitrate, set_estimated_bitrate, set_alr_start_time, set_alr_stop_time,
  on_probe_outcome,
}
use game_streamer_agent.Bwe.Probe.Plans.{IsReady}
use game_streamer_agent.Bwe.Probe.Calls.{Wants, run-IsSound, default-IsSound}
use game_streamer_agent.Bwe.Probe.Trace.{
  Event, enabled_as, desired_as, estimated_as, alr_started, alr_stopped, timed_out, probed, step,
  run, run_cons, cons_some,
}

All-Wants : {F : Type 0} (es : List (Event F)) → All (Wants (λ (v : F). Unit)) es
All-Wants [] = tt
All-Wants (enabled_as v ∷ es) = (tt, All-Wants es)
All-Wants (desired_as v ∷ es) = (tt, All-Wants es)
All-Wants (estimated_as v cause ∷ es) = (tt, All-Wants es)
All-Wants (alr_started t ∷ es) = (tt, All-Wants es)
All-Wants (alr_stopped t ∷ es) = (tt, All-Wants es)
All-Wants (timed_out now ∷ es) = (tt, All-Wants es)
All-Wants (probed measured target overusing ∷ es) = (tt, All-Wants es)

-- A call other than `enable(true)`.
abbrev pub IsOther : {F : Type 0} → Event F → Type 0
IsOther (enabled_as v) = v ≡ false
IsOther _ = Unit

module _ {F : Type 0} ⦃fl : Float64 F⦄ (ep : Epochs) where
  abbrev Ready : ProbeControl F → Type 0
  Ready s = IsReady (λ (v : F). Unit) ep s

  -- The state after its first probe is given.
  abbrev given : ProbeControl F → List (ProbeClusterConfig F) → ProbeControl F
  given s cs = request_immediate ep (record s { next_timeout = ep.not_happening; pending = cs })

  known_lem :
      (now : ℕ) (desired? estimate? : Option F) (c : ProbeClusterConfig F)
      (cs : List (ProbeClusterConfig F)) (s : ProbeControl F)
      → s.pending ≡ c ∷ cs
      → is_set desired? ≡ true
      → is_set estimate? ≡ true
      → when_known ep now desired? estimate? s
        ≡ (request_immediate ep (record s { pending = cs }), some c)
  unfolding when_known take_pending give_first
  known_lem now none estimate? c cs s e p q = absurd (ground arith)
  known_lem now (some desired) none c cs s e p q = absurd (ground arith)
  known_lem now (some desired) (some estimate) c cs s e p q =
      ap (λ l. take_pending ep now desired estimate l s) e

  Ready-handle_timeout :
      (now : ℕ) (c : ProbeClusterConfig F) (cs : List (ProbeClusterConfig F)) (s : ProbeControl F)
      → s.pending ≡ c ∷ cs
      → ep.already_happened ≤ now
      → Ready s
      → handle_timeout ep now s ≡ (given s cs, some c)
  unfolding handle_timeout
  Ready-handle_timeout now c cs s e h (on, p, q, due) =
      let late : ltb now s.next_timeout ≡ false = ground arith in
      rw late (
        rw on (
          known_lem now s.desired_bitrate s.last_estimate c cs
            (record s { next_timeout = ep.not_happening; enabled = true }) e p q))

  given-Ready :
      (s : ProbeControl F) (cs : List (ProbeClusterConfig F)) → Ready s → Ready (given s cs)
  unfolding request_immediate
  given-Ready s cs (on, p, q, due) = (on, p, q, refl)

  drained :
      (cs : List (ProbeClusterConfig F)) (ts : List ℕ) (s : ProbeControl F)
      → s.pending ≡ cs
      → length ts ≡ length cs
      → All (λ t. ep.already_happened ≤ t) ts
      → Ready s
      → ((run ep (map timed_out ts) s).1 ≡ cs) × ((run ep (map timed_out ts) s).0.pending ≡ [])
  unfolding run
  drained [] [] s e same late r = (refl, e)
  drained [] (t ∷ ts) s e same late r = absurd (omega arith)
  drained (c ∷ cs) [] s e same late r = absurd (omega arith)
  drained (c ∷ cs) (t ∷ ts) s e same late r =
      let one =
        run_cons ep (timed_out t) (map timed_out ts) s (Ready-handle_timeout t c cs s e late.0 r) in
      let (outs, empty) =
        drained cs ts (given s cs) refl (omega arith) late.1 (given-Ready s cs r) in
      (ap (λ r. r.1) one ∙ ap (λ l. c ∷ l) outs, ap (λ r. r.0.pending) one ∙ empty)

  drained_from :
      (ts : List ℕ) (s : ProbeControl F)
      → (s.pending ≡ []) ⊎ Ready s
      → length ts ≡ length s.pending
      → All (λ t. ep.already_happened ≤ t) ts
      → ((run ep (map timed_out ts) s).1 ≡ s.pending)
        × ((run ep (map timed_out ts) s).0.pending ≡ [])
  unfolding run
  drained_from [] s (inl e) same late = (sym e, e)
  drained_from (t ∷ ts) s (inl e) same late = let none_left = ap length e in absurd (omega arith)
  drained_from ts s (inr r) same late = drained s.pending ts s refl same late r

  -- Whatever was called before, as many timeouts as there are probes queued give exactly those
  -- probes, in their order, and leave none, if no timeout comes before the start of time.
  pub handle_timeout_drains :
      (es : List (Event F)) (ts : List ℕ)
      → length ts ≡ length (run ep es (default_control ep)).0.pending
      → All (λ t. ep.already_happened ≤ t) ts
      → ((run ep (map timed_out ts) (run ep es (default_control ep)).0).1
          ≡ (run ep es (default_control ep)).0.pending)
        × ((run ep (map timed_out ts) (run ep es (default_control ep)).0).0.pending ≡ [])
  handle_timeout_drains es ts same late =
      let reached = (run ep es (default_control ep)).0 in
      let (sound, _) =
        run-IsSound (λ (v : F). Unit) ep es (default_control ep) (All-Wants es)
          (default-IsSound (λ (v : F). Unit) ep) in
      drained_from ts reached sound.2 same late

  abbrev IsOff : ProbeControl F → Type 0
  IsOff s = (s.enabled ≡ false) × (s.pending ≡ [])

  abbrev StaysOff : ProbeControl F × Option (ProbeClusterConfig F) → Type 0
  StaysOff r = IsOff r.0 × (r.1 ≡ none)

  timeout-StaysOff : (now : ℕ) (s : ProbeControl F) → IsOff s → StaysOff (handle_timeout ep now s)
  unfolding handle_timeout
  timeout-StaysOff now s (off, e) =
      by_test StaysOff (ltb now s.next_timeout) ((off, e), refl)
        (by_test_eq StaysOff (not s.enabled) (λ h. ((off, e), refl)) (λ on. absurd (ground arith)))

  step-StaysOff : (e : Event F) (s : ProbeControl F) → IsOther e → IsOff s → StaysOff (step ep e s)
  unfolding step enable set_desired_bitrate set_estimated_bitrate set_alr_start_time
      set_alr_stop_time on_probe_outcome request_immediate
  step-StaysOff (enabled_as v) s w h = ground arith
  step-StaysOff (desired_as v) s w h = ground arith
  step-StaysOff (estimated_as v cause) s w h = ground arith
  step-StaysOff (alr_started t) s w h = ground arith
  step-StaysOff (alr_stopped t) s w h = ground arith
  step-StaysOff (timed_out now) s w h = timeout-StaysOff now s h
  step-StaysOff (probed measured target overusing) s w h = ground arith

  run-IsOff :
      (es : List (Event F)) (s : ProbeControl F)
      → All IsOther es
      → IsOff s
      → IsOff (run ep es s).0 × ((run ep es s).1 ≡ [])
  unfolding run
  run-IsOff [] s ws h = (h, refl)
  run-IsOff (e ∷ es) s ws h =
      let (off, nothing) = step-StaysOff e s ws.0 h in
      let (last, rest) = run-IsOff es (step ep e s).0 ws.1 off in
      (last, ap (λ c. cons_some c (run ep es (step ep e s).0).1) nothing ∙ rest)

  enable-IsOff : (s : ProbeControl F) → (s.pending ≡ []) ⊎ Ready s → IsOff (enable ep false s)
  unfolding enable request_immediate
  enable-IsOff s (inl e) = ground arith
  enable-IsOff s (inr (on, p, q, due)) = ground arith

  -- Whatever was called before, once the controller is switched off it gives no probe until it is
  -- switched on again.
  pub enable_quiet :
      (before after : List (Event F))
      → All IsOther after
      → (run ep after (enable ep false (run ep before (default_control ep)).0)).1 ≡ []
  enable_quiet before after ws =
      let (sound, _) =
        run-IsSound (λ (v : F). Unit) ep before (default_control ep) (All-Wants before)
          (default-IsSound (λ (v : F). Unit) ep) in
      (run-IsOff after _ ws (enable-IsOff _ sound.2)).1
