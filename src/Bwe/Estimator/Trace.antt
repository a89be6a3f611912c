-- ===== src/Bwe/Estimator/Trace.antt =====
-- The calls of the estimator of crates/session/src/bwe/probe/estimator.rs in any order.
use game_streamer_agent.Base.{
  ℕ, ◌≡◌, ◌≢◌, ◌≤◌, inl, inr, refl, ap, ◌∙◌, subst, Option, none, some, List, [], ◌∷◌, ◌==◌, length,
  All, arith, Bool-cases, Option-cases,
}
use game_streamer_agent.Bwe.Rates.{Float64, elapsed}
use game_streamer_agent.Bwe.Types.{TwccSendRecord}
use game_streamer_agent.Bwe.Probe.{ProbeClusterConfig, Epochs}
use game_streamer_agent.Bwe.Estimator.{
  Float64Sizes, ProbeEstimatorState, ProbeEstimator, missing_timing_info, max_active_probes,
  probe_start, end_probe, update_records, take_clumped_probes, clear_probes, find_state,
  new_estimator,
}
use game_streamer_agent.Bwe.Estimator.Result.{
  estimated, onto, do_calculate_bitrate, counted_result, timed_result, rate_result,
  calculate_bitrate, handle_timeout, update, rates_of,
}
use game_streamer_agent.Bwe.Estimator.Deadlines.{
  IsMeasurable, AreMeasurable, calculates, expires, expire-All, expire-IsPending,
}
use game_streamer_agent.Bwe.Estimator.Bounded.{
  IsTimed, IsFine, Fine, IsBounded, probe_start-IsBounded, update_records-IsBounded,
  end_probe_states-Fine,
}

pub data Event (F : Type 0) : Type 0 where
  started : ProbeClusterConfig F → ℕ → Event F
  reported : List TwccSendRecord → Event F
  ended : ℕ → ℕ → Event F
  timed_out : ℕ → Event F
  taken cleared : Event F

module _ {F : Type 0} ⦃fl : Float64 F⦄ ⦃fs : Float64Sizes F⦄ where
  state_of : Option (ProbeEstimator F × List (ProbeClusterConfig F × F)) → Option (ProbeEstimator F)
  state_of none = none
  state_of (some (e, rates)) = some e

  -- One call; `none` is a panic.
  unfoldable pub step : Epochs → Event F → ProbeEstimator F → Option (ProbeEstimator F)
  unfolding state_of
  step ep (started config now) e = some (probe_start ep config now e).0
  step ep (reported records) e = state_of (update records e)
  step ep (ended now cluster) e = some (end_probe now cluster e)
  step ep (timed_out now) e = handle_timeout now e
  step ep taken e = some (take_clumped_probes e).0
  step ep cleared e = some (clear_probes e)

  abbrev and_then :
      Option (ProbeEstimator F)
      → (ProbeEstimator F → Option (ProbeEstimator F))
      → Option (ProbeEstimator F)
  and_then none f = none
  and_then (some e) f = f e

  unfoldable pub run : Epochs → List (Event F) → ProbeEstimator F → Option (ProbeEstimator F)
  unfolding step
  run ep [] e = some e
  run ep (event ∷ events) e = and_then (step ep event e) (run ep events)

  pub find_state-IsFine :
      (c : ℕ) (ss : List (ProbeEstimatorState F)) (s : ProbeEstimatorState F)
      → find_state c ss ≡ some s
      → Fine ss
      → IsFine s
  unfolding find_state
  find_state-IsFine c [] s e h = absurd cc
  find_state-IsFine c (t ∷ ss) s e (here, h) = elim (Bool-cases (t.config.cluster == c)) [
    | inl same ↦ let found = rw same at e in let it : t ≡ s = cc in subst IsFine it here
    | inr other ↦ let later = rw other at e in find_state-IsFine c ss s later h
  ]

  pub calculate_bitrate_total :
      (s : ProbeEstimatorState F)
      → IsFine s
      → (r : Option (ProbeClusterConfig F × F)) × (calculate_bitrate s ≡ some r)
  unfolding calculate_bitrate
  calculate_bitrate_total s h =
      let (r, e) = calculates s h.measurable in
      (estimated s.config r, rw (e, calculate_bitrate) refl)

  rates_of_total :
      (ss : List (ProbeEstimatorState F)) (cs : List ℕ)
      → Fine ss
      → (rates : List (ProbeClusterConfig F × F)) × (rates_of ss cs ≡ some rates)
  unfolding rates_of
  rates_of_total ss [] h = ([], refl)
  rates_of_total ss (c ∷ cs) h =
      let (later, e) = rates_of_total ss cs h in
      elim (Option-cases (find_state c ss)) [
        | inl gone ↦ (later, rw (e, rates_of, gone) refl)
        | inr (s, found) ↦
            let (now, gave) = calculate_bitrate_total s (find_state-IsFine c ss s found h) in
            (onto now later, rw (e, rates_of, found, gave) refl)
      ]

  measured : (ss : List (ProbeEstimatorState F)) → Fine ss → AreMeasurable ss
  measured [] h = tt
  measured (s ∷ ss) (here, h) = (here.measurable, measured ss h)

  -- The probes that are started have plans whose size is not negative.
  abbrev pub IsMeasured : Event F → Type 0
  IsMeasured (started config now) = IsMeasurable config
  IsMeasured _ = Unit

  step-IsBounded :
      (ep : Epochs) (event : Event F) (e : ProbeEstimator F)
      → IsMeasured event
      → IsBounded e
      → (e' : ProbeEstimator F) × (step ep event e ≡ some e') × IsBounded e'
  unfolding step update handle_timeout end_probe state_of
  step-IsBounded ep (started config now) e m h =
      ((probe_start ep config now e).0, refl, probe_start-IsBounded ep config now e m h)
  step-IsBounded ep (reported rs) e m h =
      let e' = update_records rs (record e { did_update = [] }) in
      let bounded =
        update_records-IsBounded rs (record e { did_update = [] })
          (record { fine = h.fine; few = h.few }) in
      let (rates, total) = rates_of_total e'.states e'.did_update bounded.fine in
      (
        e',
        ap
            (λ o.
              state_of
                (elim o as (λ _. Option (ProbeEstimator F × List (ProbeClusterConfig F × F))) [
                  | none ↦ none
                  | some l ↦ some (e', l)
                ]))
            total,
        bounded,
      )
  step-IsBounded ep (ended now c) e m h =
      let (fine, size) = end_probe_states-Fine now c e.states h.fine in
      let few = h.few in (end_probe now c e, refl, record { fine = fine; few = omega arith })
  step-IsBounded ep (timed_out now) e m h =
      let (kept, n, went, _) = expires now e.states e.clumped_probes (measured e.states h.fine) in
      let (_, fewer) = expire-IsPending now e.states e.clumped_probes kept n went in
      let few = h.few in
      (
        record e { states = kept; clumped_probes = n },
        rw (went, handle_timeout) refl,
        record {
          fine = expire-All IsFine now e.states e.clumped_probes kept n went h.fine;
          few = omega arith;
        },
      )
  step-IsBounded ep taken e m h =
      ((take_clumped_probes e).0, refl, record { fine = h.fine; few = h.few })
  step-IsBounded ep cleared e m h = (clear_probes e, refl, record { fine = tt; few = omega arith })

  run_onto :
      (ep : Epochs) (events : List (Event F)) (e : ProbeEstimator F)
      → All IsMeasured events
      → IsBounded e
      → (e' : ProbeEstimator F) × (run ep events e ≡ some e') × IsBounded e'
  unfolding run
  run_onto ep [] e m h = (e, refl, h)
  run_onto ep (event ∷ events) e (now, m) h =
      let (e', went, bounded) = step-IsBounded ep event e now h in
      let (last, rest, fine) = run_onto ep events e' m bounded in
      (last, ap (λ o. and_then o (run ep events)) went ∙ rest, fine)

  rate_result-ne : (s : ProbeEstimatorState F) (i j : ℕ) → rate_result s i j ≢ missing_timing_info
  unfolding rate_result
  rate_result-ne s i j e = ground arith

  counted_result-ne :
      (s : ProbeEstimatorState F) (target a b c d : ℕ)
      → s.first_send_time ≡ some a
      → s.last_send_time ≡ some b
      → s.first_recv_time ≡ some c
      → s.last_recv_time ≡ some d
      → counted_result s target ≢ missing_timing_info
  unfolding counted_result timed_result
  counted_result-ne s target a b c d ea eb ec ed e =
      ground (arith, rate_result-ne s (elapsed b a) (elapsed d c))

  -- The instants are there when they are read.
  do_calculate_bitrate-ne :
      (s : ProbeEstimatorState F) → IsFine s → do_calculate_bitrate s ≢ some missing_timing_info
  unfolding do_calculate_bitrate
  do_calculate_bitrate-ne s h e = by_time h.timed
    where
      by_time : IsTimed s → ⊥
      by_time (inl z) = ground arith
      by_time (inr (a, b, c, d, ea, eb, lo, ec, ed, lo')) =
          let (n, target) = h.measurable in
          ground (arith, counted_result-ne s n a b c d ea eb ec ed)

  All-found :
      (ss : List (ProbeEstimatorState F))
      → Fine ss
      → All (λ s. do_calculate_bitrate s ≢ some missing_timing_info) ss
  All-found [] h = tt
  All-found (s ∷ ss) (here, h) = (do_calculate_bitrate-ne s here, All-found ss h)

  -- Whatever is called on a new estimator, where the probes that are started have plans whose size
  -- is not negative: no call panics, at most 20 probes are followed, and no calculation finds an
  -- instant missing.
  pub run-IsBounded :
      (ep : Epochs) (events : List (Event F))
      → All IsMeasured events
      → (e : ProbeEstimator F) × (run ep events new_estimator ≡ some e)
        × (length e.states ≤ max_active_probes)
        × All (λ s. do_calculate_bitrate s ≢ some missing_timing_info) e.states
  run-IsBounded ep events m =
      let (e, went, bounded) =
        run_onto ep events new_estimator m (record { fine = tt; few = omega arith }) in
      (e, went, bounded.few, All-found e.states bounded.fine)
