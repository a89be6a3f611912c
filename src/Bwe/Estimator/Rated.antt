-- ===== src/Bwe/Estimator/Rated.antt =====
-- What `update` of crates/session/src/bwe/probe/estimator.rs gives back: results for the clusters that
-- it updated.
use game_streamer_agent.Base.{
  ℕ, ◌≡◌, refl, ap, sym, subst, ◌∙◌, Option, none, some, List, [], ◌∷◌, ◌==◌, inl, inr, Bool-cases,
  Option-cases, arith,
}
use game_streamer_agent.Bwe.Rates.{Float64}
use game_streamer_agent.Bwe.Types.{TwccSendRecord}
use game_streamer_agent.Bwe.Probe.{ProbeClusterConfig}
use game_streamer_agent.Bwe.Estimator.{
  Float64Sizes, ProbeEstimatorState, ProbeEstimator, ProbeResult, update_records, find_state,
}
use game_streamer_agent.Bwe.Estimator.Result.{
  estimated, onto, do_calculate_bitrate, calculate_bitrate, rates_of, update,
}
use game_streamer_agent.Bwe.Estimator.Bounded.{Fine, IsBounded, update_records-IsBounded}
use game_streamer_agent.Bwe.Estimator.Trace.{find_state-IsFine, calculate_bitrate_total}
use game_streamer_agent.Bwe.Estimator.Updated.{last_of_each, hits, ids, update_records-last_of_each}

module _ {F : Type 0} ⦃fl : Float64 F⦄ ⦃fs : Float64Sizes F⦄ where
  -- The results for clusters, one for each whose state gives an estimate, in the clusters' order.
  pub data Rated (states : List (ProbeEstimatorState F))
      : List ℕ → List (ProbeClusterConfig F × F) → Type 0 where
    closed : Rated states [] []
    given :
        {c : ℕ} {cs : List ℕ} {config : ProbeClusterConfig F} {rate : F}
        {rates : List (ProbeClusterConfig F × F)} {s : ProbeEstimatorState F}
        → find_state c states ≡ some s
        → calculate_bitrate s ≡ some (some (config, rate))
        → config.cluster ≡ c
        → Rated states cs rates
        → Rated states (c ∷ cs) ((config, rate) ∷ rates)
    withheld :
        {c : ℕ} {cs : List ℕ} {rates : List (ProbeClusterConfig F × F)}
        → ((s : ProbeEstimatorState F)
            → find_state c states ≡ some s
            → calculate_bitrate s ≡ some none)
        → Rated states cs rates
        → Rated states (c ∷ cs) rates

  find_state-cluster :
      (c : ℕ) (ss : List (ProbeEstimatorState F)) (s : ProbeEstimatorState F)
      → find_state c ss ≡ some s
      → s.config.cluster ≡ c
  unfolding find_state
  find_state-cluster c [] s e = absurd cc
  find_state-cluster c (t ∷ ss) s e = elim (Bool-cases (t.config.cluster == c)) [
    | inl same ↦
        let found = rw same at e in
        let it : t ≡ s = cc in
        let this : t.config.cluster ≡ c = ground arith in ap (λ u. u.config.cluster) (sym it) ∙ this
    | inr other ↦ let later = rw other at e in find_state-cluster c ss s later
  ]

  estimated-config :
      (config config' : ProbeClusterConfig F) (r : ProbeResult F) (rate : F)
      → estimated config r ≡ some (config', rate)
      → config' ≡ config
  estimated-config config config' r rate e = ground arith

  calculate_bitrate-config :
      (s : ProbeEstimatorState F) (config : ProbeClusterConfig F) (rate : F)
      → calculate_bitrate s ≡ some (some (config, rate))
      → config ≡ s.config
  unfolding calculate_bitrate
  calculate_bitrate-config s config rate e = elim (Option-cases (do_calculate_bitrate s)) [
    | inl z ↦ let e' = rw (z, calculate_bitrate) at e in absurd cc
    | inr (r, z) ↦
        let e' = rw (z, calculate_bitrate) at e in
        let this : estimated s.config r ≡ some (config, rate) = cc in
        estimated-config s.config config r rate this
  ]

  rates_of-Rated :
      (ss : List (ProbeEstimatorState F)) (cs : List ℕ)
      → Fine ss
      → (rates : List (ProbeClusterConfig F × F)) × (rates_of ss cs ≡ some rates)
        × Rated ss cs rates
  unfolding rates_of
  rates_of-Rated ss [] h = ([], refl, closed)
  rates_of-Rated ss (c ∷ cs) h =
      let (later, e, rated) = rates_of-Rated ss cs h in
      elim (Option-cases (find_state c ss)) [
        | inl gone ↦ (later, rw (e, rates_of, gone) refl, withheld (λ s found. absurd cc) rated)
        | inr (s, found) ↦
            let (now, gave) = calculate_bitrate_total s (find_state-IsFine c ss s found h) in
            (
              onto now later,
              rw (e, rates_of, found, gave) refl,
              result_of c s now later found gave rated,
            )
      ]
    where
      result_of :
          (c : ℕ) (s : ProbeEstimatorState F) (now : Option (ProbeClusterConfig F × F))
          (later : List (ProbeClusterConfig F × F))
          → find_state c ss ≡ some s
          → calculate_bitrate s ≡ some now
          → Rated ss cs later
          → Rated ss (c ∷ cs) (onto now later)
      result_of c s none later found gave rated =
          withheld
            (λ (t : ProbeEstimatorState F) (found' : find_state c ss ≡ some t).
              let same : s ≡ t = cc in ap calculate_bitrate (sym same) ∙ gave)
            rated
      result_of c s (some (config, rate)) later found gave rated =
          given found gave
            (ap (λ d. d.cluster) (calculate_bitrate-config s config rate gave)
              ∙ find_state-cluster c ss s found)
            rated

  -- In a state of at most 20 probes, whose plans have sizes that are not negative and which have their
  -- instants if they have packets, whatever was noted before: `update` does not panic, and the clusters
  -- that it notes are those of the packets of this call that were received and belong to a probe that is
  -- followed, each once, in the order in which each was updated last. The results that it gives are
  -- those of these clusters' states, in that order, without the clusters that have no state or no
  -- estimate.
  pub update-last_of_each :
      (rs : List TwccSendRecord) (e : ProbeEstimator F)
      → IsBounded e
      → (e' : ProbeEstimator F) × (rates : List (ProbeClusterConfig F × F)) × (update rs e
          ≡ some (e', rates))
        × (e'.did_update ≡ last_of_each (hits (ids e.states) rs))
        × Rated e'.states (last_of_each (hits (ids e.states) rs)) rates
  unfolding update
  update-last_of_each rs e h =
      let e' = update_records rs (record e { did_update = [] }) in
      let bounded =
        update_records-IsBounded rs (record e { did_update = [] })
          (record { fine = h.fine; few = h.few }) in
      let (rates, total, rated) = rates_of-Rated e'.states e'.did_update bounded.fine in
      let noted = update_records-last_of_each rs e in
      (
        e',
        rates,
        rw (total, update) refl,
        noted,
        subst (λ cs. Rated e'.states cs rates) noted rated,
      )
