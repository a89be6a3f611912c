-- ===== src/Bwe/Estimator/Deadlines.antt =====
-- The deadlines and the number of the probes that crates/session/src/bwe/probe/estimator.rs follows.
use game_streamer_agent.Base.{
  ℕ, ◌≡◌, ◌≤◌, ◌<◌, ◌⊎◌, inl, inr, refl, sym, ap, ◌∙◌, true, false, Option, none, some, List, [],
  ◌∷◌, ltb, length, All, arith, Bool-cases, dec_lt,
}
use game_streamer_agent.Bwe.Rates.{Float64}
use game_streamer_agent.Bwe.Probe.{ProbeClusterConfig, Epochs}
use game_streamer_agent.Bwe.Estimator.{
  Float64Sizes, ProbeEstimatorState, ProbeEstimator, ProbeResult, cluster_too_small, nonnegative,
  min_cluster_size, poll_timeout, earliest,
}
use game_streamer_agent.Bwe.Estimator.Result.{
  counted_result, target_bytes, do_calculate_bitrate, count_clumped, keep_state, with_result,
  expire, handle_timeout,
}

module _ {F : Type 0} where
  -- All deadlines are in the future.
  abbrev pub IsPending : ℕ → List (ProbeEstimatorState F) → Type 0
  IsPending now = All (λ s. now < s.finalize_at)

  earliest-lt :
      (now : ℕ) (s : ProbeEstimatorState F) (ss : List (ProbeEstimatorState F))
      → IsPending now (s ∷ ss)
      → now < earliest s ss
  unfolding earliest
  earliest-lt now s [] (h, _) = h
  earliest-lt now s (t ∷ ss) (h, hs) = omega (arith, earliest-lt now t ss hs)

module _ {F : Type 0} ⦃fl : Float64 F⦄ ⦃fs : Float64Sizes F⦄ where
  expire_later :
      (now : ℕ) (s : ProbeEstimatorState F) (ss : List (ProbeEstimatorState F)) (n : ℕ)
      → ltb now s.finalize_at ≡ true
      → expire now (s ∷ ss) n ≡ keep_state s (expire now ss n)
  unfolding expire
  expire_later now s ss n e = rw e refl

  expire_due :
      (now : ℕ) (s : ProbeEstimatorState F) (ss : List (ProbeEstimatorState F)) (n : ℕ)
      → ltb now s.finalize_at ≡ false
      → expire now (s ∷ ss) n
        ≡ with_result (do_calculate_bitrate s) (λ result. expire now ss (count_clumped result n))
  unfolding expire
  expire_due now s ss n e = rw e refl

  kept_from :
      (s : ProbeEstimatorState F) (o : Option (List (ProbeEstimatorState F) × ℕ))
      (kept : List (ProbeEstimatorState F)) (m : ℕ)
      → keep_state s o ≡ some (kept, m)
      → (rest : List (ProbeEstimatorState F)) × (o ≡ some (rest, m)) × (kept ≡ s ∷ rest)
  kept_from s none kept m e = absurd cc
  kept_from s (some (rest, k)) kept m e = (rest, cc, cc)

  result_from :
      (o : Option (ProbeResult F)) (f : ProbeResult F → Option (List (ProbeEstimatorState F) × ℕ))
      (kept : List (ProbeEstimatorState F)) (m : ℕ)
      → with_result o f ≡ some (kept, m)
      → (r : ProbeResult F) × (f r ≡ some (kept, m))
  result_from none f kept m e = absurd cc
  result_from (some r) f kept m e = (r, e)

  -- What `expire` keeps.
  pub expire-IsPending :
      (now : ℕ) (ss : List (ProbeEstimatorState F)) (n : ℕ) (kept : List (ProbeEstimatorState F))
      (m : ℕ)
      → expire now ss n ≡ some (kept, m)
      → IsPending now kept × (length kept ≤ length ss)
  unfolding expire
  expire-IsPending now [] n kept m e =
      let none_left : kept ≡ [] = cc in rw none_left (tt, omega arith)
  expire-IsPending now (s ∷ ss) n kept m e = elim (Bool-cases (ltb now s.finalize_at)) [
    | inl later ↦
        let (rest, went, whole) =
          kept_from s (expire now ss n) kept m (sym (expire_later now s ss n later) ∙ e) in
        let (pending, few) = expire-IsPending now ss n rest m went in
        rw whole ((ground arith, pending), omega arith)
    | inr due ↦
        let (result, went) =
          result_from (do_calculate_bitrate s) _ kept m (sym (expire_due now s ss n due) ∙ e) in
        let (pending, few) = expire-IsPending now ss (count_clumped result n) kept m went in
        (pending, omega arith)
  ]

  -- What holds of all states holds of those that are kept.
  pub expire-All :
      (P : ProbeEstimatorState F → Type 0) (now : ℕ) (ss : List (ProbeEstimatorState F)) (n : ℕ)
      (kept : List (ProbeEstimatorState F)) (m : ℕ)
      → expire now ss n ≡ some (kept, m)
      → All P ss
      → All P kept
  unfolding expire
  expire-All P now [] n kept m e h = let none_left : kept ≡ [] = cc in rw none_left tt
  expire-All P now (s ∷ ss) n kept m e (here, h) = elim (Bool-cases (ltb now s.finalize_at)) [
    | inl later ↦
        let (rest, went, whole) =
          kept_from s (expire now ss n) kept m (sym (expire_later now s ss n later) ∙ e) in
        rw whole (here, expire-All P now ss n rest m went h)
    | inr due ↦
        let (result, went) =
          result_from (do_calculate_bitrate s) _ kept m (sym (expire_due now s ss n due) ∙ e) in
        expire-All P now ss (count_clumped result n) kept m went h
  ]

  -- The probe's plan has a size that is not negative.
  abbrev pub IsMeasurable : ProbeClusterConfig F → Type 0
  IsMeasurable config = (n : ℕ) × (target_bytes config ≡ nonnegative n)

  abbrev pub AreMeasurable : List (ProbeEstimatorState F) → Type 0
  AreMeasurable = All (λ s. IsMeasurable s.config)

  pub calculates :
      (s : ProbeEstimatorState F)
      → IsMeasurable s.config
      → (r : ProbeResult F) × (do_calculate_bitrate s ≡ some r)
  unfolding do_calculate_bitrate
  calculates s (n, e) = elim (Bool-cases (ltb s.packet_count min_cluster_size)) [
    | inl few ↦ (cluster_too_small s.packet_count min_cluster_size, rw few refl)
    | inr many ↦ (counted_result s n, rw (many, e) refl)
  ]

  pub expires :
      (now : ℕ) (ss : List (ProbeEstimatorState F)) (n : ℕ)
      → AreMeasurable ss
      → (kept : List (ProbeEstimatorState F)) × (m : ℕ) × (expire now ss n ≡ some (kept, m))
        × AreMeasurable kept
  unfolding expire
  expires now [] n h = ([], n, refl, tt)
  expires now (s ∷ ss) n (here, h) = elim (Bool-cases (ltb now s.finalize_at)) [
    | inl later ↦
        let (rest, m, went, fine) = expires now ss n h in
        (s ∷ rest, m, expire_later now s ss n later ∙ ap (keep_state s) went, (here, fine))
    | inr due ↦
        let (result, gave) = calculates s here in
        let (rest, m, went, fine) = expires now ss (count_clumped result n) h in
        (
          rest,
          m,
          expire_due now s ss n due
              ∙ ap (λ o. with_result o (λ r. expire now ss (count_clumped r n))) gave
              ∙ went,
          fine,
        )
  ]

  -- A state that is due goes.
  expire-some :
      (now : ℕ) (s : ProbeEstimatorState F) (ss : List (ProbeEstimatorState F)) (n : ℕ)
      (kept : List (ProbeEstimatorState F)) (m : ℕ)
      → expire now (s ∷ ss) n ≡ some (kept, m)
      → earliest s ss ≤ now
      → length kept < length (s ∷ ss)
  unfolding earliest
  expire-some now s [] n kept m e h = elim (Bool-cases (ltb now s.finalize_at)) [
    | inr due ↦
        let (result, went) =
          result_from (do_calculate_bitrate s) _ kept m (sym (expire_due now s [] n due) ∙ e) in
        let (_, few) = expire-IsPending now [] (count_clumped result n) kept m went in omega arith
    | inl later ↦ absurd (ground arith)
  ]
  expire-some now s (t ∷ ss) n kept m e h = elim (Bool-cases (ltb now s.finalize_at)) [
    | inr due ↦
        let (result, went) =
          result_from (do_calculate_bitrate s) _ kept m
            (sym (expire_due now s (t ∷ ss) n due) ∙ e) in
        let (_, few) = expire-IsPending now (t ∷ ss) (count_clumped result n) kept m went in
        omega arith
    | inl later ↦
        let (rest, went, whole) =
          kept_from s (expire now (t ∷ ss) n) kept m
            (sym (expire_later now s (t ∷ ss) n later) ∙ e) in
        let size = ap length whole in
        let fewer = expire-some now t ss n rest m went (ground arith) in omega arith
  ]

  -- The timer makes progress: where the plans of the states have sizes that are not negative,
  -- `handle_timeout` before the end of time does not panic, afterwards the next deadline lies in the
  -- future, and if the deadline had passed there are fewer states than before.
  pub handle_timeout-poll_timeout :
      (ep : Epochs) (now : ℕ) (e : ProbeEstimator F)
      → AreMeasurable e.states
      → now < ep.not_happening
      → (e' : ProbeEstimator F) × (handle_timeout now e ≡ some e')
        × (now < poll_timeout ep e')
        × ((now < poll_timeout ep e) ⊎ (length e'.states < length e.states))
  unfolding handle_timeout poll_timeout
  handle_timeout-poll_timeout ep now e fine h =
      let (kept, m, went, _) = expires now e.states e.clumped_probes fine in
      let (pending, few) = expire-IsPending now e.states e.clumped_probes kept m went in
      (
        record e { states = kept; clumped_probes = m },
        rw (went, handle_timeout) refl,
        next_deadline kept pending,
        progress e.states e.clumped_probes kept m went,
      )
    where
      next_deadline :
          (kept : List (ProbeEstimatorState F))
          → IsPending now kept
          → now < (elim kept as (λ _. ℕ) [ [] ↦ ep.not_happening | s ∷ ss ↦ earliest s ss ])
      next_deadline [] p = h
      next_deadline (s ∷ ss) p = earliest-lt now s ss p

      progress :
          (ss : List (ProbeEstimatorState F)) (n : ℕ) (kept : List (ProbeEstimatorState F)) (m : ℕ)
          → expire now ss n ≡ some (kept, m)
          → (now < (elim ss as (λ _. ℕ) [ [] ↦ ep.not_happening | s ∷ rest ↦ earliest s rest ]))
            ⊎ (length kept < length ss)
      progress [] n kept m e = inl h
      progress (s ∷ ss) n kept m e = elim (dec_lt now (earliest s ss)) [
        | yes before ↦ inl before
        | no past ↦ inr (expire-some now s ss n kept m e (omega arith))
      ]
