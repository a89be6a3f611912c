-- ===== src/Bwe/Probe/Sound.antt =====
-- `handle_timeout` of crates/session/src/bwe/probe/control.rs on a sound state.
use game_streamer_agent.Base.{
  ℕ, ◌≡◌, refl, subst, ◌∙◌, ◌⊎◌, inl, inr, true, false, Option, none, some, List, [], ◌∷◌, by_test,
  by_test_eq, arith, All, ltb, not, ◌&&◌,
}
use game_streamer_agent.Bwe.Rates.{Float64, decimal_times}
use game_streamer_agent.Bwe.Probe.{
  ProbeClusterConfig, ProbeControl, Epochs, is_set, in_alr, request_immediate,
}
use game_streamer_agent.Bwe.Probe.Attempts.{track_drop, recent_mark, raised}
use game_streamer_agent.Bwe.Probe.Control.{
  handle_timeout, take_pending, consider, probe_now, attempt, update_progress, compute_next_timeout,
  give_first, when_known, is_laddering, may_probe, raise_mark, mark_of, schedule,
}
use game_streamer_agent.Bwe.Probe.Plans.{
  OnSome, IsPlanned, IsTunedState, IsReady, IsSound, IsArmed, with_pending, with_backoff,
  attempt-IsArmed,
}

module _ {F : Type 0} ⦃fl : Float64 F⦄ (D : F → Type 0) (ep : Epochs) where
  -- A sound state, and a sound probe where one is given.
  abbrev pub IsGood : ProbeControl F × Option (ProbeClusterConfig F) → Type 0
  IsGood r = IsSound D ep r.0 × OnSome (IsPlanned D) r.1

module _ {F : Type 0} ⦃fl : Float64 F⦄ (D : F → Type 0) (ep : Epochs) where
  raise_mark-IsArmed :
      (now : ℕ) (desired estimate : F) (s : ProbeControl F)
      → IsArmed D desired estimate s
      → IsArmed D desired estimate (raise_mark now estimate s)
  unfolding raise_mark
  raise_mark-IsArmed now desired estimate s (t, on, wished, estimated) =
      by_test (IsArmed D desired estimate)
        (fl.below (raised (mark_of estimate s.progress_high)) estimate)
        (with_backoff D {other = 1} t (omega arith) (omega arith), on, wished, estimated)
        (t, on, wished, estimated)

  progress-IsArmed :
      (now : ℕ) (desired estimate : F) (s : ProbeControl F)
      → IsArmed D desired estimate s
      → IsArmed D desired estimate (update_progress now estimate s)
  unfolding update_progress
  progress-IsArmed now desired estimate s a =
      let risen = raise_mark-IsArmed now desired estimate s a in
      by_test (IsArmed D desired estimate) (is_set (raise_mark now estimate s).last_progress) risen
        risen

  deadline-IsArmed :
      (now : ℕ) (desired estimate : F) (s : ProbeControl F)
      → IsArmed D desired estimate s
      → IsArmed D desired estimate (compute_next_timeout now s).0
  unfolding compute_next_timeout
  deadline-IsArmed now desired estimate s a =
      let Q : ProbeControl F × ℕ → Type 0 = λ r. IsArmed D desired estimate r.0 in
      by_test Q (is_laddering s.last_probe) a (by_test Q (in_alr s) a a)

  pub give_first-IsGood :
      (desired estimate : F) (pending : List (ProbeClusterConfig F)) (s : ProbeControl F)
      → s.pending ≡ pending
      → D desired
      → IsArmed D desired estimate s
      → IsGood D ep (give_first ep pending s)
  unfolding give_first request_immediate
  give_first-IsGood desired estimate [] s e d (t, on, wished, estimated) =
      ((t, rw wished d, inl e), tt)
  give_first-IsGood desired estimate (c ∷ cs) s e d (t, on, wished, estimated) =
      let all : All (IsPlanned D) (c ∷ cs) = subst (All (IsPlanned D)) e t.planned in
      ((with_pending D t all.1, rw wished d, inr (on, rw wished, rw estimated, refl)), all.0)

  schedule-IsArmed :
      (now : ℕ) (desired estimate : F) (s : ProbeControl F)
      → IsArmed D desired estimate s
      → IsArmed D desired estimate (schedule now estimate s)
  unfolding schedule
  schedule-IsArmed now desired estimate s a =
      deadline-IsArmed now desired estimate
        (record (update_progress now estimate s) { prev_estimate = some estimate })
        (progress-IsArmed now desired estimate s a)

  probe_now-IsGood :
      (now : ℕ) (desired estimate : F) (s : ProbeControl F)
      → D desired
      → IsArmed D desired estimate s
      → IsGood D ep (probe_now ep now desired estimate s)
  unfolding probe_now
  probe_now-IsGood now desired estimate s d a =
      let tried = (attempt now desired estimate s).0 in
      let next = schedule now estimate tried in
      give_first-IsGood desired estimate next.pending next refl d
        (schedule-IsArmed now desired estimate tried (attempt-IsArmed D now desired estimate s d a))

  track_drop-IsArmed :
      (now : ℕ) (desired estimate : F) (s : ProbeControl F)
      → IsArmed D desired estimate s
      → IsArmed D desired estimate (track_drop now estimate s)
  unfolding track_drop
  track_drop-IsArmed now desired estimate s a =
      by_test (IsArmed D desired estimate)
        (not (is_set s.large_drop)
          && fl.below estimate (decimal_times (recent_mark now estimate s.recent_high).0 5 10))
        a a

  tracked_pending :
      (now : ℕ) (estimate : F) (s : ProbeControl F)
      → (track_drop now estimate s).pending ≡ s.pending
  unfolding track_drop
  tracked_pending now estimate s = ground arith

  consider-IsGood :
      (now : ℕ) (desired estimate : F) (s : ProbeControl F)
      → D desired
      → s.pending ≡ []
      → IsArmed D desired estimate s
      → IsGood D ep (consider ep now desired estimate s)
  unfolding consider
  consider-IsGood now desired estimate s d e a =
      let tracked = track_drop now estimate s in
      let (t, on, wished, estimated) = track_drop-IsArmed now desired estimate s a in
      by_test (IsGood D ep) (may_probe now estimate tracked)
        (probe_now-IsGood now desired estimate tracked d (t, on, wished, estimated))
        ((t, rw wished d, inl (tracked_pending now estimate s ∙ e)), tt)

  take_pending-IsGood :
      (now : ℕ) (desired estimate : F) (pending : List (ProbeClusterConfig F)) (s : ProbeControl F)
      → s.pending ≡ pending
      → D desired
      → IsArmed D desired estimate s
      → IsGood D ep (take_pending ep now desired estimate pending s)
  unfolding take_pending
  take_pending-IsGood now desired estimate [] s e d a = consider-IsGood now desired estimate s d e a
  take_pending-IsGood now desired estimate (c ∷ cs) s e d a =
      give_first-IsGood desired estimate (c ∷ cs) s e d a

  when_known-IsGood :
      (now : ℕ) (desired? estimate? : Option F) (s : ProbeControl F)
      → s.desired_bitrate ≡ desired?
      → s.last_estimate ≡ estimate?
      → s.enabled ≡ true
      → (s.pending ≡ []) ⊎ ((is_set desired? ≡ true) × (is_set estimate? ≡ true))
      → IsTunedState D s
      → OnSome D desired?
      → IsGood D ep (when_known ep now desired? estimate? s)
  unfolding when_known
  when_known-IsGood now none estimate? s wished estimated on (inl e) t d =
      ((t, rw wished tt, inl e), tt)
  when_known-IsGood now none estimate? s wished estimated on (inr (p, q)) t d =
      absurd (ground arith)
  when_known-IsGood now (some desired) none s wished estimated on (inl e) t d =
      ((t, rw wished d, inl e), tt)
  when_known-IsGood now (some desired) none s wished estimated on (inr (p, q)) t d =
      absurd (ground arith)
  when_known-IsGood now (some desired) (some estimate) s wished estimated on ready t d =
      take_pending-IsGood now desired estimate s.pending s refl d (t, on, wished, estimated)

  empty_when_off :
      (s : ProbeControl F) → (s.pending ≡ []) ⊎ IsReady D ep s → s.enabled ≡ false → s.pending ≡ []
  empty_when_off s (inl e) off = e
  empty_when_off s (inr (on, p, q, due)) off = absurd (ground arith)

  known_when_pending :
      (s : ProbeControl F)
      → (s.pending ≡ []) ⊎ IsReady D ep s
      → (s.pending ≡ []) ⊎ ((is_set s.desired_bitrate ≡ true) × (is_set s.last_estimate ≡ true))
  known_when_pending s (inl e) = inl e
  known_when_pending s (inr (on, p, q, due)) = inr (p, q)

  pub handle_timeout-IsGood :
      (now : ℕ) (s : ProbeControl F) → IsSound D ep s → IsGood D ep (handle_timeout ep now s)
  unfolding handle_timeout
  handle_timeout-IsGood now s (t, d, ready) =
      let waiting = record s { next_timeout = ep.not_happening } in
      by_test (IsGood D ep) (ltb now s.next_timeout) ((t, d, ready), tt)
        (by_test_eq (IsGood D ep) (not s.enabled)
          (λ off. ((t, d, inl (empty_when_off s ready (ground arith))), tt))
          (λ on.
            when_known-IsGood now s.desired_bitrate s.last_estimate waiting refl refl (ground arith)
              (known_when_pending s ready) t d))
