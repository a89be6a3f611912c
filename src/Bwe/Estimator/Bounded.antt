-- ===== src/Bwe/Estimator/Bounded.antt =====
-- What every call of the estimator of crates/session/src/bwe/probe/estimator.rs keeps of its states.
use game_streamer_agent.Base.{
  ℕ, suc, ◌≡◌, ◌≤◌, ◌⊎◌, inl, inr, refl, ap, min, max, some, List, [], ◌∷◌, ltb, leb, ◌==◌,
  if◌then◌else◌, length, All, All-append, arith, Bool-cases, Option-cases, length-append,
}
use game_streamer_agent.Bwe.Rates.{Float64, elapsed}
use game_streamer_agent.Bwe.Types.{TwccSendRecord, remote_recv_time}
use game_streamer_agent.Bwe.Probe.{ProbeClusterConfig, Epochs}
use game_streamer_agent.Bwe.Probe.Control.{or_at}
use game_streamer_agent.Bwe.Estimator.{
  Float64Sizes, ProbeEstimatorState, ProbeEstimator, new_state, max_active_probes, probe_start,
  end_probe_states, retain_fresh, stale_probe_threshold, update_first, update_record,
  update_records, update_state, note_packet,
}
use game_streamer_agent.Bwe.Estimator.Deadlines.{IsMeasurable}

module _ {F : Type 0} ⦃fl : Float64 F⦄ ⦃fs : Float64Sizes F⦄ where
  -- A state with packets has all four instants, in order.
  abbrev pub IsTimed : ProbeEstimatorState F → Type 0
  IsTimed s =
      (s.packet_count ≡ 0)
      ⊎ ((a : ℕ) × (b : ℕ) × (c : ℕ) × (d : ℕ) × (s.first_send_time ≡ some a)
          × (s.last_send_time ≡ some b)
          × (a ≤ b)
          × (s.first_recv_time ≡ some c)
          × (s.last_recv_time ≡ some d)
          × (c ≤ d))

  -- No state with packets lacks its instants, and no probe was started whose size is negative.
  pub record IsFine (s : ProbeEstimatorState F) : Type 0 where
    pub measurable : IsMeasurable s.config
    pub timed : IsTimed s

  abbrev pub Fine : List (ProbeEstimatorState F) → Type 0
  Fine = All IsFine

  note-IsTimed :
      (s : ProbeEstimatorState F) (send recv size : ℕ)
      → IsTimed s
      → IsTimed (note_packet s send recv size)
  unfolding note_packet
  note-IsTimed s send recv size h = inr (
    min (or_at s.first_send_time send) send,
    (if leb (or_at s.last_send_time send) send then send else or_at s.last_send_time send),
    (if leb recv (or_at s.first_recv_time recv) then recv else or_at s.first_recv_time recv),
    max (or_at s.last_recv_time recv) recv,
    refl,
    refl,
    ground arith,
    refl,
    refl,
    ground arith,
  )

  update_state-IsFine :
      (s : ProbeEstimatorState F) (r : TwccSendRecord) → IsFine s → IsFine (update_state s r).0
  unfolding update_state
  update_state-IsFine s r h = elim (Option-cases (remote_recv_time r)) [
    | inl lost ↦ rw (lost, update_state) h
    | inr (t, got) ↦
        rw (got, update_state)
          (record {
            measurable = h.measurable;
            timed = note-IsTimed s r.local_send_time t r.size h.timed;
          })
  ]

  update_first-Fine :
      (c : ℕ) (r : TwccSendRecord) (ss : List (ProbeEstimatorState F))
      → Fine ss
      → Fine (update_first c r ss).0 × (length (update_first c r ss).0 ≡ length ss)
  unfolding update_first
  update_first-Fine c r [] h = (tt, refl)
  update_first-Fine c r (s ∷ ss) (here, h) =
      let (rest, size) = update_first-Fine c r ss h in
      elim (Bool-cases (s.config.cluster == c)) [
        | inl e ↦ rw e ((update_state-IsFine s r here, h), refl)
        | inr ne ↦ rw ne ((here, rest), ap suc size)
      ]

  pub end_probe_states-Fine :
      (now c : ℕ) (ss : List (ProbeEstimatorState F))
      → Fine ss
      → Fine (end_probe_states now c ss) × (length (end_probe_states now c ss) ≡ length ss)
  unfolding end_probe_states
  end_probe_states-Fine now c [] h = (tt, refl)
  end_probe_states-Fine now c (s ∷ ss) (here, h) =
      let (rest, size) = end_probe_states-Fine now c ss h in
      elim (Bool-cases (s.config.cluster == c)) [
        | inl e ↦ rw e ((record { measurable = here.measurable; timed = here.timed }, h), refl)
        | inr ne ↦ rw ne ((here, rest), ap suc size)
      ]

  retain_fresh-Fine :
      (now : ℕ) (ss : List (ProbeEstimatorState F)) → Fine ss → Fine (retain_fresh now ss)
  unfolding retain_fresh
  retain_fresh-Fine now [] h = tt
  retain_fresh-Fine now (s ∷ ss) (here, h) =
      elim (Bool-cases (ltb (elapsed now s.created_at) stale_probe_threshold)) [
        | inl e ↦ rw e (here, retain_fresh-Fine now ss h)
        | inr ne ↦ rw ne (retain_fresh-Fine now ss h)
      ]

  length-retain_fresh :
      (now : ℕ) (ss : List (ProbeEstimatorState F)) → length (retain_fresh now ss) ≤ length ss
  unfolding retain_fresh
  length-retain_fresh now [] = omega arith
  length-retain_fresh now (s ∷ ss) = ground (arith, length-retain_fresh now ss)

  -- At most as many probes as the cap are followed.
  pub record IsBounded (e : ProbeEstimator F) : Type 0 where
    pub fine : Fine e.states
    pub few : length e.states ≤ max_active_probes

  new_IsFine :
      (ep : Epochs) (config : ProbeClusterConfig F) (now : ℕ)
      → IsMeasurable config
      → IsFine (new_state ep config now)
  new_IsFine ep config now m = record { measurable = m; timed = inl refl }

  pub probe_start-IsBounded :
      (ep : Epochs) (config : ProbeClusterConfig F) (now : ℕ) (e : ProbeEstimator F)
      → IsMeasurable config
      → IsBounded e
      → IsBounded (probe_start ep config now e).0
  unfolding probe_start
  probe_start-IsBounded ep config now e m h =
      let fresh = retain_fresh now e.states in
      let kept = retain_fresh-Fine now e.states h.fine in
      let added = length-append fresh (new_state ep config now ∷ []) in
      let appended = length-append e.states (new_state ep config now ∷ []) in
      elim (Bool-cases (leb max_active_probes (length e.states))) [
        | inr room ↦
            rw (room, probe_start)
              (record {
                fine =
                    All-append IsFine e.states (new_state ep config now ∷ []) h.fine
                      (new_IsFine ep config now m, tt);
                few = ground arith;
              })
        | inl full ↦ elim (Bool-cases (leb max_active_probes (length fresh))) [
          | inl still ↦
              rw (full, probe_start, still)
                (record {
                  fine = kept;
                  few = omega (arith, length-retain_fresh now e.states, h.few);
                })
          | inr less ↦
              rw (full, probe_start, less)
                (record {
                  fine =
                      All-append IsFine fresh (new_state ep config now ∷ []) kept
                        (new_IsFine ep config now m, tt);
                  few = ground arith;
                })
        ]
      ]

  update_record-IsBounded :
      (r : TwccSendRecord) (e : ProbeEstimator F) → IsBounded e → IsBounded (update_record r e)
  unfolding update_record
  update_record-IsBounded r e h = elim (Option-cases r.packet_id.cluster) [
    | inl untagged ↦ simp (untagged, update_record) h
    | inr (c, tagged) ↦
        let (fine, size) = update_first-Fine c r e.states h.fine in
        let few = h.few in simp (tagged, update_record) (record { fine = fine; few = omega arith })
  ]

  pub update_records-IsBounded :
      (rs : List TwccSendRecord) (e : ProbeEstimator F)
      → IsBounded e
      → IsBounded (update_records rs e)
  unfolding update_records
  update_records-IsBounded [] e h = h
  update_records-IsBounded (r ∷ rs) e h =
      update_records-IsBounded rs (update_record r e) (update_record-IsBounded r e h)
