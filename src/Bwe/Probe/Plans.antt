-- ===== src/Bwe/Probe/Plans.antt =====
-- What holds of the state of the probing controller, and of each probe it gives, whatever is called.
use game_streamer_agent.Base.{
  ℕ, ◌*◌, min, max, ◌≤◌, ◌≡◌, refl, ◌⊎◌, inl, inr, Bool-cases, true, false, Option, none, some,
  List, [], arith, All, All-append,
}
use game_streamer_agent.Bwe.Rates.{Float64, kbps, decimal_times, millis}
use game_streamer_agent.Bwe.Probe.{
  ProbeKind, ProbeClusterConfig, ProbeControl, Epochs, is_set, queue_probe, new_cluster,
}
use game_streamer_agent.Bwe.Probe.Control.{attempt}
use game_streamer_agent.Bwe.Probe.Kept.{IsKept, attempt-kept}

abbrev pub OnSome {ℓ} : {A : Type ℓ} → (A → Type 0) → Option A → Type 0
OnSome P none = Unit
OnSome P (some a) = P a

module _ {F : Type 0} ⦃fl : Float64 F⦄ (D : F → Type 0) where
  -- A probe of at least 5 kbit/s within twice a desired rate, and long enough to be measured.
  pub record IsPlanned (c : ProbeClusterConfig F) : Type 0 where
    pub packets : c.min_packet_count ≡ 5
    pub delta : c.min_probe_delta ≡ millis 2
    pub long_enough : millis 15 ≤ c.target_duration
    pub short_enough : c.target_duration ≤ millis 100
    pub fast_enough : fl.below c.target_bitrate (kbps 5) ≡ false
    pub capped :
        (asked desired : F) × D desired
        × (c.target_bitrate ≡ fl.min_of asked (decimal_times desired 2 1))

  pub record IsTuned (backoff floor : ℕ) (pending : List (ProbeClusterConfig F)) : Type 0 where
    pub backs : 1 ≤ backoff
    pub backs_at_most : backoff ≤ 4
    pub lowest : millis 15 ≤ floor
    pub highest : floor ≤ millis 100
    pub planned : All IsPlanned pending

  abbrev pub IsTunedState : ProbeControl F → Type 0
  IsTunedState s = IsTuned s.stagnant_backoff s.duration_floor s.pending

  -- Ready to give a probe: switched on, with both rates, and due at once.
  abbrev pub IsReady : Epochs → ProbeControl F → Type 0
  IsReady ep s =
      (s.enabled ≡ true)
      × (is_set s.desired_bitrate ≡ true)
      × (is_set s.last_estimate ≡ true)
      × (s.next_timeout ≡ ep.already_happened)

  abbrev pub IsSound : Epochs → ProbeControl F → Type 0
  IsSound ep s = IsTunedState s × OnSome D s.desired_bitrate × ((s.pending ≡ []) ⊎ IsReady ep s)

  -- Tuned, switched on, and with both rates.
  abbrev pub IsArmed : F → F → ProbeControl F → Type 0
  IsArmed desired estimate s =
      IsTunedState s
      × (s.enabled ≡ true)
      × (s.desired_bitrate ≡ some desired)
      × (s.last_estimate ≡ some estimate)

module _ {F : Type 0} ⦃fl : Float64 F⦄ (D : F → Type 0) where
  queued-IsPlanned :
      (rate desired : F) (kind : ProbeKind) (s : ProbeControl F)
      → D desired
      → IsTunedState D s
      → fl.below (fl.min_of rate (decimal_times desired 2 1)) (kbps 5) ≡ false
      → IsPlanned D
          (record (new_cluster s.next_cluster_id
            (fl.min_of rate (decimal_times desired 2 1))
            kind) {
              min_packet_count = 5;
              target_duration = max (millis 15) s.duration_floor;
              min_probe_delta = millis 2;
            })
  unfolding new_cluster
  queued-IsPlanned rate desired kind s d t e =
      let low = t.lowest in
      let high = t.highest in
      record {
        packets = refl;
        delta = refl;
        long_enough = omega arith;
        short_enough = omega arith;
        fast_enough = e;
        capped = (rate, desired, d, refl);
      }

  pub with_pending :
      {backoff floor : ℕ} {old new : List (ProbeClusterConfig F)}
      → IsTuned D backoff floor old
      → All (IsPlanned D) new
      → IsTuned D backoff floor new
  with_pending t all = record {
    backs = t.backs;
    backs_at_most = t.backs_at_most;
    lowest = t.lowest;
    highest = t.highest;
    planned = all;
  }

  pub with_backoff :
      {backoff other floor : ℕ} {pending : List (ProbeClusterConfig F)}
      → IsTuned D backoff floor pending
      → 1 ≤ other
      → other ≤ 4
      → IsTuned D other floor pending
  with_backoff t low high = record {
    backs = low;
    backs_at_most = high;
    lowest = t.lowest;
    highest = t.highest;
    planned = t.planned;
  }

  pub with_floor :
      {backoff floor other : ℕ} {pending : List (ProbeClusterConfig F)}
      → IsTuned D backoff floor pending
      → millis 15 ≤ other
      → other ≤ millis 100
      → IsTuned D backoff other pending
  with_floor t low high = record {
    backs = t.backs;
    backs_at_most = t.backs_at_most;
    lowest = low;
    highest = high;
    planned = t.planned;
  }

  queue_probe-IsArmed :
      (now : ℕ) (desired estimate rate : F) (kind : ProbeKind) (s : ProbeControl F)
      → D desired
      → IsArmed D desired estimate s
      → IsArmed D desired estimate (queue_probe rate kind desired now s)
  unfolding queue_probe
  queue_probe-IsArmed now desired estimate rate kind s d (t, on, wished, estimated) =
      elim (Bool-cases (fl.below (fl.min_of rate (decimal_times desired 2 1)) (kbps 5))) [
        | inl e ↦ rw e (t, on, wished, estimated)
        | inr e ↦
            let all =
              All-append (IsPlanned D) s.pending _ t.planned
                (queued-IsPlanned rate desired kind s d t e, tt) in
            rw e (with_pending t all, on, wished, estimated)
      ]

  doubled-IsTuned :
      (backoff floor : ℕ) (pending : List (ProbeClusterConfig F))
      → IsTuned D backoff floor pending
      → IsTuned D (min (backoff * 2) 4) floor pending
  doubled-IsTuned backoff floor pending t =
      let low = t.backs in with_backoff t (omega arith) (omega arith)

  pub attempt-IsArmed :
      (now : ℕ) (desired estimate : F) (s : ProbeControl F)
      → D desired
      → IsArmed D desired estimate s
      → IsArmed D desired estimate (attempt now desired estimate s).0
  attempt-IsArmed now desired estimate s d a =
      let keep : IsKept now desired (λ n. IsArmed D desired estimate) = record {
        queued = λ n rate kind s a. queue_probe-IsArmed now desired estimate rate kind s d a;
        spared = λ n s a. a;
        noted = λ n s a. a;
        undropped = λ n s a. a;
        stalled = λ n s (t, on, wished, estimated). (
          doubled-IsTuned s.stagnant_backoff s.duration_floor s.pending t,
          on,
          wished,
          estimated,
        );
      } in
      attempt-kept now desired estimate keep s a
