-- ===== src/Bwe/Estimator.antt =====
-- `ProbeEstimator` of crates/session/src/bwe/probe/estimator.rs: the rate that each probe cluster
-- achieved, from the feedback on its packets. A data size is a number of bytes, and its sums do not
-- reach the 63 bits of the code: a packet has at most 65535 bytes.
pub mod Result
pub mod Summary
pub mod Updated
pub mod Deadlines
pub mod Bounded
pub mod Trace
pub mod Rated
mod Tests
use game_streamer_agent.Base.{
  ℕ, zero, suc, ◌+◌, ◌-◌, ◌*◌, ◌%◌, min, max, Bool, true, false, not, ◌&&◌, ◌||◌, Option, none,
  some, List, [], ◌∷◌, ◌++◌, ltb, leb, ◌==◌, if◌then◌else◌, length,
}
use game_streamer_agent.Bwe.Rates.{Float64, bps, decimal_times, secs, elapsed}
use game_streamer_agent.Bwe.Types.{TwccSendRecord, remote_recv_time}
use game_streamer_agent.Bwe.Probe.{ProbeClusterConfig, Epochs}
use game_streamer_agent.Bwe.Probe.Control.{or_at}

-- A conversion of an `f64` to `i64`.
pub data Signed : Type 0 where
  nonnegative : ℕ → Signed
  below_zero : Signed

-- The conversions between `f64` and integers that the code uses besides `Float64`.
pub record Float64Sizes (F : Type 0) : Type 0 where
  -- `Duration::as_secs_f64`, from nanoseconds
  pub as_secs : ℕ → F
  -- `as usize`
  pub as_usize : F → ℕ
  -- `as i64`
  pub as_i64 : F → Signed
  pub round : F → F

abbrev pub min_cluster_size : ℕ
min_cluster_size = 4

abbrev pub max_probe_interval : ℕ
max_probe_interval = secs 1

abbrev pub max_active_probes : ℕ
max_active_probes = 20

abbrev pub stale_probe_threshold : ℕ
stale_probe_threshold = secs 5

pub record ProbeEstimatorState (F : Type 0) : Type 0 where
  pub config : ProbeClusterConfig F
  pub created_at : ℕ
  pub finalize_at : ℕ
  pub first_send_time : Option ℕ
  pub last_send_time : Option ℕ
  pub size_last_send : ℕ
  pub first_recv_time : Option ℕ
  pub last_recv_time : Option ℕ
  pub size_first_receive : ℕ
  pub total_bytes : ℕ
  pub packet_count : ℕ

pub record ProbeEstimator (F : Type 0) : Type 0 where
  pub states : List (ProbeEstimatorState F)
  pub did_update : List ℕ
  pub clumped_probes : ℕ

pub data ProbeResult (F : Type 0) : Type 0 where
  estimate : F → ProbeResult F
  cluster_too_small insufficient_packets : ℕ → ℕ → ProbeResult F
  insufficient_bytes : ℕ → Signed → ProbeResult F
  send_interval_too_long send_interval_invalid recv_interval_invalid : ℕ → ProbeResult F
  invalid_send_receive_ratio : F → ProbeResult F
  invalid_data_size missing_timing_info : ProbeResult F

abbrev pub is_below : ℕ → Signed → Bool
is_below n (nonnegative m) = ltb n m
is_below n below_zero = false

-- `did_update.retain(|c| *c != cluster)`
unfoldable pub without : ℕ → List ℕ → List ℕ
without cluster [] = []
without cluster (c ∷ cs) = let rest = without cluster cs in if c == cluster then rest else c ∷ rest

module _ {F : Type 0} where
  -- `ProbeEstimatorState::new`
  abbrev pub new_state : Epochs → ProbeClusterConfig F → ℕ → ProbeEstimatorState F
  new_state ep config now = record {
    config = config;
    created_at = now;
    finalize_at = ep.not_happening;
    first_send_time = none;
    last_send_time = none;
    size_last_send = 0;
    first_recv_time = none;
    last_recv_time = none;
    size_first_receive = 0;
    total_bytes = 0;
    packet_count = 0;
  }

  -- A packet that was received.
  unfoldable pub note_packet : ProbeEstimatorState F → ℕ → ℕ → ℕ → ProbeEstimatorState F
  note_packet s send recv size =
      let last = or_at s.last_send_time send in
      let first_recv = or_at s.first_recv_time recv in
      record s {
        first_send_time = some (min (or_at s.first_send_time send) send);
        last_send_time = some (if leb last send then send else last);
        size_last_send = if leb last send then size else s.size_last_send;
        first_recv_time = some (if leb recv first_recv then recv else first_recv);
        size_first_receive = if leb recv first_recv then size else s.size_first_receive;
        last_recv_time = some (max (or_at s.last_recv_time recv) recv);
        total_bytes = s.total_bytes + size;
        packet_count = s.packet_count + 1;
      }

  -- `ProbeEstimatorState::update`, with whether the packet counts.
  unfoldable pub update_state :
      ProbeEstimatorState F → TwccSendRecord → ProbeEstimatorState F × Bool
  unfolding note_packet
  update_state s r = elim (remote_recv_time r) [
    | none ↦ (s, false)
    | some recv ↦ (note_packet s r.local_send_time recv r.size, true)
  ]

  unfoldable pub retain_fresh : ℕ → List (ProbeEstimatorState F) → List (ProbeEstimatorState F)
  retain_fresh now [] = []
  retain_fresh now (s ∷ ss) =
      let rest = retain_fresh now ss in
      if ltb (elapsed now s.created_at) stale_probe_threshold then s ∷ rest else rest

  unfoldable pub probe_start :
      Epochs → ProbeClusterConfig F → ℕ → ProbeEstimator F → ProbeEstimator F × Bool
  unfolding retain_fresh
  probe_start ep config now e =
      let full = leb max_active_probes (length e.states) in
      let kept = if full then retain_fresh now e.states else e.states in
      if full && leb max_active_probes (length kept)
      then (record e { states = kept }, false)
      else (record e { states = kept ++ (new_state ep config now ∷ []) }, true)

  -- The first state of the cluster is updated, with whether there is one and the packet counts.
  unfoldable pub update_first :
      ℕ → TwccSendRecord → List (ProbeEstimatorState F) → List (ProbeEstimatorState F) × Bool
  unfolding update_state
  update_first cluster r [] = ([], false)
  update_first cluster r (s ∷ ss) =
      let here = update_state s r in
      let rest = update_first cluster r ss in
      if s.config.cluster == cluster then (here.0 ∷ ss, here.1) else (s ∷ rest.0, rest.1)

  unfoldable pub update_record : TwccSendRecord → ProbeEstimator F → ProbeEstimator F
  unfolding update_first without
  update_record r e = elim r.packet_id.cluster [
    | none ↦ e
    | some cluster ↦
        let updated = update_first cluster r e.states in
        record e {
          states = updated.0;
          did_update =
              if updated.1 then without cluster e.did_update ++ (cluster ∷ []) else e.did_update;
        }
  ]

  unfoldable pub update_records : List TwccSendRecord → ProbeEstimator F → ProbeEstimator F
  unfolding update_record
  update_records [] e = e
  update_records (r ∷ rs) e = update_records rs (update_record r e)

  unfoldable pub find_state : ℕ → List (ProbeEstimatorState F) → Option (ProbeEstimatorState F)
  find_state cluster [] = none
  find_state cluster (s ∷ ss) =
      let rest = find_state cluster ss in if s.config.cluster == cluster then some s else rest

  -- The first state of the cluster is to be erased one second from now.
  unfoldable pub end_probe_states :
      ℕ → ℕ → List (ProbeEstimatorState F) → List (ProbeEstimatorState F)
  end_probe_states now cluster [] = []
  end_probe_states now cluster (s ∷ ss) =
      if s.config.cluster == cluster
      then record s { finalize_at = now + secs 1 } ∷ ss
      else s ∷ end_probe_states now cluster ss

  unfoldable pub end_probe : ℕ → ℕ → ProbeEstimator F → ProbeEstimator F
  unfolding end_probe_states
  end_probe now cluster e = record e { states = end_probe_states now cluster e.states }

  unfoldable pub earliest : ProbeEstimatorState F → List (ProbeEstimatorState F) → ℕ
  earliest s [] = s.finalize_at
  earliest s (t ∷ ss) = min s.finalize_at (earliest t ss)

  unfoldable pub poll_timeout : Epochs → ProbeEstimator F → ℕ
  unfolding earliest
  poll_timeout ep e = elim e.states [ [] ↦ ep.not_happening | s ∷ ss ↦ earliest s ss ]

  abbrev pub take_clumped_probes : ProbeEstimator F → ProbeEstimator F × ℕ
  take_clumped_probes e = (record e { clumped_probes = 0 }, e.clumped_probes)

  abbrev pub clear_probes : ProbeEstimator F → ProbeEstimator F
  clear_probes e = record e { states = [] }

  abbrev pub new_estimator : ProbeEstimator F
  new_estimator = record { states = []; did_update = []; clumped_probes = 0 }
