-- ===== src/Bwe/Estimator/Result.antt =====
-- `do_calculate_bitrate` and what uses it in crates/session/src/bwe/probe/estimator.rs. `none` is the
-- panic of a negative data size as `usize`.
use game_streamer_agent.Base.{
  ℕ, ◌+◌, ◌-◌, ◌%◌, ◌||◌, Option, none, some, List, [], ◌∷◌, ltb, ◌==◌, if◌then◌else◌,
}
use game_streamer_agent.Bwe.Rates.{Float64, bps, decimal_times, elapsed}
use game_streamer_agent.Bwe.Types.{TwccSendRecord}
use game_streamer_agent.Bwe.Probe.{ProbeClusterConfig}
use game_streamer_agent.Bwe.Estimator.{
  Float64Sizes, Signed, nonnegative, below_zero, ProbeEstimatorState, ProbeEstimator, ProbeResult,
  estimate, cluster_too_small, insufficient_packets, insufficient_bytes, send_interval_too_long,
  send_interval_invalid, recv_interval_invalid, invalid_send_receive_ratio, invalid_data_size,
  missing_timing_info, min_cluster_size, max_probe_interval, is_below, update_records, find_state,
}

abbrev pub onto {ℓ} : {A : Type ℓ} → Option A → List A → List A
onto none l = l
onto (some a) l = a ∷ l

module _ {F : Type 0} ⦃fl : Float64 F⦄ ⦃fs : Float64Sizes F⦄ where
  -- `ProbeClusterConfig::target_bytes`
  abbrev pub target_bytes : ProbeClusterConfig F → Signed
  target_bytes c = fs.as_i64 (
      fs.round
        (fl.over (fl.times c.target_bitrate (fs.as_secs c.target_duration)) (fl.decimal 8 1)))

  -- A data size over a duration.
  abbrev rate_of : ℕ → ℕ → F
  rate_of size interval =
      if fl.same (fs.as_secs interval) (fl.decimal 0 1)
      then bps 0
      else fl.over (fl.times (fl.of_u64 size) (fl.decimal 8 1)) (fs.as_secs interval)

  -- The result once the intervals are known.
  unfoldable pub rate_result : ProbeEstimatorState F → ℕ → ℕ → ProbeResult F
  rate_result s send_interval recv_interval =
      let send_size = s.total_bytes - s.size_last_send in
      let recv_size = s.total_bytes - s.size_first_receive in
      let recv_rate = rate_of recv_size recv_interval in
      let send_rate = rate_of send_size send_interval in
      let ratio = fl.over recv_rate send_rate in
      if send_interval == 0
      then send_interval_invalid send_interval
      else if ltb max_probe_interval send_interval
      then send_interval_too_long send_interval
      else if (recv_interval == 0) || ltb max_probe_interval recv_interval
      then recv_interval_invalid recv_interval
      else if (send_size == 0) || (recv_size == 0)
      then invalid_data_size
      else if fl.below (fl.decimal 2 1) ratio
      then invalid_send_receive_ratio ratio
      else if fl.below recv_rate (decimal_times send_rate 9 10)
      then estimate (decimal_times recv_rate 95 100)
      else estimate (fl.min_of send_rate recv_rate)

  -- The timing bounds, in the order in which they are read.
  unfoldable pub timed_result :
      ProbeEstimatorState F → Option ℕ → Option ℕ → Option ℕ → Option ℕ → ProbeResult F
  unfolding rate_result
  timed_result s none last_send first_recv last_recv = missing_timing_info
  timed_result s (some a) none first_recv last_recv = missing_timing_info
  timed_result s (some a) (some b) none last_recv = missing_timing_info
  timed_result s (some a) (some b) (some c) none = missing_timing_info
  timed_result s (some a) (some b) (some c) (some d) = rate_result s (elapsed b a) (elapsed d c)

  -- What the counts allow, given the target in bytes.
  unfoldable pub counted_result : ProbeEstimatorState F → ℕ → ProbeResult F
  unfolding timed_result
  counted_result s target =
      let min_packets = fs.as_usize (decimal_times (fl.of_u64 s.config.min_packet_count) 80 100) in
      let min_bytes = fs.as_i64 (decimal_times (fl.of_u64 target) 80 100) in
      if ltb s.packet_count min_packets
      then insufficient_packets s.packet_count min_packets
      else if is_below s.total_bytes min_bytes
      then insufficient_bytes s.total_bytes min_bytes
      else timed_result s s.first_send_time s.last_send_time s.first_recv_time s.last_recv_time

  unfoldable pub do_calculate_bitrate : ProbeEstimatorState F → Option (ProbeResult F)
  unfolding counted_result
  do_calculate_bitrate s =
      if ltb s.packet_count min_cluster_size
      then some (cluster_too_small s.packet_count min_cluster_size)
      else elim (target_bytes s.config) [
        | nonnegative target ↦ some (counted_result s target)
        | below_zero ↦ none
      ]

  abbrev pub estimated : ProbeClusterConfig F → ProbeResult F → Option (ProbeClusterConfig F × F)
  estimated config (estimate rate) = some (config, rate)
  estimated config _ = none

  -- `calculate_bitrate`: the outer option is the panic.
  unfoldable pub calculate_bitrate :
      ProbeEstimatorState F → Option (Option (ProbeClusterConfig F × F))
  unfolding do_calculate_bitrate
  calculate_bitrate s = elim (do_calculate_bitrate s) [
    | none ↦ none
    | some result ↦ some (estimated s.config result)
  ]

  -- The rates of the clusters that were updated, in their order.
  unfoldable pub rates_of :
      List (ProbeEstimatorState F) → List ℕ → Option (List (ProbeClusterConfig F × F))
  unfolding find_state calculate_bitrate
  rates_of states [] = some []
  rates_of states (c ∷ cs) = elim (rates_of states cs) [
    | none ↦ none
    | some later ↦ elim (find_state c states) [
      | none ↦ some later
      | some s ↦ elim (calculate_bitrate s) [ none ↦ none | some now ↦ some (onto now later) ]
    ]
  ]

  -- `ProbeEstimator::update`
  unfoldable pub update :
      List TwccSendRecord
      → ProbeEstimator F
      → Option (ProbeEstimator F × List (ProbeClusterConfig F × F))
  unfolding update_records rates_of
  update records e =
      let updated = update_records records (record e { did_update = [] }) in
      elim (rates_of updated.states updated.did_update) [
        | none ↦ none
        | some rates ↦ some (updated, rates)
      ]

  -- A cluster that was rejected for compressed arrivals; the counter has 32 bits.
  abbrev pub count_clumped : ProbeResult F → ℕ → ℕ
  count_clumped (invalid_send_receive_ratio ratio) n = (n + 1) % 0x1_0000_0000
  count_clumped _ n = n

  abbrev pub keep_state :
      ProbeEstimatorState F
      → Option (List (ProbeEstimatorState F) × ℕ)
      → Option (List (ProbeEstimatorState F) × ℕ)
  keep_state s none = none
  keep_state s (some (kept, m)) = some (s ∷ kept, m)

  abbrev pub with_result {ℓ} :
      {A : Type ℓ}
      → Option A
      → (A → Option (List (ProbeEstimatorState F) × ℕ))
      → Option (List (ProbeEstimatorState F) × ℕ)
  with_result none f = none
  with_result (some a) f = f a

  -- The states that are kept, and the count of the clumped ones among the others.
  unfoldable pub expire :
      ℕ → List (ProbeEstimatorState F) → ℕ → Option (List (ProbeEstimatorState F) × ℕ)
  expire now [] n = some ([], n)
  expire now (s ∷ ss) n =
      let kept = keep_state s (expire now ss n) in
      let gone =
        with_result (do_calculate_bitrate s) (λ result. expire now ss (count_clumped result n)) in
      if ltb now s.finalize_at then kept else gone

  -- `ProbeEstimator::handle_timeout`
  unfoldable pub handle_timeout : ℕ → ProbeEstimator F → Option (ProbeEstimator F)
  handle_timeout now e = elim (expire now e.states e.clumped_probes) [
    | none ↦ none
    | some (kept, clumped) ↦ some (record e { states = kept; clumped_probes = clumped })
  ]
