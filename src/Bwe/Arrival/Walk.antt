-- ===== src/Bwe/Arrival/Walk.antt =====
-- What a sequence of packets makes of the accumulator of
-- crates/session/src/bwe/delay/arrival_group.rs.
use game_streamer_agent.Base.{
  ℕ, ◌+◌, ◌≡◌, ◌<◌, ◌⊎◌, refl, true, false, Option, none, some, List, [], ◌∷◌, ◌++◌, map,
}
use game_streamer_agent.Bwe.Time.{TimeDelta, Timestamp, exact, add_delta}
use game_streamer_agent.Bwe.Arrival.{
  AckedPacket, ArrivalGroup, empty_group, add_packet, with_packet, belongs_to_group,
  InterGroupDelayDelta, ArrivalGroupAccumulator, accumulate_packet, start_group, deltas,
  send_time_group_length,
}
use game_streamer_agent.Bwe.Arrival.Groups.{IsGroup}

-- The current group, and the previous one, whose first packet was sent more than the group length
-- before.
pub record IsTracked (acc : ArrivalGroupAccumulator) (start : ℕ) : Type 0 where
  pub current : IsGroup acc.current_group start
  pub previous :
      (acc.previous_group ≡ none)
      ⊎ ((g : ArrivalGroup) × (before : ℕ) × (acc.previous_group ≡ some g)
          × IsGroup g before
          × (before + send_time_group_length < start))

abbrev pub and_then : Option Timestamp → (Timestamp → Option Timestamp) → Option Timestamp
and_then none f = none
and_then (some t) f = f t

-- The durations added one after another to an instant.
abbrev pub walk : Timestamp → List TimeDelta → Option Timestamp
walk t [] = some t
walk t (d ∷ ds) = and_then (add_delta t d) (λ u. walk u ds)

-- The deltas lead from the given last times of a group to those of the previous group.
pub record IsWalked (acc : ArrivalGroupAccumulator) (ds : List InterGroupDelayDelta) (send recv : ℕ)
    : Type 0 where
  pub group : ArrivalGroup
  pub last_send : ℕ
  pub last_recv : ℕ
  pub is_previous : acc.previous_group ≡ some group
  pub is_last_send : group.last_local_send_time ≡ some last_send
  pub is_last_recv : group.last_remote_recv_time ≡ some last_recv
  pub sends : walk (exact send) (map (λ d. d.send_delta) ds) ≡ some (exact last_send)
  pub arrivals : walk (exact recv) (map (λ d. d.arrival_delta) ds) ≡ some (exact last_recv)

abbrev pub listed : Option InterGroupDelayDelta → List InterGroupDelayDelta
listed none = []
listed (some d) = d ∷ []

abbrev pub joined :
    List InterGroupDelayDelta
    → Option (ArrivalGroupAccumulator × List InterGroupDelayDelta)
    → Option (ArrivalGroupAccumulator × List InterGroupDelayDelta)
joined now none = none
joined now (some (acc, later)) = some (acc, now ++ later)

abbrev pub continued :
    Option (ArrivalGroupAccumulator × Option InterGroupDelayDelta)
    → (ArrivalGroupAccumulator → Option (ArrivalGroupAccumulator × List InterGroupDelayDelta))
    → Option (ArrivalGroupAccumulator × List InterGroupDelayDelta)
continued none f = none
continued (some (acc, now)) f = joined (listed now) (f acc)

-- The packets one after another, with all deltas that they produce; `none` is a panic.
unfoldable pub accumulate_packets :
    List AckedPacket
    → ArrivalGroupAccumulator
    → Option (ArrivalGroupAccumulator × List InterGroupDelayDelta)
accumulate_packets [] acc = some (acc, [])
accumulate_packets (p ∷ ps) acc = continued (accumulate_packet acc p) (accumulate_packets ps)

pub added_first :
    (p : AckedPacket) → add_packet empty_group p ≡ some (with_packet empty_group p, false)
unfolding add_packet belongs_to_group
added_first p = refl

-- The state when a new group has started.
abbrev pub next_acc : ArrivalGroupAccumulator → AckedPacket → ArrivalGroupAccumulator
next_acc acc p = record {
  previous_group = some acc.current_group;
  current_group = with_packet empty_group p;
}

pub joins :
    (acc : ArrivalGroupAccumulator) (p : AckedPacket) (g : ArrivalGroup)
    → add_packet acc.current_group p ≡ some (g, false)
    → accumulate_packet acc p ≡ some (record acc { current_group = g }, none)
unfolding accumulate_packet
joins acc p g e = rw (e, accumulate_packet) refl

pub starts :
    (acc : ArrivalGroupAccumulator) (p : AckedPacket) (last : ℕ) (d : Option InterGroupDelayDelta)
    → add_packet acc.current_group p ≡ some (acc.current_group, true)
    → acc.current_group.last_remote_recv_time ≡ some last
    → deltas acc.previous_group acc.current_group last ≡ some d
    → accumulate_packet acc p ≡ some (next_acc acc p, d)
unfolding accumulate_packet start_group
starts acc p last d e l ds = rw (e, accumulate_packet) (begun l)
  where
    begun :
        acc.current_group.last_remote_recv_time ≡ some last
        → start_group acc p ≡ some (next_acc acc p, d)
    begun l = cc (ds, added_first p)
