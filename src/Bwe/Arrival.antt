-- ===== src/Bwe/Arrival.antt =====
-- `ArrivalGroup` and `ArrivalGroupAccumulator` of crates/session/src/bwe/delay/arrival_group.rs. An
-- instant is a number of nanoseconds; `none` is a failed `expect` or a duration that is too long.
pub mod Groups
pub mod Walk
pub mod Going
pub mod Followed
mod Tests
use Prim.Native.Nat.{compare, Ordering}
use game_streamer_agent.Base.{
  ℕ, suc, ◌+◌, ◌-◌, ◌≡◌, ◌≤◌, max, Bool, true, false, not, ◌&&◌, ◌||◌, Option, none, some, ltb, leb,
  ◌==◌, if◌then◌else◌,
}
use game_streamer_agent.Bwe.Rates.{millis}
use game_streamer_agent.Bwe.Time.{
  TimeDelta, negative_infinity, positive_infinity, negative, positive, exact, since, sub,
  compare_delta, zero_delta,
}

-- `AckedPacket` of crates/session/src/bwe/mod.rs
pub record AckedPacket : Type 0 where
  pub seq_no : ℕ
  pub size : ℕ
  pub local_send_time : ℕ
  pub remote_recv_time : ℕ
  pub local_recv_time : ℕ

abbrev pub burst_time_interval : ℕ
burst_time_interval = millis 5

abbrev pub send_time_group_length : ℕ
send_time_group_length = millis 5

abbrev pub max_burst_duration : ℕ
max_burst_duration = millis 100

pub record ArrivalGroup : Type 0 where
  pub first : Option (ℕ × ℕ × ℕ)
  pub last_seq_no : Option ℕ
  pub last_local_send_time : Option ℕ
  pub last_remote_recv_time : Option ℕ
  pub size : ℕ

-- `ArrivalGroup::default`
abbrev pub empty_group : ArrivalGroup
empty_group = record {
  first = none;
  last_seq_no = none;
  last_local_send_time = none;
  last_remote_recv_time = none;
  size = 0;
}

pub data Belongs : Type 0 where
  belongs new_group skipped : Belongs

abbrev pub is_lt : Ordering → Bool
is_lt Ordering.lt = true
is_lt _ = false

abbrev pub is_gt : Ordering → Bool
is_gt Ordering.gt = true
is_gt _ = false

abbrev pub is_eq : Ordering → Bool
is_eq Ordering.eq = true
is_eq _ = false

-- The test of a packet once its two deltas differ.
unfoldable pub belongs_by : AckedPacket → ℕ → ℕ → TimeDelta → TimeDelta → Belongs
unfolding compare_delta
belongs_by packet first_send first_recv arrival_delta propagation_delta =
    if is_lt (compare_delta propagation_delta zero_delta)
      && not (is_gt (compare_delta arrival_delta (positive burst_time_interval)))
      && ltb (packet.remote_recv_time - first_recv) max_burst_duration
    then belongs
    else if ltb send_time_group_length (packet.local_send_time - first_send)
    then new_group
    else belongs

-- With the packet's times after the group's last ones.
unfoldable pub belongs_at : AckedPacket → ℕ → ℕ → ℕ → ℕ → Option Belongs
unfolding since sub compare_delta belongs_by
belongs_at packet first_send first_recv last_send last_recv =
    let send_delta = since (exact packet.local_send_time) (exact last_send) in
    let arrival_delta = since (exact packet.remote_recv_time) (exact last_recv) in
    if is_eq (compare_delta send_delta zero_delta)
    then some belongs
    else elim (sub arrival_delta send_delta) [
      | none ↦ none
      | some propagation_delta ↦
          some (belongs_by packet first_send first_recv arrival_delta propagation_delta)
    ]

-- With the last times of the group, which are there if it has a packet.
abbrev pub belongs_after : AckedPacket → ℕ → ℕ → Option ℕ → Option ℕ → Option Belongs
belongs_after packet first_send first_recv (some last_send) (some last_recv) =
    belongs_at packet first_send first_recv last_send last_recv
belongs_after packet first_send first_recv (some last_send) none = none
belongs_after packet first_send first_recv none last_recv = none

abbrev pub belongs_first : ArrivalGroup → AckedPacket → Option (ℕ × ℕ × ℕ) → Option Belongs
belongs_first g packet none = some belongs
belongs_first g packet (some (seq, first_send, first_recv)) =
    if ltb packet.local_send_time first_send
    then some skipped
    else belongs_after packet first_send first_recv g.last_local_send_time g.last_remote_recv_time

unfoldable pub belongs_to_group : ArrivalGroup → AckedPacket → Option Belongs
belongs_to_group g packet = belongs_first g packet g.first

-- `self.x.max(Some(t))`
abbrev pub later_of : Option ℕ → ℕ → ℕ
later_of none t = t
later_of (some u) t = max u t

abbrev first_of_group : Option (ℕ × ℕ × ℕ) → AckedPacket → Option (ℕ × ℕ × ℕ)
first_of_group none packet = some (packet.seq_no, packet.local_send_time, packet.remote_recv_time)
first_of_group (some f) packet = some f

abbrev pub with_packet : ArrivalGroup → AckedPacket → ArrivalGroup
with_packet g packet = record {
  first = first_of_group g.first packet;
  last_seq_no = some (later_of g.last_seq_no packet.seq_no);
  last_local_send_time = some (later_of g.last_local_send_time packet.local_send_time);
  last_remote_recv_time = some (later_of g.last_remote_recv_time packet.remote_recv_time);
  size = g.size + 1;
}

abbrev pub added : ArrivalGroup → AckedPacket → Belongs → ArrivalGroup × Bool
added g packet new_group = (g, true)
added g packet skipped = (g, false)
added g packet belongs = (with_packet g packet, false)

-- `add_packet`, with whether a new group is needed.
unfoldable pub add_packet : ArrivalGroup → AckedPacket → Option (ArrivalGroup × Bool)
add_packet g packet = elim (belongs_to_group g packet) [
  | none ↦ none
  | some b ↦ some (added g packet b)
]

pub record InterGroupDelayDelta : Type 0 where
  pub send_delta : TimeDelta
  pub arrival_delta : TimeDelta
  pub last_remote_recv_time : ℕ

pub record ArrivalGroupAccumulator : Type 0 where
  pub previous_group : Option ArrivalGroup
  pub current_group : ArrivalGroup

-- `ArrivalGroupAccumulator::default`
abbrev pub new_accumulator : ArrivalGroupAccumulator
new_accumulator = record { previous_group = none; current_group = empty_group }

-- `departure_delta` and `arrival_delta`: from one of two times to the other.
abbrev pub delta_between : Option ℕ → Option ℕ → Option TimeDelta
delta_between (some from) (some to) = some (since (exact to) (exact from))
delta_between (some from) none = none
delta_between none to = none

-- The two deltas from the previous group to the current one, if there is a previous one.
unfoldable pub deltas :
    Option ArrivalGroup → ArrivalGroup → ℕ → Option (Option InterGroupDelayDelta)
deltas none current last = some none
deltas (some prev) current last =
    elim (delta_between prev.last_remote_recv_time current.last_remote_recv_time) [
      | none ↦ none
      | some arrival ↦ elim (delta_between prev.last_local_send_time current.last_local_send_time) [
        | none ↦ none
        | some send ↦ some (
            some
              (record { send_delta = send; arrival_delta = arrival; last_remote_recv_time = last }))
      ]
    ]

-- A new group starts with the packet; the current one becomes the previous one.
unfoldable pub start_group :
    ArrivalGroupAccumulator
    → AckedPacket
    → Option (ArrivalGroupAccumulator × Option InterGroupDelayDelta)
start_group acc packet = elim acc.current_group.last_remote_recv_time [
  | none ↦ none
  | some last ↦ elim (deltas acc.previous_group acc.current_group last) [
    | none ↦ none
    | some result ↦ elim (add_packet empty_group packet) [
      | none ↦ none
      | some (group, more) ↦
          some (record { previous_group = some acc.current_group; current_group = group }, result)
    ]
  ]
]

unfoldable pub accumulate_packet :
    ArrivalGroupAccumulator
    → AckedPacket
    → Option (ArrivalGroupAccumulator × Option InterGroupDelayDelta)
accumulate_packet acc packet = elim (add_packet acc.current_group packet) [
  | none ↦ none
  | some (group, need_new_group) ↦
      let same = record acc { current_group = group } in
      let started = start_group same packet in if need_new_group then started else some (same, none)
]
