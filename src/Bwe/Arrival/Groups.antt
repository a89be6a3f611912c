-- ===== src/Bwe/Arrival/Groups.antt =====
-- Sequences of packets through the accumulator of crates/session/src/bwe/delay/arrival_group.rs.
use game_streamer_agent.Base.{
  ℕ, ◌+◌, ◌*◌, ◌-◌, ◌≡◌, ◌≤◌, ◌<◌, ◌⊎◌, inl, inr, refl, ap, ap₂, ◌∙◌, max, Bool, true, false,
  Option, some, ltb, if◌then◌else◌, Bool-cases, arith,
}
use game_streamer_agent.Bwe.Time.{
  TimeDelta, exact, since, compare_delta, zero_delta, duration_limit,
}
use game_streamer_agent.Bwe.Time.Algebra.{sub-since}
use game_streamer_agent.Bwe.Arrival.{
  AckedPacket, ArrivalGroup, Belongs, belongs, new_group, skipped, empty_group, belongs_at,
  belongs_by, is_eq, belongs_to_group, add_packet, with_packet, send_time_group_length, later_of,
  belongs_after, belongs_first,
}

-- The seconds of an instant are 63 bits at most.
abbrev pub IsInstant : ℕ → Type 0
IsInstant t = 2 * t < duration_limit

-- The two times that the groups read.
abbrev pub IsTimely : AckedPacket → Type 0
IsTimely p = IsInstant p.local_send_time × IsInstant p.remote_recv_time

-- A group with packets: its first packet, and the latest times, which are no earlier.
pub record IsGroup (g : ArrivalGroup) (start : ℕ) : Type 0 where
  pub seq : ℕ
  pub first_recv : ℕ
  pub last_send : ℕ
  pub last_recv : ℕ
  pub is_first : g.first ≡ some (seq, start, first_recv)
  pub is_last_send : g.last_local_send_time ≡ some last_send
  pub is_last_recv : g.last_remote_recv_time ≡ some last_recv
  pub sent_after : start ≤ last_send
  pub send_instant : IsInstant last_send
  pub recv_instant : IsInstant last_recv

latest-IsInstant : (u t : ℕ) → IsInstant u → IsInstant t → IsInstant (max u t)
latest-IsInstant u t h k = omega arith

with_packet-IsGroup :
    (g : ArrivalGroup) (start : ℕ) (p : AckedPacket)
    → IsTimely p
    → IsGroup g start
    → IsGroup (with_packet g p) start
with_packet-IsGroup g start p t h = record {
  seq = h.seq;
  first_recv = h.first_recv;
  last_send = max h.last_send p.local_send_time;
  last_recv = max h.last_recv p.remote_recv_time;
  is_first = rw (h.is_first) refl;
  is_last_send = ap (λ o. some (later_of o p.local_send_time)) h.is_last_send;
  is_last_recv = ap (λ o. some (later_of o p.remote_recv_time)) h.is_last_recv;
  sent_after = omega (arith, h.sent_after);
  send_instant = latest-IsInstant h.last_send p.local_send_time h.send_instant t.0;
  recv_instant = latest-IsInstant h.last_recv p.remote_recv_time h.recv_instant t.1;
}

-- The first packet of a group.
pub first-IsGroup :
    (p : AckedPacket) → IsTimely p → IsGroup (with_packet empty_group p) p.local_send_time
first-IsGroup p t = record {
  seq = p.seq_no;
  first_recv = p.remote_recv_time;
  last_send = p.local_send_time;
  last_recv = p.remote_recv_time;
  is_first = refl;
  is_last_send = refl;
  is_last_recv = refl;
  sent_after = omega arith;
  send_instant = t.0;
  recv_instant = t.1;
}

belongs_by-new :
    (p : AckedPacket) (fs fr : ℕ) (arrival propagation : TimeDelta)
    → belongs_by p fs fr arrival propagation ≡ new_group
    → send_time_group_length < p.local_send_time - fs
unfolding belongs_by
belongs_by-new p fs fr arrival propagation e = ground arith

-- The test is answered, and a new group is only started by a packet that was sent late enough.
belongs_at-answer :
    (p : AckedPacket) (fs fr ls lr : ℕ)
    → IsTimely p
    → IsInstant ls
    → IsInstant lr
    → (b : Belongs) × (belongs_at p fs fr ls lr ≡ some b)
      × (b ≡ new_group → send_time_group_length < p.local_send_time - fs)
unfolding belongs_at
belongs_at-answer p fs fr ls lr (send, recv) last_send last_recv =
    let s = since (exact p.local_send_time) (exact ls) in
    let a = since (exact p.remote_recv_time) (exact lr) in
    elim (Bool-cases (is_eq (compare_delta s zero_delta))) [
      | inl same ↦ (belongs, rw same refl, λ e. absurd cc)
      | inr apart ↦
          let (d, taken) =
            sub-since p.remote_recv_time lr p.local_send_time ls recv last_recv send last_send in
          (belongs_by p fs fr a d, rw (apart, taken) refl, λ e. belongs_by-new p fs fr a d e)
    ]

belongs_to_group_lem :
    (g : ArrivalGroup) (start : ℕ) (p : AckedPacket) (h : IsGroup g start)
    → belongs_to_group g p ≡ (
        if ltb p.local_send_time start
        then some skipped
        else belongs_at p start h.first_recv h.last_send h.last_recv)
unfolding belongs_to_group
belongs_to_group_lem g start p h =
    ap (belongs_first g p) h.is_first
    ∙ ap₂
        (λ a b.
          if ltb p.local_send_time start
          then some skipped
          else belongs_after p start h.first_recv a b)
        h.is_last_send h.is_last_recv

-- What a packet does to a group: it joins it or is left out, or it was sent too late for it.
unfoldable pub Joined : ArrivalGroup → ℕ → AckedPacket → Option (ArrivalGroup × Bool) → Type 0
Joined g start p r =
    ((g' : ArrivalGroup) × (r ≡ some (g', false)) × IsGroup g' start)
    ⊎ ((r ≡ some (g, true)) × (start + send_time_group_length < p.local_send_time))

pub add_packet-Joined :
    (g : ArrivalGroup) (start : ℕ) (p : AckedPacket)
    → IsTimely p
    → IsGroup g start
    → Joined g start p (add_packet g p)
unfolding Joined add_packet
add_packet-Joined g start p t h =
    let opened = belongs_to_group_lem g start p h in
    elim (Bool-cases (ltb p.local_send_time start)) [
      | inl early ↦ inl (g, rw (opened, add_packet, early) refl, h)
      | inr late ↦
          let (b, e, new) =
            belongs_at-answer p start h.first_recv h.last_send h.last_recv t h.send_instant
              h.recv_instant in
          by_answer b new (opened ∙ rw late e)
    ]
  where
    by_answer :
        (b : Belongs)
        → (b ≡ new_group → send_time_group_length < p.local_send_time - start)
        → belongs_to_group g p ≡ some b
        → Joined g start p (add_packet g p)
    by_answer belongs new o =
        inl (with_packet g p, rw (o, add_packet) refl, with_packet-IsGroup g start p t h)
    by_answer skipped new o = inl (g, rw (o, add_packet) refl, h)
    by_answer new_group new o = let late = new refl in inr (rw (o, add_packet) refl, omega arith)
