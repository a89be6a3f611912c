-- ===== src/Bwe/Arrival/Followed.antt =====
-- Whole sequences of packets through the accumulator of
-- crates/session/src/bwe/delay/arrival_group.rs.
use game_streamer_agent.Base.{
  ℕ, ◌≡◌, ◌⊎◌, inl, inr, refl, ap, ◌∙◌, Option, none, some, List, [], ◌∷◌, ◌++◌, All,
}
use game_streamer_agent.Bwe.Arrival.{
  AckedPacket, ArrivalGroup, empty_group, with_packet, InterGroupDelayDelta,
  ArrivalGroupAccumulator, new_accumulator, accumulate_packet, deltas,
}
use game_streamer_agent.Bwe.Arrival.Groups.{
  IsGroup, IsTimely, Joined, add_packet-Joined, first-IsGroup,
}
use game_streamer_agent.Bwe.Arrival.Walk.{
  IsTracked, IsWalked, joined, continued, accumulate_packets, added_first, next_acc, joins, starts,
}
use game_streamer_agent.Bwe.Arrival.Going.{accumulate-Going}

-- The first group among the packets: `firsts` made it, and the packet after them starts the second one,
-- when the last times of the first are the given ones.
pub record Opening (ps : List AckedPacket) (acc : ArrivalGroupAccumulator) (send recv : ℕ)
    : Type 0 where
  pub firsts : List AckedPacket
  pub next : AckedPacket
  pub rest : List AckedPacket
  pub before : ArrivalGroupAccumulator
  pub second : ArrivalGroupAccumulator
  pub split : ps ≡ firsts ++ (next ∷ rest)
  pub result : accumulate_packets firsts acc ≡ some (before, [])
  pub alone : before.previous_group ≡ none
  pub is_last_send : before.current_group.last_local_send_time ≡ some send
  pub is_last_recv : before.current_group.last_remote_recv_time ≡ some recv
  pub starts : accumulate_packet before next ≡ some (second, none)
  pub is_first : second.previous_group ≡ some before.current_group

-- A packet that joins the group comes before those that make it.
Opening-further :
    (p : AckedPacket) (ps : List AckedPacket) (acc acc' : ArrivalGroupAccumulator) (send recv : ℕ)
    → accumulate_packet acc p ≡ some (acc', none)
    → Opening ps acc' send recv
    → Opening (p ∷ ps) acc send recv
unfolding accumulate_packets
Opening-further p ps acc acc' send recv e o = record {
  firsts = p ∷ o.firsts;
  next = o.next;
  rest = o.rest;
  before = o.before;
  second = o.second;
  split = ap (λ l. p ∷ l) o.split;
  result = ap (λ r. continued r (accumulate_packets o.firsts)) e ∙ ap (joined []) o.result;
  alone = o.alone;
  is_last_send = o.is_last_send;
  is_last_recv = o.is_last_recv;
  starts = o.starts;
  is_first = o.is_first;
}

-- No delta while there is no second group; then the deltas lead on from the first group.
abbrev pub IsLed :
    List AckedPacket
    → ArrivalGroupAccumulator
    → ArrivalGroupAccumulator
    → List InterGroupDelayDelta
    → Type 0
IsLed ps acc out ds =
    ((out.previous_group ≡ none) × (ds ≡ []))
    ⊎ ((send : ℕ) × (recv : ℕ) × Opening ps acc send recv × IsWalked out ds send recv)

IsLed-further :
    (p : AckedPacket) (ps : List AckedPacket) (acc acc' out : ArrivalGroupAccumulator)
    (ds : List InterGroupDelayDelta)
    → accumulate_packet acc p ≡ some (acc', none)
    → IsLed ps acc' out ds
    → IsLed (p ∷ ps) acc out ds
IsLed-further p ps acc acc' out ds e (inl h) = inl h
IsLed-further p ps acc acc' out ds e (inr (send, recv, o, w)) =
    inr (send, recv, Opening-further p ps acc acc' send recv e o, w)

-- What packets make of an accumulator that has no previous group yet.
pub record Followed (ps : List AckedPacket) (acc : ArrivalGroupAccumulator) : Type 0 where
  pub out : ArrivalGroupAccumulator
  pub ds : List InterGroupDelayDelta
  pub start : ℕ
  pub result : accumulate_packets ps acc ≡ some (out, ds)
  pub tracked : IsTracked out start
  pub walked : IsLed ps acc out ds

no_deltas :
    (c : ArrivalGroup) (last : ℕ) (o : Option ArrivalGroup) → o ≡ none → deltas o c last ≡ some none
unfolding deltas
no_deltas c last o e = rw (e, deltas) refl

accumulate_fresh :
    (ps : List AckedPacket) (acc : ArrivalGroupAccumulator) (start : ℕ)
    → All IsTimely ps
    → IsGroup acc.current_group start
    → acc.previous_group ≡ none
    → Followed ps acc
unfolding accumulate_packets Joined
accumulate_fresh [] acc start t k e = record {
  out = acc;
  ds = [];
  start = start;
  result = refl;
  tracked = record { current = k; previous = inl e };
  walked = inl (e, refl);
}
accumulate_fresh (p ∷ ps) acc start (t, ts) k e =
    elim (add_packet-Joined acc.current_group start p t k) [
      | inl (g', added, k') ↦
          let rest = accumulate_fresh ps (record acc { current_group = g' }) start ts k' e in
          record {
            out = rest.out;
            ds = rest.ds;
            start = rest.start;
            result =
                ap (λ o. continued o (accumulate_packets ps)) (joins acc p g' added)
                ∙ ap (joined []) rest.result;
            tracked = rest.tracked;
            walked =
                IsLed-further p ps acc (record acc { current_group = g' }) rest.out rest.ds
                  (joins acc p g' added) rest.walked;
          }
      | inr (full, late) ↦
          let fresh =
            starts acc p k.last_recv none full k.is_last_recv
              (no_deltas acc.current_group k.last_recv acc.previous_group e) in
          let rest =
            accumulate-Going ps (next_acc acc p) p.local_send_time acc.current_group start k ts
              (first-IsGroup p t) refl late in
          record {
            out = rest.out;
            ds = rest.ds;
            start = rest.start;
            result =
                ap (λ o. continued o (accumulate_packets ps)) fresh ∙ ap (joined []) rest.result;
            tracked = rest.tracked;
            walked = inr (
              k.last_send,
              k.last_recv,
              record {
                firsts = [];
                next = p;
                rest = ps;
                before = acc;
                second = next_acc acc p;
                split = refl;
                result = refl;
                alone = e;
                is_last_send = k.is_last_send;
                is_last_recv = k.is_last_recv;
                starts = fresh;
                is_first = refl;
              },
              rest.walked,
            );
          }
    ]

-- Any packets, of which there is at least one, whose instants have seconds of 63 bits at most, given to
-- a new accumulator: no call panics. The group at hand has packets, and if there is one before it, that
-- one's first packet was sent more than the group length earlier. Either there is no group before it,
-- and no delta, or the packets begin with some that make the first group without a delta and one that
-- starts the second, and from the last times of that first group all deltas, added up, lead exactly to
-- the last times of the previous group, those of sending as well as those of receiving.
pub accumulate_packets-Followed :
    (p : AckedPacket) (ps : List AckedPacket)
    → All IsTimely (p ∷ ps)
    → Followed (p ∷ ps) new_accumulator
unfolding accumulate_packets
accumulate_packets-Followed p ps (t, ts) =
    let acc = record new_accumulator { current_group = with_packet empty_group p } in
    let rest = accumulate_fresh ps acc p.local_send_time ts (first-IsGroup p t) refl in
    record {
      out = rest.out;
      ds = rest.ds;
      start = rest.start;
      result =
          ap (λ o. continued o (accumulate_packets ps))
            (joins new_accumulator p (with_packet empty_group p) (added_first p))
          ∙ ap (joined []) rest.result;
      tracked = rest.tracked;
      walked =
          IsLed-further p ps new_accumulator acc rest.out rest.ds
            (joins new_accumulator p (with_packet empty_group p) (added_first p)) rest.walked;
    }
