-- ===== src/Bwe/Arrival/Going.antt =====
-- Packets through the accumulator of crates/session/src/bwe/delay/arrival_group.rs once there is a
-- previous group.
use game_streamer_agent.Base.{
  ℕ, ◌+◌, ◌≡◌, ◌<◌, inl, inr, refl, ap, ap₂, ◌∙◌, some, List, [], ◌∷◌, map, All,
}
use game_streamer_agent.Bwe.Time.{exact, since}
use game_streamer_agent.Bwe.Time.Algebra.{add_delta-since}
use game_streamer_agent.Bwe.Arrival.{
  AckedPacket, ArrivalGroup, InterGroupDelayDelta, ArrivalGroupAccumulator, deltas, delta_between,
  send_time_group_length,
}
use game_streamer_agent.Bwe.Arrival.Groups.{
  IsGroup, IsTimely, Joined, add_packet-Joined, first-IsGroup,
}
use game_streamer_agent.Bwe.Arrival.Walk.{
  IsTracked, walk, IsWalked, and_then, joined, continued, accumulate_packets, next_acc, joins,
  starts,
}

abbrev delta_of : ℕ → ℕ → ℕ → ℕ → InterGroupDelayDelta
delta_of send recv send' recv' = record {
  send_delta = since (exact send') (exact send);
  arrival_delta = since (exact recv') (exact recv);
  last_remote_recv_time = recv';
}

deltas_lem :
    (g : ArrivalGroup) (before : ℕ) (h : IsGroup g before) (c : ArrivalGroup) (start : ℕ)
    (k : IsGroup c start)
    → deltas (some g) c k.last_recv
      ≡ some (some (delta_of h.last_send h.last_recv k.last_send k.last_recv))
unfolding deltas
deltas_lem g before h c start k = cc (
  ap₂ delta_between h.is_last_recv k.is_last_recv,
  ap₂ delta_between h.is_last_send k.is_last_send,
)

-- The deltas from the group `g` on.
pub record Going (ps : List AckedPacket) (acc : ArrivalGroupAccumulator) (send recv : ℕ)
    : Type 0 where
  pub out : ArrivalGroupAccumulator
  pub ds : List InterGroupDelayDelta
  pub start : ℕ
  pub result : accumulate_packets ps acc ≡ some (out, ds)
  pub tracked : IsTracked out start
  pub walked : IsWalked out ds send recv

-- A delta more leads from the group before to the start of the rest.
IsWalked-further :
    (out : ArrivalGroupAccumulator) (ds : List InterGroupDelayDelta) (send recv send' recv' : ℕ)
    → IsWalked out ds send' recv'
    → IsWalked out (delta_of send recv send' recv' ∷ ds) send recv
IsWalked-further out ds send recv send' recv' w = record {
  group = w.group;
  last_send = w.last_send;
  last_recv = w.last_recv;
  is_previous = w.is_previous;
  is_last_send = w.is_last_send;
  is_last_recv = w.is_last_recv;
  sends =
      ap (λ o. and_then o (λ u. walk u (map (λ d. d.send_delta) ds)))
        (add_delta-since (exact send') send)
      ∙ w.sends;
  arrivals =
      ap (λ o. and_then o (λ u. walk u (map (λ d. d.arrival_delta) ds)))
        (add_delta-since (exact recv') recv)
      ∙ w.arrivals;
}

pub accumulate-Going :
    (ps : List AckedPacket) (acc : ArrivalGroupAccumulator) (start : ℕ) (g : ArrivalGroup)
    (before : ℕ) (h : IsGroup g before)
    → All IsTimely ps
    → IsGroup acc.current_group start
    → acc.previous_group ≡ some g
    → before + send_time_group_length < start
    → Going ps acc h.last_send h.last_recv
unfolding accumulate_packets Joined
accumulate-Going [] acc start g before h t k e apart = record {
  out = acc;
  ds = [];
  start = start;
  result = refl;
  tracked = record { current = k; previous = inr (g, before, e, h, apart) };
  walked = record {
    group = g;
    last_send = h.last_send;
    last_recv = h.last_recv;
    is_previous = e;
    is_last_send = h.is_last_send;
    is_last_recv = h.is_last_recv;
    sends = refl;
    arrivals = refl;
  };
}
accumulate-Going (p ∷ ps) acc start g before h (t, ts) k e apart =
    elim (add_packet-Joined acc.current_group start p t k) [
      | inl (g', added, k') ↦
          let rest =
            accumulate-Going ps (record acc { current_group = g' }) start g before h ts k' e
              apart in
          record {
            out = rest.out;
            ds = rest.ds;
            start = rest.start;
            result =
                ap (λ o. continued o (accumulate_packets ps)) (joins acc p g' added)
                ∙ ap (joined []) rest.result;
            tracked = rest.tracked;
            walked = rest.walked;
          }
      | inr (full, late) ↦
          let d = delta_of h.last_send h.last_recv k.last_send k.last_recv in
          let produced =
            ap (λ o. deltas o acc.current_group k.last_recv) e
            ∙ deltas_lem g before h acc.current_group start k in
          let rest =
            accumulate-Going ps (next_acc acc p) p.local_send_time acc.current_group start k ts
              (first-IsGroup p t) refl late in
          record {
            out = rest.out;
            ds = d ∷ rest.ds;
            start = rest.start;
            result =
                ap (λ o. continued o (accumulate_packets ps))
                  (starts acc p k.last_recv (some d) full k.is_last_recv produced)
                ∙ ap (joined (d ∷ [])) rest.result;
            tracked = rest.tracked;
            walked =
                IsWalked-further rest.out rest.ds h.last_send h.last_recv k.last_send k.last_recv
                  rest.walked;
          }
    ]
