-- ===== src/Bwe/Arrival/Tests.antt =====
-- Groups of packets through crates/session/src/bwe/delay/arrival_group.rs.
use game_streamer_agent.Base.{ℕ, ◌+◌, ◌≡◌, refl, Option, none, some, List, [], ◌∷◌, All, arith}
use game_streamer_agent.Bwe.Rates.{millis}
use game_streamer_agent.Bwe.Time.{positive, since, sub, compare_delta}
use game_streamer_agent.Bwe.Arrival.{
  AckedPacket, InterGroupDelayDelta, ArrivalGroupAccumulator, new_accumulator, accumulate_packet,
  add_packet, belongs_to_group, belongs_at, belongs_by, start_group, deltas,
}
use game_streamer_agent.Bwe.Arrival.Groups.{IsTimely}
use game_streamer_agent.Bwe.Arrival.Walk.{accumulate_packets}
use game_streamer_agent.Bwe.Arrival.Followed.{Followed, accumulate_packets-Followed}

-- Sent and received at the given milliseconds.
abbrev packet : ℕ → ℕ → AckedPacket
packet sent received = record {
  seq_no = sent;
  size = 1200;
  local_send_time = millis sent;
  remote_recv_time = millis received;
  local_recv_time = millis (received + 10);
}

-- Three groups; the second one takes longer to arrive.
abbrev packets : List AckedPacket
packets = packet 3 40 ∷ packet 10 50 ∷ packet 12 55 ∷ packet 9 60 ∷ packet 20 70 ∷ packet 30 80 ∷ []

abbrev deltas_from :
    Option (ArrivalGroupAccumulator × List InterGroupDelayDelta) → List InterGroupDelayDelta
deltas_from none = []
deltas_from (some (acc, ds)) = ds

two_deltas :
    deltas_from (accumulate_packets (packet 1 30 ∷ packets) new_accumulator)
    ≡ record {
      send_delta = positive (millis 9);
      arrival_delta = positive (millis 15);
      last_remote_recv_time = millis 55;
    }
      ∷ record {
        send_delta = positive (millis 8);
        arrival_delta = positive (millis 15);
        last_remote_recv_time = millis 70;
      }
      ∷ []
unfolding accumulate_packets accumulate_packet add_packet belongs_to_group belongs_at belongs_by
    start_group deltas since sub compare_delta
two_deltas = refl

timely : All IsTimely (packet 1 30 ∷ packets)
timely = ground arith

accumulate_packets-Followed_example : Followed (packet 1 30 ∷ packets) new_accumulator
accumulate_packets-Followed_example = accumulate_packets-Followed (packet 1 30) packets timely
