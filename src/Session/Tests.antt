-- ===== src/Session/Tests.antt =====
-- A peer with two connections, and a short buffer.
use game_streamer_agent.Base.{[], ◌∷◌, replicate, arith}
use game_streamer_agent.Session.Conns.{Registry}
use game_streamer_agent.Session.Reframer.{Reframer, Reframed, drain_frames, drain_frames-Reframed}

abbrev peers : Registry
peers = (1 ∷ [], 7 ∷ []) ∷ []

abbrev heard : Reframer
heard = record { buf = replicate 485 1; last_ts_us = 5 }

drain_frames-Reframed_example : Reframed heard (drain_frames 485 heard)
drain_frames-Reframed_example = drain_frames-Reframed 485 heard (omega arith)
