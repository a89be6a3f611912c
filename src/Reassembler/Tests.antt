-- ===== src/Reassembler/Tests.antt =====
-- The theorem on `push` at a shard of a frame of two.
use game_streamer_agent.Base.{[], ◌∷◌, arith}
use game_streamer_agent.Wire.FrameKind.{idr}
use game_streamer_agent.Wire.Video.{VideoDatagramHeader}
use game_streamer_agent.Chunker.{shard_header}
use game_streamer_agent.Reassembler.{new_reassembler, push}
use game_streamer_agent.Reassembler.Soundness.{Pushed, push-Pushed}

abbrev template : VideoDatagramHeader
template = record {
  seq = 0;
  session_epoch = 1;
  frame_id = 5;
  kind = idr;
  chunk_index = 0;
  chunk_count = 0;
  parity_count = 0;
  frame_len = 0;
  capture_ts_us = 17;
}

push-Pushed_example : Pushed (push new_reassembler (shard_header template 3 2 1 1) (3 ∷ []))
push-Pushed_example =
    push-Pushed new_reassembler (shard_header template 3 2 1 1) (3 ∷ [])
      ((tt, omega arith), omega arith)
      (record {
        seq = omega arith;
        session_epoch = omega arith;
        frame_id = omega arith;
        chunk_index = omega arith;
        chunk_count = omega arith;
        parity_count = omega arith;
        frame_len = omega arith;
        capture_ts_us = omega arith;
        has_chunks = omega arith;
        in_range = omega arith;
      })
