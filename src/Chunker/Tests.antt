-- ===== src/Chunker/Tests.antt =====
-- The theorems on the chunker at a small frame.
use game_streamer_agent.Base.{◌+◌, ◌≡◌, ◌≤◌, ◌<◌, ◌⊎◌, [], ◌∷◌, arith}
use game_streamer_agent.Wire.Bytes.{panic}
use game_streamer_agent.Wire.FrameKind.{idr}
use game_streamer_agent.Wire.Video.{VideoDatagramHeader}
use game_streamer_agent.Fec.Layout.{max_group_data}
use game_streamer_agent.Chunker.{u16_max, parity_count, chunk_video_frame}
use game_streamer_agent.Chunker.Frame.{
  Datagrams, parity_count-bounds, chunk_video_frame-Datagrams, chunk_video_frame-empty_panics,
}

abbrev template : VideoDatagramHeader
template = record {
  seq = 0;
  session_epoch = 1;
  frame_id = 5;
  kind = idr;
  chunk_index = 0;
  chunk_count = 0;
  parity_count = 0;
  frame_len = 0;
  capture_ts_us = 17;
}

chunk_video_frame-Datagrams_example : Datagrams template (10 ∷ 20 ∷ 30 ∷ 40 ∷ 50 ∷ []) 26 500
chunk_video_frame-Datagrams_example =
    chunk_video_frame-Datagrams template 10 (20 ∷ 30 ∷ 40 ∷ 50 ∷ []) 26 500 (omega arith)
      (omega arith)

parity_count-bounds_example :
    (parity_count 40 200 ≤ 255)
    × (40 + parity_count 40 200 ≤ u16_max)
    × ((40 + parity_count 40 200 ≤ 255) ⊎ ((max_group_data < 40) × (parity_count 40 200 ≤ 255)))
parity_count-bounds_example = parity_count-bounds 40 200 (omega arith)

chunk_video_frame-empty_panics_example : chunk_video_frame template [] 1200 200 ≡ panic
chunk_video_frame-empty_panics_example =
    chunk_video_frame-empty_panics template 1200 200 (omega arith) (omega arith) (omega arith)
