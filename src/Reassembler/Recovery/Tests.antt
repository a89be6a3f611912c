-- ===== src/Reassembler/Recovery/Tests.antt =====
-- A frame of three data shards and two parity shards that loses two data shards.
use game_streamer_agent.Base.{true, ℕ, ◌≡◌, ◌≤◌, ◌<◌, refl, none, some, List, [], ◌∷◌, arith, All}
use game_streamer_agent.Wire.Bytes.{ok}
use game_streamer_agent.Wire.FrameKind.{idr}
use game_streamer_agent.Wire.Video.{VideoDatagramHeader}
use game_streamer_agent.Fec.Layout.{group_layout}
use game_streamer_agent.Fec.Field.{exp_at, log_at, mul, coef, build_tables}
use game_streamer_agent.Fec.Code.{Bytes, add_scaled, encode_parity}
use game_streamer_agent.Chunker.{shard_header, encode_shards, chunk_video_frame}
use game_streamer_agent.Chunker.Chunks.{chunks, pad_last}
use game_streamer_agent.Reassembler.{new_reassembler}
use game_streamer_agent.Reassembler.Shards.{Pending, reconstruct, recoverable}
use game_streamer_agent.Reassembler.Sequence.{push_all, under_headers, places}
use game_streamer_agent.Reassembler.Recovery.Arrivals.{HasFieldTypes, delivered}
use game_streamer_agent.Reassembler.Recovery.Enough.{IsEnough}
use game_streamer_agent.Reassembler.Recovery.Transmission.{reconstruct-chunk_video_frame}
use game_streamer_agent.Reassembler.Recovery.Stream.{push_all-recovers}

abbrev template : VideoDatagramHeader
template = record {
  seq = 0;
  session_epoch = 1;
  frame_id = 5;
  kind = idr;
  chunk_index = 0;
  chunk_count = 0;
  parity_count = 0;
  frame_len = 0;
  capture_ts_us = 17;
}

types : HasFieldTypes template
types = record {
  seq = omega arith;
  session_epoch = omega arith;
  frame_id = omega arith;
  capture_ts_us = omega arith;
}

abbrev payloads : List Bytes
payloads = (10 ∷ 20 ∷ []) ∷ (30 ∷ 40 ∷ []) ∷ (50 ∷ []) ∷ (59 ∷ 24 ∷ []) ∷ (118 ∷ 13 ∷ []) ∷ []

frame_bytes : All (λ v. v < 256) (10 ∷ 20 ∷ 30 ∷ 40 ∷ 50 ∷ [])
frame_bytes = (omega arith, (omega arith, (omega arith, (omega arith, (omega arith, tt)))))

sent_now :
    chunk_video_frame template (10 ∷ 20 ∷ 30 ∷ 40 ∷ 50 ∷ []) 26 500
    ≡ ok (encode_shards (shard_header template 5 3 2) 0 payloads)
unfolding chunk_video_frame encode_shards encode_parity add_scaled mul exp_at log_at build_tables
    coef group_layout pad_last chunks
sent_now = refl

-- The second data shard and both parity shards; the first and the last data shard are lost.
abbrev kept : Pending
kept = record {
  shards = none ∷ some (30 ∷ 40 ∷ []) ∷ none ∷ some (59 ∷ 24 ∷ []) ∷ some (118 ∷ 13 ∷ []) ∷ [];
  data_count = 3;
  received_data = 1;
  received_total = 3;
  frame_len = 5;
  epoch = 1;
}

enough_kept : recoverable kept ≡ true
unfolding recoverable group_layout
enough_kept = refl

reconstruct-chunk_video_frame_example : reconstruct kept ≡ some (10 ∷ 20 ∷ 30 ∷ 40 ∷ 50 ∷ [])
reconstruct-chunk_video_frame_example =
    reconstruct-chunk_video_frame template 10 (20 ∷ 30 ∷ 40 ∷ 50 ∷ []) 26 500 payloads kept
      (omega arith) (omega arith) frame_bytes sent_now refl refl (refl, (refl, (refl, tt)))
      (omega arith) (omega arith) enough_kept

-- The same shards, one of them twice, the parity first.
abbrev arrived : List (ℕ × Bytes)
arrived = (4, 118 ∷ 13 ∷ []) ∷ (1, 30 ∷ 40 ∷ []) ∷ (4, 118 ∷ 13 ∷ []) ∷ (3, 59 ∷ 24 ∷ []) ∷ []

IsEnough-arrived : All (IsEnough (places arrived)) (group_layout 3 2)
unfolding group_layout
IsEnough-arrived = (omega arith, tt)

push_all-recovers_example :
    (recovered : ℕ) × (recovered ≤ 1)
    × (push_all new_reassembler (under_headers (shard_header template 5 3 2) arrived)
        ≡ ok (
          delivered 5 recovered,
          record {
            frame_id = 5;
            kind = idr;
            capture_ts_us = 17;
            «data» = 10 ∷ 20 ∷ 30 ∷ 40 ∷ 50 ∷ [];
          }
              ∷ [],
        ))
push_all-recovers_example =
    push_all-recovers template 10 (20 ∷ 30 ∷ 40 ∷ 50 ∷ []) 26 500 payloads arrived types
      (omega arith) (omega arith) (omega arith) frame_bytes sent_now
      ((omega arith, refl), ((omega arith, refl), ((omega arith, refl), ((omega arith, refl), tt))))
      IsEnough-arrived
