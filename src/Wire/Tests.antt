-- ===== src/Wire/Tests.antt =====
-- The theorems on datagrams at concrete datagrams.
use game_streamer_agent.Base.{ℕ, ◌≡◌, ◌≢◌, refl, List, [], ◌∷◌, All, arith, length}
use game_streamer_agent.Wire.Bytes.{ok, panic, ◌>>=◌, IsByte}
use game_streamer_agent.Wire.FrameKind.{idr}
use game_streamer_agent.Wire.FrameKind
use game_streamer_agent.Wire.DatagramType.{padding}
use game_streamer_agent.Wire.DatagramType
use game_streamer_agent.Wire.Video.{VideoDatagramHeader}
use game_streamer_agent.Wire.Audio.{AudioDatagramHeader}
use game_streamer_agent.Wire.Video
use game_streamer_agent.Wire.Audio
use game_streamer_agent.Wire.Seq.{stamp_seq, read_seq}
use game_streamer_agent.Wire.Seq.Stamp.{read_seq-stamp_seq}
use game_streamer_agent.Wire.Video.RoundTrip.{
  parse-encode_with_payload, encode_with_payload-parse, parse-ne-panic,
}
use game_streamer_agent.Wire.Audio.RoundTrip.{parse-encode_audio, encode-parse_audio}

abbrev video_header : VideoDatagramHeader
video_header = record {
  seq = 7;
  session_epoch = 1;
  frame_id = 70_000;
  kind = idr;
  chunk_index = 2;
  chunk_count = 2;
  parity_count = 1;
  frame_len = 2400;
  capture_ts_us = 123_456;
}

abbrev audio_header : AudioDatagramHeader
audio_header = record { seq = 300; ts_us = 70_000 }

abbrev payload : List ℕ
payload = 9 ∷ 8 ∷ 255 ∷ []

abbrev video_bytes : List ℕ
video_bytes =
    1 ∷ 0 ∷ 0 ∷ 0 ∷ 7 ∷ 1 ∷ 0 ∷ 1 ∷ 17 ∷ 112 ∷ 0 ∷ 0 ∷ 2 ∷ 0 ∷ 2 ∷ 1 ∷ 0 ∷ 0 ∷ 9 ∷ 96 ∷ 0 ∷ 1 ∷ 226
    ∷ 64 ∷ 9 ∷ 8 ∷ 255 ∷ []

video_header_fine : Video.IsWellFormed video_header
video_header_fine = record {
  seq = omega arith;
  session_epoch = omega arith;
  frame_id = omega arith;
  chunk_index = omega arith;
  chunk_count = omega arith;
  parity_count = omega arith;
  frame_len = omega arith;
  capture_ts_us = omega arith;
  has_chunks = omega arith;
  in_range = omega arith;
}

encoded_bytes : Video.encode_with_payload video_header payload ≡ video_bytes
unfolding Video.encode_with_payload
encoded_bytes = refl

video_parsed : Video.parse video_bytes ≡ ok (video_header, payload)
unfolding Video.parse DatagramType.from_wire FrameKind.from_wire
video_parsed = refl

abbrev audio_bytes : List ℕ
audio_bytes = 2 ∷ 1 ∷ 44 ∷ 0 ∷ 1 ∷ 17 ∷ 112 ∷ 9 ∷ 8 ∷ 255 ∷ []

audio_parsed : Audio.parse audio_bytes ≡ ok (audio_header, payload)
unfolding Audio.parse DatagramType.from_wire
audio_parsed = refl

audio_are_bytes : All IsByte audio_bytes
audio_are_bytes = ground arith

video_are_bytes : All IsByte video_bytes
video_are_bytes = ground arith

parse-encode_with_payload_example :
    Video.parse (Video.encode_with_payload video_header payload) ≡ ok (video_header, payload)
parse-encode_with_payload_example = parse-encode_with_payload video_header payload video_header_fine

encode_with_payload-parse_example :
    Video.IsWellFormed video_header × (Video.encode_with_payload video_header payload ≡ video_bytes)
encode_with_payload-parse_example =
    encode_with_payload-parse video_bytes video_header payload video_are_bytes video_parsed

parse-ne-panic_example : Video.parse (1 ∷ 2 ∷ []) ≢ panic
parse-ne-panic_example = parse-ne-panic (1 ∷ 2 ∷ [])

parse-encode_audio_example :
    Audio.parse (Audio.encode_with_payload audio_header payload) ≡ ok (audio_header, payload)
parse-encode_audio_example =
    parse-encode_audio audio_header payload (record { seq = omega arith; ts_us = omega arith })

encode-parse_audio_example :
    Audio.IsWellFormed audio_header × (Audio.encode_with_payload audio_header payload ≡ audio_bytes)
encode-parse_audio_example =
    encode-parse_audio audio_bytes audio_header payload audio_are_bytes audio_parsed

read_seq-stamp_seq_example :
    ((stamp_seq audio_bytes 99 >>= read_seq) ≡ ok 99)
    × ((stamp_seq audio_bytes 99 >>= λ e. ok (length e)) ≡ ok (length audio_bytes))
read_seq-stamp_seq_example = read_seq-stamp_seq audio_bytes 99 (omega arith) (omega arith)
