-- ===== src/Wire/Video.antt =====
-- `VideoDatagramHeader` of crates/protocol/src/datagram.rs: the fixed 24-byte layout.
pub mod RoundTrip
use game_streamer_agent.Base.{
  ℕ, ◌+◌, ◌≡◌, ◌<◌, ◌≤◌, Bool, true, false, not, ◌||◌, List, [], ◌∷◌, ◌++◌, ltb, leb, ◌==◌,
  if◌then◌else◌, length,
}
use game_streamer_agent.Wire.Bytes.{
  Outcome, ok, err, ◌>>=◌, ◌>>◌, refuse_if, too_short, unknown_datagram_type, invalid_chunk, U16,
  U32, IsByte, index, slice, to_be_bytes, from_be_bytes,
}
use game_streamer_agent.Wire.FrameKind.{FrameKind}
use game_streamer_agent.Wire.FrameKind
use game_streamer_agent.Wire.DatagramType.{is_video, video}
use game_streamer_agent.Wire.DatagramType

pub record VideoDatagramHeader : Type 0 where
  pub seq : ℕ
  pub session_epoch : ℕ
  pub frame_id : ℕ
  pub kind : FrameKind
  pub chunk_index : ℕ
  pub chunk_count : ℕ
  pub parity_count : ℕ
  pub frame_len : ℕ
  pub capture_ts_us : ℕ

abbrev pub video_header_len : ℕ
video_header_len = 1 + 4 + 1 + 4 + 1 + 2 + 2 + 1 + 4 + 4

abbrev pub total_shards : ℕ → ℕ → ℕ
total_shards chunk_count parity_count = chunk_count + parity_count

unfoldable pub encode_with_payload : VideoDatagramHeader → List ℕ → List ℕ
unfolding FrameKind.to_wire DatagramType.to_wire
encode_with_payload h payload =
    DatagramType.to_wire video ∷ []
    ++ (to_be_bytes 4 h.seq
        ++ (h.session_epoch ∷ []
            ++ (to_be_bytes 4 h.frame_id
                ++ (FrameKind.to_wire h.kind ∷ []
                    ++ (to_be_bytes 2 h.chunk_index
                        ++ (to_be_bytes 2 h.chunk_count
                            ++ (h.parity_count ∷ []
                                ++ (to_be_bytes 4 h.frame_len
                                    ++ (to_be_bytes 4 h.capture_ts_us ++ payload)))))))))

unfoldable pub parse : List ℕ → Outcome (VideoDatagramHeader × List ℕ)
parse d = do
  refuse_if (ltb (length d) video_header_len) (too_short (length d) video_header_len)
  tag ← index d 0
  ty ← DatagramType.from_wire tag
  refuse_if (not (is_video ty)) (unknown_datagram_type tag)
  seq ← from_be_bytes d 1 5
  session_epoch ← index d 5
  frame_id ← from_be_bytes d 6 10
  kind_code ← index d 10
  kind ← FrameKind.from_wire kind_code
  chunk_index ← from_be_bytes d 11 13
  chunk_count ← from_be_bytes d 13 15
  parity_count ← index d 15
  frame_len ← from_be_bytes d 16 20
  capture_ts_us ← from_be_bytes d 20 24
  refuse_if (chunk_count == 0 || leb (total_shards chunk_count parity_count) chunk_index)
      (invalid_chunk chunk_index chunk_count)
  payload ← slice d video_header_len (length d)
  ok (
    record {
      seq = seq;
      session_epoch = session_epoch;
      frame_id = frame_id;
      kind = kind;
      chunk_index = chunk_index;
      chunk_count = chunk_count;
      parity_count = parity_count;
      frame_len = frame_len;
      capture_ts_us = capture_ts_us;
    },
    payload,
  )

-- What the field types and the sender guarantee of a header.
pub record IsWellFormed (h : VideoDatagramHeader) : Type 0 where
  pub seq : U32 h.seq
  pub session_epoch : IsByte h.session_epoch
  pub frame_id : U32 h.frame_id
  pub chunk_index : U16 h.chunk_index
  pub chunk_count : U16 h.chunk_count
  pub parity_count : IsByte h.parity_count
  pub frame_len : U32 h.frame_len
  pub capture_ts_us : U32 h.capture_ts_us
  pub has_chunks : 0 < h.chunk_count
  pub in_range : h.chunk_index < total_shards h.chunk_count h.parity_count
