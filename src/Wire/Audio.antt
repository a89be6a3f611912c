-- ===== src/Wire/Audio.antt =====
-- `AudioDatagramHeader` of crates/protocol/src/datagram.rs: the fixed 7-byte layout.
pub mod RoundTrip
use game_streamer_agent.Base.{ℕ, ◌+◌, Bool, not, List, [], ◌∷◌, ◌++◌, ltb, length}
use game_streamer_agent.Wire.Bytes.{
  Outcome, ok, err, ◌>>=◌, ◌>>◌, refuse_if, too_short, unknown_datagram_type, U16, U32, index,
  slice, to_be_bytes, from_be_bytes,
}
use game_streamer_agent.Wire.DatagramType.{is_audio, audio}
use game_streamer_agent.Wire.DatagramType

pub record AudioDatagramHeader : Type 0 where
  pub seq : ℕ
  pub ts_us : ℕ

abbrev pub audio_header_len : ℕ
audio_header_len = 1 + 2 + 4

unfoldable pub encode_with_payload : AudioDatagramHeader → List ℕ → List ℕ
unfolding DatagramType.to_wire
encode_with_payload h opus =
    DatagramType.to_wire audio ∷ [] ++ (to_be_bytes 2 h.seq ++ (to_be_bytes 4 h.ts_us ++ opus))

unfoldable pub parse : List ℕ → Outcome (AudioDatagramHeader × List ℕ)
parse d = do
  refuse_if (ltb (length d) audio_header_len) (too_short (length d) audio_header_len)
  tag ← index d 0
  ty ← DatagramType.from_wire tag
  refuse_if (not (is_audio ty)) (unknown_datagram_type tag)
  seq ← from_be_bytes d 1 3
  ts_us ← from_be_bytes d 3 7
  payload ← slice d audio_header_len (length d)
  ok (record { seq = seq; ts_us = ts_us }, payload)

pub record IsWellFormed (h : AudioDatagramHeader) : Type 0 where
  pub seq : U16 h.seq
  pub ts_us : U32 h.ts_us
