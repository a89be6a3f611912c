-- ===== src/Chunker.antt =====
-- `chunk_video_frame` of crates/protocol/src/datagram.rs: one encoded frame becomes data datagrams
-- and Reed-Solomon parity datagrams.
mod Tests
pub mod Chunks
pub mod Padding
pub mod Numbered
pub mod Frame
use game_streamer_agent.Base.{
  ℕ, zero, suc, ◌+◌, ◌-◌, ◌*◌, ◌%◌, min, max, Bool, ◌&&◌, Option, none, some, List, [], ◌∷◌, ◌++◌,
  ltb, leb, ◌==◌, if◌then◌else◌, length, replicate,
}
use game_streamer_agent.Wire.Bytes.{
  Outcome, ok, err, panic, ◌>>=◌, ◌>>◌, refuse_if, slice, serialize, small_datagram, many_chunks,
}
use game_streamer_agent.Wire.Video.{VideoDatagramHeader, encode_with_payload, video_header_len}
use game_streamer_agent.Fec.Layout.{FecGroup, div_ceil, group_layout, max_group_data}
use game_streamer_agent.Fec.Code.{Bytes, encode_parity}
use Chunks.{chunks, pad_last}

abbrev pub u16_max : ℕ
u16_max = 0xffff

abbrev pub chunk_count : ℕ → ℕ → ℕ
chunk_count len max_payload = max (div_ceil len max_payload) 1

-- How many parity shards a frame of `count` data shards gets.
abbrev pub parity_count : ℕ → ℕ → ℕ
parity_count count parity_permille =
    let wanted =
      if parity_permille == 0 then 0 else max (div_ceil (count * parity_permille) 1000) 1 in
    let capped = min (min wanted 255) (u16_max - count) in
    if leb count max_group_data && ltb 255 (count + capped) then 0 else capped

-- The header of shard `i`.
abbrev pub shard_header : VideoDatagramHeader → ℕ → ℕ → ℕ → ℕ → VideoDatagramHeader
shard_header template len count parity i = record {
  seq = template.seq;
  session_epoch = template.session_epoch;
  frame_id = template.frame_id;
  kind = template.kind;
  chunk_index = i % 0x1_0000;
  chunk_count = count % 0x1_0000;
  parity_count = parity % 256;
  frame_len = len % 0x1_0000_0000;
  capture_ts_us = template.capture_ts_us;
}

-- The shards from index `i` on, each behind its header.
unfoldable pub encode_shards : (ℕ → VideoDatagramHeader) → ℕ → List Bytes → List Bytes
encode_shards hdr i [] = []
encode_shards hdr i (s ∷ ss) = encode_with_payload (hdr i) s ∷ encode_shards hdr (suc i) ss

abbrev or_panic {ℓ} : {A : Type ℓ} → Option A → Outcome A
or_panic none = panic
or_panic (some a) = ok a

-- The parity datagrams of one group.
unfoldable pub encode_group :
    (ℕ → VideoDatagramHeader) → List Bytes → FecGroup → Outcome (List Bytes)
unfolding encode_shards
encode_group hdr shards g = if g.parity_len == 0 then ok [] else (do
  group ← slice shards g.data_start (g.data_start + g.data_len)
  parity ← or_panic (encode_parity group g.parity_len)
  ok (encode_shards hdr g.parity_start parity))

-- The parity datagrams of the groups, in order.
unfoldable pub encode_groups :
    (ℕ → VideoDatagramHeader) → List Bytes → List FecGroup → Outcome (List Bytes)
unfolding encode_group
encode_groups hdr shards [] = ok []
encode_groups hdr shards (g ∷ gs) = do
  here ← encode_group hdr shards g
  later ← encode_groups hdr shards gs
  ok (here ++ later)

unfoldable pub encode_data : (ℕ → VideoDatagramHeader) → Bytes → ℕ → List Bytes
unfolding encode_shards
encode_data hdr [] max_payload = encode_with_payload (hdr 0) [] ∷ []
encode_data hdr (b ∷ frame) max_payload = encode_shards hdr 0 (chunks max_payload (b ∷ frame))

unfoldable pub encode_frame_parity :
    (ℕ → VideoDatagramHeader) → Bytes → ℕ → ℕ → ℕ → Outcome (List Bytes)
unfolding encode_groups
encode_frame_parity hdr frame max_payload count parity =
    if ltb 0 parity
    then (do
      shards ← pad_last (max (min (length frame) max_payload) 1) (chunks max_payload frame)
      encode_groups hdr shards (group_layout count parity))
    else ok []

unfoldable pub chunk_video_frame : VideoDatagramHeader → Bytes → ℕ → ℕ → Outcome (List Bytes)
unfolding encode_data encode_frame_parity
chunk_video_frame template frame max_datagram parity_permille = do
  let max_payload = max_datagram - video_header_len
  refuse_if (max_payload == 0) (serialize small_datagram)
  let count = chunk_count (length frame) max_payload
  refuse_if (ltb u16_max count) (serialize (many_chunks count))
  let parity = parity_count count parity_permille
  let hdr = shard_header template (length frame) count parity
  tail ← encode_frame_parity hdr frame max_payload count parity
  ok (encode_data hdr frame max_payload ++ tail)
