-- ===== src/Chunker/Frame.antt =====
-- What `chunk_video_frame` returns for every frame: its datagrams, its errors and its panic.
use game_streamer_agent.Base.{
  ℕ, ◌+◌, ◌-◌, ◌≡◌, ◌≤◌, ◌<◌, ◌⊎◌, inl, inr, refl, sym, ◌∙◌, subst, Bool-cases, true, false, ◌&&◌,
  min, max, List, [], ◌∷◌, ◌++◌, arith, ltb, leb, ◌==◌, if◌then◌else◌, length,
}
use game_streamer_agent.Wire.Bytes.{ok, panic}
use game_streamer_agent.Wire.Video.{VideoDatagramHeader, encode_with_payload, video_header_len}
use game_streamer_agent.Fec.Layout.{div_ceil, group_layout, max_group_data}
use game_streamer_agent.Fec.Layout.Tiling.{group_layout-Tiles, group_layout-Fits}
use game_streamer_agent.Fec.Code.{Bytes}
use game_streamer_agent.Chunker.{
  u16_max, chunk_count, parity_count, shard_header, encode_shards, encode_data, encode_frame_parity,
  chunk_video_frame,
}
use game_streamer_agent.Chunker.Chunks.{
  chunks_of, chunks, pad_last, concat, concat-chunks, chunks-All,
}
use game_streamer_agent.Chunker.Padding.{Padded, chunks-Padded, length-chunks, ceil_step, none_left}
use game_streamer_agent.Chunker.Numbered.{
  Numbered, Emitted, encode_shards-Numbered, encode_groups-Emitted, Numbered-append,
}

capped_bounds :
    (count w : ℕ)
    → count ≤ 65535
    → let capped = min (min w 255) (65535 - count) in
      let p = if leb count 32 && ltb 255 (count + capped) then 0 else capped in
      (p ≤ 255) × (count + p ≤ 65535) × ((count + p ≤ 255) ⊎ ((32 < count) × (p ≤ 255)))
capped_bounds count w h = ground arith

-- For a frame of at most 65535 data shards: the parity count fits one byte, the index of the last
-- shard fits two, and a frame of at most 32 data shards keeps to the 255 shards of the field.
pub parity_count-bounds :
    (count permille : ℕ)
    → count ≤ u16_max
    → (parity_count count permille ≤ 255)
      × (count + parity_count count permille ≤ u16_max)
      × ((count + parity_count count permille ≤ 255)
          ⊎ ((max_group_data < count) × (parity_count count permille ≤ 255)))
parity_count-bounds count permille h = capped_bounds count _ h

length-encode_with_payload :
    (h : VideoDatagramHeader) (p : Bytes)
    → length (encode_with_payload h p) ≡ video_header_len + length p
unfolding encode_with_payload
length-encode_with_payload h p = omega arith

-- All datagrams of a frame: `payloads` are those of the data datagrams, which come first.
pub record Datagrams (template : VideoDatagramHeader) (frame : Bytes) (max_datagram permille : ℕ)
    : Type 0 where
  pub payloads : List Bytes
  pub tail : List Bytes
  pub result :
      let count = chunk_count (length frame) (max_datagram - video_header_len) in
      let hdr = shard_header template (length frame) count (parity_count count permille) in
      chunk_video_frame template frame max_datagram permille
      ≡ ok (encode_shards hdr 0 payloads ++ tail)
  pub whole : concat payloads ≡ frame
  pub data_count : length payloads ≡ chunk_count (length frame) (max_datagram - video_header_len)
  pub tail_count :
      length tail
      ≡ parity_count (chunk_count (length frame) (max_datagram - video_header_len)) permille
  pub numbered :
      let count = chunk_count (length frame) (max_datagram - video_header_len) in
      let hdr = shard_header template (length frame) count (parity_count count permille) in
      Numbered hdr (max_datagram - video_header_len) 0 (encode_shards hdr 0 payloads ++ tail)

module _ (hdr : ℕ → VideoDatagramHeader) (x : ℕ) (xs : Bytes) (n count parity : ℕ)
    (room : 0 < n) where
  no_tail :
      parity ≡ 0
      → Emitted hdr n count (count + parity) (encode_frame_parity hdr (x ∷ xs) n count parity)
  unfolding encode_frame_parity
  no_tail e = record {
    out = [];
    result = let z : ltb 0 parity ≡ false = ground arith in rw z refl;
    numbered = tt;
    count = omega arith;
  }

  some_tail :
      count ≡ div_ceil (length (x ∷ xs)) n
      → 1 ≤ count
      → (count + parity ≤ 255) ⊎ ((max_group_data < count) × (parity ≤ 255))
      → ltb 0 parity ≡ true
      → Emitted hdr n count (count + parity) (encode_frame_parity hdr (x ∷ xs) n count parity)
  unfolding encode_frame_parity
  some_tail e some size z =
      let sl : ℕ = max (min (length (x ∷ xs)) n) 1 in
      let padded : Padded sl (chunks n (x ∷ xs)) = chunks-Padded n x xs room in
      let enough : count ≤ length padded.shards =
        omega (arith, padded.same_count, length-chunks n (x ∷ xs) room) in
      let made =
        encode_groups-Emitted hdr n sl padded.shards (omega arith) padded.uniform
          (group_layout count parity) 0 count count (count + parity)
          (group_layout-Fits count parity some size) (group_layout-Tiles count parity) enough in
      record {
        out = made.out;
        result = rw (z, padded.result, made.result) refl;
        numbered = made.numbered;
        count = made.count;
      }

  -- The parity datagrams of a frame that is not empty.
  tail-Emitted :
      count ≡ div_ceil (length (x ∷ xs)) n
      → 1 ≤ count
      → (count + parity ≤ 255) ⊎ ((max_group_data < count) × (parity ≤ 255))
      → Emitted hdr n count (count + parity) (encode_frame_parity hdr (x ∷ xs) n count parity)
  tail-Emitted e some size = elim (Bool-cases (ltb 0 parity)) [
    | inl z ↦ some_tail e some size z
    | inr z ↦ no_tail (ground arith)
  ]

pub div_ceil_pos : (a n : ℕ) → 0 < n → 0 < a → 1 ≤ div_ceil a n
div_ceil_pos a n p h = omega (arith, ceil_step a n p h)

-- A frame that is not empty, whose datagrams have room for more than the header and whose data
-- shards can be numbered in 16 bits, is sent: the call does not panic. The payloads of the data
-- datagrams make up the frame, there are as many as the header says, the parity datagrams follow
-- them and are as many as the header says, and datagram `i` has index `i` in its header and a
-- payload that fits the datagram.
pub chunk_video_frame-Datagrams :
    (template : VideoDatagramHeader) (x : ℕ) (xs : Bytes) (max_datagram permille : ℕ)
    → video_header_len < max_datagram
    → chunk_count (length (x ∷ xs)) (max_datagram - video_header_len) ≤ u16_max
    → Datagrams template (x ∷ xs) max_datagram permille
unfolding chunk_video_frame encode_data
chunk_video_frame-Datagrams template x xs max_datagram permille fits few =
    let n : ℕ = max_datagram - video_header_len in
    let room : 0 < n = omega arith in
    let count : ℕ = chunk_count (length (x ∷ xs)) n in
    let parity : ℕ = parity_count count permille in
    let hdr = shard_header template (length (x ∷ xs)) count parity in
    let one = div_ceil_pos (length (x ∷ xs)) n room (omega arith) in
    let same : count ≡ div_ceil (length (x ∷ xs)) n = omega arith in
    let (_, _, size) = parity_count-bounds count permille few in
    let made = tail-Emitted hdr x xs n count parity room same (omega arith) size in
    let (front, front_count) =
      encode_shards-Numbered hdr n 0 (chunks n (x ∷ xs)) (chunks-All n (x ∷ xs)) in
    let pieces = length-chunks n (x ∷ xs) room in
    let some_room : (n == 0) ≡ false = ground arith in
    let not_many : ltb u16_max count ≡ false = ground arith in
    record {
      payloads = chunks n (x ∷ xs);
      tail = made.out;
      result = rw (some_room, not_many, made.result) refl;
      whole = concat-chunks n (x ∷ xs) room;
      data_count = pieces ∙ sym same;
      tail_count = omega (arith, made.count);
      numbered = Numbered-append hdr n 0 _ made.out front (
          subst (λ i. Numbered hdr n i made.out) (omega (arith, front_count, pieces, same))
            made.numbered);
    }

empty_parity :
    (permille : ℕ) → 0 < permille → permille ≤ 1000 → ltb 0 (parity_count 1 permille) ≡ true
empty_parity permille h top = ground arith

div_ceil_zero : (n : ℕ) → 0 < n → chunk_count 0 n ≡ 1
div_ceil_zero n h = omega (arith, none_left n h)

no_shard : (n : ℕ) → pad_last (max (min 0 n) 1) [] ≡ panic
unfolding pad_last
no_shard n = let e : max (min 0 n) 1 ≡ 1 = omega arith in rw e refl

-- An empty frame that is to have parity of up to 100 percent makes the call panic: there is no last
-- shard to pad.
pub chunk_video_frame-empty_panics :
    (template : VideoDatagramHeader) (max_datagram permille : ℕ)
    → video_header_len < max_datagram
    → 0 < permille
    → permille ≤ 1000
    → chunk_video_frame template [] max_datagram permille ≡ panic
unfolding chunk_video_frame encode_frame_parity chunks chunks_of
chunk_video_frame-empty_panics template max_datagram permille fits some top =
    let n : ℕ = max_datagram - video_header_len in
    let some_room : (n == 0) ≡ false = ground arith in
    rw (some_room, div_ceil_zero n (omega arith), empty_parity permille some top, no_shard n) refl
