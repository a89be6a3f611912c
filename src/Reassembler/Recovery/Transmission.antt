-- ===== src/Reassembler/Recovery/Transmission.antt =====
-- `chunk_video_frame` of crates/protocol/src/datagram.rs followed by a loss of datagrams and by
-- `reconstruct` of crates/client-core/src/reassembly.rs.
use game_streamer_agent.Base.{
  ℕ, zero, suc, ◌+◌, ◌-◌, ◌≡◌, ◌≤◌, ◌<◌, inl, inr, refl, sym, ap, ap₂, ◌∙◌, subst, Bool-cases, min,
  max, true, false, some, List, [], ◌∷◌, ◌++◌, arith, length, take, drop, ltb, ◌==◌, All, slice_of,
}
use game_streamer_agent.Wire.Bytes.{Outcome, ok}
use game_streamer_agent.Wire.Video.{VideoDatagramHeader, encode_with_payload, video_header_len}
use game_streamer_agent.Fec.Layout.{group_layout}
use game_streamer_agent.Fec.Layout.Tiling.{Fits, group_layout-Tiles, group_layout-Fits}
use game_streamer_agent.Fec.Code.{Bytes}
use game_streamer_agent.Chunker.{
  u16_max, chunk_count, parity_count, shard_header, encode_shards, encode_frame_parity, encode_data,
  encode_groups, chunk_video_frame,
}
use game_streamer_agent.Chunker.Chunks.{chunks_of, chunks, concat, concat-chunks}
use game_streamer_agent.Chunker.Padding.{Padded, chunks-Padded, length-chunks}
use game_streamer_agent.Chunker.Frame.{parity_count-bounds, div_ceil_pos}
use game_streamer_agent.Reassembler.Shards.{Pending, count_some, recoverable, reconstruct}
use game_streamer_agent.Fec.Recovery.Erased.{IsErased}
use game_streamer_agent.Reassembler.Recovery.Groups.{IsCoded}
use game_streamer_agent.Reassembler.Recovery.Padded.{pad_last-PadsTo, All-PadsTo}
use game_streamer_agent.Reassembler.Recovery.Frame.{
  IsCodeword, reconstructed, slice_front, All-take, All-drop,
}
use game_streamer_agent.Reassembler.Recovery.Sent.{
  Parity, encode_groups-Parity, encode_shards-append,
}

chunks_of_bytes :
    (rounds n : ℕ) (xs : Bytes)
    → All (λ v. v < 256) xs
    → All (All (λ v. v < 256)) (chunks_of rounds n xs)
unfolding chunks_of
chunks_of_bytes zero n xs h = tt
chunks_of_bytes (suc rounds) n [] h = tt
chunks_of_bytes (suc rounds) n (x ∷ xs) h =
    (All-take _ n (x ∷ xs) h, chunks_of_bytes rounds n (drop n (x ∷ xs)) (All-drop _ n (x ∷ xs) h))

-- The shards of a frame that was sent, in the order of their places.
pub record Transmission (template : VideoDatagramHeader) (frame : Bytes) (max_datagram permille : ℕ)
    : Type 0 where
  pub shard_len : ℕ
  pub raw : List Bytes
  pub padded : List Bytes
  pub parity : List Bytes
  pub result :
      let count = chunk_count (length frame) (max_datagram - video_header_len) in
      let hdr = shard_header template (length frame) count (parity_count count permille) in
      chunk_video_frame template frame max_datagram permille
      ≡ ok (encode_shards hdr 0 (raw ++ parity))
  pub code : IsCodeword shard_len raw padded parity
  pub whole : concat raw ≡ frame
  pub data_count : length raw ≡ chunk_count (length frame) (max_datagram - video_header_len)
  pub tail_count :
      length parity
      ≡ parity_count (chunk_count (length frame) (max_datagram - video_header_len)) permille

nothing : (l : List Bytes) → length l ≡ 0 → l ≡ []
nothing [] e = refl
nothing (x ∷ l) e = absurd (omega arith)

module _ (template : VideoDatagramHeader) (x : ℕ) (xs : Bytes) (max_datagram permille : ℕ)
    (fits : video_header_len < max_datagram)
    (few : chunk_count (length (x ∷ xs)) (max_datagram - video_header_len) ≤ u16_max)
    (bytes : All (λ v. v < 256) (x ∷ xs)) where
  abbrev n : ℕ
  n = max_datagram - video_header_len

  abbrev count : ℕ
  count = chunk_count (length (x ∷ xs)) n

  abbrev parity : ℕ
  parity = parity_count count permille

  abbrev hdr : ℕ → VideoDatagramHeader
  hdr = shard_header template (length (x ∷ xs)) count parity

  abbrev sl : ℕ
  sl = max (min (length (x ∷ xs)) n) 1

  room : 0 < n
  room = omega arith

  one : 1 ≤ count
  one = omega (arith, div_ceil_pos (length (x ∷ xs)) n room (omega arith))

  pieces : length (chunks n (x ∷ xs)) ≡ count
  pieces =
      omega
        (arith, length-chunks n (x ∷ xs) room, div_ceil_pos (length (x ∷ xs)) n room (omega arith))

  padded : Padded sl (chunks n (x ∷ xs))
  padded = chunks-Padded n x xs room

  tail :
      Parity hdr sl padded.shards count
        (count + parity)
        (group_layout count parity)
        (encode_groups hdr padded.shards (group_layout count parity))
  tail =
      let (_, _, size) = parity_count-bounds count permille few in
      encode_groups-Parity hdr n sl padded.shards (omega (arith, room)) padded.uniform
        (group_layout count parity) 0 count count (count + parity)
        (group_layout-Fits count parity one size) (group_layout-Tiles count parity)
        (omega (arith, padded.same_count, pieces))

  tail_sent :
      encode_frame_parity hdr (x ∷ xs) n count parity ≡ ok (encode_shards hdr count tail.made)
  unfolding encode_frame_parity encode_shards
  tail_sent = elim (Bool-cases (ltb 0 parity)) [
    | inl z ↦ rw (z, padded.result, tail.result) refl
    | inr z ↦
        let none_there : parity ≡ 0 = ground arith in
        let empty : tail.made ≡ [] = nothing tail.made (omega (arith, tail.count)) in
        rw (z, empty) refl
  ]

  -- A slice of the padded shards, also where the parity follows them.
  padded_slices :
      (a k : ℕ)
      → a + k ≤ length padded.shards
      → slice_of (padded.shards ++ tail.made) a (a + k) ≡ take k (drop a padded.shards)
  padded_slices a k h =
      let size : a + k - a ≡ k = omega arith in
      slice_front padded.shards tail.made a k h ∙ ap (λ m. take m (drop a padded.shards)) size

  codeword : IsCodeword sl (chunks n (x ∷ xs)) padded.shards tail.made
  unfolding chunks
  codeword =
      let (_, _, size) = parity_count-bounds count permille few in
      let tail_len : length tail.made ≡ parity = omega (arith, tail.count) in
      let layout : group_layout (length (chunks n (x ∷ xs))) (length tail.made)
          ≡ group_layout count parity =
        ap₂ group_layout pieces tail_len in
      let pads =
        pad_last-PadsTo sl (chunks n (x ∷ xs)) padded.shards (omega (arith, pieces, one))
          padded.result padded.uniform in
      record {
        some_len = omega arith;
        pads = pads;
        uniform = padded.uniform;
        parity_uniform = tail.uniform;
        same_count = padded.same_count;
        bytes =
            All-PadsTo sl (chunks n (x ∷ xs)) padded.shards pads
              (chunks_of_bytes (length (x ∷ xs)) n (x ∷ xs) bytes);
        coded = subst (All (IsCoded (padded.shards ++ tail.made))) (sym layout) (
            tail.coded padded.shards (padded.shards ++ tail.made)
              (omega (arith, padded.same_count, pieces)) refl padded_slices);
        fits = subst (All Fits) (sym layout) (group_layout-Fits count parity one size);
      }

  -- The shards that are sent: the pieces of the frame, and their parity group by group.
  pub transmitted : Transmission template (x ∷ xs) max_datagram permille
  unfolding chunk_video_frame encode_data
  transmitted =
      let some_room : (n == 0) ≡ false = let r = room in ground arith in
      let not_many : ltb u16_max count ≡ false = ground arith in
      record {
        shard_len = sl;
        raw = chunks n (x ∷ xs);
        padded = padded.shards;
        parity = tail.made;
        result =
            rw (some_room, not_many, tail_sent)
              (ap ok (
                ap (λ k. encode_shards hdr 0 (chunks n (x ∷ xs)) ++ encode_shards hdr k tail.made)
                  (omega (arith, pieces))
                ∙ sym (encode_shards-append hdr 0 (chunks n (x ∷ xs)) tail.made)));
        code = codeword;
        whole = concat-chunks n (x ∷ xs) room;
        data_count = pieces;
        tail_count = omega (arith, tail.count);
      }

payload_back :
    (h : VideoDatagramHeader) (s : Bytes) → drop video_header_len (encode_with_payload h s) ≡ s
unfolding encode_with_payload
payload_back h s = refl

-- The payloads are determined by the datagrams.
encode_shards_inj :
    (hdr : ℕ → VideoDatagramHeader) (i : ℕ) (xs ys : List Bytes)
    → encode_shards hdr i xs ≡ encode_shards hdr i ys
    → xs ≡ ys
unfolding encode_shards
encode_shards_inj hdr i [] [] e = refl
encode_shards_inj hdr i [] (y ∷ ys) e = absurd cc
encode_shards_inj hdr i (x ∷ xs) [] e = absurd cc
encode_shards_inj hdr i (x ∷ xs) (y ∷ ys) e =
    let first : encode_with_payload (hdr i) x ≡ encode_with_payload (hdr i) y = cc in
    let rest : encode_shards hdr (suc i) xs ≡ encode_shards hdr (suc i) ys = cc in
    let same =
      sym (payload_back (hdr i) x) ∙ ap (drop video_header_len) first ∙ payload_back (hdr i) y in
    ap₂ (λ a l. a ∷ l) same (encode_shards_inj hdr (suc i) xs ys rest)

pub sent_shards :
    (template : VideoDatagramHeader) (frame : Bytes) (max_datagram permille : ℕ)
    (t : Transmission template frame max_datagram permille) (sent : List Bytes)
    → let count = chunk_count (length frame) (max_datagram - video_header_len) in
      let hdr = shard_header template (length frame) count (parity_count count permille) in
      chunk_video_frame template frame max_datagram permille ≡ ok (encode_shards hdr 0 sent)
      → t.raw ++ t.parity ≡ sent
sent_shards template frame max_datagram permille t sent e =
    let count : ℕ = chunk_count (length frame) (max_datagram - video_header_len) in
    let hdr = shard_header template (length frame) count (parity_count count permille) in
    encode_shards_inj hdr 0 (t.raw ++ t.parity) sent (same _ _ (sym t.result ∙ e))
  where
    same : (a b : List Bytes) → ◌≡◌ {A = Outcome (List Bytes)} (ok a) (ok b) → a ≡ b
    same a b h = cc

-- A frame of bytes that is not empty, whose datagrams have room for more than the header and whose
-- data shards can be numbered in 16 bits, survives the loss of datagrams: when `chunk_video_frame` sent
-- it in datagrams with the payloads `sent`, and a pending frame with the header's counts has in each
-- slot the payload sent for it or nothing, then `reconstruct` gives back exactly the frame's bytes,
-- provided that a data shard is missing, that at least as many shards arrived as there are data
-- shards, and that `recoverable` finds enough of every group.
pub reconstruct-chunk_video_frame :
    (template : VideoDatagramHeader) (x : ℕ) (xs : Bytes) (max_datagram permille : ℕ)
    (sent : List Bytes) (p : Pending)
    → video_header_len < max_datagram
    → chunk_count (length (x ∷ xs)) (max_datagram - video_header_len) ≤ u16_max
    → All (λ v. v < 256) (x ∷ xs)
    → (let count = chunk_count (length (x ∷ xs)) (max_datagram - video_header_len) in
        let hdr = shard_header template (length (x ∷ xs)) count (parity_count count permille) in
        chunk_video_frame template (x ∷ xs) max_datagram permille ≡ ok (encode_shards hdr 0 sent))
    → p.data_count ≡ chunk_count (length (x ∷ xs)) (max_datagram - video_header_len)
    → p.frame_len ≡ length (x ∷ xs)
    → IsErased p.shards sent
    → count_some (take p.data_count p.shards) < p.data_count
    → p.data_count ≤ count_some p.shards
    → recoverable p ≡ true
    → reconstruct p ≡ some (x ∷ xs)
reconstruct-chunk_video_frame template x xs max_datagram permille sent p fits few bytes result count
      len erased missing many enough =
    let t = transmitted template x xs max_datagram permille fits few bytes in
    let same = sent_shards template (x ∷ xs) max_datagram permille t sent result in
    reconstructed p t.shard_len t.raw t.padded t.parity t.code (count ∙ sym t.data_count)
      (len ∙ ap length (sym t.whole)) (subst (IsErased p.shards) (sym same) erased) enough missing
      many
    ∙ ap some t.whole
