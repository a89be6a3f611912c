-- ===== src/Wire/Video/RoundTrip.antt =====
-- Encoding and parsing of `VideoDatagramHeader` undo each other, and parsing does not panic.
use game_streamer_agent.Base.{
  lt→ltb, inl, inr, ℕ, ◌+◌, ◌≡◌, ◌≢◌, ◌<◌, ◌≤◌, ◌∙◌, not, ◌||◌, Option, none, some, List, arith,
  leb, ◌==◌, length, get_elem?, slice_of, All,
}
use game_streamer_agent.Wire.Bytes.{
  Outcome, ok, err, panic, ◌>>=◌, ◌>>◌, refuse_if, too_short, unknown_datagram_type, invalid_chunk,
  IsByte, be_value, be_value-to_be_bytes_two, be_value-to_be_bytes_four, not_short, within,
  leb_refl, get_elem?-IsSome, four_back, two_back, one_back, be_value_four-U32, be_value_two-U16,
  get_elem?-IsByte, slice_of_rest, length_cases,
}
use game_streamer_agent.Wire.FrameKind
use game_streamer_agent.Wire.FrameKind.{FrameKind, from_wire-to_wire, to_wire-from_wire}
use game_streamer_agent.Wire.DatagramType
use game_streamer_agent.Wire.DatagramType.{is_video, video}
use game_streamer_agent.Wire.Video.{
  VideoDatagramHeader, encode_with_payload, parse, IsWellFormed, total_shards,
}

-- What `parse` makes of the bytes at 0, 5, 10 and 15, of the numbers between them and of the rest.
abbrev decode :
    Option ℕ
    → Option ℕ
    → Option ℕ
    → Option ℕ
    → ℕ
    → ℕ
    → ℕ
    → ℕ
    → ℕ
    → ℕ
    → List ℕ
    → Outcome (VideoDatagramHeader × List ℕ)
decode tag? epoch? code? parity? seq frame_id chunk_index chunk_count frame_len ts rest = do
  tag ← elim tag? [ none ↦ panic | some b ↦ ok b ]
  ty ← DatagramType.from_wire tag
  refuse_if (not (is_video ty)) (unknown_datagram_type tag)
  session_epoch ← elim epoch? [ none ↦ panic | some b ↦ ok b ]
  kind_code ← elim code? [ none ↦ panic | some b ↦ ok b ]
  kind ← FrameKind.from_wire kind_code
  parity_count ← elim parity? [ none ↦ panic | some b ↦ ok b ]
  refuse_if (chunk_count == 0 || leb (total_shards chunk_count parity_count) chunk_index)
      (invalid_chunk chunk_index chunk_count)
  ok (
    record {
      seq = seq;
      session_epoch = session_epoch;
      frame_id = frame_id;
      kind = kind;
      chunk_index = chunk_index;
      chunk_count = chunk_count;
      parity_count = parity_count;
      frame_len = frame_len;
      capture_ts_us = ts;
    },
    rest,
  )

abbrev decode_of : List ℕ → Outcome (VideoDatagramHeader × List ℕ)
decode_of d =
    decode (get_elem? d 0) (get_elem? d 5) (get_elem? d 10) (get_elem? d 15)
      (be_value 0 (slice_of d 1 5)) (be_value 0 (slice_of d 6 10)) (be_value 0 (slice_of d 11 13))
      (be_value 0 (slice_of d 13 15)) (be_value 0 (slice_of d 16 20))
      (be_value 0 (slice_of d 20 24)) (slice_of d 24 (length d))

parse-eq-decode : (d : List ℕ) → 24 ≤ length d → parse d ≡ decode_of d
unfolding parse
parse-eq-decode d h = simp (
  not_short 24 d h,
  within 24 5 d h (omega arith),
  within 24 10 d h (omega arith),
  within 24 13 d h (omega arith),
  within 24 15 d h (omega arith),
  within 24 20 d h (omega arith),
  within 24 24 d h (omega arith),
  leb_refl,
)

-- A well-formed header and its payload come back from what was encoded.
pub parse-encode_with_payload :
    (h : VideoDatagramHeader) (payload : List ℕ)
    → IsWellFormed h
    → parse (encode_with_payload h payload) ≡ ok (h, payload)
unfolding encode_with_payload DatagramType.from_wire
parse-encode_with_payload h payload w =
    rw (parse-eq-decode (encode_with_payload h payload) (omega arith)) (
      rw
        (
          from_wire-to_wire h.kind,
          be_value-to_be_bytes_four h.seq w.seq,
          be_value-to_be_bytes_four h.frame_id w.frame_id,
          be_value-to_be_bytes_two h.chunk_index w.chunk_index,
          be_value-to_be_bytes_two h.chunk_count w.chunk_count,
          be_value-to_be_bytes_four h.frame_len w.frame_len,
          be_value-to_be_bytes_four h.capture_ts_us w.capture_ts_us,
          slice_of_rest 24 (encode_with_payload h payload),
        )
        (ground arith))

decode_ok :
    (tag? epoch? code? parity? : Option ℕ) (seq frame_id chunk_index chunk_count frame_len ts : ℕ)
    (rest : List ℕ) (h : VideoDatagramHeader) (payload : List ℕ)
    → decode tag? epoch? code? parity? seq frame_id chunk_index chunk_count frame_len ts rest
      ≡ ok (h, payload)
    → (tag? ≡ some 1)
      × (epoch? ≡ some h.session_epoch)
      × (code? ≡ some (FrameKind.to_wire h.kind))
      × (parity? ≡ some h.parity_count)
      × (h.seq ≡ seq)
      × (h.frame_id ≡ frame_id)
      × (h.chunk_index ≡ chunk_index)
      × (h.chunk_count ≡ chunk_count)
      × (h.frame_len ≡ frame_len)
      × (h.capture_ts_us ≡ ts)
      × (payload ≡ rest)
      × (0 < h.chunk_count)
      × (h.chunk_index < h.chunk_count + h.parity_count)
unfolding DatagramType.from_wire FrameKind.from_wire FrameKind.to_wire
decode_ok tag? epoch? code? parity? seq frame_id chunk_index chunk_count frame_len ts rest h payload
      e =
    ground arith

abbrev Decoded : List ℕ → VideoDatagramHeader → List ℕ → Type 0
Decoded d h payload =
    (get_elem? d 0 ≡ some 1)
    × (get_elem? d 5 ≡ some h.session_epoch)
    × (get_elem? d 10 ≡ some (FrameKind.to_wire h.kind))
    × (get_elem? d 15 ≡ some h.parity_count)
    × (h.seq ≡ be_value 0 (slice_of d 1 5))
    × (h.frame_id ≡ be_value 0 (slice_of d 6 10))
    × (h.chunk_index ≡ be_value 0 (slice_of d 11 13))
    × (h.chunk_count ≡ be_value 0 (slice_of d 13 15))
    × (h.frame_len ≡ be_value 0 (slice_of d 16 20))
    × (h.capture_ts_us ≡ be_value 0 (slice_of d 20 24))
    × (payload ≡ slice_of d 24 (length d))
    × (0 < h.chunk_count)
    × (h.chunk_index < h.chunk_count + h.parity_count)

decode_of_ok :
    (d : List ℕ) (h : VideoDatagramHeader) (payload : List ℕ)
    → decode_of d ≡ ok (h, payload)
    → Decoded d h payload
decode_of_ok d h payload e = decode_ok _ _ _ _ _ _ _ _ _ _ _ h payload e

decode-ne-panic :
    (tag epoch code parity : ℕ) (seq frame_id chunk_index chunk_count frame_len ts : ℕ)
    (rest : List ℕ)
    → decode
        (some tag)
        (some epoch)
        (some code)
        (some parity)
        seq
        frame_id
        chunk_index
        chunk_count
        frame_len
        ts
        rest
      ≢ panic
unfolding DatagramType.from_wire FrameKind.from_wire
decode-ne-panic tag epoch code parity seq frame_id chunk_index chunk_count frame_len ts rest e =
    ground arith

parse_short : (d : List ℕ) → length d < 24 → parse d ≡ err (too_short (length d) 24)
unfolding parse
parse_short d h = rw (lt→ltb (length d) 24 h)

-- On any bytes at all `parse` returns a header or an error: no slice is out of range.
pub parse-ne-panic : (d : List ℕ) → parse d ≢ panic
parse-ne-panic d = elim (length_cases 24 d) [
  | inl short ↦ rw (parse_short d short) (λ e. cc)
  | inr long ↦
      let (tag, et) = get_elem?-IsSome d 0 (omega arith) in
      let (epoch, ee) = get_elem?-IsSome d 5 (omega arith) in
      let (code, ec) = get_elem?-IsSome d 10 (omega arith) in
      let (parity, ep) = get_elem?-IsSome d 15 (omega arith) in
      rw (parse-eq-decode d long, et, ee, ec, ep)
        (decode-ne-panic tag epoch code parity _ _ _ _ _ _ _)
]

encode-decode :
    (d : List ℕ) (h : VideoDatagramHeader) (payload : List ℕ)
    → All IsByte d
    → 24 ≤ length d
    → decode_of d ≡ ok (h, payload)
    → encode_with_payload h payload ≡ d
unfolding encode_with_payload
encode-decode d h payload a n e =
    let (
      tag, epoch, code, parity, seq, frame_id, chunk_index, chunk_count, frame_len, ts, rest, _, _,
    ) =
      decode_of_ok d h payload e in
    rw (
      rest ∙ slice_of_rest 24 d,
      four_back d a 20 h.capture_ts_us ts (omega arith),
      four_back d a 16 h.frame_len frame_len (omega arith),
      one_back d 15 h.parity_count parity,
      two_back d a 13 h.chunk_count chunk_count (omega arith),
      two_back d a 11 h.chunk_index chunk_index (omega arith),
      one_back d 10 (FrameKind.to_wire h.kind) code,
      four_back d a 6 h.frame_id frame_id (omega arith),
      one_back d 5 h.session_epoch epoch,
      four_back d a 1 h.seq seq (omega arith),
      one_back d 0 1 tag,
    )

decode-IsWellFormed :
    (d : List ℕ) (h : VideoDatagramHeader) (payload : List ℕ)
    → All IsByte d
    → decode_of d ≡ ok (h, payload)
    → IsWellFormed h
decode-IsWellFormed d h payload a e =
    let (
      tag, epoch, code, parity, seq, frame_id, chunk_index, chunk_count, frame_len, ts, rest,
      some_chunk, inside,
    ) =
      decode_of_ok d h payload e in
    record {
      seq = rw seq (be_value_four-U32 d a 1);
      session_epoch = get_elem?-IsByte d 5 h.session_epoch a epoch;
      frame_id = rw frame_id (be_value_four-U32 d a 6);
      chunk_index = rw chunk_index (be_value_two-U16 d a 11);
      chunk_count = rw chunk_count (be_value_two-U16 d a 13);
      parity_count = get_elem?-IsByte d 15 h.parity_count a parity;
      frame_len = rw frame_len (be_value_four-U32 d a 16);
      capture_ts_us = rw ts (be_value_four-U32 d a 20);
      has_chunks = some_chunk;
      in_range = inside;
    }

-- What `parse` accepts is a well-formed header, and encoding it with its payload gives the bytes back.
pub encode_with_payload-parse :
    (d : List ℕ) (h : VideoDatagramHeader) (payload : List ℕ)
    → All IsByte d
    → parse d ≡ ok (h, payload)
    → IsWellFormed h × (encode_with_payload h payload ≡ d)
encode_with_payload-parse d h payload a e = elim (length_cases 24 d) [
  | inl short ↦ cc (parse_short d short)
  | inr long ↦
      let e' = rw (parse-eq-decode d long) at e in
      (decode-IsWellFormed d h payload a e', encode-decode d h payload a long e')
]
