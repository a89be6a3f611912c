-- ===== src/Wire/Seq/Stamp.antt =====
-- Stamping a datagram changes its sequence number and nothing else.
use game_streamer_agent.Base.{
  ◌-◌, drop, slice_of, length-drop, ℕ, suc, ◌≡◌, ◌≤◌, ◌∙◌, ap, max, List, [], ◌∷◌, ◌++◌, arith,
  length, All, length-replicate, length-set, replicate,
}
use game_streamer_agent.Wire.Bytes.{
  be_value, to_be_bytes, ok, ◌>>=◌, IsByte, U32, index, be_value-to_be_bytes_four, not_short,
  within,
}
use game_streamer_agent.Wire.DatagramType
use game_streamer_agent.Wire.DatagramType.{padding}
use game_streamer_agent.Wire.Video.{VideoDatagramHeader, encode_with_payload, parse, IsWellFormed}
use game_streamer_agent.Wire.Video.RoundTrip.{parse-encode_with_payload, encode_with_payload-parse}
use game_streamer_agent.Wire.Seq.{stamp_seq, read_seq, encode_padding, padding_header_len}

read_long : (d : List ℕ) → 5 ≤ length d → read_seq d ≡ ok (be_value 0 (slice_of d 1 5))
unfolding read_seq
read_long d h = simp (not_short 5 d h, within 5 5 d h (omega arith))

-- Stamping a datagram that has room for it keeps the length, and the number stamped is the one read.
pub read_seq-stamp_seq :
    (d : List ℕ) (seq : ℕ)
    → 5 ≤ length d
    → U32 seq
    → ((stamp_seq d seq >>= read_seq) ≡ ok seq)
      × ((stamp_seq d seq >>= λ e. ok (length e)) ≡ ok (length d))
unfolding stamp_seq
read_seq-stamp_seq [] seq n u = absurd (omega arith)
read_seq-stamp_seq (a ∷ d) seq n u = rw (within 5 5 (a ∷ d) n (omega arith)) (
  rw (read_long (a ∷ to_be_bytes 4 seq ++ drop 4 d) (omega arith))
      (ap ok (be_value-to_be_bytes_four seq u)),
  ap ok (omega (arith, length-drop 4 d)),
)

stamp_encoded :
    (h : VideoDatagramHeader) (payload : List ℕ) (seq : ℕ)
    → stamp_seq (encode_with_payload h payload) seq
      ≡ ok (encode_with_payload (record h { seq = seq }) payload)
unfolding stamp_seq encode_with_payload
stamp_encoded h payload seq =
    rw (within 5 5 (encode_with_payload h payload) (omega arith) (omega arith))

restamped :
    (h : VideoDatagramHeader) (seq : ℕ)
    → IsWellFormed h
    → U32 seq
    → IsWellFormed (record h { seq = seq })
restamped h seq w u = record {
  seq = u;
  session_epoch = w.session_epoch;
  frame_id = w.frame_id;
  chunk_index = w.chunk_index;
  chunk_count = w.chunk_count;
  parity_count = w.parity_count;
  frame_len = w.frame_len;
  capture_ts_us = w.capture_ts_us;
  has_chunks = w.has_chunks;
  in_range = w.in_range;
}

-- A stamped video datagram parses to the same header, but for the sequence number, and payload.
pub parse-stamp_seq :
    (d : List ℕ) (h : VideoDatagramHeader) (payload : List ℕ) (seq : ℕ)
    → All IsByte d
    → U32 seq
    → parse d ≡ ok (h, payload)
    → (stamp_seq d seq >>= parse) ≡ ok (record h { seq = seq }, payload)
parse-stamp_seq d h payload seq a u e =
    let (w, back) = encode_with_payload-parse d h payload a e in
    rw (← back, stamp_encoded h payload seq)
      (parse-encode_with_payload (record h { seq = seq }) payload (restamped h seq w u))

-- A padding datagram has the length that was asked for, or that of its header, and its type byte says so.
pub encode_padding_shape :
    (len : ℕ)
    → (length (encode_padding len) ≡ max len padding_header_len)
      × ((index (encode_padding len) 0 >>= DatagramType.from_wire) ≡ ok padding)
unfolding encode_padding DatagramType.from_wire
encode_padding_shape len = (
  length-set (replicate (max len 5) 0) 0 3 ∙ length-replicate (max len 5) 0,
  let e : max len 5 ≡ suc (max len 5 - 1) = omega arith in rw e,
)
