-- ===== src/Wire/Audio/RoundTrip.antt =====
-- Encoding and parsing of `AudioDatagramHeader` undo each other, and parsing does not panic.
use game_streamer_agent.Base.{
  ℕ, ◌≡◌, ◌≢◌, ◌<◌, ◌≤◌, inl, inr, ◌∙◌, not, Option, none, some, List, arith, lt→ltb, length,
  get_elem?, slice_of, All,
}
use game_streamer_agent.Wire.Bytes.{
  Outcome, ok, err, panic, ◌>>=◌, ◌>>◌, refuse_if, too_short, unknown_datagram_type, IsByte,
  be_value, be_value-to_be_bytes_two, be_value-to_be_bytes_four, not_short, within, leb_refl,
  get_elem?-IsSome, four_back, two_back, one_back, be_value_four-U32, be_value_two-U16,
  slice_of_rest, length_cases,
}
use game_streamer_agent.Wire.DatagramType
use game_streamer_agent.Wire.DatagramType.{is_audio}
use game_streamer_agent.Wire.Audio.{AudioDatagramHeader, encode_with_payload, parse, IsWellFormed}

abbrev decode : Option ℕ → ℕ → ℕ → List ℕ → Outcome (AudioDatagramHeader × List ℕ)
decode tag? seq ts rest = do
  tag ← elim tag? [ none ↦ panic | some b ↦ ok b ]
  ty ← DatagramType.from_wire tag
  refuse_if (not (is_audio ty)) (unknown_datagram_type tag)
  ok (record { seq = seq; ts_us = ts }, rest)

abbrev decode_of : List ℕ → Outcome (AudioDatagramHeader × List ℕ)
decode_of d =
    decode (get_elem? d 0) (be_value 0 (slice_of d 1 3)) (be_value 0 (slice_of d 3 7))
      (slice_of d 7 (length d))

parse-eq-decode : (d : List ℕ) → 7 ≤ length d → parse d ≡ decode_of d
unfolding parse
parse-eq-decode d h =
    simp (not_short 7 d h, within 7 3 d h (omega arith), within 7 7 d h (omega arith), leb_refl)

-- A header in range and its payload come back from what was encoded.
pub parse-encode_audio :
    (h : AudioDatagramHeader) (opus : List ℕ)
    → IsWellFormed h
    → parse (encode_with_payload h opus) ≡ ok (h, opus)
unfolding encode_with_payload DatagramType.from_wire
parse-encode_audio h opus w = rw (parse-eq-decode (encode_with_payload h opus) (omega arith)) (
    rw (
      be_value-to_be_bytes_two h.seq w.seq,
      be_value-to_be_bytes_four h.ts_us w.ts_us,
      slice_of_rest 7 (encode_with_payload h opus),
    ))

decode_ok :
    (tag? : Option ℕ) (seq ts : ℕ) (rest : List ℕ) (h : AudioDatagramHeader) (opus : List ℕ)
    → decode tag? seq ts rest ≡ ok (h, opus)
    → (tag? ≡ some 2) × (h.seq ≡ seq) × (h.ts_us ≡ ts) × (opus ≡ rest)
unfolding DatagramType.from_wire
decode_ok tag? seq ts rest h opus e = ground arith

decode_audio-ne-panic : (tag seq ts : ℕ) (rest : List ℕ) → decode (some tag) seq ts rest ≢ panic
unfolding DatagramType.from_wire
decode_audio-ne-panic tag seq ts rest e = ground arith

parse_short : (d : List ℕ) → length d < 7 → parse d ≡ err (too_short (length d) 7)
unfolding parse
parse_short d h = rw (lt→ltb (length d) 7 h)

-- On any bytes at all `parse` returns a header or an error: no slice is out of range.
pub parse_audio-ne-panic : (d : List ℕ) → parse d ≢ panic
parse_audio-ne-panic d = elim (length_cases 7 d) [
  | inl short ↦ rw (parse_short d short) (λ e. cc)
  | inr long ↦
      let (tag, et) = get_elem?-IsSome d 0 (omega arith) in
      rw (parse-eq-decode d long, et) (decode_audio-ne-panic tag _ _ _)
]

encode-decode :
    (d : List ℕ) (h : AudioDatagramHeader) (opus : List ℕ)
    → All IsByte d
    → 7 ≤ length d
    → (get_elem? d 0 ≡ some 2)
      × (h.seq ≡ be_value 0 (slice_of d 1 3))
      × (h.ts_us ≡ be_value 0 (slice_of d 3 7))
      × (opus ≡ slice_of d 7 (length d))
    → IsWellFormed h × (encode_with_payload h opus ≡ d)
unfolding encode_with_payload
encode-decode d h opus a n (tag, seq, ts, rest) = (
  record { seq = rw seq (be_value_two-U16 d a 1); ts_us = rw ts (be_value_four-U32 d a 3) },
  rw (
    rest ∙ slice_of_rest 7 d,
    four_back d a 3 h.ts_us ts (omega arith),
    two_back d a 1 h.seq seq (omega arith),
    one_back d 0 2 tag,
  ),
)

-- What `parse` accepts is in range, and encoding it with its payload gives the bytes back.
pub encode-parse_audio :
    (d : List ℕ) (h : AudioDatagramHeader) (opus : List ℕ)
    → All IsByte d
    → parse d ≡ ok (h, opus)
    → IsWellFormed h × (encode_with_payload h opus ≡ d)
encode-parse_audio d h opus a e = elim (length_cases 7 d) [
  | inl short ↦ cc (parse_short d short)
  | inr long ↦
      encode-decode d h opus a long (decode_ok _ _ _ _ h opus (rw (parse-eq-decode d long) at e))
]
