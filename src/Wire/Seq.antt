-- ===== src/Wire/Seq.antt =====
-- The transport-wide sequence number and padding datagrams of crates/protocol/src/datagram.rs.
pub mod Stamp
use game_streamer_agent.Base.{
  ℕ, ◌+◌, max, List, [], ◌∷◌, ◌++◌, ltb, leb, if◌then◌else◌, length, take, drop, replicate, set,
}
use game_streamer_agent.Wire.Bytes.{
  Outcome, ok, err, panic, ◌>>=◌, ◌>>◌, refuse_if, too_short, to_be_bytes, from_be_bytes,
}
use game_streamer_agent.Wire.DatagramType
use game_streamer_agent.Wire.DatagramType.{padding}

abbrev pub seq_offset : ℕ
seq_offset = 1

abbrev pub padding_header_len : ℕ
padding_header_len = 1 + 4

-- `copy_from_slice` into the four bytes at the offset; a shorter datagram panics.
unfoldable pub stamp_seq : List ℕ → ℕ → Outcome (List ℕ)
stamp_seq d seq =
    if leb (seq_offset + 4) (length d)
    then ok (take seq_offset d ++ (to_be_bytes 4 seq ++ drop (seq_offset + 4) d))
    else panic

unfoldable pub read_seq : List ℕ → Outcome ℕ
read_seq d = do
  refuse_if (ltb (length d) (seq_offset + 4)) (too_short (length d) (seq_offset + 4))
  from_be_bytes d seq_offset (seq_offset + 4)

unfoldable pub encode_padding : ℕ → List ℕ
unfolding DatagramType.to_wire
encode_padding len = set (replicate (max len padding_header_len) 0) 0 (DatagramType.to_wire padding)
