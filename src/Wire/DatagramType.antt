-- ===== src/Wire/DatagramType.antt =====
-- `DatagramType` of crates/protocol/src/datagram.rs.
use game_streamer_agent.Base.{ℕ, ◌≡◌, arith, Bool, true, false, if◌then◌else◌, ◌==◌}
use game_streamer_agent.Wire.Bytes.{Outcome, ok, err, unknown_datagram_type}

pub data DatagramType : Type 0 where
  video audio padding : DatagramType

abbrev pub is_video : DatagramType → Bool
is_video video = true
is_video _ = false

abbrev pub is_audio : DatagramType → Bool
is_audio audio = true
is_audio _ = false

unfoldable pub to_wire : DatagramType → ℕ
to_wire video = 1
to_wire audio = 2
to_wire padding = 3

unfoldable pub from_wire : ℕ → Outcome DatagramType
from_wire b =
    if b == 1
    then ok video
    else if b == 2
    then ok audio
    else if b == 3
    then ok padding
    else err (unknown_datagram_type b)

pub from_wire-to_wire : (t : DatagramType) → from_wire (to_wire t) ≡ ok t
unfolding from_wire to_wire
from_wire-to_wire video = ground arith
from_wire-to_wire _ = ground arith

pub to_wire-from_wire : (b : ℕ) (t : DatagramType) → from_wire b ≡ ok t → to_wire t ≡ b
unfolding from_wire to_wire
to_wire-from_wire b t h = ground arith
