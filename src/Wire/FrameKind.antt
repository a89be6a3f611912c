-- ===== src/Wire/FrameKind.antt =====
-- `FrameKind` of crates/core/src/media.rs.
use game_streamer_agent.Base.{ℕ, ◌≡◌, arith, Bool, true, false, if◌then◌else◌, ◌==◌}
use game_streamer_agent.Wire.Bytes.{Outcome, ok, err, unknown_frame_kind, IsByte}

pub data FrameKind : Type 0 where
  idr p intra_refresh fec_parity : FrameKind

abbrev pub is_idr : FrameKind → Bool
is_idr idr = true
is_idr _ = false

unfoldable pub to_wire : FrameKind → ℕ
to_wire idr = 0
to_wire p = 1
to_wire intra_refresh = 2
to_wire fec_parity = 3

unfoldable pub from_wire : ℕ → Outcome FrameKind
from_wire b =
    if b == 0
    then ok idr
    else if b == 1
    then ok p
    else if b == 2
    then ok intra_refresh
    else if b == 3
    then ok fec_parity
    else err (unknown_frame_kind b)

pub from_wire-to_wire : (k : FrameKind) → from_wire (to_wire k) ≡ ok k
unfolding from_wire to_wire
from_wire-to_wire idr = ground arith
from_wire-to_wire _ = ground arith

-- A byte that decodes is the code of what it decodes to.
pub to_wire-from_wire : (b : ℕ) (k : FrameKind) → from_wire b ≡ ok k → to_wire k ≡ b
unfolding from_wire to_wire
to_wire-from_wire b k h = ground arith

pub IsByte-to_wire : (k : FrameKind) → IsByte (to_wire k)
unfolding to_wire
IsByte-to_wire idr = omega arith
IsByte-to_wire _ = omega arith
