-- ===== src/Wire/Time.antt =====
-- `wire_ts` and `wire_ts_delta_us` of crates/core/src/time.rs, microseconds in 32 bits, and
-- `FrameId` of crates/core/src/id.rs.
use game_streamer_agent.Base.{ℕ, ◌+◌, ◌-◌, ◌%◌, ◌≡◌, ◌≤◌, ◌<◌, arith}

unfoldable pub wire_ts : ℕ → ℕ
wire_ts us = us % 0x1_0000_0000

unfoldable pub wire_ts_delta_us : ℕ → ℕ → ℕ
wire_ts_delta_us later earlier = (later + 0x1_0000_0000 - earlier) % 0x1_0000_0000

-- The difference of two stamps is the time between them, across any number of wraps, as long as that
-- time itself fits 32 bits.
pub wire_ts_delta_us-wire_ts :
    (earlier later : ℕ)
    → earlier ≤ later
    → later < earlier + 0x1_0000_0000
    → wire_ts_delta_us (wire_ts later) (wire_ts earlier) ≡ later - earlier
unfolding wire_ts_delta_us wire_ts
wire_ts_delta_us-wire_ts earlier later h near = omega arith

abbrev pub FrameId : Type 0
FrameId = ℕ

-- The counter of 64 bits, and its form on the wire.
unfoldable pub next : FrameId → FrameId
next id = (id + 1) % 0x1_0000_0000_0000_0000

unfoldable pub wire : FrameId → ℕ
wire id = id % 0x1_0000_0000
