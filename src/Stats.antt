-- ===== src/Stats.antt =====
-- `LatencyStats` and `PresentStats` of crates/client-core/src/stats.rs. Times are microseconds.
pub mod Windows
pub mod Percentile
mod Tests
use game_streamer_agent.Base.{
  ℕ, zero, suc, ◌+◌, ◌-◌, ◌*◌, ◌/◌, ◌%◌, min, max, Bool, true, false, not, ◌&&◌, ◌||◌, Option, none,
  some, List, [], ◌∷◌, ◌++◌, ltb, leb, ◌==◌, if◌then◌else◌, length, get_or, drop,
}

abbrev pub window : ℕ
window = 3600

abbrev pub bitrate_window_us : ℕ
bitrate_window_us = 1_000_000

abbrev pub u64_values : ℕ
u64_values = 0x1_0000_0000_0000_0000

abbrev pub bump : ℕ → ℕ
bump n = (n + 1) % u64_values

unfoldable pub push_capped : List ℕ → ℕ → List ℕ
push_capped buf v = (if length buf == window then drop 1 buf else buf) ++ v ∷ []

pub record LatencyStats : Type 0 where
  pub frames_complete : ℕ
  pub frames_decoded : ℕ
  pub latencies_us : List ℕ
  pub decode_us : List ℕ
  pub recv_window : List (ℕ × ℕ)
  pub recv_bytes : ℕ

-- The loop that drops what has left the window, and the bytes that stay counted.
unfoldable pub prune_window : ℕ → List (ℕ × ℕ) → ℕ → List (ℕ × ℕ) × ℕ
prune_window now [] total = ([], total)
prune_window now ((t, b) ∷ rest) total =
    let later = prune_window now rest ((total + u64_values - b) % u64_values) in
    if ltb bitrate_window_us (now - t) then later else ((t, b) ∷ rest, total)

unfoldable pub on_frame_complete : ℕ → ℕ → LatencyStats → LatencyStats
unfolding prune_window
on_frame_complete bytes now s =
    let kept =
      prune_window now (s.recv_window ++ (now, bytes) ∷ []) ((s.recv_bytes + bytes) % u64_values) in
    record s { frames_complete = bump s.frames_complete; recv_window = kept.0; recv_bytes = kept.1 }

abbrev pub push_option : List ℕ → Option ℕ → List ℕ
push_option buf none = buf
push_option buf (some v) = push_capped buf v

unfoldable pub on_frame_decoded : Option ℕ → ℕ → LatencyStats → LatencyStats
unfolding push_capped
on_frame_decoded latency decode s = record s {
  frames_decoded = bump s.frames_decoded;
  latencies_us = push_option s.latencies_us latency;
  decode_us = push_capped s.decode_us decode;
}

-- `sort_unstable` on numbers: the result is the sorted list, whatever the method.
unfoldable pub insert_sorted : ℕ → List ℕ → List ℕ
insert_sorted v [] = v ∷ []
insert_sorted v (x ∷ xs) = let rest = insert_sorted v xs in if leb v x then v ∷ x ∷ xs else x ∷ rest

unfoldable pub sort : List ℕ → List ℕ
unfolding insert_sorted
sort [] = []
sort (x ∷ xs) = insert_sorted x (sort xs)

unfoldable pub percentile : List ℕ → ℕ → Option ℕ
unfolding sort
percentile [] p = none
percentile (x ∷ xs) p =
    let sorted = sort (x ∷ xs) in some (get_or sorted (p * (length sorted - 1) / 100) 0)

pub record PresentStats : Type 0 where
  pub presented : ℕ
  pub last_present_us : Option ℕ
  pub frametimes_us : List ℕ
  pub latencies_us : List ℕ
  pub stutters : ℕ
  pub src_stutters : ℕ
  pub last_capture_ts : Option ℕ
  pub freezes : ℕ
  pub freeze_us_total : ℕ
  pub episodes : ℕ
  pub worst_episode_us : ℕ
  pub first_present_us : Option ℕ
  pub ep_breaks : ℕ
  pub ep_start_us : ℕ
  pub ep_last_break_us : ℕ
  pub ep_counted : Bool

abbrev pub episode_gap_us : ℕ
episode_gap_us = 1_000_000

abbrev pub warmup_us : ℕ
warmup_us = 2_000_000

abbrev pub episode_min_breaks : ℕ
episode_min_breaks = 3

abbrev pub stutter_factor : ℕ
stutter_factor = 2

abbrev pub stutter_min_us : ℕ
stutter_min_us = 40_000

abbrev pub freeze_us : ℕ
freeze_us = 250_000

-- The gap to the frame captured before this one.
unfoldable pub note_capture : ℕ → PresentStats → PresentStats
note_capture ts s = elim s.last_capture_ts [
  | none ↦ record s { last_capture_ts = some ts }
  | some prev ↦
      let src_gap = (ts + 0x1_0000_0000 - prev) % 0x1_0000_0000 in
      record s {
        last_capture_ts = some ts;
        src_stutters =
            if ltb stutter_min_us src_gap && ltb src_gap 10_000_000
            then bump s.src_stutters
            else s.src_stutters;
      }
]

-- A gap much longer than the usual one; none before there is a usual one.
abbrev pub is_stutter : Option ℕ → ℕ → Bool
is_stutter none gap = false
is_stutter (some median) gap =
    ltb (min (median * stutter_factor) 0xffff_ffff) gap && ltb stutter_min_us gap

-- What a break adds to the episode that is under way, or to a new one.
unfoldable pub note_break : ℕ → ℕ → Bool → PresentStats → PresentStats
note_break prev now hard s =
    let fresh = ltb episode_gap_us (now - s.ep_last_break_us) in
    let breaks = ((if fresh then 0 else s.ep_breaks) + 1) % 0x1_0000_0000 in
    let start = if fresh then prev else s.ep_start_us in
    let was_counted = if fresh then false else s.ep_counted in
    let counts = (leb episode_min_breaks breaks || hard) && not was_counted in
    record s {
      ep_breaks = breaks;
      ep_start_us = start;
      ep_last_break_us = now;
      episodes = if counts then (s.episodes + 1) % 0x1_0000_0000 else s.episodes;
      ep_counted = was_counted || counts;
      worst_episode_us =
          if was_counted || counts
          then max s.worst_episode_us (now - start)
          else s.worst_episode_us;
    }

-- The classification of a gap, once the warm-up is over.
unfoldable pub note_gap : ℕ → ℕ → ℕ → PresentStats → PresentStats
unfolding note_break percentile
note_gap prev now gap s =
    if leb freeze_us gap
    then note_break prev now true (record s {
      freezes = bump s.freezes;
      freeze_us_total = (s.freeze_us_total + gap) % u64_values;
    })
    else if is_stutter (percentile s.frametimes_us 50) gap
    then note_break prev now false (record s { stutters = bump s.stutters })
    else s

abbrev pub first_present : PresentStats → ℕ → ℕ
first_present s now = elim s.first_present_us [ none ↦ now | some t ↦ t ]

abbrev pub is_warm : PresentStats → ℕ → Bool
is_warm s now = ltb warmup_us (now - first_present s now)

-- The part of `on_presented` about the frame presented before this one.
unfoldable pub note_present : ℕ → Bool → PresentStats → PresentStats
unfolding note_gap push_capped
note_present now warm s = elim s.last_present_us [
  | none ↦ record s { last_present_us = some now }
  | some prev ↦
      let gap = min (now - prev) 0xffff_ffff in
      let noted = if warm then note_gap prev now gap s else s in
      record noted {
        frametimes_us = push_capped noted.frametimes_us gap;
        last_present_us = some now;
      }
]

-- The presentation, its latency and the instant of the first one.
abbrev pub note_latency : Option ℕ → ℕ → PresentStats → PresentStats
note_latency latency first s = record s {
  presented = bump s.presented;
  latencies_us = push_option s.latencies_us latency;
  first_present_us = some first;
}

unfoldable pub on_presented : Option ℕ → ℕ → ℕ → PresentStats → PresentStats
unfolding note_capture note_present
on_presented latency ts now s =
    note_present now (is_warm s now)
      (note_latency latency (first_present s now) (note_capture ts s))
