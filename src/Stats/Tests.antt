-- ===== src/Stats/Tests.antt =====
-- The statistics on a few frames.
use game_streamer_agent.Base.{◌≡◌, false, some, [], ◌∷◌, arith}
use game_streamer_agent.Stats.{LatencyStats, PresentStats, on_frame_complete, on_presented}
use game_streamer_agent.Stats.Windows.{
  IsCounted, IsFresh, breaks_of, on_frame_complete-IsCounted, on_presented-warmup,
}

abbrev received : LatencyStats
received = record {
  frames_complete = 1;
  frames_decoded = 0;
  latencies_us = [];
  decode_us = [];
  recv_window = (5, 700) ∷ [];
  recv_bytes = 700;
}

abbrev presenting : PresentStats
presenting = record {
  presented = 1;
  last_present_us = some 1_000_000;
  frametimes_us = [];
  latencies_us = [];
  stutters = 0;
  src_stutters = 0;
  last_capture_ts = some 10;
  freezes = 0;
  freeze_us_total = 0;
  episodes = 0;
  worst_episode_us = 0;
  first_present_us = some 1_000_000;
  ep_breaks = 0;
  ep_start_us = 0;
  ep_last_break_us = 0;
  ep_counted = false;
}

on_frame_complete-IsCounted_example :
    IsCounted
      (on_frame_complete 900 2_000_000 received).recv_window
      (on_frame_complete 900 2_000_000 received).recv_bytes
    × IsFresh 2_000_000 (on_frame_complete 900 2_000_000 received).recv_window
on_frame_complete-IsCounted_example =
    on_frame_complete-IsCounted 900 2_000_000 received (omega arith)
      ((omega arith, tt), omega arith)

on_presented-warmup_example :
    breaks_of (on_presented (some 20_000) 500_000 1_500_000 presenting) ≡ breaks_of presenting
on_presented-warmup_example =
    on_presented-warmup (some 20_000) 500_000 1_500_000 presenting (omega arith)
