-- ===== src/Stats/Windows.antt =====
-- The rolling windows of the statistics, and the breaks of cadence.
use game_streamer_agent.Base.{
  ℕ, ◌+◌, ◌-◌, ◌%◌, ◌≡◌, ◌≤◌, ◌<◌, refl, ap, ◌∙◌, min, Bool, Bool-cases, inl, inr, true, false,
  Option, none, some, List, [], ◌∷◌, ◌++◌, by_test, ltb, leb, ◌==◌, length, drop, All, All-append,
  arith, length-append, length-drop,
}
use game_streamer_agent.Stats.{
  window, bitrate_window_us, u64_values, push_capped, push_option, LatencyStats, prune_window,
  on_frame_complete, PresentStats, note_capture, note_break, note_gap, note_present, note_latency,
  on_presented, is_warm, first_present, warmup_us, percentile, is_stutter, freeze_us,
}

abbrev pub sum_bytes : List (ℕ × ℕ) → ℕ
sum_bytes [] = 0
sum_bytes ((t, b) ∷ rest) = b + sum_bytes rest

abbrev pub IsU64 : ℕ × ℕ → Type 0
IsU64 (t, b) = b < u64_values

-- The oldest sample is no older than the window.
abbrev pub IsFresh : ℕ → List (ℕ × ℕ) → Type 0
IsFresh now [] = Unit
IsFresh now ((t, b) ∷ rest) = now - t ≤ bitrate_window_us

abbrev pub IsCounted : List (ℕ × ℕ) → ℕ → Type 0
IsCounted samples total = All IsU64 samples × (total ≡ sum_bytes samples % u64_values)

take_off :
    (b rest total : ℕ)
    → b < u64_values
    → total ≡ (b + rest) % u64_values
    → (total + u64_values - b) % u64_values ≡ rest % u64_values
take_off b rest total h e = omega arith

prune_window-IsCounted :
    (now : ℕ) (samples : List (ℕ × ℕ)) (total : ℕ)
    → IsCounted samples total
    → IsCounted (prune_window now samples total).0 (prune_window now samples total).1
      × IsFresh now (prune_window now samples total).0
unfolding prune_window
prune_window-IsCounted now [] total c = (c, tt)
prune_window-IsCounted now ((t, b) ∷ rest) total (each, e) =
    elim (Bool-cases (ltb bitrate_window_us (now - t))) [
      | inl z ↦
          rw z
            (prune_window-IsCounted now rest _ (each.1, take_off b (sum_bytes rest) total each.0 e))
      | inr z ↦ rw z ((each, e), ground arith)
    ]

sum-append : (xs : List (ℕ × ℕ)) (t b : ℕ) → sum_bytes (xs ++ (t, b) ∷ []) ≡ sum_bytes xs + b
sum-append [] t b = omega arith
sum-append (x ∷ xs) t b = omega (arith, sum-append xs t b)

-- For a frame of a 64-bit size: when the byte count agreed with the window before the call, it agrees
-- with the window after it, up to the width of the counter, and the oldest sample that is left came
-- within the last second.
pub on_frame_complete-IsCounted :
    (bytes now : ℕ) (s : LatencyStats)
    → bytes < u64_values
    → IsCounted s.recv_window s.recv_bytes
    → IsCounted
        (on_frame_complete bytes now s).recv_window
        (on_frame_complete bytes now s).recv_bytes
      × IsFresh now (on_frame_complete bytes now s).recv_window
unfolding on_frame_complete
on_frame_complete-IsCounted bytes now s small (each, e) =
    prune_window-IsCounted now (s.recv_window ++ (now, bytes) ∷ []) _ (
      All-append IsU64 s.recv_window ((now, bytes) ∷ []) each (small, tt),
      omega (arith, sum-append s.recv_window now bytes),
    )

-- The counters of broken cadence.
abbrev pub breaks_of : PresentStats → ℕ × (ℕ × (ℕ × ℕ))
breaks_of s = (s.freezes, (s.stutters, (s.episodes, s.freeze_us_total)))

exact : (n : ℕ) → (n == window) ≡ true → n ≡ window
exact n z = ground arith

short : (n : ℕ) → n ≤ window → (n == window) ≡ false → n + 1 ≤ window
short n h z = ground arith

capture_breaks :
    (ts : ℕ) (last : Option ℕ) (s : PresentStats)
    → breaks_of (note_capture ts (record s { last_capture_ts = last })) ≡ breaks_of s
unfolding note_capture
capture_breaks ts none s = refl
capture_breaks ts (some t) s = refl

cold_breaks :
    (now : ℕ) (last : Option ℕ) (s : PresentStats)
    → breaks_of (note_present now false (record s { last_present_us = last })) ≡ breaks_of s
unfolding note_present
cold_breaks now none s = refl
cold_breaks now (some t) s = refl

-- During the first two seconds of presentation no freeze, stutter or episode is counted.
pub on_presented-warmup :
    (latency : Option ℕ) (ts now : ℕ) (s : PresentStats)
    → now - first_present s now ≤ warmup_us
    → breaks_of (on_presented latency ts now s) ≡ breaks_of s
unfolding on_presented
on_presented-warmup latency ts now s h =
    let cold : is_warm s now ≡ false = ground arith in
    let c : PresentStats = note_latency latency (first_present s now) (note_capture ts s) in
    ap (λ warm. breaks_of (note_present now warm c)) cold
    ∙ cold_breaks now c.last_present_us c
    ∙ capture_breaks ts s.last_capture_ts s

length-push_capped :
    (buf : List ℕ) (v : ℕ) → length buf ≤ window → length (push_capped buf v) ≤ window
unfolding push_capped
length-push_capped buf v h = elim (Bool-cases (length buf == window)) [
  | inl z ↦
      rw z (
        omega (arith, length-append (drop 1 buf) (v ∷ []), length-drop 1 buf, exact (length buf) z))
  | inr z ↦ rw z (omega (arith, length-append buf (v ∷ []), short (length buf) h z))
]

-- At most 3600 frame times and latencies are kept.
abbrev pub IsCapped : PresentStats → Type 0
IsCapped s = (length s.frametimes_us ≤ window) × (length s.latencies_us ≤ window)

capture-IsCapped :
    (ts : ℕ) (last : Option ℕ) (s : PresentStats)
    → IsCapped s
    → IsCapped (note_capture ts (record s { last_capture_ts = last }))
unfolding note_capture
capture-IsCapped ts none s h = h
capture-IsCapped ts (some t) s h = h

gap-IsCapped :
    (prev now gap : ℕ) (s : PresentStats) → IsCapped s → IsCapped (note_gap prev now gap s)
unfolding note_gap note_break
gap-IsCapped prev now gap s h =
    by_test IsCapped (leb freeze_us gap) h
      (by_test IsCapped (is_stutter (percentile s.frametimes_us 50) gap) h h)

present-IsCapped :
    (now : ℕ) (warm : Bool) (last : Option ℕ) (s : PresentStats)
    → IsCapped s
    → IsCapped (note_present now warm (record s { last_present_us = last }))
unfolding note_present
present-IsCapped now warm none s h = h
present-IsCapped now warm (some prev) s h =
    let (times, latencies) =
      by_test IsCapped warm
        (gap-IsCapped prev now (min (now - prev) 0xffff_ffff)
          (record s { last_present_us = some prev }) h)
        h in
    (length-push_capped _ _ times, latencies)

pushed_option :
    (buf : List ℕ) (v : Option ℕ) → length buf ≤ window → length (push_option buf v) ≤ window
pushed_option buf none h = h
pushed_option buf (some v) h = length-push_capped buf v h

-- However many frames are presented, at most 3600 frame times and latencies are kept.
pub on_presented-IsCapped :
    (latency : Option ℕ) (ts now : ℕ) (s : PresentStats)
    → IsCapped s
    → IsCapped (on_presented latency ts now s)
unfolding on_presented
on_presented-IsCapped latency ts now s h =
    let (times, latencies) = capture-IsCapped ts s.last_capture_ts s h in
    let c : PresentStats = note_latency latency (first_present s now) (note_capture ts s) in
    present-IsCapped now (is_warm s now) c.last_present_us c
      (times, pushed_option _ latency latencies)
