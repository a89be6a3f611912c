-- ===== src/Session/Reframer.antt =====
-- `Reframer` of crates/session/src/audio_pipeline.rs: captured samples become frames of one size. A sample is
-- a number that the reframer does not look at.
use game_streamer_agent.Base.{
  ℕ, zero, suc, ◌≡◌, ◌≤◌, ◌<◌, refl, ap, ◌∙◌, true, false, Bool-cases, inl, inr, Option, none, some,
  List, [], ◌∷◌, ◌++◌, ltb, if◌then◌else◌, length, take, drop, All, arith, length-take, length-drop,
  take-append-drop,
}

-- `FRAME_INTERLEAVED` samples make a frame.
abbrev pub frame_interleaved : ℕ
frame_interleaved = 480

pub record Reframer : Type 0 where
  pub buf : List ℕ
  pub last_ts_us : ℕ

abbrev pub new_reframer : Reframer
new_reframer = record { buf = []; last_ts_us = 0 }

unfoldable pub push_samples : List ℕ → ℕ → Reframer → Reframer
push_samples samples ts r = record { buf = r.buf ++ samples; last_ts_us = ts }

unfoldable pub next_frame : Reframer → Option (List ℕ × Reframer)
next_frame r =
    if ltb (length r.buf) frame_interleaved
    then none
    else some (take frame_interleaved r.buf, record r { buf = drop frame_interleaved r.buf })

-- `while let Some(pcm) = reframer.next_frame()`: each round takes a frame, so the length is enough of a count.
unfoldable pub drain_frames : ℕ → Reframer → List (List ℕ) × Reframer
unfolding next_frame
drain_frames zero r = ([], r)
drain_frames (suc rounds) r = elim (next_frame r) [
  | none ↦ ([], r)
  | some taken ↦ let later = drain_frames rounds taken.1 in (taken.0 ∷ later.0, later.1)
]

abbrev pub joined : List (List ℕ) → List ℕ
joined [] = []
joined (f ∷ fs) = f ++ joined fs

-- What the loop makes of a buffer.
pub record Reframed (r : Reframer) (result : List (List ℕ) × Reframer) : Type 0 where
  pub whole : joined result.0 ++ result.1.buf ≡ r.buf
  pub sizes : All (λ f. length f ≡ frame_interleaved) result.0
  pub rest : length result.1.buf < frame_interleaved
  pub stamp : result.1.last_ts_us ≡ r.last_ts_us

few : (r : Reframer) → ltb (length r.buf) frame_interleaved ≡ true → next_frame r ≡ none
unfolding next_frame
few r z = rw z refl

enough :
    (r : Reframer)
    → ltb (length r.buf) frame_interleaved ≡ false
    → next_frame r
      ≡ some (take frame_interleaved r.buf, record r { buf = drop frame_interleaved r.buf })
unfolding next_frame
enough r z = rw z refl

append_assoc : (xs ys zs : List ℕ) → (xs ++ ys) ++ zs ≡ xs ++ (ys ++ zs)
append_assoc [] ys zs = refl
append_assoc (x ∷ xs) ys zs = ap (λ l. x ∷ l) (append_assoc xs ys zs)

-- With as many rounds as there are samples the loop runs to its end: every frame has the one size,
-- less than a frame is left, and the frames with what is left are the samples in their order.
pub drain_frames-Reframed :
    (rounds : ℕ) (r : Reframer) → length r.buf ≤ rounds → Reframed r (drain_frames rounds r)
unfolding drain_frames
drain_frames-Reframed zero r h = record {
  whole = refl;
  sizes = tt;
  rest = omega arith;
  stamp = refl;
}
drain_frames-Reframed (suc rounds) r h = elim (Bool-cases (ltb (length r.buf) frame_interleaved)) [
  | inl z ↦
      rw (few r z, drain_frames)
        (record { whole = refl; sizes = tt; rest = ground arith; stamp = refl })
  | inr z ↦
      let big : frame_interleaved ≤ length r.buf = ground arith in
      let left = length-drop frame_interleaved r.buf in
      let len = length-take frame_interleaved r.buf in
      let later =
        drain_frames-Reframed rounds (record r { buf = drop frame_interleaved r.buf })
          (omega arith) in
      rw (enough r z, drain_frames)
        (record {
          whole =
              append_assoc (take frame_interleaved r.buf) _ _
              ∙ ap (λ l. take frame_interleaved r.buf ++ l) later.whole
              ∙ take-append-drop frame_interleaved r.buf;
          sizes = (omega arith, later.sizes);
          rest = later.rest;
          stamp = later.stamp;
        })
]
