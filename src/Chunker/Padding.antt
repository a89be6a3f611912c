-- ===== src/Chunker/Padding.antt =====
-- The padded shards that `chunk_video_frame` hands to the erasure code.
use native.Mathlib.Nat.{add-div_right, div-eq_of_lt}
use game_streamer_agent.Base.{
  ℕ, zero, suc, ◌+◌, ◌-◌, ◌/◌, ◌≡◌, ◌≤◌, ◌<◌, refl, sym, ap, ◌∙◌, min, max, true, List, [], ◌∷◌,
  arith, ltb, if◌then◌else◌, length, dec_le, take, drop, replicate, length-take, length-drop,
  length-append, length-replicate,
}
use game_streamer_agent.Wire.Bytes.{ok}
use game_streamer_agent.Fec.Code.{Bytes, all_len}
use game_streamer_agent.Fec.Layout.{div_ceil}
use game_streamer_agent.Chunker.Chunks.{chunks_of, chunks, resize, pad_last}

-- What padding to `sl` makes of the pieces `cs`.
pub record Padded (sl : ℕ) (cs : List Bytes) : Type 0 where
  pub shards : List Bytes
  pub result : pad_last sl cs ≡ ok shards
  pub uniform : all_len sl shards ≡ true
  pub same_count : length shards ≡ length cs

zeros : (n : ℕ) → length (replicate {A = ℕ} n 0) ≡ n
zeros n = length-replicate n 0

length-resize :
    (sl : ℕ) (s : Bytes)
    → length s ≤ sl
    → length (if ltb (length s) sl then resize sl s else s) ≡ sl
length-resize sl s h =
    ground (arith, length-append s (replicate (sl - length s) 0), zeros (sl - length s))

one_piece : (sl : ℕ) (s : Bytes) → length s ≤ sl → Padded sl (s ∷ [])
unfolding pad_last
one_piece sl s h = record {
  shards = (if ltb (length s) sl then resize sl s else s) ∷ [];
  result = refl;
  uniform = rw (length-resize sl s h) (ground arith);
  same_count = refl;
}

more_pieces :
    (sl : ℕ) (s t : Bytes) (cs : List Bytes)
    → length s ≡ sl
    → Padded sl (t ∷ cs)
    → Padded sl (s ∷ t ∷ cs)
unfolding pad_last
more_pieces sl s t cs h p = record {
  shards = s ∷ p.shards;
  result = rw (p.result);
  uniform = rw (h, p.uniform) (ground arith);
  same_count = ap suc p.same_count;
}

-- A first piece `s` and those of the rest; all but the last are full.
pieces-Padded :
    (r n sl : ℕ) (s rest : Bytes)
    → 0 < n
    → length rest ≤ r
    → length s ≤ sl
    → (0 < length rest → (length s ≡ sl) × (sl ≡ n))
    → Padded sl (s ∷ chunks_of r n rest)
unfolding chunks_of
pieces-Padded zero n sl s [] p b h full = one_piece sl s h
pieces-Padded (suc r) n sl s [] p b h full = one_piece sl s h
pieces-Padded zero n sl s (y ∷ ys) p b h full = absurd (omega arith)
pieces-Padded (suc r) n sl s (y ∷ ys) p b h full =
    let (len, whole) = full (omega arith) in
    let taken = length-take n (y ∷ ys) in
    let left = length-drop n (y ∷ ys) in
    more_pieces sl s (take n (y ∷ ys)) (chunks_of r n (drop n (y ∷ ys))) len (
      pieces-Padded r n sl (take n (y ∷ ys)) (drop n (y ∷ ys)) p (omega arith) (omega arith)
        (λ more. (omega arith, whole)))

-- Every shard of a frame that is not empty can be padded to the shard length.
pub chunks-Padded :
    (n x : ℕ) (xs : Bytes) → 0 < n → Padded (max (min (length (x ∷ xs)) n) 1) (chunks n (x ∷ xs))
unfolding chunks chunks_of
chunks-Padded n x xs p =
    let taken = length-take n (x ∷ xs) in
    let left = length-drop n (x ∷ xs) in
    pieces-Padded (length xs) n (max (min (length (x ∷ xs)) n) 1) (take n (x ∷ xs))
      (drop n (x ∷ xs)) p (omega arith) (omega arith) (λ more. (omega arith, omega arith))

div_ceil_step : (a n : ℕ) → 0 < n → n ≤ a → div_ceil a n ≡ suc (div_ceil (a - n) n)
div_ceil_step a n p h =
    let e : a + (n - 1) ≡ (a - n + (n - 1)) + n = omega arith in
    ap (λ t. t / n) e ∙ add-div_right (a - n + (n - 1)) p ∙ omega arith

pub none_left : (n : ℕ) → 0 < n → div_ceil 0 n ≡ 0
none_left n p = div-eq_of_lt (omega arith)

-- Also where the last piece is not full.
pub ceil_step : (a n : ℕ) → 0 < n → 0 < a → suc (div_ceil (a - n) n) ≡ div_ceil a n
ceil_step a n p h = elim (dec_le n a) [
  | yes le ↦ sym (div_ceil_step a n p le)
  | no lt ↦
      let e : a + (n - 1) ≡ (a - 1) + n = omega arith in
      let z : a - n ≡ 0 = omega arith in
      ap (λ t. suc (div_ceil t n)) z
      ∙ ap suc (none_left n p)
      ∙ sym (
          ap (λ t. t / n) e
          ∙ add-div_right (a - 1) p
          ∙ ap (λ t. t + 1) (div-eq_of_lt (omega arith)))
]

-- A number of pieces that has room for all has as many as the division rounded up says.
length-chunks_of :
    (rounds n : ℕ) (xs : Bytes)
    → 0 < n
    → length xs ≤ rounds
    → length (chunks_of rounds n xs) ≡ div_ceil (length xs) n
unfolding chunks_of
length-chunks_of zero n [] p h = sym (none_left n p)
length-chunks_of zero n (x ∷ xs) p h = absurd (omega arith)
length-chunks_of (suc rounds) n [] p h = sym (none_left n p)
length-chunks_of (suc rounds) n (x ∷ xs) p h =
    let left = length-drop n (x ∷ xs) in
    let later = length-chunks_of rounds n (drop n (x ∷ xs)) p (omega arith) in
    ap suc (later ∙ ap (λ t. div_ceil t n) left) ∙ ceil_step (length (x ∷ xs)) n p (omega arith)

pub length-chunks : (n : ℕ) (xs : Bytes) → 0 < n → length (chunks n xs) ≡ div_ceil (length xs) n
unfolding chunks
length-chunks n xs p = length-chunks_of (length xs) n xs p (omega arith)
