-- ===== src/Chunker/Chunks.antt =====
-- The slice operations of `chunk_video_frame`: `chunks`, and the zero padding of the last shard.
use game_streamer_agent.Base.{
  ℕ, zero, suc, ◌-◌, ◌≡◌, ◌≤◌, ◌<◌, refl, ap, ◌∙◌, List, [], ◌∷◌, ◌++◌, arith, ltb, if◌then◌else◌,
  length, take, drop, replicate, All, length-take, length-drop, take-append-drop,
}
use game_streamer_agent.Wire.Bytes.{Outcome, ok, panic, ◌>>=◌}
use game_streamer_agent.Fec.Code.{Bytes}

-- The pieces of at most `n`; each round takes one, so the length is enough of a count.
unfoldable pub chunks_of : ℕ → ℕ → Bytes → List Bytes
chunks_of zero n xs = []
chunks_of (suc rounds) n [] = []
chunks_of (suc rounds) n (x ∷ xs) = take n (x ∷ xs) ∷ chunks_of rounds n (drop n (x ∷ xs))

-- `xs.chunks(n)`
unfoldable pub chunks : ℕ → Bytes → List Bytes
unfolding chunks_of
chunks n xs = chunks_of (length xs) n xs

abbrev pub resize : ℕ → Bytes → Bytes
resize n s = s ++ replicate (n - length s) 0

-- `last.len() < shard_len` makes `last_mut().expect(..)` write the padded shard.
unfoldable pub pad_last : ℕ → List Bytes → Outcome (List Bytes)
pad_last n [] = if ltb 0 n then panic else ok []
pad_last n (s ∷ []) = ok ((if ltb (length s) n then resize n s else s) ∷ [])
pad_last n (s ∷ t ∷ rest) = do padded ← pad_last n (t ∷ rest); ok (s ∷ padded)

abbrev pub concat : List Bytes → Bytes
concat [] = []
concat (s ∷ ss) = s ++ concat ss

-- The pieces together are the whole, once the rounds are enough.
concat-chunks_of :
    (rounds n : ℕ) (xs : Bytes) → 0 < n → length xs ≤ rounds → concat (chunks_of rounds n xs) ≡ xs
unfolding chunks_of
concat-chunks_of zero n [] p h = refl
concat-chunks_of zero n (x ∷ xs) p h = absurd (omega arith)
concat-chunks_of (suc rounds) n [] p h = refl
concat-chunks_of (suc rounds) n (x ∷ xs) p h =
    ap (λ t. take n (x ∷ xs) ++ t)
      (concat-chunks_of rounds n (drop n (x ∷ xs)) p (omega (arith, length-drop n (x ∷ xs))))
    ∙ take-append-drop n (x ∷ xs)

pub concat-chunks : (n : ℕ) (xs : Bytes) → 0 < n → concat (chunks n xs) ≡ xs
unfolding chunks
concat-chunks n xs p = concat-chunks_of (length xs) n xs p (omega arith)

chunks_of-All : (rounds n : ℕ) (xs : Bytes) → All (λ s. length s ≤ n) (chunks_of rounds n xs)
unfolding chunks_of
chunks_of-All zero n xs = tt
chunks_of-All (suc rounds) n [] = tt
chunks_of-All (suc rounds) n (x ∷ xs) =
    (omega (arith, length-take n (x ∷ xs)), chunks_of-All rounds n (drop n (x ∷ xs)))

-- No piece is longer than `n`.
pub chunks-All : (n : ℕ) (xs : Bytes) → All (λ s. length s ≤ n) (chunks n xs)
unfolding chunks
chunks-All n xs = chunks_of-All (length xs) n xs
