-- ===== src/Reassembler/Delivery.antt =====
-- The slots of a pending frame against the shards that were sent.
use game_streamer_agent.Base.{
  ℕ, zero, suc, ◌≡◌, ◌≤◌, ◌<◌, ◌⊎◌, refl, sym, ap, inl, inr, none, some, List, [], ◌∷◌, arith,
  length, get_elem?, set, take,
}
use game_streamer_agent.Wire.Bytes.{ok}
use game_streamer_agent.Fec.Code.{Bytes}
use game_streamer_agent.Chunker.Chunks.{concat}
use game_streamer_agent.Reassembler.Shards.{Slots, count_some, concat_slots}
use game_streamer_agent.Reassembler.Counts.{count_some-le}

-- The shard at each place is absent, or is the one of `ps`.
abbrev pub Agrees : List Bytes → Slots → Type 0
Agrees [] ss = Unit
Agrees (p ∷ ps) [] = Unit
Agrees (p ∷ ps) (s ∷ ss) = ((s ≡ none) ⊎ (s ≡ some p)) × Agrees ps ss

pub Agrees-set :
    (ps : List Bytes) (ss : Slots) (i : ℕ) (b : Bytes)
    → get_elem? ps i ≡ some b
    → Agrees ps ss
    → Agrees ps (set ss i (some b))
Agrees-set [] ss i b e a = tt
Agrees-set (p ∷ ps) [] i b e a = tt
Agrees-set (p ∷ ps) (s ∷ ss) zero b e a = (inr (ap some (sym (ground arith))), a.1)
Agrees-set (p ∷ ps) (s ∷ ss) (suc i) b e a = (a.0, Agrees-set ps ss i b e a.1)

-- With as many shards present as there are, the shards joined are the frame.
pub concat_slots-Agrees :
    (ps : List Bytes) (ss : Slots)
    → length ps ≤ length ss
    → Agrees ps ss
    → count_some (take (length ps) ss) ≡ length ps
    → concat_slots (take (length ps) ss) ≡ ok (concat ps)
unfolding concat_slots
concat_slots-Agrees [] ss h a c = refl
concat_slots-Agrees (p ∷ ps) [] h a c = absurd (omega arith)
concat_slots-Agrees (p ∷ ps) (none ∷ ss) h a c =
    absurd (omega (arith, count_some-le (length ps) ss))
concat_slots-Agrees (p ∷ ps) (some b ∷ ss) h (inl e, a) c = absurd cc
concat_slots-Agrees (p ∷ ps) (some b ∷ ss) h (inr e, a) c =
    let same : b ≡ p = cc in rw (concat_slots-Agrees ps ss (omega arith) a (omega arith), same) refl

abbrev pub Filled : ℕ → Slots → Type 0
Filled i ss = (b : Bytes) × (get_elem? ss i ≡ some (some b))

pub Filled-set : (ss : Slots) (i j : ℕ) (b : Bytes) → Filled j ss → Filled j (set ss i (some b))
Filled-set [] i j b (c, e) = (c, e)
Filled-set (s ∷ ss) zero zero b (c, e) = (b, refl)
Filled-set (s ∷ ss) zero (suc j) b (c, e) = (c, e)
Filled-set (s ∷ ss) (suc i) zero b (c, e) = (c, e)
Filled-set (s ∷ ss) (suc i) (suc j) b f = Filled-set ss i j b f

pub all_Filled : (k : ℕ) (ss : Slots) → ((j : ℕ) → j < k → Filled j ss) → count_some (take k ss) ≡ k
all_Filled zero ss f = refl
all_Filled (suc k) [] f = let (b, e) = f 0 (omega arith) in absurd cc
all_Filled (suc k) (none ∷ ss) f = let (b, e) = f 0 (omega arith) in absurd cc
all_Filled (suc k) (some b ∷ ss) f = ap suc (all_Filled k ss (λ j h. f (suc j) (omega arith)))
