-- ===== src/Reassembler/Recovery/Uniform.antt =====
-- How `reconstruct` of crates/client-core/src/reassembly.rs finds the shard length and pads the shards to
-- it, before it recovers the groups.
use game_streamer_agent.Base.{
  subst, ℕ, zero, suc, ◌+◌, ◌-◌, ◌≡◌, ◌≤◌, ◌⊎◌, inl, inr, refl, sym, ap, ◌∙◌, true, false, not,
  ◌&&◌, ◌||◌, none, some, List, [], ◌∷◌, ◌++◌, map, arith, length, take, drop, ltb, ◌==◌, slice_of,
  ℕ_discrete, dec_le,
}
use game_streamer_agent.Fec.Layout.{FecGroup}
use game_streamer_agent.Fec.Code.{Bytes, all_len}
use game_streamer_agent.Fec.Recovery.Erased.{IsErased}
use game_streamer_agent.Chunker.Chunks.{resize, concat}
use game_streamer_agent.Reassembler.Recovery.Padded.{PadsTo, resize_exact}
use game_streamer_agent.Reassembler.Shards.{
  Slots, count_some, recoverable_groups, longest_shard, uniform_shards, all_slots,
}

-- What `uniform_shards` makes of a slot whose shard is not too long.
kept_shard :
    (sl last i : ℕ) (s : Bytes)
    → length s ≤ sl
    → (i ≡ last) ⊎ (length s ≡ sl)
    → (ltb sl (length s) || (ltb (length s) sl && not (i == last))) ≡ false
kept_shard sl last i s h c = ground arith

module _ (sl last : ℕ) where
  uniform_exact :
      (i : ℕ) (rx : Slots) (ss : List Bytes)
      → IsErased rx ss
      → all_len sl ss ≡ true
      → IsErased (uniform_shards sl last i rx) ss
  unfolding uniform_shards
  uniform_exact i [] [] h a = tt
  uniform_exact i [] (s ∷ ss) h a = elim h [ ]
  uniform_exact i (none ∷ rx) [] h a = elim h [ ]
  uniform_exact i (some t ∷ rx) [] h a = elim h [ ]
  uniform_exact i (none ∷ rx) (s ∷ ss) h a = uniform_exact (suc i) rx ss h (ground arith)
  uniform_exact i (some t ∷ rx) (s ∷ ss) (e, h) a =
      let size : length s ≡ sl = ground arith in
      let long : length t ≡ sl = ap length e ∙ size in
      rw (kept_shard sl last i t (omega arith) (inr long))
        (resize_exact sl t long ∙ e, uniform_exact (suc i) rx ss h (ground arith))

  -- The slots of a frame, made uniform, hold the padded shards.
  pub uniform_shards-IsErased :
      (i : ℕ) (rx : Slots) (raw padded parity : List Bytes)
      → IsErased rx (raw ++ parity)
      → PadsTo sl raw padded
      → all_len sl parity ≡ true
      → suc last ≡ i + length raw
      → IsErased (uniform_shards sl last i rx) (padded ++ parity)
  unfolding uniform_shards
  uniform_shards-IsErased i rx [] padded parity h p a e = elim p [ ]
  uniform_shards-IsErased i rx (r ∷ rs) [] parity h p a e = elim p [ ]
  uniform_shards-IsErased i [] (r ∷ []) (p ∷ ps) parity h pads a e = elim h [ ]
  uniform_shards-IsErased i (none ∷ rx) (r ∷ []) (p ∷ ps) parity h (fits, same) a e =
      subst (λ l. IsErased (uniform_shards sl last i (none ∷ rx)) (l ++ parity)) (sym same)
        (uniform_exact (suc i) rx parity h a)
  uniform_shards-IsErased i (some t ∷ rx) (r ∷ []) (p ∷ ps) parity (e', h) (fits, same) a e =
      let short : length t ≤ sl = omega (arith, ap length e') in
      subst (λ l. IsErased (uniform_shards sl last i (some t ∷ rx)) (l ++ parity)) (sym same)
        (rw (kept_shard sl last i t short (inl (omega arith)))
          (ap (resize sl) e', uniform_exact (suc i) rx parity h a))
  uniform_shards-IsErased i [] (r ∷ r' ∷ rs) (p ∷ ps) parity h pads a e = elim h [ ]
  uniform_shards-IsErased i (none ∷ rx) (r ∷ r' ∷ rs) (p ∷ ps) parity h (size, same, later) a e =
      uniform_shards-IsErased (suc i) rx (r' ∷ rs) ps parity h later a (omega arith)
  uniform_shards-IsErased i (some t ∷ rx) (r ∷ r' ∷ rs) (p ∷ ps) parity (e', h) (size, same, later)
        a e =
      let long : length t ≡ sl = ap length e' ∙ size in
      rw (kept_shard sl last i t (omega arith) (inr long)) (
        resize_exact sl t long ∙ e' ∙ sym same,
        uniform_shards-IsErased (suc i) rx (r' ∷ rs) ps parity h later a (omega arith),
      )

  -- Every shard present has the shard length, but for that in slot `last`, which may be shorter.
  abbrev pub Uniform : ℕ → Slots → Type 0
  Uniform i [] = Unit
  Uniform i (none ∷ rx) = Uniform (suc i) rx
  Uniform i (some b ∷ rx) = ((i ≡ last) ⊎ (length b ≡ sl)) × (length b ≤ sl) × Uniform (suc i) rx

  exact_Uniform :
      (i : ℕ) (rx : Slots) (ss : List Bytes) → IsErased rx ss → all_len sl ss ≡ true → Uniform i rx
  exact_Uniform i [] [] h a = tt
  exact_Uniform i [] (s ∷ ss) h a = elim h [ ]
  exact_Uniform i (none ∷ rx) [] h a = elim h [ ]
  exact_Uniform i (some t ∷ rx) [] h a = elim h [ ]
  exact_Uniform i (none ∷ rx) (s ∷ ss) h a = exact_Uniform (suc i) rx ss h (ground arith)
  exact_Uniform i (some t ∷ rx) (s ∷ ss) (e, h) a =
      let size : length s ≡ sl = ground arith in
      let long = ap length e in
      (inr (omega arith), omega arith, exact_Uniform (suc i) rx ss h (ground arith))

  pub IsErased-Uniform :
      (i : ℕ) (rx : Slots) (raw padded parity : List Bytes)
      → IsErased rx (raw ++ parity)
      → PadsTo sl raw padded
      → all_len sl parity ≡ true
      → suc last ≡ i + length raw
      → Uniform i rx
  IsErased-Uniform i rx [] padded parity h p a e = elim p [ ]
  IsErased-Uniform i rx (r ∷ rs) [] parity h p a e = elim p [ ]
  IsErased-Uniform i [] (r ∷ rs) (p ∷ ps) parity h pads a e = tt
  IsErased-Uniform i (none ∷ rx) (r ∷ []) (p ∷ ps) parity h pads a e =
      exact_Uniform (suc i) rx parity h a
  IsErased-Uniform i (some t ∷ rx) (r ∷ []) (p ∷ ps) parity (e', h) (fits, same) a e =
      let long = ap length e' in
      (inl (omega arith), omega arith, exact_Uniform (suc i) rx parity h a)
  IsErased-Uniform i (none ∷ rx) (r ∷ r' ∷ rs) (p ∷ ps) parity h (size, same, later) a e =
      IsErased-Uniform (suc i) rx (r' ∷ rs) ps parity h later a (omega arith)
  IsErased-Uniform i (some t ∷ rx) (r ∷ r' ∷ rs) (p ∷ ps) parity (e', h) (size, same, later) a e =
      let long = ap length e' in
      (
        inr (omega arith),
        omega arith,
        IsErased-Uniform (suc i) rx (r' ∷ rs) ps parity h later a (omega arith),
      )

  front_none :
      (i : ℕ) (rx : Slots)
      → count_some rx ≤ count_some (take (suc last - suc i) rx)
      → count_some rx ≤ count_some (take (suc last - i) (none ∷ rx))
  front_none i rx c = elim (dec_le (suc last) i) [
    | yes past ↦
        let z : suc last - suc i ≡ 0 = omega arith in let none_left = rw z at c in omega arith
    | no before ↦ let next : suc last - i ≡ suc (suc last - suc i) = omega arith in rw next c
  ]

  front_some :
      (i : ℕ) (b : Bytes) (rx : Slots)
      → i ≤ last
      → count_some rx ≤ count_some (take (suc last - suc i) rx)
      → count_some (some b ∷ rx) ≤ count_some (take (suc last - i) (some b ∷ rx))
  front_some i b rx low c =
      let next : suc last - i ≡ suc (suc last - suc i) = omega arith in rw next (omega arith)

  -- The length found is the shard length, or no slot but `last` holds a shard.
  pub longest_shard_cases :
      (i : ℕ) (rx : Slots)
      → Uniform i rx
      → (longest_shard last i rx ≡ some sl)
        ⊎ ((longest_shard last i rx ≡ none) × (count_some rx ≤ count_some (take (suc last - i) rx)))
  unfolding longest_shard
  longest_shard_cases i [] u = inr (refl, omega arith)
  longest_shard_cases i (none ∷ rx) u = elim (longest_shard_cases (suc i) rx u) [
    | inl e ↦ inl e
    | inr (e, c) ↦ inr (e, front_none i rx c)
  ]
  longest_shard_cases i (some b ∷ rx) (here, fits, u) = elim (ℕ_discrete i last) [
    | yes at ↦
        let same : (i == last) ≡ true = ground arith in
        elim (longest_shard_cases (suc i) rx u) [
          | inl e ↦ inl (rw same e)
          | inr (e, c) ↦ inr (rw same e, front_some i b rx (omega arith) c)
        ]
    | no ne ↦
        let differ : (i == last) ≡ false = ground arith in
        let long : length b ≡ sl = elim here [ inl e ↦ absurd (ne e) | inr e ↦ e ] in
        elim (longest_shard_cases (suc i) rx u) [
          | inl e ↦ inl (rw (differ, e, long) (ap some (omega arith)))
          | inr (e, c) ↦ inl (rw (differ, e, long) refl)
        ]
  ]

-- The same slots are full.
abbrev pub SameFull : Slots → Slots → Type 0
SameFull [] [] = Unit
SameFull [] (s ∷ ss) = ⊥
SameFull (r ∷ rx) [] = ⊥
SameFull (none ∷ rx) (none ∷ ss) = SameFull rx ss
SameFull (none ∷ rx) (some s ∷ ss) = ⊥
SameFull (some r ∷ rx) (none ∷ ss) = ⊥
SameFull (some r ∷ rx) (some s ∷ ss) = SameFull rx ss

pub uniform_shards-SameFull :
    (sl last i : ℕ) (rx : Slots) → Uniform sl last i rx → SameFull (uniform_shards sl last i rx) rx
unfolding uniform_shards
uniform_shards-SameFull sl last i [] u = tt
uniform_shards-SameFull sl last i (none ∷ rx) u = uniform_shards-SameFull sl last (suc i) rx u
uniform_shards-SameFull sl last i (some b ∷ rx) (here, fits, u) =
    rw (kept_shard sl last i b fits here) (uniform_shards-SameFull sl last (suc i) rx u)

SameFull-drop : (n : ℕ) (rx ss : Slots) → SameFull rx ss → SameFull (drop n rx) (drop n ss)
SameFull-drop zero rx ss h = h
SameFull-drop (suc n) [] [] h = tt
SameFull-drop (suc n) [] (s ∷ ss) h = elim h [ ]
SameFull-drop (suc n) (r ∷ rx) [] h = elim h [ ]
SameFull-drop (suc n) (none ∷ rx) (none ∷ ss) h = SameFull-drop n rx ss h
SameFull-drop (suc n) (none ∷ rx) (some s ∷ ss) h = elim h [ ]
SameFull-drop (suc n) (some r ∷ rx) (none ∷ ss) h = elim h [ ]
SameFull-drop (suc n) (some r ∷ rx) (some s ∷ ss) h = SameFull-drop n rx ss h

same_count :
    (n : ℕ) (rx ss : Slots) → SameFull rx ss → count_some (take n rx) ≡ count_some (take n ss)
same_count zero rx ss h = refl
same_count (suc n) [] [] h = refl
same_count (suc n) [] (s ∷ ss) h = elim h [ ]
same_count (suc n) (r ∷ rx) [] h = elim h [ ]
same_count (suc n) (none ∷ rx) (none ∷ ss) h = same_count n rx ss h
same_count (suc n) (none ∷ rx) (some s ∷ ss) h = elim h [ ]
same_count (suc n) (some r ∷ rx) (none ∷ ss) h = elim h [ ]
same_count (suc n) (some r ∷ rx) (some s ∷ ss) h = ap suc (same_count n rx ss h)

slice_count :
    (rx ss : Slots) (a b : ℕ)
    → SameFull rx ss
    → count_some (slice_of rx a b) ≡ count_some (slice_of ss a b)
slice_count rx ss a b h = same_count (b - a) (drop a rx) (drop a ss) (SameFull-drop a rx ss h)

-- Whether the groups are recoverable depends on which slots are full only.
pub recoverable_groups-SameFull :
    (rx ss : Slots) (gs : List FecGroup)
    → SameFull rx ss
    → recoverable_groups rx gs ≡ recoverable_groups ss gs
unfolding recoverable_groups
recoverable_groups-SameFull rx ss [] h = refl
recoverable_groups-SameFull rx ss (g ∷ gs) h =
    rw
      (
        slice_count rx ss g.data_start (g.data_start + g.data_len) h,
        slice_count rx ss g.parity_start (g.parity_start + g.parity_len) h,
        recoverable_groups-SameFull rx ss gs h,
      )
      refl

-- The shards of slots that are all full, joined.
pub all_slots-map-some : (ps : List Bytes) → all_slots (map some ps) ≡ some (concat ps)
unfolding all_slots
all_slots-map-some [] = refl
all_slots-map-some (p ∷ ps) = rw (all_slots-map-some ps) refl
