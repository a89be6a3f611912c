-- ===== src/Reassembler/Recovery/Erasures.antt =====
-- Slots of crates/client-core/src/reassembly.rs that hold what was sent there, or nothing.
use game_streamer_agent.Base.{
  ℕ, zero, suc, ◌+◌, ◌≡◌, ◌≤◌, ◌<◌, ◌⊎◌, inl, inr, refl, sym, ap, ap₂, ◌∙◌, none, some, List, [],
  ◌∷◌, ◌++◌, map, arith, length, get_or, slice_of,
}
use game_streamer_agent.Fec.Code.{Bytes, present}
use game_streamer_agent.Fec.Recovery.Erased.{IsErased, length-erased}
use game_streamer_agent.Reassembler.Shards.{Slots, count_some}
use game_streamer_agent.Reassembler.Recovery.Slots.{slot, get_or-slice_of, length-slice_of}

-- Each slot is empty or holds its shard.
abbrev pub ErasedAt : Slots → List Bytes → ℕ → Type 0
ErasedAt rx ss i = (slot rx i ≡ none) ⊎ (slot rx i ≡ some (get_or ss i []))

pub erased_at : (rx : Slots) (ss : List Bytes) (i : ℕ) → IsErased rx ss → ErasedAt rx ss i
erased_at [] [] i h = inl refl
erased_at [] (s ∷ ss) i h = elim h [ ]
erased_at (none ∷ rx) [] i h = elim h [ ]
erased_at (some t ∷ rx) [] i h = elim h [ ]
erased_at (none ∷ rx) (s ∷ ss) zero h = inl refl
erased_at (some t ∷ rx) (s ∷ ss) zero (e, h) = inr (ap some e)
erased_at (none ∷ rx) (s ∷ ss) (suc i) h = erased_at rx ss i h
erased_at (some t ∷ rx) (s ∷ ss) (suc i) (e, h) = erased_at rx ss i h

pub IsErased-of_at :
    (rx : Slots) (ss : List Bytes)
    → length rx ≡ length ss
    → ((i : ℕ) → i < length rx → ErasedAt rx ss i)
    → IsErased rx ss
IsErased-of_at [] [] e h = tt
IsErased-of_at [] (s ∷ ss) e h = absurd (omega arith)
IsErased-of_at (none ∷ rx) [] e h = absurd (omega arith)
IsErased-of_at (some t ∷ rx) [] e h = absurd (omega arith)
IsErased-of_at (none ∷ rx) (s ∷ ss) e h =
    IsErased-of_at rx ss (omega arith) (λ i k. h (suc i) (omega arith))
IsErased-of_at (some t ∷ rx) (s ∷ ss) e h = (
  elim (h 0 (omega arith)) [ inl n ↦ absurd cc | inr same ↦ cc ],
  IsErased-of_at rx ss (omega arith) (λ i k. h (suc i) (omega arith)),
)

pub IsErased-append :
    (rx : Slots) (ss : List Bytes) (rx' : Slots) (ss' : List Bytes)
    → IsErased rx ss
    → IsErased rx' ss'
    → IsErased (rx ++ rx') (ss ++ ss')
IsErased-append [] [] rx' ss' h h' = h'
IsErased-append [] (s ∷ ss) rx' ss' h h' = elim h [ ]
IsErased-append (none ∷ rx) [] rx' ss' h h' = elim h [ ]
IsErased-append (some t ∷ rx) [] rx' ss' h h' = elim h [ ]
IsErased-append (none ∷ rx) (s ∷ ss) rx' ss' h h' = IsErased-append rx ss rx' ss' h h'
IsErased-append (some t ∷ rx) (s ∷ ss) rx' ss' (e, h) h' = (e, IsErased-append rx ss rx' ss' h h')

-- The slots of a range hold what was sent there, or nothing.
pub IsErased-slice_of :
    (rx : Slots) (ss : List Bytes) (a n : ℕ)
    → a + n ≤ length rx
    → IsErased rx ss
    → IsErased (slice_of rx a (a + n)) (slice_of ss a (a + n))
IsErased-slice_of rx ss a n room h =
    let same = length-erased rx ss h in
    let left = length-slice_of none rx a n room in
    let right = length-slice_of [] ss a n (omega arith) in
    IsErased-of_at (slice_of rx a (a + n)) (slice_of ss a (a + n)) (omega arith) (λ t k.
      let here = get_or-slice_of none rx a n t (omega arith) in
      let there = get_or-slice_of [] ss a n t (omega arith) in
      elim (erased_at rx ss (a + t) h) [
        | inl e ↦ inl (here ∙ e)
        | inr e ↦ inr (here ∙ e ∙ ap some (sym there))
      ])

pub count_some-present : (i : ℕ) (ss : Slots) → length (present i ss) ≡ count_some ss
unfolding present
count_some-present i [] = refl
count_some-present i (none ∷ ss) = count_some-present (suc i) ss
count_some-present i (some b ∷ ss) = ap suc (count_some-present (suc i) ss)

pub count_some_most : (ss : Slots) → count_some ss ≤ length ss
count_some_most [] = omega arith
count_some_most (none ∷ ss) = omega (arith, count_some_most ss)
count_some_most (some b ∷ ss) = omega (arith, count_some_most ss)

pub count_some-append : (xs ys : Slots) → count_some (xs ++ ys) ≡ count_some xs + count_some ys
count_some-append [] ys = omega arith
count_some-append (none ∷ xs) ys = count_some-append xs ys
count_some-append (some b ∷ xs) ys = omega (arith, count_some-append xs ys)

-- Slots that are all full hold their shards.
pub full_slots :
    (rx : Slots) (ss : List Bytes) → IsErased rx ss → count_some rx ≡ length rx → rx ≡ map some ss
full_slots [] [] h c = refl
full_slots [] (s ∷ ss) h c = elim h [ ]
full_slots (none ∷ rx) [] h c = elim h [ ]
full_slots (some t ∷ rx) [] h c = elim h [ ]
full_slots (none ∷ rx) (s ∷ ss) h c = absurd (omega (arith, count_some_most rx))
full_slots (some t ∷ rx) (s ∷ ss) (e, h) c =
    ap₂ (λ a l. some a ∷ l) e (full_slots rx ss h (omega arith))

pub slot-map-some :
    (ss : List Bytes) (t : ℕ) → t < length ss → slot (map some ss) t ≡ some (get_or ss t [])
slot-map-some [] t h = absurd (omega arith)
slot-map-some (s ∷ ss) zero h = refl
slot-map-some (s ∷ ss) (suc t) h = slot-map-some ss t (omega arith)
