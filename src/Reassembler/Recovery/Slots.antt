-- ===== src/Reassembler/Recovery/Slots.antt =====
-- The slots of crates/client-core/src/reassembly.rs read at one index: slices, `take` and writes.
use game_streamer_agent.Base.{
  ℕ, zero, suc, ◌+◌, ◌-◌, ◌≡◌, ◌≤◌, ◌<◌, ◌⊎◌, inl, inr, refl, sym, ap, ap₂, ◌∙◌, Option, none, List,
  [], ◌∷◌, ◌++◌, arith, length, get_or, take, drop, replicate, slice_of, length-take, length-drop,
  length-append, length-replicate,
}
use game_streamer_agent.Fec.Code.{Bytes}
use game_streamer_agent.Fec.Recovery.Erased.{get_or-take, get_or-drop}
use game_streamer_agent.Reassembler.Shards.{Slots, clear_slots, write_slots}

module _ {A : Type 0} (z : A) where
  pub ext_at :
      (xs ys : List A)
      → length xs ≡ length ys
      → ((i : ℕ) → i < length xs → get_or xs i z ≡ get_or ys i z)
      → xs ≡ ys
  ext_at [] [] e h = refl
  ext_at [] (y ∷ ys) e h = absurd (omega arith)
  ext_at (x ∷ xs) [] e h = absurd (omega arith)
  ext_at (x ∷ xs) (y ∷ ys) e h =
      ap₂ (λ a l. a ∷ l) (h 0 (omega arith))
        (ext_at xs ys (omega arith) (λ i k. h (suc i) (omega arith)))

  pub get_or-slice_of :
      (xs : List A) (a n t : ℕ) → t < n → get_or (slice_of xs a (a + n)) t z ≡ get_or xs (a + t) z
  get_or-slice_of xs a n t h =
      let size : a + n - a ≡ n = omega arith in
      ap (λ m. get_or (take m (drop a xs)) t z) size
      ∙ get_or-take (drop a xs) n t z h
      ∙ get_or-drop xs a t z

  pub length-slice_of :
      (xs : List A) (a n : ℕ) → a + n ≤ length xs → length (slice_of xs a (a + n)) ≡ n
  length-slice_of xs a n h = omega (arith, length-take (a + n - a) (drop a xs), length-drop a xs)

  pub get_or-append_front :
      (xs ys : List A) (i : ℕ) → i < length xs → get_or (xs ++ ys) i z ≡ get_or xs i z
  get_or-append_front [] ys i h = absurd (omega arith)
  get_or-append_front (x ∷ xs) ys zero h = refl
  get_or-append_front (x ∷ xs) ys (suc i) h = get_or-append_front xs ys i (omega arith)

  pub get_or-append_back :
      (xs ys : List A) (i : ℕ) → length xs ≤ i → get_or (xs ++ ys) i z ≡ get_or ys (i - length xs) z
  get_or-append_back [] ys i h = let at : i ≡ i - 0 = omega arith in ap (λ u. get_or ys u z) at
  get_or-append_back (x ∷ xs) ys zero h = absurd (omega arith)
  get_or-append_back (x ∷ xs) ys (suc i) h =
      let at : i - length xs ≡ suc i - suc (length xs) = omega arith in
      get_or-append_back xs ys i (omega arith) ∙ ap (λ u. get_or ys u z) at

  get_or-replicate : (n i : ℕ) → get_or (replicate n z) i z ≡ z
  get_or-replicate zero i = refl
  get_or-replicate (suc n) zero = refl
  get_or-replicate (suc n) (suc i) = get_or-replicate n i

  pub slice_eq :
      (xs ys : List A) (a n : ℕ)
      → a + n ≤ length xs
      → length xs ≡ length ys
      → ((t : ℕ) → t < n → get_or xs (a + t) z ≡ get_or ys (a + t) z)
      → slice_of xs a (a + n) ≡ slice_of ys a (a + n)
  slice_eq xs ys a n room e h =
      let left = length-slice_of xs a n room in
      let right = length-slice_of ys a n (omega arith) in
      ext_at (slice_of xs a (a + n)) (slice_of ys a (a + n)) (omega arith) (λ t k.
        get_or-slice_of xs a n t (omega arith)
        ∙ h t (omega arith)
        ∙ sym (get_or-slice_of ys a n t (omega arith)))

-- The slot at index `i`.
abbrev pub slot : Slots → ℕ → Option Bytes
slot ss i = get_or ss i none

module _ (a n : ℕ) (ss : Slots) (room : a + n ≤ length ss) where
  empties : Slots
  empties = replicate (a + n - a) none

  front : Slots
  front = take a ss ++ empties

  length-front : length front ≡ a + n
  unfolding front empties
  length-front = omega (
    arith,
    length-append (take a ss) (replicate {A = Option Bytes} (a + n - a) none),
    length-replicate {A = Option Bytes} (a + n - a) none,
    length-take a ss,
  )

  pub length-clear_slots : length (clear_slots a (a + n) ss) ≡ length ss
  unfolding clear_slots front empties
  length-clear_slots =
      omega (arith, length-append front (drop (a + n) ss), length-front, length-drop (a + n) ss)

  -- A slot of the range is emptied.
  pub clear_slots-none : (i : ℕ) → a ≤ i → i < a + n → slot (clear_slots a (a + n) ss) i ≡ none
  unfolding clear_slots front empties
  clear_slots-none i low high =
      get_or-append_front none front (drop (a + n) ss) i (omega (arith, length-front))
      ∙ get_or-append_back none (take a ss) empties i (omega (arith, length-take a ss))
      ∙ get_or-replicate none (a + n - a) (i - length (take a ss))

  -- The slots outside it are kept.
  pub clear_slots_outside :
      (i : ℕ) → (i < a) ⊎ (a + n ≤ i) → slot (clear_slots a (a + n) ss) i ≡ slot ss i
  unfolding clear_slots front empties
  clear_slots_outside i (inl low) =
      get_or-append_front none front (drop (a + n) ss) i (omega (arith, length-front))
      ∙ get_or-append_front none (take a ss) empties i (omega (arith, length-take a ss))
      ∙ get_or-take ss a i none low
  clear_slots_outside i (inr high) =
      let at : a + n + (i - length front) ≡ i = omega (arith, length-front) in
      get_or-append_back none front (drop (a + n) ss) i (omega (arith, length-front))
      ∙ get_or-drop ss (a + n) (i - length front) none
      ∙ ap (slot ss) at

pub length-write_slots :
    (a n : ℕ) (group ss : Slots) → length (write_slots a n group ss) ≡ length ss
unfolding write_slots
length-write_slots zero zero group ss = refl
length-write_slots zero (suc n) [] ss = refl
length-write_slots zero (suc n) (r ∷ group) [] = refl
length-write_slots zero (suc n) (r ∷ group) (s ∷ ss) = ap suc (length-write_slots zero n group ss)
length-write_slots (suc a) n group [] = refl
length-write_slots (suc a) n group (s ∷ ss) = ap suc (length-write_slots a n group ss)

pub write_slots_inside :
    (a n : ℕ) (group ss : Slots) (t : ℕ)
    → t < n
    → t < length group
    → a + t < length ss
    → slot (write_slots a n group ss) (a + t) ≡ slot group t
unfolding write_slots
write_slots_inside zero zero group ss t h k room = absurd (omega arith)
write_slots_inside zero (suc n) [] ss t h k room = absurd (omega arith)
write_slots_inside zero (suc n) (r ∷ group) [] t h k room = absurd (omega arith)
write_slots_inside zero (suc n) (r ∷ group) (s ∷ ss) zero h k room =
    let here : 0 + 0 ≡ 0 = omega arith in
    ap (slot (write_slots zero (suc n) (r ∷ group) (s ∷ ss))) here
write_slots_inside zero (suc n) (r ∷ group) (s ∷ ss) (suc t) h k room =
    let here : 0 + suc t ≡ suc (0 + t) = omega arith in
    ap (slot (write_slots zero (suc n) (r ∷ group) (s ∷ ss))) here
    ∙ write_slots_inside zero n group ss t (omega arith) (omega arith) (omega arith)
write_slots_inside (suc a) n group [] t h k room = absurd (omega arith)
write_slots_inside (suc a) n group (s ∷ ss) t h k room =
    let here : suc a + t ≡ suc (a + t) = omega arith in
    ap (slot (write_slots (suc a) n group (s ∷ ss))) here
    ∙ write_slots_inside a n group ss t h k (omega arith)

pub write_slots_outside :
    (a n : ℕ) (group ss : Slots) (i : ℕ)
    → (i < a) ⊎ (a + n ≤ i)
    → slot (write_slots a n group ss) i ≡ slot ss i
unfolding write_slots
write_slots_outside zero zero group ss i h = refl
write_slots_outside zero (suc n) [] ss i h = refl
write_slots_outside zero (suc n) (r ∷ group) [] i h = refl
write_slots_outside zero (suc n) (r ∷ group) (s ∷ ss) zero h = elim h [
  | inl l ↦ absurd (omega arith)
  | inr l ↦ absurd (omega arith)
]
write_slots_outside zero (suc n) (r ∷ group) (s ∷ ss) (suc i) h =
    write_slots_outside zero n group ss i (omega arith)
write_slots_outside (suc a) n group [] i h = refl
write_slots_outside (suc a) n group (s ∷ ss) zero h = refl
write_slots_outside (suc a) n group (s ∷ ss) (suc i) h =
    write_slots_outside a n group ss i (omega arith)
