-- ===== src/Reassembler/Recovery/Enough.antt =====
-- When the shards that came are enough for every group of crates/protocol/src/fec.rs.
use game_streamer_agent.Base.{
  ℕ, zero, suc, ◌+◌, ◌-◌, ◌≡◌, ◌≤◌, refl, sym, ap, ◌∙◌, Bool, true, false, ◌||◌, Option, none, some,
  List, [], ◌∷◌, arith, ◌==◌, if◌then◌else◌, take, drop, slice_of, All, Bool-cases, inl, inr,
}
use game_streamer_agent.Fec.Layout.{FecGroup, group_layout}
use game_streamer_agent.Fec.Layout.Tiling.{Tiles, group_layout-Tiles}
use game_streamer_agent.Fec.Code.{Bytes}
use game_streamer_agent.Reassembler.Shards.{Slots, count_some, recoverable_groups}
use game_streamer_agent.Reassembler.Delivery.{Filled}
use game_streamer_agent.Reassembler.Recovery.Groups.{Tiles-reach}

abbrev pub occurs : ℕ → List ℕ → Bool
occurs j [] = false
occurs j (i ∷ is) = (i == j) || occurs j is

-- How many of the `n` places from `a` on occur.
abbrev pub came : List ℕ → ℕ → ℕ → ℕ
came is a zero = 0
came is a (suc n) = (if occurs a is then 1 else 0) + came is (suc a) n

-- Of the group's shards, as many different ones came as it has data shards.
abbrev pub IsEnough : List ℕ → FecGroup → Type 0
IsEnough is g = g.data_len ≤ came is g.data_start g.data_len + came is g.parity_start g.parity_len

-- How many of the `n` slots from `a` on are full.
abbrev full_from : Slots → ℕ → ℕ → ℕ
full_from ss a n = count_some (take n (drop a ss))

full_step :
    (ss : Slots) (a n : ℕ) → Filled a ss → full_from ss a (suc n) ≡ suc (full_from ss (suc a) n)
full_step [] a n (b, e) = absurd cc
full_step (none ∷ ss) zero n (b, e) = absurd cc
full_step (some c ∷ ss) zero n f = refl
full_step (s ∷ ss) (suc a) n f = full_step ss a n f

full_mono : (ss : Slots) (a n : ℕ) → full_from ss (suc a) n ≤ full_from ss a (suc n)
full_mono [] zero zero = omega arith
full_mono [] zero (suc n) = omega arith
full_mono [] (suc a) zero = omega arith
full_mono [] (suc a) (suc n) = omega arith
full_mono (none ∷ ss) zero n = omega arith
full_mono (some c ∷ ss) zero n = omega arith
full_mono (s ∷ ss) (suc a) n = full_mono ss a n

came-le :
    (is : List ℕ) (ss : Slots)
    → ((j : ℕ) → occurs j is ≡ true → Filled j ss)
    → (a n : ℕ) → came is a n ≤ full_from ss a n
came-le is ss f a zero = omega arith
came-le is ss f a (suc n) = elim (Bool-cases (occurs a is)) [
  | inl here ↦ rw here (omega (arith, full_step ss a n (f a here), came-le is ss f (suc a) n))
  | inr gone ↦ rw gone (omega (arith, full_mono ss a n, came-le is ss f (suc a) n))
]

slice_full : (ss : Slots) (a n : ℕ) → count_some (slice_of ss a (a + n)) ≡ full_from ss a n
slice_full ss a n =
    let size : a + n - a ≡ n = omega arith in ap (λ m. count_some (take m (drop a ss))) size

nothing_taken : (n : ℕ) → take {A = Option Bytes} n [] ≡ []
nothing_taken zero = refl
nothing_taken (suc n) = refl

take_split :
    (ss : Slots) (m n : ℕ)
    → count_some (take (m + n) ss) ≡ count_some (take m ss) + count_some (take n (drop m ss))
take_split ss zero n =
    let e : 0 + n ≡ n = omega arith in omega (arith, ap (λ k. count_some (take k ss)) e)
take_split [] (suc m) n =
    omega (arith, ap count_some (nothing_taken (suc m + n)), ap count_some (nothing_taken n))
take_split (none ∷ ss) (suc m) n =
    let e : suc m + n ≡ suc (m + n) = omega arith in
    ap (λ k. count_some (take k (none ∷ ss))) e ∙ take_split ss m n
take_split (some b ∷ ss) (suc m) n =
    let e : suc m + n ≡ suc (m + n) = omega arith in
    ap (λ k. count_some (take k (some b ∷ ss))) e ∙ omega (arith, take_split ss m n)

nothing_left : (a : ℕ) → drop {A = Option Bytes} a [] ≡ []
nothing_left zero = refl
nothing_left (suc a) = refl

drop_twice : (ss : Slots) (a m : ℕ) → drop m (drop a ss) ≡ drop (a + m) ss
drop_twice ss zero m = let e : m ≡ 0 + m = omega arith in ap (λ k. drop k ss) e
drop_twice [] (suc a) m = nothing_left m ∙ sym (nothing_left (suc a + m))
drop_twice (s ∷ ss) (suc a) m =
    let e : suc (a + m) ≡ suc a + m = omega arith in drop_twice ss a m ∙ ap (λ k. drop k (s ∷ ss)) e

full_split :
    (ss : Slots) (a m n : ℕ) → full_from ss a (m + n) ≡ full_from ss a m + full_from ss (a + m) n
full_split ss a m n =
    take_split (drop a ss) m n
    ∙ ap (λ l. full_from ss a m + count_some (take n l)) (drop_twice ss a m)

module _ (is : List ℕ) (ss : Slots) (f : (j : ℕ) → occurs j is ≡ true → Filled j ss) where
  pub recoverable_groups_enough :
      (gs : List FecGroup) → All (IsEnough is) gs → recoverable_groups ss gs ≡ true
  unfolding recoverable_groups
  recoverable_groups_enough [] h = refl
  recoverable_groups_enough (g ∷ gs) (here, rest) =
      let data_seen = slice_full ss g.data_start g.data_len in
      let parity_seen = slice_full ss g.parity_start g.parity_len in
      let data_came = came-le is ss f g.data_start g.data_len in
      let parity_came = came-le is ss f g.parity_start g.parity_len in
      ground (arith, recoverable_groups_enough gs rest)

  enough_from :
      (gs : List FecGroup) (d p k n : ℕ)
      → Tiles d p k n gs
      → All (IsEnough is) gs
      → k ≤ d + full_from ss d (k - d) + full_from ss p (n - p)
  enough_from [] d p k n (e, e') h = omega arith
  enough_from (g ∷ gs) d p k n (ed, ep, t) (here, rest) =
      let (lo, lo') = Tiles-reach gs _ _ k n t in
      let later = enough_from gs (d + g.data_len) (p + g.parity_len) k n t rest in
      let whole : k - d ≡ g.data_len + (k - (d + g.data_len)) = omega arith in
      let whole' : n - p ≡ g.parity_len + (n - (p + g.parity_len)) = omega arith in
      let seen = came-le is ss f g.data_start g.data_len in
      let seen' = came-le is ss f g.parity_start g.parity_len in
      let at_d = ap (λ a. full_from ss a g.data_len) ed in
      let at_p = ap (λ a. full_from ss a g.parity_len) ep in
      omega (
        arith,
        ap (full_from ss d) whole,
        ap (full_from ss p) whole',
        full_split ss d g.data_len (k - (d + g.data_len)),
        full_split ss p g.parity_len (n - (p + g.parity_len)),
      )

  -- Enough of every group is at least as many shards as there is data.
  pub count_enough :
      (k m : ℕ) → All (IsEnough is) (group_layout k m) → k ≤ count_some (take (k + m) ss)
  count_enough k m h =
      let all = enough_from (group_layout k m) 0 k k (k + m) (group_layout-Tiles k m) h in
      let size : k + m - k ≡ m = omega arith in
      let whole : k - 0 ≡ k = omega arith in
      let start : 0 + k ≡ k = omega arith in
      omega (
        arith,
        ap (full_from ss 0) whole,
        ap (full_from ss k) size,
        full_split ss 0 k m,
        ap (λ a. full_from ss a m) start,
      )
