-- ===== src/Fec/Layout/Tiling.antt =====
-- How the groups of `group_layout` lie in a frame's shards.
use native.Mathlib.Nat.{div-add-mod, mod-lt, add-zero}
use game_streamer_agent.Base.{
  ℕ, zero, suc, ◌+◌, ◌*◌, ◌/◌, ◌%◌, ◌≡◌, ◌≤◌, ◌<◌, ◌⊎◌, inl, inr, refl, sym, ap, ◌∙◌, min, List, [],
  ◌∷◌, arith, All,
}
use game_streamer_agent.Fec.Layout.{
  FecGroup, group_count, max_group_data, share, layout_from, group_layout,
}

-- The data ranges run on from `d` to `d'` and the parity ranges from `p` to `p'`, with no gap.
abbrev pub Tiles : ℕ → ℕ → ℕ → ℕ → List FecGroup → Type 0
Tiles d p d' p' [] = (d ≡ d') × (p ≡ p')
Tiles d p d' p' (g ∷ gs) =
    (g.data_start ≡ d) × (g.parity_start ≡ p) × Tiles (d + g.data_len) (p + g.parity_len) d' p' gs

-- What the first `g` groups hold.
abbrev before : ℕ → ℕ → ℕ → ℕ
before base rem g = g * base + min g rem

before-share : (base rem g : ℕ) → before base rem (suc g) ≡ before base rem g + share base rem g
before-share base rem g = ground arith

layout_from-Tiles :
    (db dr pb pr rounds g k d p d' p' : ℕ)
    → d ≡ before db dr g
    → p ≡ k + before pb pr g
    → d' ≡ before db dr (g + rounds)
    → p' ≡ k + before pb pr (g + rounds)
    → Tiles d p d' p' (layout_from db dr pb pr rounds g d p)
unfolding layout_from
layout_from-Tiles db dr pb pr zero g k d p d' p' ed ep ed' ep' =
    (rw (ed, ed', add-zero) refl, rw (ep, ep', add-zero) refl)
layout_from-Tiles db dr pb pr (suc rounds) g k d p d' p' ed ep ed' ep' = (
  refl,
  refl,
  layout_from-Tiles db dr pb pr rounds (suc g) k _ _ d' p' (omega (arith, before-share db dr g))
      (omega (arith, before-share pb pr g)) (ed' ∙ ap (before db dr) next)
      (ep' ∙ ap (λ n. k + before pb pr n) next),
)
  where
    next : g + suc rounds ≡ suc g + rounds
    next = omega arith

-- All groups together hold what there is to share.
before_all : (n k : ℕ) → 0 < n → before (k / n) (k % n) (0 + n) ≡ k
before_all n k h = ground (arith, div-add-mod k n, mod-lt k h)

group_count_pos : (k : ℕ) → 0 < group_count k
group_count_pos k = omega arith

-- The groups follow one another without a gap or an overlap: their data ranges make up the shards
-- from 0 to `k`, and their parity ranges those from `k` to `k + m`.
pub group_layout-Tiles : (k m : ℕ) → Tiles 0 k k (k + m) (group_layout k m)
unfolding group_layout
group_layout-Tiles k m =
    let n = group_count k in
    layout_from-Tiles (k / n) (k % n) (m / n) (m % n) n 0 k 0 k k (k + m) (omega arith)
      (omega arith) (sym (before_all n k (group_count_pos k)))
      (ap (λ t. k + t) (sym (before_all n m (group_count_pos k))))

-- A group that one Reed-Solomon code over bytes can serve.
abbrev pub Fits : FecGroup → Type 0
Fits g = (1 ≤ g.data_len) × (g.data_len ≤ max_group_data) × (g.data_len + g.parity_len ≤ 255)

layout_from-Fits :
    (db dr pb pr rounds g d p n : ℕ)
    → ((i : ℕ)
        → i < n
        → (1 ≤ share db dr i) × (share db dr i ≤ 32) × (share db dr i + share pb pr i ≤ 255))
    → g + rounds ≤ n
    → All Fits (layout_from db dr pb pr rounds g d p)
unfolding layout_from
layout_from-Fits db dr pb pr zero g d p n h b = tt
layout_from-Fits db dr pb pr (suc rounds) g d p n h b =
    (h g (omega arith), layout_from-Fits db dr pb pr rounds (suc g) _ _ n h (omega arith))

share_bounds :
    (n k i : ℕ) → 0 < n → (k / n ≤ share (k / n) (k % n) i) × (share (k / n) (k % n) i ≤ k / n + 1)
share_bounds n k i h = ground arith

mul_le_cancel : (n a b : ℕ) → 0 < n → n * a ≤ n * b → a ≤ b
mul_le_cancel n a b h e = grind arith

mul_lt_cancel : (n a b : ℕ) → n * a < n * b → a < b
mul_lt_cancel n a b e = grind arith

share_le_total : (n base rem i c : ℕ) → 0 < n → n * base + rem ≤ n * c → share base rem i ≤ c
share_le_total n base rem i c h b = ground (arith, mul_le_cancel n base c, mul_lt_cancel n base c)

-- With enough groups none holds more than `c`.
share-le : (n k i c : ℕ) → 0 < n → k ≤ n * c → share (k / n) (k % n) i ≤ c
share-le n k i c h b = share_le_total n (k / n) (k % n) i c h (omega (arith, div-add-mod k n))

share_pos : (n k i : ℕ) → 0 < n → n ≤ k → 1 ≤ share (k / n) (k % n) i
share_pos n k i h b =
    ground (arith, mul_lt_cancel n 0 (k / n + 1), div-add-mod k n, mod-lt k h, share_bounds n k i h)

groups_hold : (k : ℕ) → k ≤ group_count k * 32
groups_hold k = omega arith

groups_few : (k : ℕ) → 1 ≤ k → group_count k ≤ k
groups_few k h = omega arith

le_mul_self : (n k : ℕ) → 0 < n → k ≤ n * k
le_mul_self n k h = grind arith

shares_fit :
    (n k m i : ℕ)
    → 0 < n
    → n ≤ k
    → k ≤ n * 32
    → (k + m ≤ 255) ⊎ ((2 ≤ n) × (m ≤ 255))
    → (1 ≤ share (k / n) (k % n) i)
      × (share (k / n) (k % n) i ≤ 32)
      × (share (k / n) (k % n) i + share (m / n) (m % n) i ≤ 255)
shares_fit n k m i h few hold (inl small) = (
  share_pos n k i h few,
  share-le n k i 32 h hold,
  omega (arith, share-le n k i k h (le_mul_self n k h), share-le n m i m h (le_mul_self n m h)),
)
shares_fit n k m i h few hold (inr (two, m255)) = (
  share_pos n k i h few,
  share-le n k i 32 h hold,
  omega (arith, share-le n k i 32 h hold, share-le n m i 128 h (omega arith)),
)

-- Every group has 1 to 32 data shards and at most 255 shards in all, for a frame whose shards would
-- fit one group of 255, and for a frame of more than 32 data shards with at most 255 parity shards.
pub group_layout-Fits :
    (k m : ℕ) → 1 ≤ k → (k + m ≤ 255) ⊎ ((32 < k) × (m ≤ 255)) → All Fits (group_layout k m)
unfolding group_layout
group_layout-Fits k m h size =
    layout_from-Fits _ _ _ _ (group_count k) 0 0 k (group_count k)
      (λ i _.
        shares_fit (group_count k) k m i (group_count_pos k) (groups_few k h) (groups_hold k)
          (enough size))
      (omega arith)
  where
    enough :
        (k + m ≤ 255) ⊎ ((32 < k) × (m ≤ 255)) → (k + m ≤ 255) ⊎ ((2 ≤ group_count k) × (m ≤ 255))
    enough (inl small) = inl small
    enough (inr (big, few)) = inr (omega arith, few)
