-- ===== src/Stats/Percentile.antt =====
-- `percentile` of crates/client-core/src/stats.rs: the sorted samples by their rank.
use game_streamer_agent.Base.{
  ℕ, zero, suc, ◌-◌, ◌*◌, ◌/◌, ◌≡◌, ◌≤◌, ◌<◌, refl, ap, Bool-cases, inl, inr, some, List, [], ◌∷◌,
  by_test, leb, length, get_or, All, arith,
}
use game_streamer_agent.Stats.{insert_sorted, sort, percentile}

abbrev pub IsSorted : List ℕ → Type 0
IsSorted [] = Unit
IsSorted (x ∷ xs) = All (λ y. x ≤ y) xs × IsSorted xs

insert_sorted-All :
    (P : ℕ → Type 0) (v : ℕ) (xs : List ℕ) → P v → All P xs → All P (insert_sorted v xs)
unfolding insert_sorted
insert_sorted-All P v [] h a = (h, tt)
insert_sorted-All P v (x ∷ xs) h a =
    by_test (All P) (leb v x) (h, a) (a.0, insert_sorted-All P v xs h a.1)

All-le : (v x : ℕ) (xs : List ℕ) → v ≤ x → All (λ y. x ≤ y) xs → All (λ y. v ≤ y) xs
All-le v x [] h a = tt
All-le v x (y ∷ xs) h a = (omega (arith, a.0), All-le v x xs h a.1)

insert_sorted-IsSorted : (v : ℕ) (xs : List ℕ) → IsSorted xs → IsSorted (insert_sorted v xs)
unfolding insert_sorted
insert_sorted-IsSorted v [] s = (tt, tt)
insert_sorted-IsSorted v (x ∷ xs) s = elim (Bool-cases (leb v x)) [
  | inl z ↦ let le : v ≤ x = ground arith in rw z ((le, All-le v x xs le s.0), s)
  | inr z ↦
      let le : x ≤ v = ground arith in
      rw z (insert_sorted-All (λ y. x ≤ y) v xs le s.0, insert_sorted-IsSorted v xs s.1)
]

sort-IsSorted : (xs : List ℕ) → IsSorted (sort xs)
unfolding sort
sort-IsSorted [] = tt
sort-IsSorted (x ∷ xs) = insert_sorted-IsSorted x (sort xs) (sort-IsSorted xs)

length-insert_sorted : (v : ℕ) (xs : List ℕ) → length (insert_sorted v xs) ≡ suc (length xs)
unfolding insert_sorted
length-insert_sorted v [] = refl
length-insert_sorted v (x ∷ xs) =
    by_test (λ (ys : List ℕ). length ys ≡ suc (suc (length xs))) (leb v x) refl
      (ap suc (length-insert_sorted v xs))

sort-nonempty : (x : ℕ) (xs : List ℕ) → 0 < length (sort (x ∷ xs))
unfolding sort
sort-nonempty x xs = omega (arith, length-insert_sorted x (sort xs))

get_or-All : (P : ℕ → Type 0) (xs : List ℕ) (i : ℕ) → i < length xs → All P xs → P (get_or xs i 0)
get_or-All P [] i h a = absurd (omega arith)
get_or-All P (x ∷ xs) zero h a = a.0
get_or-All P (x ∷ xs) (suc i) h a = get_or-All P xs i (omega arith) a.1

get_or-monotone :
    (xs : List ℕ) (i j : ℕ) → IsSorted xs → i ≤ j → j < length xs → get_or xs i 0 ≤ get_or xs j 0
get_or-monotone [] i j s le h = absurd (omega arith)
get_or-monotone (x ∷ xs) zero zero s le h = omega arith
get_or-monotone (x ∷ xs) zero (suc j) s le h = get_or-All (λ y. x ≤ y) xs j (omega arith) s.0
get_or-monotone (x ∷ xs) (suc i) zero s le h = absurd (omega arith)
get_or-monotone (x ∷ xs) (suc i) (suc j) s le h =
    get_or-monotone xs i j s.1 (omega arith) (omega arith)

product_le : (p q n : ℕ) → p ≤ q → p * n ≤ q * n
product_le p q n h = grind arith

ranks : (p q n : ℕ) → p ≤ q → p * n / 100 ≤ q * n / 100
ranks p q n h = omega (arith, product_le p q n h)

rank_inside : (q n : ℕ) → q ≤ 100 → 0 < n → q * (n - 1) / 100 < n
rank_inside q n h pos = omega (arith, product_le q 100 (n - 1) h)

-- A higher percentile, of at most 100, is no smaller, and the sample that it names is there to be read.
pub percentile-monotone :
    (x : ℕ) (xs : List ℕ) (p q : ℕ)
    → p ≤ q
    → q ≤ 100
    → (a : ℕ) × (b : ℕ) × (percentile (x ∷ xs) p ≡ some a)
      × (percentile (x ∷ xs) q ≡ some b)
      × (a ≤ b)
unfolding percentile
percentile-monotone x xs p q h top =
    let n : ℕ = length (sort (x ∷ xs)) in
    (
      get_or (sort (x ∷ xs)) (p * (n - 1) / 100) 0,
      get_or (sort (x ∷ xs)) (q * (n - 1) / 100) 0,
      refl,
      refl,
      get_or-monotone (sort (x ∷ xs)) _ _ (sort-IsSorted (x ∷ xs)) (ranks p q (n - 1) h)
          (rank_inside q n top (sort-nonempty x xs)),
    )
