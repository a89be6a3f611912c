-- ===== src/Bwe/Time/Algebra.antt =====
-- The algebra of instants and signed durations.
use game_streamer_agent.Base.{
  ℕ, ◌+◌, ◌-◌, ◌*◌, ◌≡◌, ◌≤◌, ◌<◌, ◌⊎◌, inl, inr, refl, ap, ap₂, sym, ◌∙◌, some, ltb, Bool-cases,
  arith,
}
use game_streamer_agent.Bwe.Time.{
  Timestamp, distant_past, distant_future, exact, TimeDelta, negative_infinity, positive_infinity,
  negative, positive, zero_delta, difference, add_delta, since, compare_time, add, sub,
  compare_delta, duration_limit,
}

-- The sum of durations where no bound is kept to.
plus : TimeDelta → TimeDelta → TimeDelta
plus positive_infinity d = positive_infinity
plus negative_infinity positive_infinity = positive_infinity
plus negative_infinity negative_infinity = negative_infinity
plus negative_infinity (negative b) = negative_infinity
plus negative_infinity (positive b) = negative_infinity
plus (negative a) positive_infinity = positive_infinity
plus (negative a) negative_infinity = negative_infinity
plus (negative a) (negative b) = negative (a + b)
plus (negative a) (positive b) = difference b a
plus (positive a) positive_infinity = positive_infinity
plus (positive a) negative_infinity = negative_infinity
plus (positive a) (negative b) = difference a b
plus (positive a) (positive b) = positive (a + b)

plus_comm : (d e : TimeDelta) → plus d e ≡ plus e d
unfolding plus
plus_comm negative_infinity negative_infinity = refl
plus_comm negative_infinity positive_infinity = refl
plus_comm negative_infinity (negative b) = refl
plus_comm negative_infinity (positive b) = refl
plus_comm positive_infinity negative_infinity = refl
plus_comm positive_infinity positive_infinity = refl
plus_comm positive_infinity (negative b) = refl
plus_comm positive_infinity (positive b) = refl
plus_comm (negative a) negative_infinity = refl
plus_comm (negative a) positive_infinity = refl
plus_comm (negative a) (negative b) = ground arith
plus_comm (negative a) (positive b) = refl
plus_comm (positive a) negative_infinity = refl
plus_comm (positive a) positive_infinity = refl
plus_comm (positive a) (negative b) = refl
plus_comm (positive a) (positive b) = ground arith

plus_assoc : (d e f : TimeDelta) → plus (plus d e) f ≡ plus d (plus e f)
unfolding plus
plus_assoc negative_infinity negative_infinity negative_infinity = ground arith
plus_assoc negative_infinity negative_infinity positive_infinity = ground arith
plus_assoc negative_infinity negative_infinity (negative c) = ground arith
plus_assoc negative_infinity negative_infinity (positive c) = ground arith
plus_assoc negative_infinity positive_infinity negative_infinity = ground arith
plus_assoc negative_infinity positive_infinity positive_infinity = ground arith
plus_assoc negative_infinity positive_infinity (negative c) = ground arith
plus_assoc negative_infinity positive_infinity (positive c) = ground arith
plus_assoc negative_infinity (negative b) negative_infinity = ground arith
plus_assoc negative_infinity (negative b) positive_infinity = ground arith
plus_assoc negative_infinity (negative b) (negative c) = ground arith
plus_assoc negative_infinity (negative b) (positive c) = ground arith
plus_assoc negative_infinity (positive b) negative_infinity = ground arith
plus_assoc negative_infinity (positive b) positive_infinity = ground arith
plus_assoc negative_infinity (positive b) (negative c) = ground arith
plus_assoc negative_infinity (positive b) (positive c) = ground arith
plus_assoc positive_infinity negative_infinity negative_infinity = ground arith
plus_assoc positive_infinity negative_infinity positive_infinity = ground arith
plus_assoc positive_infinity negative_infinity (negative c) = ground arith
plus_assoc positive_infinity negative_infinity (positive c) = ground arith
plus_assoc positive_infinity positive_infinity negative_infinity = ground arith
plus_assoc positive_infinity positive_infinity positive_infinity = ground arith
plus_assoc positive_infinity positive_infinity (negative c) = ground arith
plus_assoc positive_infinity positive_infinity (positive c) = ground arith
plus_assoc positive_infinity (negative b) negative_infinity = ground arith
plus_assoc positive_infinity (negative b) positive_infinity = ground arith
plus_assoc positive_infinity (negative b) (negative c) = ground arith
plus_assoc positive_infinity (negative b) (positive c) = ground arith
plus_assoc positive_infinity (positive b) negative_infinity = ground arith
plus_assoc positive_infinity (positive b) positive_infinity = ground arith
plus_assoc positive_infinity (positive b) (negative c) = ground arith
plus_assoc positive_infinity (positive b) (positive c) = ground arith
plus_assoc (negative a) negative_infinity negative_infinity = ground arith
plus_assoc (negative a) negative_infinity positive_infinity = ground arith
plus_assoc (negative a) negative_infinity (negative c) = ground arith
plus_assoc (negative a) negative_infinity (positive c) = ground arith
plus_assoc (negative a) positive_infinity negative_infinity = ground arith
plus_assoc (negative a) positive_infinity positive_infinity = ground arith
plus_assoc (negative a) positive_infinity (negative c) = ground arith
plus_assoc (negative a) positive_infinity (positive c) = ground arith
plus_assoc (negative a) (negative b) negative_infinity = ground arith
plus_assoc (negative a) (negative b) positive_infinity = ground arith
plus_assoc (negative a) (negative b) (negative c) = ground arith
plus_assoc (negative a) (negative b) (positive c) = ground arith
plus_assoc (negative a) (positive b) negative_infinity = ground arith
plus_assoc (negative a) (positive b) positive_infinity = ground arith
plus_assoc (negative a) (positive b) (negative c) = ground arith
plus_assoc (negative a) (positive b) (positive c) = ground arith
plus_assoc (positive a) negative_infinity negative_infinity = ground arith
plus_assoc (positive a) negative_infinity positive_infinity = ground arith
plus_assoc (positive a) negative_infinity (negative c) = ground arith
plus_assoc (positive a) negative_infinity (positive c) = ground arith
plus_assoc (positive a) positive_infinity negative_infinity = ground arith
plus_assoc (positive a) positive_infinity positive_infinity = ground arith
plus_assoc (positive a) positive_infinity (negative c) = ground arith
plus_assoc (positive a) positive_infinity (positive c) = ground arith
plus_assoc (positive a) (negative b) negative_infinity = ground arith
plus_assoc (positive a) (negative b) positive_infinity = ground arith
plus_assoc (positive a) (negative b) (negative c) = ground arith
plus_assoc (positive a) (negative b) (positive c) = ground arith
plus_assoc (positive a) (positive b) negative_infinity = ground arith
plus_assoc (positive a) (positive b) positive_infinity = ground arith
plus_assoc (positive a) (positive b) (negative c) = ground arith
plus_assoc (positive a) (positive b) (positive c) = ground arith

-- The nanoseconds of a duration that is not infinite.
abbrev pub magnitude : TimeDelta → ℕ
magnitude negative_infinity = 0
magnitude positive_infinity = 0
magnitude (negative a) = a
magnitude (positive a) = a

magnitude-plus : (d e : TimeDelta) → magnitude (plus d e) ≤ magnitude d + magnitude e
unfolding plus
magnitude-plus negative_infinity negative_infinity = ground arith
magnitude-plus negative_infinity positive_infinity = ground arith
magnitude-plus negative_infinity (negative b) = ground arith
magnitude-plus negative_infinity (positive b) = ground arith
magnitude-plus positive_infinity negative_infinity = ground arith
magnitude-plus positive_infinity positive_infinity = ground arith
magnitude-plus positive_infinity (negative b) = ground arith
magnitude-plus positive_infinity (positive b) = ground arith
magnitude-plus (negative a) negative_infinity = ground arith
magnitude-plus (negative a) positive_infinity = ground arith
magnitude-plus (negative a) (negative b) = ground arith
magnitude-plus (negative a) (positive b) = ground arith
magnitude-plus (positive a) negative_infinity = ground arith
magnitude-plus (positive a) positive_infinity = ground arith
magnitude-plus (positive a) (negative b) = ground arith
magnitude-plus (positive a) (positive b) = ground arith

add_small :
    (d e : TimeDelta) → magnitude d + magnitude e < duration_limit → add d e ≡ some (plus d e)
unfolding add plus
add_small negative_infinity negative_infinity h = refl
add_small negative_infinity positive_infinity h = refl
add_small negative_infinity (negative b) h = refl
add_small negative_infinity (positive b) h = refl
add_small positive_infinity negative_infinity h = refl
add_small positive_infinity positive_infinity h = refl
add_small positive_infinity (negative b) h = refl
add_small positive_infinity (positive b) h = refl
add_small (negative a) negative_infinity h = refl
add_small (negative a) positive_infinity h = refl
add_small (negative a) (negative b) h = ground arith
add_small (negative a) (positive b) h = refl
add_small (positive a) negative_infinity h = refl
add_small (positive a) positive_infinity h = refl
add_small (positive a) (negative b) h = refl
add_small (positive a) (positive b) h = ground arith

-- Durations from one instant to another, of those less than half of a duration's limit, can be taken
-- from one another.
pub sub-since :
    (i j k l : ℕ)
    → 2 * i < duration_limit
    → 2 * j < duration_limit
    → 2 * k < duration_limit
    → 2 * l < duration_limit
    → (d : TimeDelta) × (sub (since (exact i) (exact j)) (since (exact k) (exact l)) ≡ some d)
unfolding sub since
sub-since i j k l hi hj hk hl = elim (signed i j) [
  | inl (a, ea, la) ↦ elim (signed k l) [
    | inl (b, eb, lb) ↦ (difference b a, ap₂ sub ea eb)
    | inr (b, eb, lb) ↦ (negative (a + b), ap₂ sub ea eb ∙ ground arith)
  ]
  | inr (a, ea, la) ↦ elim (signed k l) [
    | inl (b, eb, lb) ↦ (positive (a + b), ap₂ sub ea eb ∙ ground arith)
    | inr (b, eb, lb) ↦ (difference a b, ap₂ sub ea eb)
  ]
]
  where
    signed :
        (i j : ℕ)
        → ((a : ℕ) × (difference i j ≡ negative a) × (a ≤ j))
          ⊎ ((a : ℕ) × (difference i j ≡ positive a) × (a ≤ i))
    signed i j = elim (Bool-cases (ltb i j)) [
      | inl less ↦ inl (j - i, ground arith, omega arith)
      | inr more ↦ inr (i - j, ground arith, omega arith)
    ]

-- An instant plus the time since then is the later instant, also where that is infinitely far.
pub add_delta-since : (t : Timestamp) (i : ℕ) → add_delta (exact i) (since t (exact i)) ≡ some t
unfolding add_delta since
add_delta-since distant_past i = refl
add_delta-since distant_future i = refl
add_delta-since (exact j) i = ground arith

-- Instants are ordered as the sign of the time between them says.
pub compare-since :
    (i j : ℕ)
    → compare_delta (since (exact i) (exact j)) zero_delta ≡ compare_time (exact i) (exact j)
unfolding compare_delta since compare_time
compare-since i j = ground arith

-- Three durations, infinite ones among them or not, that are short enough together for a `Duration`:
-- no sum of them panics, and it depends neither on their order nor on how they are grouped.
pub add_laws :
    (d e f : TimeDelta)
    → magnitude d + magnitude e + magnitude f < duration_limit
    → (add d e ≡ add e d)
      × ((s : TimeDelta) × (t : TimeDelta) × (u : TimeDelta) × (add d e ≡ some s)
          × (add e f ≡ some t)
          × (add s f ≡ some u)
          × (add d t ≡ some u))
add_laws d e f h =
    let de = magnitude-plus d e in
    let ef = magnitude-plus e f in
    (
      add_small d e (omega arith) ∙ ap some (plus_comm d e) ∙ sym (add_small e d (omega arith)),
      (
        plus d e,
        plus e f,
        plus (plus d e) f,
        add_small d e (omega arith),
        add_small e f (omega arith),
        add_small (plus d e) f (omega arith),
        add_small d (plus e f) (omega arith) ∙ ap some (sym (plus_assoc d e f)),
      ),
    )
