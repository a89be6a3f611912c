-- ===== src/Bwe/Time.antt =====
-- `Timestamp` and `TimeDelta` of crates/session/src/bwe/time.rs: instants and signed durations with
-- infinite values. An instant and a duration are a number of nanoseconds.
pub mod Algebra
use Prim.Native.Nat.{compare, Ordering}
use game_streamer_agent.Base.{
  zero, suc, ℕ, ◌+◌, ◌-◌, ◌/◌, Option, none, some, leb, ltb, if◌then◌else◌,
}

pub data Timestamp : Type 0 where
  distant_past distant_future : Timestamp
  exact : ℕ → Timestamp

pub data TimeDelta : Type 0 where
  negative_infinity positive_infinity : TimeDelta
  negative positive : ℕ → TimeDelta

abbrev pub zero_delta : TimeDelta
zero_delta = positive 0

-- `a - b` of two durations, whichever is the greater.
abbrev pub difference : ℕ → ℕ → TimeDelta
difference a b = elim (compare a b) [
  | Ordering.lt ↦ negative (b - a)
  | Ordering.eq ↦ zero_delta
  | Ordering.gt ↦ positive (a - b)
]

-- `i - d`; an instant before the first one is a panic, here `none`.
abbrev pub back : ℕ → ℕ → Option Timestamp
back i d = if leb d i then some (exact (i - d)) else none

-- One more than the nanoseconds of `Duration::MAX`.
abbrev pub duration_limit : ℕ
duration_limit = 18_446_744_073_709_551_616_000_000_000

-- `a + b` of two durations with a sign; a sum that is too long is a panic, here `none`.
abbrev pub checked_sum : (ℕ → TimeDelta) → ℕ → ℕ → Option TimeDelta
checked_sum sign a b = if ltb (a + b) duration_limit then some (sign (a + b)) else none

unfoldable pub add_delta : Timestamp → TimeDelta → Option Timestamp
add_delta distant_future d = some distant_future
add_delta distant_past positive_infinity = some distant_future
add_delta distant_past negative_infinity = some distant_past
add_delta distant_past (negative d) = some distant_past
add_delta distant_past (positive d) = some distant_past
add_delta (exact i) positive_infinity = some distant_future
add_delta (exact i) negative_infinity = some distant_past
add_delta (exact i) (negative d) = back i d
add_delta (exact i) (positive d) = some (exact (i + d))

unfoldable pub sub_delta : Timestamp → TimeDelta → Option Timestamp
sub_delta distant_future d = some distant_future
sub_delta distant_past negative_infinity = some distant_future
sub_delta distant_past positive_infinity = some distant_past
sub_delta distant_past (negative d) = some distant_past
sub_delta distant_past (positive d) = some distant_past
sub_delta (exact i) negative_infinity = some distant_future
sub_delta (exact i) positive_infinity = some distant_past
sub_delta (exact i) (negative d) = some (exact (i + d))
sub_delta (exact i) (positive d) = back i d

unfoldable pub since : Timestamp → Timestamp → TimeDelta
since distant_future t = positive_infinity
since distant_past distant_past = positive_infinity
since distant_past distant_future = negative_infinity
since distant_past (exact j) = negative_infinity
since (exact i) distant_past = positive_infinity
since (exact i) distant_future = negative_infinity
since (exact i) (exact j) = difference i j

unfoldable pub compare_time : Timestamp → Timestamp → Ordering
compare_time distant_past distant_past = Ordering.eq
compare_time distant_past distant_future = Ordering.lt
compare_time distant_past (exact j) = Ordering.lt
compare_time distant_future distant_past = Ordering.gt
compare_time distant_future distant_future = Ordering.eq
compare_time distant_future (exact j) = Ordering.gt
compare_time (exact i) distant_past = Ordering.gt
compare_time (exact i) distant_future = Ordering.lt
compare_time (exact i) (exact j) = compare i j

unfoldable pub add : TimeDelta → TimeDelta → Option TimeDelta
add positive_infinity d = some positive_infinity
add negative_infinity positive_infinity = some positive_infinity
add negative_infinity negative_infinity = some negative_infinity
add negative_infinity (negative b) = some negative_infinity
add negative_infinity (positive b) = some negative_infinity
add (negative a) positive_infinity = some positive_infinity
add (negative a) negative_infinity = some negative_infinity
add (negative a) (negative b) = checked_sum negative a b
add (negative a) (positive b) = some (difference b a)
add (positive a) positive_infinity = some positive_infinity
add (positive a) negative_infinity = some negative_infinity
add (positive a) (negative b) = some (difference a b)
add (positive a) (positive b) = checked_sum positive a b

unfoldable pub sub : TimeDelta → TimeDelta → Option TimeDelta
sub positive_infinity d = some positive_infinity
sub negative_infinity negative_infinity = some positive_infinity
sub negative_infinity positive_infinity = some negative_infinity
sub negative_infinity (negative b) = some negative_infinity
sub negative_infinity (positive b) = some negative_infinity
sub (negative a) negative_infinity = some positive_infinity
sub (negative a) positive_infinity = some negative_infinity
sub (negative a) (negative b) = some (difference b a)
sub (negative a) (positive b) = checked_sum negative a b
sub (positive a) negative_infinity = some positive_infinity
sub (positive a) positive_infinity = some negative_infinity
sub (positive a) (negative b) = checked_sum positive a b
sub (positive a) (positive b) = some (difference a b)

unfoldable pub compare_delta : TimeDelta → TimeDelta → Ordering
compare_delta negative_infinity negative_infinity = Ordering.eq
compare_delta negative_infinity positive_infinity = Ordering.lt
compare_delta negative_infinity (negative b) = Ordering.lt
compare_delta negative_infinity (positive b) = Ordering.lt
compare_delta positive_infinity negative_infinity = Ordering.gt
compare_delta positive_infinity positive_infinity = Ordering.eq
compare_delta positive_infinity (negative b) = Ordering.gt
compare_delta positive_infinity (positive b) = Ordering.gt
compare_delta (negative a) negative_infinity = Ordering.gt
compare_delta (negative a) positive_infinity = Ordering.lt
compare_delta (negative a) (negative b) = compare b a
compare_delta (negative a) (positive b) = Ordering.lt
compare_delta (positive a) negative_infinity = Ordering.gt
compare_delta (positive a) positive_infinity = Ordering.lt
compare_delta (positive a) (negative b) = Ordering.gt
compare_delta (positive a) (positive b) = compare a b

-- A division by 0 is a panic, here `none`.
unfoldable pub div : TimeDelta → ℕ → Option TimeDelta
div negative_infinity n = some negative_infinity
div positive_infinity n = some positive_infinity
div (negative d) zero = none
div (negative d) (suc n) = some (negative (d / suc n))
div (positive d) zero = none
div (positive d) (suc n) = some (positive (d / suc n))
