-- ===== src/Base/Xor.antt =====
-- Laws of `^` on numbers of any size, from its lowest digit.
use Prim.Native.Nat.{
  ℕ, zero, suc, ◌+◌, ◌*◌, ◌/◌, ◌%◌, ◌≤◌, ◌<◌, ◌^◌, bit_xor, digits, differ, bit_xor-bitwise,
}
use mathlib.Core.Path.{◌≡◌, refl, ◌∙◌}
use native.Mathlib.Omega.{arith}
use native.Mathlib.Nat.{le_refl, pow-suc}

-- Any two counts of rounds that reach `a` give the same number.
rounds_agree :
    (a b : ℕ) {n m : ℕ}
    → a ≤ m
    → a ≤ n
    → digits (λ rest. rest) differ m a b ≡ digits (λ rest. rest) differ n a b
rounds_agree zero b {n = zero} {m = zero} _ _ = refl
rounds_agree zero b {n = zero} {m = suc m} _ _ = refl
rounds_agree zero b {n = suc n} {m = zero} _ _ = refl
rounds_agree zero b {n = suc n} {m = suc m} _ _ = refl
rounds_agree (suc a) b {n = n} {m = zero} low _ = absurd (omega arith)
rounds_agree (suc a) b {n = zero} {m = suc m} _ low = absurd (omega arith)
rounds_agree (suc a) b {n = suc n} {m = suc m} low low' =
    let halved : suc a / 2 ≤ a = omega arith in
    rw (rounds_agree (suc a / 2) (b / 2) {n = n} {m = m} (omega arith) (omega arith))

zero-bit_xor : (b : ℕ) → bit_xor 0 b ≡ b
zero-bit_xor b = bit_xor-bitwise 0 b

differ_digits : (x y : ℕ) → x < 2 → y < 2 → differ x y ≡ (x + y) % 2
differ_digits zero y h k = omega arith
differ_digits (suc zero) zero h k = refl
differ_digits (suc zero) (suc zero) h k = refl
differ_digits (suc zero) (suc (suc y)) h k = absurd (omega arith)
differ_digits (suc (suc x)) y h k = absurd (omega arith)

-- One step from the lowest digit.
pub bit_xor_step : (a b : ℕ) → bit_xor a b ≡ bit_xor (a / 2) (b / 2) * 2 + (a + b) % 2
bit_xor_step zero b = let whole = zero-bit_xor b in let rest = zero-bit_xor (b / 2) in omega arith
bit_xor_step (suc a) b =
    let whole = bit_xor-bitwise (suc a) b in
    let rest = bit_xor-bitwise (suc a / 2) (b / 2) in
    let rounds =
      rounds_agree (suc a / 2) (b / 2) {n = suc a / 2} {m = a} (omega arith) (le_refl _) in
    let lowest = differ_digits (suc a % 2) (b % 2) (omega arith) (omega arith) in omega arith

comm_fuel : (n a b : ℕ) → a ≤ n → b ≤ n → bit_xor a b ≡ bit_xor b a
comm_fuel zero a b p q = let e : a ≡ b = omega arith in rw e
comm_fuel (suc n) a b p q = omega (
  arith,
  bit_xor_step a b,
  bit_xor_step b a,
  comm_fuel n (a / 2) (b / 2) (omega arith) (omega arith),
)

pub bit_xor_comm : (a b : ℕ) → bit_xor a b ≡ bit_xor b a
bit_xor_comm a b = comm_fuel (a + b) a b (omega arith) (omega arith)

pub bit_xor-zero : (a : ℕ) → bit_xor a 0 ≡ a
bit_xor-zero a = bit_xor_comm a 0 ∙ zero-bit_xor a

self_fuel : (n a : ℕ) → a ≤ n → bit_xor a a ≡ 0
self_fuel zero a p = let e : a ≡ 0 = omega arith in rw e
self_fuel (suc n) a p = omega (arith, bit_xor_step a a, self_fuel n (a / 2) (omega arith))

pub bit_xor_self : (a : ℕ) → bit_xor a a ≡ 0
bit_xor_self a = self_fuel a a (le_refl _)

half : (a b : ℕ) → bit_xor a b / 2 ≡ bit_xor (a / 2) (b / 2)
half a b = omega (arith, bit_xor_step a b)

parity : (a b : ℕ) → bit_xor a b % 2 ≡ (a + b) % 2
parity a b = omega (arith, bit_xor_step a b)

assoc_fuel :
    (n a b c : ℕ) → a ≤ n → b ≤ n → c ≤ n → bit_xor (bit_xor a b) c ≡ bit_xor a (bit_xor b c)
assoc_fuel zero a b c p q r =
    let e : a ≡ 0 = omega arith in
    let f : b ≡ 0 = omega arith in let g : c ≡ 0 = omega arith in rw (e, f, g)
assoc_fuel (suc n) a b c p q r =
    let ih = assoc_fuel n (a / 2) (b / 2) (c / 2) (omega arith) (omega arith) (omega arith) in
    let left : bit_xor (bit_xor a b) c
        ≡ bit_xor (bit_xor (a / 2) (b / 2)) (c / 2) * 2 + (bit_xor a b + c) % 2 =
      rw (← half a b) (bit_xor_step (bit_xor a b) c) in
    let right : bit_xor a (bit_xor b c)
        ≡ bit_xor (a / 2) (bit_xor (b / 2) (c / 2)) * 2 + (a + bit_xor b c) % 2 =
      rw (← half b c) (bit_xor_step a (bit_xor b c)) in
    omega (arith, left, right, ih, parity a b, parity b c)

pub bit_xor_assoc : (a b c : ℕ) → bit_xor (bit_xor a b) c ≡ bit_xor a (bit_xor b c)
bit_xor_assoc a b c = assoc_fuel (a + b + c) a b c (omega arith) (omega arith) (omega arith)

-- Exclusive or stays within a number of binary digits.
pub bit_xor_below : (k a b : ℕ) → a < 2 ^ k → b < 2 ^ k → bit_xor a b < 2 ^ k
bit_xor_below zero a b p q =
    let e : a ≡ 0 = omega arith in let f : b ≡ 0 = omega arith in rw (e, f) (omega arith)
bit_xor_below (suc k) a b p q = omega (
  arith,
  pow-suc 2 k,
  bit_xor_step a b,
  bit_xor_below k (a / 2) (b / 2) (omega (arith, pow-suc 2 k)) (omega (arith, pow-suc 2 k)),
)
