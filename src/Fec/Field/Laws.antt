-- ===== src/Fec/Field/Laws.antt =====
-- `mul` and `inv` of crates/protocol/src/fec.rs make the bytes a field whose sum is exclusive or.
use native.Mathlib.Nat.{add_comm}
use game_streamer_agent.Base.Xor.{
  bit_xor_below, bit_xor_comm, bit_xor-zero, bit_xor_self, bit_xor_assoc,
}
use game_streamer_agent.Base.{
  ℕ, zero, suc, ◌+◌, ◌-◌, ◌%◌, ◌≡◌, ◌≢◌, ◌<◌, ◌⊎◌, inl, inr, refl, sym, ap, ◌∙◌, arith, bit_xor,
  ℕ_discrete,
}
use game_streamer_agent.Fec.Field.{build_tables, coef, double, exp_at, log_at, mul, inv}
use game_streamer_agent.Fec.Field.Powers.{
  doubled, doubled-lt, doubled-bit_xor, doubled-add, exp_at-doubled, exp_at_pos, log_at_lem,
}

abbrev Byte : ℕ → Type 0
Byte a = a < 256

doubled-zero : (n : ℕ) → doubled n 0 ≡ 0
unfolding doubled double
doubled-zero zero = refl
doubled-zero (suc n) = rw (doubled-zero n)

-- `mul` by a number other than 0 doubles as often as its logarithm says.
mul-doubled : (a b : ℕ) → Byte a → Byte b → a ≢ 0 → mul a b ≡ doubled (log_at a) b
unfolding mul
mul-doubled a b h k nz = elim (ℕ_discrete b 0) [
  | yes e ↦ rw e (ground (arith, doubled-zero (log_at a)))
  | no ne ↦
      let (small, back) = log_at_lem a h nz in
      let (small', back') = log_at_lem b k ne in
      let power : exp_at (log_at a + log_at b) ≡ doubled (log_at a) b =
        exp_at-doubled (log_at a + log_at b) (omega arith)
        ∙ doubled-add (log_at a) (log_at b) 1
        ∙ ap (doubled (log_at a)) back' in
      ground arith
]

pub zero-mul : (b : ℕ) → mul 0 b ≡ 0
unfolding mul
zero-mul b = ground arith

pub mul_comm : (a b : ℕ) → mul a b ≡ mul b a
unfolding mul
mul_comm a b = ground (arith, ap exp_at (add_comm (log_at a) (log_at b)))

pub mul-lt : (a b : ℕ) → Byte a → Byte b → mul a b < 256
mul-lt a b h k = elim (ℕ_discrete a 0) [
  | yes e ↦ rw (e, zero-mul b) (omega arith)
  | no ne ↦ rw (mul-doubled a b h k ne) (doubled-lt (log_at a) b k)
]

-- Multiplication goes over exclusive or.
pub mul-bit_xor :
    (a b c : ℕ) → Byte a → Byte b → Byte c → mul a (bit_xor b c) ≡ bit_xor (mul a b) (mul a c)
mul-bit_xor a b c h k l = elim (ℕ_discrete a 0) [
  | yes e ↦ rw e (ground (arith, zero-mul (bit_xor b c), zero-mul b, zero-mul c))
  | no ne ↦
      rw
        (
          mul-doubled a (bit_xor b c) h (bit_xor_below 8 b c k l) ne,
          mul-doubled a b h k ne,
          mul-doubled a c h l ne,
        )
        (doubled-bit_xor (log_at a) b c k l)
]

-- Powers of the generator commute.
powers_comm : (i k : ℕ) → doubled i (doubled k 1) ≡ doubled k (doubled i 1)
powers_comm i k = sym (doubled-add i k 1) ∙ ap (λ n. doubled n 1) (add_comm i k) ∙ doubled-add k i 1

-- How often to double matters only by what it makes of 1.
doubled_cong : (i j c : ℕ) → Byte c → doubled i 1 ≡ doubled j 1 → doubled i c ≡ doubled j c
doubled_cong i j c h e = elim (ℕ_discrete c 0) [
  | yes z ↦ rw z (doubled-zero i ∙ sym (doubled-zero j))
  | no nz ↦
      let (_, back) = log_at_lem c h nz in
      rw (← back) (powers_comm i (log_at c) ∙ ap (doubled (log_at c)) e ∙ powers_comm (log_at c) j)
]

-- There are no divisors of 0.
pub mul_ne_zero : (a b : ℕ) → Byte a → Byte b → a ≢ 0 → b ≢ 0 → mul a b ≢ 0
unfolding mul
mul_ne_zero a b h k na nb =
    let (small, _) = log_at_lem a h na in
    let (small', _) = log_at_lem b k nb in
    let pos = exp_at_pos (log_at a + log_at b) (omega arith) in ground arith

mul-doubled_one :
    (a b : ℕ)
    → Byte a
    → Byte b
    → a ≢ 0
    → b ≢ 0
    → doubled (log_at (mul a b)) 1 ≡ doubled (log_at a + log_at b) 1
mul-doubled_one a b h k na nb =
    let (_, back) = log_at_lem b k nb in
    (log_at_lem (mul a b) (mul-lt a b h k) (mul_ne_zero a b h k na nb)).1
    ∙ mul-doubled a b h k na
    ∙ ap (doubled (log_at a)) (sym back)
    ∙ sym (doubled-add (log_at a) (log_at b) 1)

mul_zero_cases : (a b : ℕ) → Byte a → Byte b → (a ≡ 0) ⊎ ((b ≡ 0) ⊎ (mul a b ≢ 0))
mul_zero_cases a b h k = elim (ℕ_discrete a 0) [
  | yes e ↦ inl e
  | no na ↦ elim (ℕ_discrete b 0) [
    | yes e ↦ inr (inl e)
    | no nb ↦ inr (inr (mul_ne_zero a b h k na nb))
  ]
]

pub mul_assoc : (a b c : ℕ) → Byte a → Byte b → Byte c → mul (mul a b) c ≡ mul a (mul b c)
mul_assoc a b c h k l = elim (ℕ_discrete a 0) [
  | yes e ↦ rw e (ap (λ t. mul t c) (zero-mul b) ∙ zero-mul c ∙ sym (zero-mul (mul b c)))
  | no na ↦ elim (ℕ_discrete b 0) [
    | yes e ↦ rw e (simp (mul_comm a 0, zero-mul))
    | no nb ↦
        rw
          (
            mul-doubled (mul a b) c (mul-lt a b h k) l (mul_ne_zero a b h k na nb),
            mul-doubled a (mul b c) h (mul-lt b c k l) na,
            mul-doubled b c k l nb,
          )
          (doubled_cong _ _ c l (mul-doubled_one a b h k na nb)
            ∙ doubled-add (log_at a) (log_at b) c)
  ]
]

log_at_one : log_at 1 ≡ 0
unfolding log_at build_tables
log_at_one = refl

pub one-mul : (a : ℕ) → Byte a → mul 1 a ≡ a
unfolding doubled
one-mul a h = mul-doubled 1 a (omega arith) h (omega arith) ∙ rw log_at_one

full_turn : doubled 255 1 ≡ 1
unfolding doubled double
full_turn = refl

pub inv-lt : (a : ℕ) → Byte a → a ≢ 0 → inv a < 256
unfolding inv
inv-lt a h nz = rw (exp_at-doubled (255 - log_at a) (omega arith)) (doubled-lt _ 1 (omega arith))

pub inv_ne_zero : (a : ℕ) → Byte a → a ≢ 0 → inv a ≢ 0
unfolding inv
inv_ne_zero a h nz = let pos = exp_at_pos (255 - log_at a) (omega arith) in omega arith

-- `inv` gives the inverse of every byte but 0.
pub mul-inv : (a : ℕ) → Byte a → a ≢ 0 → mul a (inv a) ≡ 1
unfolding inv
mul-inv a h nz =
    let (small, _) = log_at_lem a h nz in
    let turn : log_at a + (255 - log_at a) ≡ 255 = omega arith in
    mul-doubled a (inv a) h (inv-lt a h nz) nz
    ∙ ap (doubled (log_at a)) (exp_at-doubled (255 - log_at a) (omega arith))
    ∙ sym (doubled-add (log_at a) (255 - log_at a) 1)
    ∙ ap (λ n. doubled n 1) turn
    ∙ full_turn

-- On bytes, `mul` is commutative and associative, goes over exclusive or, has 1 for a unit, stays
-- within a byte, and gives 0 only where a factor is 0.
pub mul_field :
    (a b c : ℕ)
    → a < 256
    → b < 256
    → c < 256
    → (mul a b < 256)
      × (mul a b ≡ mul b a)
      × (mul (mul a b) c ≡ mul a (mul b c))
      × (mul a (bit_xor b c) ≡ bit_xor (mul a b) (mul a c))
      × (mul 1 a ≡ a)
      × ((a ≡ 0) ⊎ ((b ≡ 0) ⊎ (mul a b ≢ 0)))
mul_field a b c h k l = (
  mul-lt a b h k,
  mul_comm a b,
  mul_assoc a b c h k l,
  mul-bit_xor a b c h k l,
  one-mul a h,
  mul_zero_cases a b h k,
)

pub xor_eq_zero : (a b : ℕ) → bit_xor a b ≡ 0 → a ≡ b
xor_eq_zero a b e =
    sym (bit_xor-zero a)
    ∙ ap (bit_xor a) (sym (bit_xor_self b))
    ∙ sym (bit_xor_assoc a b b)
    ∙ ap (λ t. bit_xor t b) e
    ∙ bit_xor_comm 0 b
    ∙ bit_xor-zero b

-- A coefficient of the Cauchy matrix is the inverse of `(k + j) ^ i`: for a data column `i` of `k`
-- and a parity row `j` with `k + j` a byte, their product is 1, and both are bytes other than 0.
pub coef_lem :
    (k j i : ℕ)
    → i < k
    → k + j < 256
    → (mul (bit_xor (k + j) i) (coef k j i) ≡ 1) × (coef k j i < 256) × (coef k j i ≢ 0)
unfolding coef
coef_lem k j i h b =
    let small : bit_xor (k + j) i < 256 = bit_xor_below 8 (k + j) i b (omega arith) in
    let whole : bit_xor (k + j) i % 256 ≡ bit_xor (k + j) i = omega arith in
    let nz : bit_xor (k + j) i ≢ 0 = λ e. absurd (omega (arith, xor_eq_zero (k + j) i e)) in
    rw whole (mul-inv _ small nz, inv-lt _ small nz, inv_ne_zero _ small nz)
