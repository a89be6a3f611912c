-- ===== src/Fec/Matrix/Dot.antt =====
-- A row of a matrix of crates/protocol/src/fec.rs applied to a vector: the sum, by exclusive or, of
-- the products.
use game_streamer_agent.Base.{
  ℕ, zero, suc, ◌≡◌, ◌<◌, ◌≤◌, refl, sym, ap, ap₂, ◌∙◌, arith, ◌==◌, if◌then◌else◌, bit_xor,
  ℕ_discrete,
}
use game_streamer_agent.Base.Xor.{bit_xor_comm, bit_xor_assoc, bit_xor-zero, bit_xor_below}
use game_streamer_agent.Fec.Field.{mul}
use game_streamer_agent.Fec.Field.Laws.{mul_comm, mul_assoc, mul-lt, mul-bit_xor, zero-mul, one-mul}

-- A byte at every place.
abbrev pub AreBytes : (ℕ → ℕ) → Type 0
AreBytes f = (c : ℕ) → f c < 256

unfoldable pub dot : ℕ → (ℕ → ℕ) → (ℕ → ℕ) → ℕ
dot zero f x = 0
dot (suc n) f x = bit_xor (dot n f x) (mul (f n) (x n))

pub dot-lt : (n : ℕ) (f x : ℕ → ℕ) → AreBytes f → AreBytes x → dot n f x < 256
unfolding dot
dot-lt zero f x hf hx = omega arith
dot-lt (suc n) f x hf hx =
    bit_xor_below 8 _ _ (dot-lt n f x hf hx) (mul-lt (f n) (x n) (hf n) (hx n))

-- Rows that agree where they are read have one product.
pub dot_cong : (n : ℕ) (f g x : ℕ → ℕ) → ((c : ℕ) → c < n → f c ≡ g c) → dot n f x ≡ dot n g x
unfolding dot
dot_cong zero f g x h = refl
dot_cong (suc n) f g x h =
    ap₂ bit_xor (dot_cong n f g x (λ c k. h c (omega arith)))
      (ap (λ t. mul t (x n)) (h n (omega arith)))

-- (a + b) + (c + d) = (a + c) + (b + d)
pub exchange :
    (a b c d : ℕ) → bit_xor (bit_xor a b) (bit_xor c d) ≡ bit_xor (bit_xor a c) (bit_xor b d)
exchange a b c d =
    bit_xor_assoc a b (bit_xor c d)
    ∙ ap (bit_xor a)
        (sym (bit_xor_assoc b c d) ∙ ap (λ t. bit_xor t d) (bit_xor_comm b c) ∙ bit_xor_assoc c b d)
    ∙ sym (bit_xor_assoc a c (bit_xor b d))

pub bit_xor-mul :
    (a b c : ℕ) → a < 256 → b < 256 → c < 256 → mul (bit_xor a b) c ≡ bit_xor (mul a c) (mul b c)
bit_xor-mul a b c h k l =
    mul_comm (bit_xor a b) c ∙ mul-bit_xor c a b l h k ∙ ap₂ bit_xor (mul_comm c a) (mul_comm c b)

-- A multiple of another row added.
pub dot-added :
    (n k : ℕ) (f g x : ℕ → ℕ)
    → k < 256
    → AreBytes f
    → AreBytes g
    → AreBytes x
    → dot n (λ c. bit_xor (f c) (mul k (g c))) x ≡ bit_xor (dot n f x) (mul k (dot n g x))
unfolding dot
dot-added zero k f g x hk hf hg hx = sym (ap (bit_xor 0) (mul_comm k 0 ∙ zero-mul k))
dot-added (suc n) k f g x hk hf hg hx =
    let kg = mul-lt k (g n) hk (hg n) in
    let gx = mul-lt (g n) (x n) (hg n) (hx n) in
    ap₂ bit_xor (dot-added n k f g x hk hf hg hx) (
      bit_xor-mul (f n) (mul k (g n)) (x n) (hf n) kg (hx n)
      ∙ ap (bit_xor (mul (f n) (x n))) (mul_assoc k (g n) (x n) hk (hg n) (hx n)))
    ∙ exchange (dot n f x) (mul k (dot n g x)) (mul (f n) (x n)) (mul k (mul (g n) (x n)))
    ∙ ap (bit_xor (bit_xor (dot n f x) (mul (f n) (x n))))
        (sym (mul-bit_xor k (dot n g x) (mul (g n) (x n)) hk (dot-lt n g x hg hx) gx))

-- A row scaled.
pub dot-scaled :
    (n k : ℕ) (f x : ℕ → ℕ)
    → k < 256
    → AreBytes f
    → AreBytes x
    → dot n (λ c. mul (f c) k) x ≡ mul k (dot n f x)
unfolding dot
dot-scaled zero k f x hk hf hx = sym (mul_comm k 0 ∙ zero-mul k)
dot-scaled (suc n) k f x hk hf hx =
    ap₂ bit_xor (dot-scaled n k f x hk hf hx)
      (ap (λ t. mul t (x n)) (mul_comm (f n) k) ∙ mul_assoc k (f n) (x n) hk (hf n) (hx n))
    ∙ sym (
        mul-bit_xor k (dot n f x) (mul (f n) (x n)) hk (dot-lt n f x hf hx)
          (mul-lt (f n) (x n) (hf n) (hx n)))

abbrev pub unit_at : ℕ → ℕ → ℕ
unit_at r c = if r == c then 1 else 0

-- A row of the identity reads one place.
pub before_unit : (n r : ℕ) (x : ℕ → ℕ) → n ≤ r → dot n (unit_at r) x ≡ 0
unfolding dot
before_unit zero r x h = refl
before_unit (suc n) r x h =
    let off : unit_at r n ≡ 0 = ground arith in
    ap₂ bit_xor (before_unit n r x (omega arith)) (ap (λ t. mul t (x n)) off ∙ zero-mul (x n))

pub dot-unit_at : (n r : ℕ) (x : ℕ → ℕ) → r < n → AreBytes x → dot n (unit_at r) x ≡ x r
unfolding dot
dot-unit_at zero r x h hx = absurd (omega arith)
dot-unit_at (suc n) r x h hx = elim (ℕ_discrete r n) [
  | yes e ↦
      let on : unit_at r n ≡ 1 = ground arith in
      ap₂ bit_xor (before_unit n r x (omega arith))
        (ap (λ t. mul t (x n)) on ∙ one-mul (x n) (hx n) ∙ ap x (sym e))
      ∙ bit_xor_comm 0 (x r)
      ∙ bit_xor-zero (x r)
  | no ne ↦
      let off : unit_at r n ≡ 0 = ground arith in
      ap₂ bit_xor (dot-unit_at n r x (omega arith) hx) (ap (λ t. mul t (x n)) off ∙ zero-mul (x n))
      ∙ bit_xor-zero (x r)
]

-- A vector of zeros, as far as it is read.
pub dot_zeros : (n : ℕ) (f x : ℕ → ℕ) → ((c : ℕ) → c < n → x c ≡ 0) → dot n f x ≡ 0
unfolding dot
dot_zeros zero f x h = refl
dot_zeros (suc n) f x h =
    ap₂ bit_xor (dot_zeros n f x (λ c k. h c (omega arith)))
      (ap (mul (f n)) (h n (omega arith)) ∙ mul_comm (f n) 0 ∙ zero-mul (f n))
    ∙ bit_xor-zero 0
