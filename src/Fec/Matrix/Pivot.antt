-- ===== src/Fec/Matrix/Pivot.antt =====
-- The search for a pivot of `invert` in crates/protocol/src/fec.rs.
use game_streamer_agent.Base.{
  ℕ, zero, suc, ◌+◌, ◌-◌, ◌≡◌, ◌≢◌, ◌<◌, ◌≤◌, sym, ap, ap₂, ◌∙◌, false, none, some, List, arith,
  ltb, ◌==◌, if◌then◌else◌, bit_xor, inl, inr, ℕ_discrete, Bool-cases,
}
use game_streamer_agent.Base.Xor.{bit_xor_self, bit_xor-zero}
use game_streamer_agent.Fec.Code.{Bytes, entry, find_pivot}
use game_streamer_agent.Fec.Field.{mul}
use game_streamer_agent.Fec.Field.Laws.{mul_comm, zero-mul, one-mul}
use game_streamer_agent.Fec.Matrix.Dot.{AreBytes, dot, dot_cong, dot-unit_at, before_unit, unit_at}
use game_streamer_agent.Fec.Matrix.Shape.{IsMatrix}
use game_streamer_agent.Fec.Matrix.Elimination.{IsReduced}
use game_streamer_agent.Fec.Matrix.Kernel.{Kills, HasNoKernel}

found_ne :
    (a : List Bytes) (col r p : ℕ) → r ≡ p → entry a p col ≡ 0 → (entry a r col == 0) ≡ false → ⊥
found_ne a col r p same z e =
    let at : entry a r col ≡ 0 = ap (λ t. entry a t col) same ∙ z in ground arith

pub find_pivot-some :
    (a : List Bytes) (col r fuel p : ℕ)
    → find_pivot a col r fuel ≡ some p
    → (r ≤ p) × (p < r + fuel) × (entry a p col ≢ 0)
unfolding find_pivot
find_pivot-some a col r zero p e = absurd (ground arith)
find_pivot-some a col r (suc fuel) p e = elim (Bool-cases (entry a r col == 0)) [
  | inl z ↦
      let (low, high, nz) = find_pivot-some a col (suc r) fuel p (rw z at e) in
      (omega arith, omega arith, nz)
  | inr z ↦
      let here : some r ≡ some p = rw z at e in
      let same : r ≡ p = ground arith in
      (omega arith, omega arith, λ zero_at. absurd (found_ne a col r p same zero_at z))
]

pub find_pivot-none :
    (a : List Bytes) (col r fuel i : ℕ)
    → find_pivot a col r fuel ≡ none
    → r ≤ i
    → i < r + fuel
    → entry a i col ≡ 0
unfolding find_pivot
find_pivot-none a col r zero i e low high = absurd (omega arith)
find_pivot-none a col r (suc fuel) i e low high = elim (Bool-cases (entry a r col == 0)) [
  | inl z ↦ elim (ℕ_discrete r i) [
    | yes same ↦ ap (λ t. entry a t col) (sym same) ∙ ground arith
    | no ne ↦ find_pivot-none a col (suc r) fuel i (rw z at e) (omega arith) (omega arith)
  ]
  | inr z ↦ let here : some r ≡ none = rw z at e in absurd (ground arith)
]

-- The vector that a matrix with its first columns reduced takes to 0, if the next column is 0 from
-- the diagonal down.
abbrev kernel_at : List Bytes → ℕ → ℕ → ℕ
kernel_at a col c = if c == col then 1 else if ltb c col then entry a c col else 0

module _ (n : ℕ) (a : List Bytes) (col : ℕ) (small : col < n) (h : IsMatrix n a) where
  kernel_at-AreBytes : AreBytes (kernel_at a col)
  kernel_at-AreBytes c = elim (ℕ_discrete c col) [
    | yes e ↦ let on : kernel_at a col c ≡ 1 = ground arith in omega arith
    | no ne ↦ elim (Bool-cases (ltb c col)) [
      | inl low ↦
          let b = h.bytes c (ground arith) col in
          let at : kernel_at a col c ≡ entry a c col = ground arith in omega arith
      | inr high ↦ let at : kernel_at a col c ≡ 0 = ground arith in omega arith
    ]
  ]

  -- Only the columns up to `col` count.
  dot_low :
      (k : ℕ) (f : ℕ → ℕ)
      → dot (suc col + k) f (kernel_at a col) ≡ dot (suc col) f (kernel_at a col)
  unfolding dot
  dot_low zero f =
      let whole : suc col + 0 ≡ suc col = omega arith in ap (λ t. dot t f (kernel_at a col)) whole
  dot_low (suc k) f =
      let next : suc col + suc k ≡ suc (suc col + k) = omega arith in
      let off : kernel_at a col (suc col + k) ≡ 0 = ground arith in
      ap (λ t. dot t f (kernel_at a col)) next
      ∙ ap₂ bit_xor (dot_low k f) (
          ap (mul (f (suc col + k))) off
          ∙ mul_comm (f (suc col + k)) 0
          ∙ zero-mul (f (suc col + k)))
      ∙ bit_xor-zero (dot (suc col) f (kernel_at a col))

  reduced_part :
      IsReduced n col a
      → (r : ℕ) → r < n
      → dot col (entry a r) (kernel_at a col) ≡ dot col (unit_at r) (kernel_at a col)
  reduced_part red r hr =
      dot_cong col (entry a r) (unit_at r) (kernel_at a col) (λ c hc. red r c hr hc)

  kernel_at-Kills :
      IsReduced n col a
      → ((r : ℕ) → col ≤ r → r < n → entry a r col ≡ 0)
      → Kills n a (kernel_at a col)
  unfolding dot
  kernel_at-Kills red below r hr =
      let whole : suc col + (n - suc col) ≡ n = omega arith in
      let on : kernel_at a col col ≡ 1 = ground arith in
      let last : mul (entry a r col) (kernel_at a col col) ≡ entry a r col =
        ap (mul (entry a r col)) on
        ∙ mul_comm (entry a r col) 1
        ∙ one-mul (entry a r col) (h.bytes r hr col) in
      let split : dot n (entry a r) (kernel_at a col)
          ≡ bit_xor (dot col (unit_at r) (kernel_at a col)) (entry a r col) =
        ap (λ t. dot t (entry a r) (kernel_at a col)) (sym whole)
        ∙ dot_low (n - suc col) (entry a r)
        ∙ ap₂ bit_xor (reduced_part red r hr) last in
      split ∙ elim (Bool-cases (ltb r col)) [
        | inl low ↦
            let at : kernel_at a col r ≡ entry a r col = ground arith in
            ap (λ t. bit_xor t (entry a r col))
              (dot-unit_at col r (kernel_at a col) (ground arith) kernel_at-AreBytes ∙ at)
            ∙ bit_xor_self (entry a r col)
        | inr high ↦
            ap₂ bit_xor (before_unit col r (kernel_at a col) (ground arith))
              (below r (ground arith) hr)
            ∙ bit_xor-zero 0
      ]

  -- A matrix without a kernel has a pivot in the next column.
  pub pivot_there : IsReduced n col a → HasNoKernel n a → find_pivot a col col (n - col) ≢ none
  pivot_there red free e =
      let zero_there =
        free (kernel_at a col) kernel_at-AreBytes
          (kernel_at-Kills red
            (λ r low high. find_pivot-none a col col (n - col) r e low (omega arith)))
          col small in
      let on : kernel_at a col col ≡ 1 = ground arith in absurd (omega arith)
