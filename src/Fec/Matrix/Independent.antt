-- ===== src/Fec/Matrix/Independent.antt =====
-- The vectors that a Cauchy matrix of crates/protocol/src/fec.rs takes to 0.
use game_streamer_agent.Base.{
  ℕ, zero, suc, ◌≡◌, ◌≢◌, ◌<◌, sym, ap, ap₂, ◌∙◌, arith, bit_xor, ℕ_discrete,
}
use game_streamer_agent.Base.Xor.{bit_xor_self, bit_xor-zero, bit_xor_comm}
use game_streamer_agent.Fec.Field.{mul}
use game_streamer_agent.Fec.Field.Laws.{mul_comm, mul-lt, zero-mul, inv_ne_zero}
use game_streamer_agent.Fec.Matrix.Dot.{AreBytes, dot, dot-lt, dot_zeros}
use game_streamer_agent.Fec.Matrix.Cauchy.{
  AreApart, gap, gap-lt, columns, sum_ne_zero, sum-lt, divided_zero,
}

fewer : (n : ℕ) (p q : ℕ → ℕ) → AreApart (suc n) p q → AreApart n p q
fewer n p q h = record {
  p_bytes = h.p_bytes;
  q_bytes = h.q_bytes;
  p_apart = λ r s hr hs. h.p_apart r s (omega arith) (omega arith);
  q_apart = λ c d hc hd. h.q_apart c d (omega arith) (omega arith);
  pq_apart = h.pq_apart;
}

times_zero : (a b : ℕ) → a < 256 → b < 256 → a ≢ 0 → mul a b ≡ 0 → b ≡ 0
times_zero a b h k ne e = divided_zero b a k h ne (mul_comm b a ∙ e)

gap_ne_zero : (a b : ℕ) → a < 256 → b < 256 → a ≢ b → gap a b ≢ 0
gap_ne_zero a b h k ne = inv_ne_zero (bit_xor a b) (sum-lt a b h k) (sum_ne_zero a b ne)

module _ (n : ℕ) (p q x : ℕ → ℕ) (apart : AreApart (suc n) p q) (hx : AreBytes x) where
  -- The vector that is left when the last row and column are eliminated.
  abbrev rest : ℕ → ℕ
  rest c = mul (gap (p n) (q c)) (mul (bit_xor (q c) (q n)) (x c))

  rest-AreBytes : AreBytes rest
  rest-AreBytes c =
      mul-lt (gap (p n) (q c)) _
        (gap-lt (p n) (q c) (apart.p_bytes n) (apart.q_bytes c) (apart.pq_apart n c))
        (mul-lt _ (x c) (sum-lt (q c) (q n) (apart.q_bytes c) (apart.q_bytes n)) (hx c))

  rest_last : rest n ≡ 0
  rest_last =
      ap (mul (gap (p n) (q n))) (ap (λ t. mul t (x n)) (bit_xor_self (q n)) ∙ zero-mul (x n))
      ∙ mul_comm (gap (p n) (q n)) 0
      ∙ zero-mul (gap (p n) (q n))

  rest_killed :
      ((r : ℕ) → r < suc n → dot (suc n) (λ c. gap (p r) (q c)) x ≡ 0)
      → (r : ℕ) → r < n
      → dot n (λ c. gap (p r) (q c)) rest ≡ 0
  unfolding dot
  rest_killed z r hr =
      let ne : p r ≢ p n =
        apart.p_apart r n (omega arith) (omega arith) (λ e. absurd (omega arith)) in
      let bp = apart.p_bytes r in
      let bs = apart.p_bytes n in
      let be = apart.q_bytes n in
      let row : AreBytes (λ c. gap (p r) (q c)) =
        λ c. gap-lt (p r) (q c) bp (apart.q_bytes c) (apart.pq_apart r c) in
      let both =
        sym (
          columns (suc n) (p r) (p n) (q n) q x bp bs be apart.q_bytes hx (apart.pq_apart r)
            (apart.pq_apart n))
        ∙ ap₂ bit_xor
            (ap (mul (bit_xor (p r) (q n))) (z r (omega arith))
              ∙ mul_comm (bit_xor (p r) (q n)) 0
              ∙ zero-mul (bit_xor (p r) (q n)))
            (ap (mul (bit_xor (p n) (q n))) (z n (omega arith))
              ∙ mul_comm (bit_xor (p n) (q n)) 0
              ∙ zero-mul (bit_xor (p n) (q n)))
        ∙ bit_xor-zero 0 in
      let whole =
        times_zero (bit_xor (p r) (p n)) (dot (suc n) (λ c. gap (p r) (q c)) rest)
          (sum-lt (p r) (p n) bp bs) (dot-lt (suc n) (λ c. gap (p r) (q c)) rest row rest-AreBytes)
          (sum_ne_zero (p r) (p n) ne) both in
      sym (bit_xor-zero (dot n (λ c. gap (p r) (q c)) rest))
      ∙ ap (bit_xor (dot n (λ c. gap (p r) (q c)) rest)) (
          sym (
            ap (mul (gap (p r) (q n))) rest_last
            ∙ mul_comm (gap (p r) (q n)) 0
            ∙ zero-mul (gap (p r) (q n))))
      ∙ whole

  from_rest : (c : ℕ) → c < n → rest c ≡ 0 → x c ≡ 0
  from_rest c hc e =
      let ne : q c ≢ q n =
        apart.q_apart c n (omega arith) (omega arith) (λ e. absurd (omega arith)) in
      let bq = apart.q_bytes c in
      let sum = sum-lt (q c) (q n) bq (apart.q_bytes n) in
      times_zero (bit_xor (q c) (q n)) (x c) sum (hx c) (sum_ne_zero (q c) (q n) ne) (
        times_zero (gap (p n) (q c)) (mul (bit_xor (q c) (q n)) (x c))
          (gap-lt (p n) (q c) (apart.p_bytes n) bq (apart.pq_apart n c)) (mul-lt _ (x c) sum (hx c))
          (gap_ne_zero (p n) (q c) (apart.p_bytes n) bq (apart.pq_apart n c)) e)

  last_zero : dot (suc n) (λ c. gap (p n) (q c)) x ≡ 0 → ((c : ℕ) → c < n → x c ≡ 0) → x n ≡ 0
  unfolding dot
  last_zero z before =
      let bp = apart.p_bytes n in
      let bq = apart.q_bytes n in
      let none_before = dot_zeros n (λ c. gap (p n) (q c)) x before in
      times_zero (gap (p n) (q n)) (x n) (gap-lt (p n) (q n) bp bq (apart.pq_apart n n)) (hx n)
        (gap_ne_zero (p n) (q n) bp bq (apart.pq_apart n n))
        (sym (bit_xor-zero (mul (gap (p n) (q n)) (x n)))
          ∙ bit_xor_comm (mul (gap (p n) (q n)) (x n)) 0
          ∙ ap (λ t. bit_xor t (mul (gap (p n) (q n)) (x n))) (sym none_before)
          ∙ z)

-- Where `n` rows and `n` columns are all apart, only 0 is taken to 0.
pub gaps_independent :
    (n : ℕ) (p q x : ℕ → ℕ)
    → AreApart n p q
    → AreBytes x
    → ((r : ℕ) → r < n → dot n (λ c. gap (p r) (q c)) x ≡ 0)
    → (c : ℕ) → c < n
    → x c ≡ 0
gaps_independent zero p q x apart hx z c hc = absurd (omega arith)
gaps_independent (suc n) p q x apart hx z c hc =
    let before : (c : ℕ) → c < n → x c ≡ 0 = λ c hc. from_rest n p q x apart hx c hc (
      gaps_independent n p q (rest n p q x apart hx) (fewer n p q apart)
        (rest-AreBytes n p q x apart hx) (rest_killed n p q x apart hx z) c hc) in
    elim (ℕ_discrete c n) [
      | yes e ↦ ap x e ∙ last_zero n p q x apart hx (z n (omega arith)) before
      | no ne ↦ before c (omega arith)
    ]
