-- ===== src/Fec/Matrix/Cauchy.antt =====
-- The coefficients of crates/protocol/src/fec.rs as a Cauchy matrix, `1 / (p + q)` for two families of
-- bytes that have none in common: one step of its elimination.
use game_streamer_agent.Base.{ℕ, zero, suc, ◌≡◌, ◌≢◌, ◌<◌, sym, ap, ap₂, ◌∙◌, bit_xor, ℕ_discrete}
use game_streamer_agent.Base.Xor.{
  bit_xor_comm, bit_xor_assoc, bit_xor_self, bit_xor-zero, bit_xor_below,
}
use game_streamer_agent.Fec.Field.{mul, inv}
use game_streamer_agent.Fec.Field.Laws.{
  mul_comm, mul_assoc, mul-lt, mul-bit_xor, mul_ne_zero, mul-inv, inv-lt, zero-mul, one-mul,
  xor_eq_zero,
}
use game_streamer_agent.Fec.Matrix.Dot.{AreBytes, dot, dot-lt, bit_xor-mul, exchange}

-- Bytes `p` of rows and `q` of columns, `n` of each, all different.
pub record AreApart (n : ℕ) (p q : ℕ → ℕ) : Type 0 where
  pub p_bytes : AreBytes p
  pub q_bytes : AreBytes q
  pub p_apart : (r s : ℕ) → r < n → s < n → r ≢ s → p r ≢ p s
  pub q_apart : (c d : ℕ) → c < n → d < n → c ≢ d → q c ≢ q d
  pub pq_apart : (r c : ℕ) → p r ≢ q c

-- The difference of two bytes, and its inverse.
abbrev pub gap : ℕ → ℕ → ℕ
gap a b = inv (bit_xor a b)

pub sum_ne_zero : (a b : ℕ) → a ≢ b → bit_xor a b ≢ 0
sum_ne_zero a b ne e = ne (xor_eq_zero a b e)

pub sum-lt : (a b : ℕ) → a < 256 → b < 256 → bit_xor a b < 256
sum-lt a b h k = bit_xor_below 8 a b h k

pub gap-lt : (a b : ℕ) → a < 256 → b < 256 → a ≢ b → gap a b < 256
gap-lt a b h k ne = inv-lt (bit_xor a b) (sum-lt a b h k) (sum_ne_zero a b ne)

mul-gap : (a b : ℕ) → a < 256 → b < 256 → a ≢ b → mul (bit_xor a b) (gap a b) ≡ 1
mul-gap a b h k ne = mul-inv (bit_xor a b) (sum-lt a b h k) (sum_ne_zero a b ne)

-- (a + b) + (b + c) = a + c
through : (a b c : ℕ) → bit_xor (bit_xor a b) (bit_xor b c) ≡ bit_xor a c
through a b c =
    bit_xor_assoc a b (bit_xor b c)
    ∙ ap (bit_xor a) (
        sym (bit_xor_assoc b b c)
        ∙ ap (λ t. bit_xor t c) (bit_xor_self b)
        ∙ bit_xor_comm 0 c
        ∙ bit_xor-zero c)

-- (p + e) / (p + q) = 1 + (q + e) / (p + q)
ratio :
    (p q e : ℕ)
    → p < 256
    → q < 256
    → e < 256
    → p ≢ q
    → mul (bit_xor p e) (gap p q) ≡ bit_xor 1 (mul (bit_xor q e) (gap p q))
ratio p q e hp hq he ne =
    ap (λ t. mul t (gap p q)) (sym (through p q e))
    ∙ bit_xor-mul (bit_xor p q) (bit_xor q e) (gap p q) (sum-lt p q hp hq) (sum-lt q e hq he)
        (gap-lt p q hp hq ne)
    ∙ ap (λ t. bit_xor t (mul (bit_xor q e) (gap p q))) (mul-gap p q hp hq ne)

-- a / (p + q) = 0 only for a = 0
pub divided_zero : (a b : ℕ) → a < 256 → b < 256 → b ≢ 0 → mul a b ≡ 0 → a ≡ 0
divided_zero a b h k ne e = elim (ℕ_discrete a 0) [
  | yes z ↦ z
  | no nz ↦ absurd (mul_ne_zero a b h k nz ne e)
]

-- 1 / (p + q) + 1 / (s + q) = (p + s) / (p + q) / (s + q)
pub gap_sum :
    (p s q : ℕ)
    → p < 256
    → s < 256
    → q < 256
    → p ≢ q
    → s ≢ q
    → bit_xor (gap p q) (gap s q) ≡ mul (bit_xor p s) (mul (gap p q) (gap s q))
gap_sum p s q hp hs hq np ns =
    let gp = gap-lt p q hp hq np in
    let gs = gap-lt s q hs hq ns in
    let back : bit_xor q s ≡ bit_xor s q = bit_xor_comm q s in
    let product = mul-lt (gap p q) (gap s q) gp gs in
    sym (
      ap (λ t. mul t (mul (gap p q) (gap s q)))
        (sym (through p q s) ∙ ap (bit_xor (bit_xor p q)) back)
      ∙ bit_xor-mul (bit_xor p q) (bit_xor s q) (mul (gap p q) (gap s q)) (sum-lt p q hp hq)
          (sum-lt s q hs hq) product
      ∙ ap₂ bit_xor
          (sym (mul_assoc (bit_xor p q) (gap p q) (gap s q) (sum-lt p q hp hq) gp gs)
            ∙ ap (λ t. mul t (gap s q)) (mul-gap p q hp hq np)
            ∙ one-mul (gap s q) gs)
          (ap (mul (bit_xor s q)) (mul_comm (gap p q) (gap s q))
            ∙ sym (mul_assoc (bit_xor s q) (gap s q) (gap p q) (sum-lt s q hs hq) gs gp)
            ∙ ap (λ t. mul t (gap p q)) (mul-gap s q hs hq ns)
            ∙ one-mul (gap p q) gp)
      ∙ bit_xor_comm (gap s q) (gap p q))

reorder :
    (a b g h x : ℕ)
    → a < 256
    → b < 256
    → g < 256
    → h < 256
    → x < 256
    → mul (mul a (mul b (mul g h))) x ≡ mul b (mul g (mul h (mul a x)))
reorder a b g h x ha hb hg hh hx =
    let gh = mul-lt g h hg hh in
    let bgh = mul-lt b (mul g h) hb gh in
    let ax = mul-lt a x ha hx in
    ap (λ t. mul t x) (mul_comm a (mul b (mul g h)))
    ∙ mul_assoc (mul b (mul g h)) a x bgh ha hx
    ∙ mul_assoc b (mul g h) (mul a x) hb gh ax
    ∙ ap (mul b) (mul_assoc g h (mul a x) hg hh ax)

-- A row `p` and a row `s`, each times its distance from `e`, add up in one column.
column :
    (p s q e x : ℕ)
    → p < 256
    → s < 256
    → q < 256
    → e < 256
    → x < 256
    → p ≢ q
    → s ≢ q
    → bit_xor (mul (bit_xor p e) (mul (gap p q) x)) (mul (bit_xor s e) (mul (gap s q) x))
      ≡ mul (bit_xor p s) (mul (gap p q) (mul (gap s q) (mul (bit_xor q e) x)))
column p s q e x hp hs hq he hx np ns =
    let gp = gap-lt p q hp hq np in
    let gs = gap-lt s q hs hq ns in
    let pe = sum-lt p e hp he in
    let se = sum-lt s e hs he in
    let qe = sum-lt q e hq he in
    ap₂ bit_xor (sym (mul_assoc (bit_xor p e) (gap p q) x pe gp hx))
      (sym (mul_assoc (bit_xor s e) (gap s q) x se gs hx))
    ∙ sym (
        bit_xor-mul (mul (bit_xor p e) (gap p q)) (mul (bit_xor s e) (gap s q)) x
          (mul-lt (bit_xor p e) (gap p q) pe gp) (mul-lt (bit_xor s e) (gap s q) se gs) hx)
    ∙ ap (λ t. mul t x)
        (ap₂ bit_xor (ratio p q e hp hq he np) (ratio s q e hs hq he ns)
          ∙ exchange 1 (mul (bit_xor q e) (gap p q)) 1 (mul (bit_xor q e) (gap s q))
          ∙ bit_xor_comm 0 _
          ∙ bit_xor-zero _
          ∙ sym (mul-bit_xor (bit_xor q e) (gap p q) (gap s q) qe gp gs)
          ∙ ap (mul (bit_xor q e)) (gap_sum p s q hp hs hq np ns))
    ∙ reorder (bit_xor q e) (bit_xor p s) (gap p q) (gap s q) x qe (sum-lt p s hp hs) gp gs hx

-- The same over the first columns.
pub columns :
    (n : ℕ) (p s e : ℕ) (q x : ℕ → ℕ)
    → p < 256
    → s < 256
    → e < 256
    → AreBytes q
    → AreBytes x
    → ((c : ℕ) → p ≢ q c)
    → ((c : ℕ) → s ≢ q c)
    → bit_xor
        (mul (bit_xor p e) (dot n (λ c. gap p (q c)) x))
        (mul (bit_xor s e) (dot n (λ c. gap s (q c)) x))
      ≡ mul
          (bit_xor p s)
          (dot n (λ c. gap p (q c)) (λ c. mul (gap s (q c)) (mul (bit_xor (q c) e) (x c))))
unfolding dot
columns zero p s e q x hp hs he hq hx np ns =
    ap₂ bit_xor (mul_comm (bit_xor p e) 0 ∙ zero-mul (bit_xor p e))
      (mul_comm (bit_xor s e) 0 ∙ zero-mul (bit_xor s e))
    ∙ sym (mul_comm (bit_xor p s) 0 ∙ zero-mul (bit_xor p s))
columns (suc n) p s e q x hp hs he hq hx np ns =
    let rp : AreBytes (λ c. gap p (q c)) = λ c. gap-lt p (q c) hp (hq c) (np c) in
    let rs : AreBytes (λ c. gap s (q c)) = λ c. gap-lt s (q c) hs (hq c) (ns c) in
    let v : ℕ → ℕ = λ c. mul (gap s (q c)) (mul (bit_xor (q c) e) (x c)) in
    let hv : AreBytes v =
      λ c. mul-lt (gap s (q c)) _ (rs c) (mul-lt _ (x c) (sum-lt (q c) e (hq c) he) (hx c)) in
    ap₂ bit_xor
      (mul-bit_xor (bit_xor p e) (dot n (λ c. gap p (q c)) x) (mul (gap p (q n)) (x n))
        (sum-lt p e hp he) (dot-lt n _ x rp hx) (mul-lt _ (x n) (rp n) (hx n)))
      (mul-bit_xor (bit_xor s e) (dot n (λ c. gap s (q c)) x) (mul (gap s (q n)) (x n))
        (sum-lt s e hs he) (dot-lt n _ x rs hx) (mul-lt _ (x n) (rs n) (hx n)))
    ∙ exchange (mul (bit_xor p e) (dot n (λ c. gap p (q c)) x))
        (mul (bit_xor p e) (mul (gap p (q n)) (x n)))
        (mul (bit_xor s e) (dot n (λ c. gap s (q c)) x))
        (mul (bit_xor s e) (mul (gap s (q n)) (x n)))
    ∙ ap₂ bit_xor (columns n p s e q x hp hs he hq hx np ns)
        (column p s (q n) e (x n) hp hs (hq n) he (hx n) (np n) (ns n))
    ∙ sym (
        mul-bit_xor (bit_xor p s) (dot n (λ c. gap p (q c)) v) (mul (gap p (q n)) (v n))
          (sum-lt p s hp hs) (dot-lt n _ v rp hv) (mul-lt _ (v n) (rp n) (hv n)))
