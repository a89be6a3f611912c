-- ===== src/Fec/Matrix/Inverse.antt =====
-- `invert` of crates/protocol/src/fec.rs.
use game_streamer_agent.Base.{
  ℕ, zero, suc, ◌+◌, ◌-◌, ◌≡◌, ◌≢◌, ◌<◌, ◌≤◌, refl, sym, ap, ap₂, ◌∙◌, some, List, [], ◌∷◌, map,
  arith, bit_xor, length, get_or, Option-cases, Bool-cases, inl, inr, length-map, ltb,
  if◌then◌else◌, ◌==◌,
}
use game_streamer_agent.Base.Xor.{bit_xor-zero}
use game_streamer_agent.Fec.Code.{
  Bytes, range, entry, identity, find_pivot, swap_rows, reduce_column, invert_from, invert,
}
use game_streamer_agent.Fec.Code.Shape.{length-range}
use game_streamer_agent.Fec.Field.{inv}
use game_streamer_agent.Fec.Field.Laws.{inv-lt, inv_ne_zero, mul_comm, zero-mul}
use game_streamer_agent.Fec.Matrix.Dot.{AreBytes, dot, dot_cong, dot-unit_at, unit_at}
use game_streamer_agent.Fec.Matrix.Shape.{IsMatrix, swap_rows-IsMatrix, scaled-IsMatrix}
use game_streamer_agent.Fec.Matrix.Elimination.{IsReduced, scale_row, Tied}
use game_streamer_agent.Fec.Matrix.Reduction.{Stands, reduce_column-Stands, entry-pivot}
use game_streamer_agent.Fec.Matrix.Kernel.{
  HasNoKernel, swap_rows-Kills, scale_row-Kills, clear_column-Kills,
}
use game_streamer_agent.Fec.Matrix.Pivot.{find_pivot-some, pivot_there}

invert_from_step :
    (n col rounds pivot : ℕ) (a m : List Bytes)
    → find_pivot a col col (n - col) ≡ some pivot
    → invert_from n col (suc rounds) a m
      ≡ invert_from n
          (suc col)
          rounds
          (reduce_column col pivot a m).0
          (reduce_column col pivot a m).1
unfolding invert_from
invert_from_step n col rounds pivot a m found = rw (found, invert_from)

module _ (n : ℕ) where
  reduce_column-HasNoKernel :
      (a m : List Bytes) (col pivot : ℕ)
      → col ≤ pivot
      → pivot < n
      → entry a pivot col ≢ 0
      → IsMatrix n a
      → HasNoKernel n a
      → HasNoKernel n (reduce_column col pivot a m).0
  unfolding reduce_column
  reduce_column-HasNoKernel a m col pivot low high nz h free x hx z c hc =
      let small : col < n = omega arith in
      let a1 = swap_rows a col pivot in
      let h1 = swap_rows-IsMatrix n a col pivot small high h in
      let nz1 : entry a1 col col ≢ 0 = λ e. nz (sym (entry-pivot n a col pivot small high h) ∙ e) in
      let k = inv (entry a1 col col) in
      let hk = inv-lt (entry a1 col col) (h1.bytes col small col) nz1 in
      let a2 = scale_row col k a1 in
      let h2 = scaled-IsMatrix n a1 col k small hk h1 in
      let z2 = clear_column-Kills n a2 col x small hx h2 z in
      let z1 =
        scale_row-Kills n a1 col k x small hk
          (inv_ne_zero (entry a1 col col) (h1.bytes col small col) nz1) hx h1 z2 in
      free x hx (swap_rows-Kills n a col pivot x small high h z1) c hc

  dot-no_vector : (k : ℕ) (f : ℕ → ℕ) → dot k f (λ c. 0) ≡ 0
  unfolding dot
  dot-no_vector zero f = refl
  dot-no_vector (suc k) f =
      ap₂ bit_xor (dot-no_vector k f) (mul_comm (f k) 0 ∙ zero-mul (f k)) ∙ bit_xor-zero 0

  -- `out` undoes what ties `a` to `m`.
  abbrev Undoes : List Bytes → List Bytes → List Bytes → Type 0
  Undoes a m out =
      (x y : ℕ → ℕ)
      → AreBytes x
      → AreBytes y
      → Tied n x y a m
      → (r : ℕ) → r < n
      → dot n (entry out r) y ≡ x r

  -- Elimination from a column to the end.
  invert_from-Undoes :
      (rounds col : ℕ) (a m : List Bytes)
      → col + rounds ≡ n
      → IsMatrix n a
      → IsMatrix n m
      → IsReduced n col a
      → HasNoKernel n a
      → (out : List Bytes) × (invert_from n col rounds a m ≡ some out)
        × IsMatrix n out
        × Undoes a m out
  unfolding invert_from
  invert_from-Undoes zero col a m e h k red free = (
    m,
    refl,
    k,
    λ x y hx hy t r hr.
        sym (t r hr)
        ∙ dot_cong n (entry a r) (unit_at r) x (λ c hc. red r c hr (omega arith))
        ∙ dot-unit_at n r x hr hx,
  )
  invert_from-Undoes (suc rounds) col a m e h k red free =
      let small : col < n = omega arith in
      elim (Option-cases (find_pivot a col col (n - col))) [
        | inl nothing ↦ absurd (pivot_there n a col small h red free nothing)
        | inr (pivot, found) ↦
            let (low, high', nz) = find_pivot-some a col col (n - col) pivot found in
            let high : pivot < n = omega arith in
            let a' = (reduce_column col pivot a m).0 in
            let m' = (reduce_column col pivot a m).1 in
            let stands : (x y : ℕ → ℕ)
                → AreBytes x
                → AreBytes y
                → Tied n x y a m
                → Stands n x y (suc col) a' m' =
              λ x y hx hy t.
                reduce_column-Stands n x y col pivot a m hx hy low high nz
                  (record { left = h; right = k; tied = t; reduced = red }) in
            let still =
              stands (λ c. 0) (λ c. 0) (λ c. omega arith) (λ c. omega arith)
                (λ r hr. dot-no_vector n (entry a r) ∙ sym (dot-no_vector n (entry m r))) in
            let (out, comes, shape, undoes) =
              invert_from-Undoes rounds (suc col) a' m' (omega arith) still.left still.right
                still.reduced (reduce_column-HasNoKernel a m col pivot low high nz h free) in
            (
              out,
              invert_from_step n col rounds pivot a m found ∙ comes,
              shape,
              λ x y hx hy t. undoes x y hx hy (stands x y hx hy t).tied,
            )
      ]

pub get_or-range :
    {A : Type 0} (f : ℕ → A) (s k i : ℕ) (d : A)
    → i < k
    → get_or (map f (range s k)) i d ≡ f (s + i)
get_or-range f s zero i d h = absurd (omega arith)
get_or-range f s (suc k) zero d h = let whole : s ≡ s + 0 = omega arith in ap f whole
get_or-range f s (suc k) (suc i) d h =
    let next : suc s + i ≡ s + suc i = omega arith in
    get_or-range f (suc s) k i d (omega arith) ∙ ap f next

identity_row :
    (n r : ℕ) → r < n → get_or (identity n) r [] ≡ map (λ j. if r == j then 1 else 0) (range 0 n)
unfolding identity
identity_row n r hr =
    let whole : 0 + r ≡ r = omega arith in
    get_or-range (λ i. map (λ j. if i == j then 1 else 0) (range 0 n)) 0 n r [] hr
    ∙ ap (λ i. map (λ j. if i == j then 1 else 0) (range 0 n)) whole

entry-identity : (n r c : ℕ) → r < n → c < n → entry (identity n) r c ≡ unit_at r c
entry-identity n r c hr hc =
    let whole : 0 + c ≡ c = omega arith in
    ap (λ row. get_or row c 0) (identity_row n r hr)
    ∙ get_or-range (λ j. if r == j then 1 else 0) 0 n c 0 hc
    ∙ ap (unit_at r) whole

pub get_or-outside : {A : Type 0} (xs : List A) (i : ℕ) (d : A) → length xs ≤ i → get_or xs i d ≡ d
get_or-outside [] i d h = refl
get_or-outside (x ∷ xs) zero d h = absurd (omega arith)
get_or-outside (x ∷ xs) (suc i) d h = get_or-outside xs i d (omega arith)

identity-IsMatrix : (n : ℕ) → IsMatrix n (identity n)
unfolding identity
identity-IsMatrix n = record {
  rows = length-map (range 0 n) _ ∙ length-range 0 n;
  wide = λ r hr. ap length (identity_row n r hr) ∙ length-map (range 0 n) _ ∙ length-range 0 n;
  bytes = λ r hr c. elim (Bool-cases (ltb c n)) [
    | inl low ↦
        let at = entry-identity n r c hr (ground arith) in
        let bit : unit_at r c < 256 = ground arith in omega arith
    | inr high ↦
        let long : length (get_or (identity n) r []) ≤ c =
          let past : n ≤ c = ground arith in
          let wide =
            ap length (identity_row n r hr) ∙ length-map (range 0 n) _ ∙ length-range 0 n in
          omega arith in
        let at = get_or-outside (get_or (identity n) r []) c 0 long in omega arith
  ];
}

-- A square matrix of bytes that takes no vector but 0 to 0 is inverted: the elimination finds every
-- pivot, and the matrix that comes out gives back each vector from what the first makes of it.
pub invert-gives :
    (n : ℕ) (a : List Bytes)
    → IsMatrix n a
    → HasNoKernel n a
    → (out : List Bytes) × (invert a ≡ some out)
      × IsMatrix n out
      × ((x y : ℕ → ℕ)
          → AreBytes x
          → AreBytes y
          → ((r : ℕ) → r < n → dot n (entry a r) x ≡ y r)
          → (r : ℕ) → r < n
          → dot n (entry out r) y ≡ x r)
unfolding invert
invert-gives n a h free =
    let (out, comes, shape, undoes) =
      invert_from-Undoes n n 0 a (identity n) (omega arith) h (identity-IsMatrix n)
        (λ r c hr hc. absurd (omega arith)) free in
    (
      out,
      rw (h.rows) comes,
      shape,
      λ x y hx hy makes. undoes x y hx hy (λ r hr.
          makes r hr
          ∙ sym (
              dot_cong n (entry (identity n) r) (unit_at r) y (λ c hc. entry-identity n r c hr hc)
              ∙ dot-unit_at n r y hr hy)),
    )
