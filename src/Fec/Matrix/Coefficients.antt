-- ===== src/Fec/Matrix/Coefficients.antt =====
-- The matrix that `reconstruct_data` of crates/protocol/src/fec.rs solves with: a coefficient for each
-- parity row and each missing data shard.
use game_streamer_agent.Base.{
  ℕ, zero, suc, ◌+◌, ◌%◌, ◌≡◌, ◌≢◌, ◌<◌, ◌≤◌, inl, inr, refl, sym, ap, ◌∙◌, some, List, [], ◌∷◌,
  map, arith, bit_xor, length, get_or, length-map, ltb, Bool-cases,
}
use game_streamer_agent.Base.Xor.{bit_xor_below}
use game_streamer_agent.Fec.Code.{Bytes, entry, invert}
use game_streamer_agent.Fec.Field.{coef}
use game_streamer_agent.Fec.Field.Laws.{coef_lem}
use game_streamer_agent.Fec.Matrix.Dot.{AreBytes, dot, dot_cong}
use game_streamer_agent.Fec.Matrix.Shape.{IsMatrix}
use game_streamer_agent.Fec.Matrix.Inverse.{invert-gives, get_or-outside}
use game_streamer_agent.Fec.Matrix.Cauchy.{AreApart, gap}
use game_streamer_agent.Fec.Matrix.Independent.{gaps_independent}

-- Numbers that rise, from the first bound up to below the second.
abbrev pub IsRising : ℕ → List ℕ → ℕ → Type 0
IsRising low [] high = Unit
IsRising low (j ∷ js) high = (low ≤ j) × ((j < high) × IsRising (suc j) js high)

pub rising-lt :
    (low : ℕ) (js : List ℕ) (high i : ℕ)
    → IsRising low js high
    → i < length js
    → (low ≤ get_or js i 0) × (get_or js i 0 < high)
rising-lt low [] high i h k = absurd (omega arith)
rising-lt low (j ∷ js) high zero (lo, (hi, rest)) k = (lo, hi)
rising-lt low (j ∷ js) high (suc i) (lo, (hi, rest)) k =
    let (lo', hi') = rising-lt (suc j) js high i rest (omega arith) in (omega arith, hi')

rising_mono :
    (low : ℕ) (js : List ℕ) (high i i' : ℕ)
    → IsRising low js high
    → i < i'
    → i' < length js
    → get_or js i 0 < get_or js i' 0
rising_mono low [] high i i' h less k = absurd (omega arith)
rising_mono low (j ∷ js) high zero zero h less k = absurd (omega arith)
rising_mono low (j ∷ js) high zero (suc i') (lo, (hi, rest)) less k =
    let (lo', hi') = rising-lt (suc j) js high i' rest (omega arith) in omega arith
rising_mono low (j ∷ js) high (suc i) zero h less k = absurd (omega arith)
rising_mono low (j ∷ js) high (suc i) (suc i') (lo, (hi, rest)) less k =
    rising_mono (suc j) js high i i' rest (omega arith) (omega arith)

rising_apart :
    (low : ℕ) (js : List ℕ) (high i i' : ℕ)
    → IsRising low js high
    → i < length js
    → i' < length js
    → i ≢ i'
    → get_or js i 0 ≢ get_or js i' 0
rising_apart low js high i i' h k k' ne e = elim (Bool-cases (ltb i i')) [
  | inl less ↦ let m = rising_mono low js high i i' h (ground arith) k' in absurd (omega arith)
  | inr more ↦
      let other : i' < i = ground arith in
      let m = rising_mono low js high i' i h other k in absurd (omega arith)
]

-- Also past the end, where 0 is read.
pub rising_small : (js : List ℕ) (high i : ℕ) → 0 < high → IsRising 0 js high → get_or js i 0 < high
rising_small js high i pos h = elim (Bool-cases (ltb i (length js))) [
  | inl less ↦ (rising-lt 0 js high i h (ground arith)).1
  | inr more ↦
      let past : length js ≤ i = ground arith in let at = get_or-outside js i 0 past in omega arith
]

pub get_or-map_in :
    {A B : Type 0} (f : A → B) (xs : List A) (i : ℕ) (a : A) (b : B)
    → i < length xs
    → get_or (map f xs) i b ≡ f (get_or xs i a)
get_or-map_in f [] i a b h = absurd (omega arith)
get_or-map_in f (x ∷ xs) zero a b h = refl
get_or-map_in f (x ∷ xs) (suc i) a b h = get_or-map_in f xs i a b (omega arith)

abbrev pub coefficients : ℕ → List ℕ → List ℕ → List Bytes
coefficients k missing rows = map (λ j. map (λ i. coef k j i) missing) rows

module _ (k n : ℕ) (missing rows : List ℕ) (count : length missing ≡ n) (same : length rows ≡ n)
    (pos : 0 < k) (low : IsRising 0 missing k) (bound : ℕ) (fits : k + bound ≤ 256)
    (some_row : 0 < bound) (high : IsRising 0 rows bound) where
  abbrev row_at : ℕ → ℕ
  row_at r = k + get_or rows r 0

  abbrev column_at : ℕ → ℕ
  column_at c = get_or missing c 0

  indices_apart : AreApart n row_at column_at
  indices_apart = record {
    p_bytes = λ r. let b = rising_small rows bound r some_row high in omega arith;
    q_bytes = λ c. let b = rising_small missing k c pos low in omega arith;
    p_apart = λ r s hr hs ne e.
        rising_apart 0 rows bound r s high (omega arith) (omega arith) ne (omega arith);
    q_apart = λ c d hc hd ne. rising_apart 0 missing k c d low (omega arith) (omega arith) ne;
    pq_apart = λ r c e. let b = rising_small missing k c pos low in absurd (omega arith);
  }

  coef-gap : (r c : ℕ) → coef k (get_or rows r 0) (column_at c) ≡ gap (row_at r) (column_at c)
  unfolding coef
  coef-gap r c =
      let b = rising_small rows bound r some_row high in
      let b' = rising_small missing k c pos low in
      let small : bit_xor (row_at r) (column_at c) < 256 =
        bit_xor_below 8 (row_at r) (column_at c) (omega arith) (omega arith) in
      let whole : bit_xor (row_at r) (column_at c) % 256 ≡ bit_xor (row_at r) (column_at c) =
        omega arith in
      rw whole

  coefficients_row :
      (r : ℕ)
      → r < n
      → get_or (coefficients k missing rows) r [] ≡ map (λ i. coef k (get_or rows r 0) i) missing
  coefficients_row r hr =
      get_or-map_in (λ j. map (λ i. coef k j i) missing) rows r 0 [] (omega arith)

  pub entry-coefficients :
      (r c : ℕ)
      → r < n
      → c < n
      → entry (coefficients k missing rows) r c ≡ coef k (get_or rows r 0) (column_at c)
  entry-coefficients r c hr hc =
      ap (λ row. get_or row c 0) (coefficients_row r hr)
      ∙ get_or-map_in (λ i. coef k (get_or rows r 0) i) missing c 0 0 (omega arith)

  coefficients-IsMatrix : IsMatrix n (coefficients k missing rows)
  coefficients-IsMatrix = record {
    rows = length-map rows _ ∙ same;
    wide = λ r hr. ap length (coefficients_row r hr) ∙ length-map missing _ ∙ count;
    bytes = λ r hr c. elim (Bool-cases (ltb c n)) [
      | inl less ↦
          let at = entry-coefficients r c hr (ground arith) in
          let b = rising_small rows bound r some_row high in
          let b' = rising_small missing k c pos low in
          let (_, small, _) = coef_lem k (get_or rows r 0) (column_at c) b' (omega arith) in
          omega arith
      | inr more ↦
          let past : n ≤ c = ground arith in
          let wide = ap length (coefficients_row r hr) ∙ length-map missing _ ∙ count in
          let at = get_or-outside (get_or (coefficients k missing rows) r []) c 0 (omega arith) in
          omega arith
    ];
  }

  -- With as many parity rows as there are missing data shards, rows and shards each listed in rising
  -- order and all shards of one group of at most 256, the matrix of their coefficients is inverted,
  -- and the inverse gives back each vector from what the matrix makes of it.
  pub invert-coefficients :
      (out : List Bytes) × (invert (coefficients k missing rows) ≡ some out)
      × IsMatrix n out
      × ((x y : ℕ → ℕ)
          → AreBytes x
          → AreBytes y
          → ((r : ℕ) → r < n → dot n (entry (coefficients k missing rows) r) x ≡ y r)
          → (r : ℕ) → r < n
          → dot n (entry out r) y ≡ x r)
  invert-coefficients =
      invert-gives n (coefficients k missing rows) coefficients-IsMatrix (λ x hx z.
        gaps_independent n row_at column_at x indices_apart hx (λ r hr.
          dot_cong n (λ c. gap (row_at r) (column_at c)) (entry (coefficients k missing rows) r) x
            (λ c hc. sym (entry-coefficients r c hr hc ∙ coef-gap r c))
          ∙ z r hr))
