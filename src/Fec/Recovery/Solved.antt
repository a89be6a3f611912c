-- ===== src/Fec/Recovery/Solved.antt =====
-- The inverse and the right-hand sides of `solve` in crates/protocol/src/fec.rs, byte by byte.
use game_streamer_agent.Base.{
  ℕ, zero, suc, ◌+◌, ◌≡◌, ◌<◌, ◌≤◌, refl, sym, ap, ◌∙◌, subst, Option, none, some, inl, inr, List,
  [], ◌∷◌, ◌++◌, arith, bit_xor, length, get_or, take, replicate, All, length-map, length-replicate,
  ltb, Bool-cases,
}
use game_streamer_agent.Base.Xor.{bit_xor_comm, bit_xor-zero}
use game_streamer_agent.Fec.Code.{
  Bytes, first_len, present, remove_known, or_empty, combine, entry, invert,
}
use game_streamer_agent.Fec.Code.Shape.{length-add_scaled, length-add_columns}
use game_streamer_agent.Fec.Field.{coef}
use game_streamer_agent.Fec.Field.Laws.{coef_lem}
use game_streamer_agent.Fec.Matrix.Dot.{AreBytes, dot, dot-lt, dot_cong}
use game_streamer_agent.Fec.Matrix.Inverse.{get_or-outside}
use game_streamer_agent.Fec.Matrix.Coefficients.{
  rising-lt, rising_small, coefficients, get_or-map_in, entry-coefficients, invert-coefficients,
}
use game_streamer_agent.Fec.Recovery.{AreLong, get_or-combine, length-combine}
use game_streamer_agent.Fec.Recovery.Erased.{
  IsErased, Encoded, get_or-append_left, list_ext, bytes_at,
}
use game_streamer_agent.Fec.Recovery.Group.{
  shard_at, missing_of, rows_of, missing-IsRising, rows-IsRising, length-rows, right_sides,
  right_side, row_shard, get_or-zeros,
}

long_at :
    (len : ℕ) (ss : List Bytes) (i : ℕ)
    → AreLong len ss
    → i < length ss
    → length (get_or ss i []) ≡ len
long_at len [] i h k = absurd (omega arith)
long_at len (s ∷ ss) zero (this, rest) k = this
long_at len (s ∷ ss) (suc i) (this, rest) k = long_at len ss i rest (omega arith)

at_long :
    (len : ℕ) (ss : List Bytes)
    → ((i : ℕ) → i < length ss → length (get_or ss i []) ≡ len)
    → AreLong len ss
at_long len [] h = tt
at_long len (s ∷ ss) h = (h 0 (omega arith), at_long len ss (λ i k. h (suc i) (omega arith)))

length-remove_known :
    (k j i : ℕ) (ss : List (Option Bytes)) (row : Bytes)
    → length (remove_known k j i ss row) ≡ length row
unfolding remove_known
length-remove_known k j i [] row = refl
length-remove_known k j i (none ∷ ss) row = length-remove_known k j (suc i) ss row
length-remove_known k j i (some s ∷ ss) row =
    length-remove_known k j (suc i) ss _ ∙ length-add_scaled (coef k j i) row s

module _ (group parity : List Bytes) (m : ℕ) (enc : Encoded group parity m)
    (rx : List (Option Bytes)) (erased : IsErased rx (group ++ parity))
    (bytes : All (All (λ v. v < 256)) group) (enough : length group ≤ length (present 0 rx))
    (lost : 0 < length (missing_of (length group) rx)) where
  abbrev k : ℕ
  k = length group

  abbrev n : ℕ
  n = length (missing_of k rx)

  abbrev missing_at : ℕ → ℕ
  missing_at c = get_or (missing_of k rx) c 0

  abbrev row_at : ℕ → ℕ
  row_at r = get_or (rows_of k rx) r 0

  rows : length (rows_of k rx) ≡ n
  rows = length-rows group parity m enc rx erased enough

  some_row : 0 < m
  some_row =
      let same = rows in
      let (_, high) =
        rising-lt 0 (rows_of k rx) m 0 (rows-IsRising group parity m enc rx erased) (omega arith) in
      omega arith

  missing_small : (c : ℕ) → missing_at c < k
  missing_small c =
      let positive = enc.at_least in
      rising_small (missing_of k rx) k c (omega arith)
        (missing-IsRising group parity m enc rx erased)

  row_small : (r : ℕ) → row_at r < m
  row_small r =
      rising_small (rows_of k rx) m r some_row (rows-IsRising group parity m enc rx erased)

  missing_shard : (c : ℕ) → shard_at group parity (missing_at c) ≡ get_or group (missing_at c) []
  missing_shard c = get_or-append_left group parity (missing_at c) (missing_small c)

  -- The missing shards and the right-hand sides, at one byte.
  abbrev unknown : ℕ → ℕ → ℕ
  unknown b c = get_or (shard_at group parity (missing_at c)) b 0

  abbrev known : ℕ → ℕ → ℕ
  known b r = get_or (get_or (right_sides group parity m enc rx erased) r []) b 0

  unknown-AreBytes : (b : ℕ) → AreBytes (unknown b)
  unknown-AreBytes b c =
      subst (λ s. get_or s b 0 < 256) (sym (missing_shard c))
        (bytes_at group (missing_at c) b bytes)

  coef_small : (r c : ℕ) → coef k (row_at r) (missing_at c) < 256
  coef_small r c =
      let small = row_small r in
      let room = enc.at_most in
      (coef_lem k (row_at r) (missing_at c) (missing_small c) (omega arith)).1

  length-right_sides : length (right_sides group parity m enc rx erased) ≡ n
  length-right_sides = length-map (rows_of k rx) _ ∙ rows

  known-AreBytes : (b : ℕ) → AreBytes (known b)
  known-AreBytes b r = elim (Bool-cases (ltb r n)) [
    | inl less ↦
        subst (λ t. t < 256)
          (sym (right_side group parity m enc rx erased enough r b (ground arith)))
          (dot-lt n (λ c. coef k (row_at r) (missing_at c)) (unknown b) (coef_small r)
            (unknown-AreBytes b))
    | inr more ↦
        let past : n ≤ r = ground arith in
        let all = length-right_sides in
        let at =
          ap (λ s. get_or s b 0)
            (get_or-outside (right_sides group parity m enc rx erased) r [] (omega arith)) in
        omega arith
  ]

  right_sides-AreLong : AreLong (first_len group) (right_sides group parity m enc rx erased)
  right_sides-AreLong =
      at_long (first_len group) (right_sides group parity m enc rx erased) (λ r hr.
        let all = length-right_sides in
        let same = rows in
        ap length (
          get_or-map_in (λ j. remove_known k j 0 (take k rx) (or_empty (get_or rx (k + j) none)))
            (rows_of k rx) r 0 [] (omega arith))
        ∙ length-remove_known k (row_at r) 0 (take k rx) _
        ∙ ap length (row_shard group parity m enc rx erased enough r (omega arith))
        ∙ length-add_columns k (row_at r) 0 group (replicate (first_len group) 0)
        ∙ length-replicate (first_len group) 0)

  -- The inverse is there, and each of its rows gives a missing shard.
  pub solved :
      (out : List Bytes) × (invert (coefficients k (missing_of k rx) (rows_of k rx)) ≡ some out)
      × (length out ≡ n)
      × ((r : ℕ)
          → r < n
          → combine
              (get_or out r [])
              (right_sides group parity m enc rx erased)
              (replicate (first_len group) 0)
            ≡ shard_at group parity (missing_at r))
  solved =
      let positive = enc.at_least in
      let room = enc.at_most in
      let (out, comes, shape, gives) =
        invert-coefficients k n (missing_of k rx) (rows_of k rx) refl rows (omega arith)
          (missing-IsRising group parity m enc rx erased) m (omega arith) some_row
          (rows-IsRising group parity m enc rx erased) in
      (
        out,
        comes,
        shape.rows,
        λ r hr.
            let zeros = length-replicate {A = ℕ} (first_len group) 0 in
            list_ext _ (shard_at group parity (missing_at r))
              (length-combine (get_or out r []) (right_sides group parity m enc rx erased)
                  (replicate (first_len group) 0)
                ∙ zeros
                ∙ sym (
                    ap length (missing_shard r)
                    ∙ long_at (first_len group) group (missing_at r) enc.long (missing_small r)))
              (λ b.
                get_or-combine (get_or out r []) (right_sides group parity m enc rx erased)
                  (replicate (first_len group) 0) (first_len group) b
                  (shape.wide r hr ∙ sym length-right_sides) zeros right_sides-AreLong
                ∙ ap
                    (λ t. bit_xor t (
                      dot (length (right_sides group parity m enc rx erased)) (entry out r)
                        (known b)))
                    (get_or-zeros (first_len group) b)
                ∙ bit_xor_comm 0 _
                ∙ bit_xor-zero _
                ∙ ap (λ t. dot t (entry out r) (known b)) length-right_sides
                ∙ gives (unknown b) (known b) (unknown-AreBytes b) (known-AreBytes b)
                    (λ s hs.
                      dot_cong n (entry (coefficients k (missing_of k rx) (rows_of k rx)) s)
                        (λ c. coef k (row_at s) (missing_at c)) (unknown b)
                        (λ c hc.
                          entry-coefficients k n (missing_of k rx) (rows_of k rx) refl rows
                            (omega arith) (missing-IsRising group parity m enc rx erased) m
                            (omega arith) some_row (rows-IsRising group parity m enc rx erased) s c
                            hs hc)
                      ∙ sym (right_side group parity m enc rx erased enough s b hs))
                    r hr),
      )
