-- ===== src/Fec/Matrix/Elimination.antt =====
-- Two matrices tied by what they make of two vectors, under the row operations of `invert` in
-- crates/protocol/src/fec.rs.
use game_streamer_agent.Base.{
  ℕ, ◌≡◌, ◌≢◌, ◌<◌, sym, ap, ap₂, ◌∙◌, List, [], map, arith, ◌==◌, if◌then◌else◌, bit_xor, get_or,
  set, ℕ_discrete, true, false,
}
use game_streamer_agent.Fec.Code.{Bytes, entry, swap_rows, clear_column}
use game_streamer_agent.Fec.Field.{mul}
use game_streamer_agent.Fec.Matrix.{
  swapped, get_or-swap_rows, entry-scaled, get_or-clear_column, entry-cleared,
}
use game_streamer_agent.Fec.Matrix.Dot.{AreBytes, dot, dot_cong, dot-added, dot-scaled, unit_at}
use game_streamer_agent.Fec.Matrix.Shape.{IsMatrix, swapped-lt}

-- The first `col` columns are those of the identity.
abbrev pub IsReduced : ℕ → ℕ → List Bytes → Type 0
IsReduced n col a = (r c : ℕ) → r < n → c < col → entry a r c ≡ unit_at r c

abbrev pub scale_row : ℕ → ℕ → List Bytes → List Bytes
scale_row col k a = set a col (map (λ x. mul x k) (get_or a col []))

-- One matrix on one vector gives what another gives on another.
module _ (n : ℕ) (x y : ℕ → ℕ) where
  abbrev pub Tied : List Bytes → List Bytes → Type 0
  Tied a m = (r : ℕ) → r < n → dot n (entry a r) x ≡ dot n (entry m r) y

module _ (n : ℕ) where
  pub dot-swapped :
      (a : List Bytes) (i j r : ℕ) (x : ℕ → ℕ)
      → i < n
      → j < n
      → IsMatrix n a
      → dot n (entry (swap_rows a i j) r) x ≡ dot n (entry a (swapped i j r)) x
  dot-swapped a i j r x hi hj h =
      ap (λ row. dot n (λ c. get_or row c 0) x)
        (get_or-swap_rows a i j r (rw (h.rows) hi) (rw (h.rows) hj))

  pub swap_rows-Tied :
      (a m : List Bytes) (i j : ℕ) (x y : ℕ → ℕ)
      → i < n
      → j < n
      → IsMatrix n a
      → IsMatrix n m
      → Tied n x y a m
      → Tied n x y (swap_rows a i j) (swap_rows m i j)
  swap_rows-Tied a m i j x y hi hj h k t r hr =
      dot-swapped a i j r x hi hj h
      ∙ t (swapped i j r) (swapped-lt n i j r hi hj hr)
      ∙ sym (dot-swapped m i j r y hi hj k)

  pub dot-scale_row :
      (a : List Bytes) (col k r : ℕ) (x : ℕ → ℕ)
      → col < n
      → k < 256
      → AreBytes x
      → IsMatrix n a
      → dot n (entry (scale_row col k a) r) x
        ≡ (if r == col then mul k (dot n (entry a col) x) else dot n (entry a r) x)
  dot-scale_row a col k r x hc hk hx h = elim (ℕ_discrete r col) [
    | yes e ↦
        let same : (r == col) ≡ true = ground arith in
        dot_cong n (entry (scale_row col k a) r) (λ c. mul (entry a col c) k) x
          (λ c hcn. entry-scaled a col k r c (rw (h.rows) hc) ∙ rw same)
        ∙ dot-scaled n k (entry a col) x hk (h.bytes col hc) hx
        ∙ rw same
    | no ne ↦
        let other : (r == col) ≡ false = ground arith in
        dot_cong n (entry (scale_row col k a) r) (entry a r) x
          (λ c hcn. entry-scaled a col k r c (rw (h.rows) hc) ∙ rw other)
        ∙ rw other
  ]

  pub scale_row-Tied :
      (a m : List Bytes) (col k : ℕ) (x y : ℕ → ℕ)
      → col < n
      → k < 256
      → AreBytes x
      → AreBytes y
      → IsMatrix n a
      → IsMatrix n m
      → Tied n x y a m
      → Tied n x y (scale_row col k a) (scale_row col k m)
  scale_row-Tied a m col k x y hc hk hx hy h l t r hr =
      dot-scale_row a col k r x hc hk hx h
      ∙ ap₂ (λ u v. if r == col then mul k u else v) (t col hc) (t r hr)
      ∙ sym (dot-scale_row m col k r y hc hk hy l)

  pub dot-cleared :
      (a m : List Bytes) (col r : ℕ) (x : ℕ → ℕ)
      → col < n
      → r < n
      → r ≢ col
      → AreBytes x
      → IsMatrix n a
      → IsMatrix n m
      → dot n (entry (clear_column col a m 0 m) r) x
        ≡ bit_xor (dot n (entry m r) x) (mul (entry a r col) (dot n (entry m col) x))
  dot-cleared a m col r x hc hr ne hx h k =
      dot_cong n (entry (clear_column col a m 0 m) r)
        (λ c. bit_xor (entry m r c) (mul (entry a r col) (entry m col c))) x
        (λ c hcn. entry-cleared col a m r c (rw (k.rows) hr) ne (k.wide r hr ∙ sym (k.wide col hc)))
      ∙ dot-added n (entry a r col) (entry m r) (entry m col) x (h.bytes r hr col) (k.bytes r hr)
          (k.bytes col hc) hx

  pub kept_row :
      (a m : List Bytes) (col r : ℕ) (x : ℕ → ℕ)
      → col < n
      → r ≡ col
      → IsMatrix n m
      → dot n (entry (clear_column col a m 0 m) r) x ≡ dot n (entry m col) x
  kept_row a m col r x hc e k =
      ap (λ t. dot n (entry (clear_column col a m 0 m) t) x) e
      ∙ ap (λ row. dot n (λ c. get_or row c 0) x) (get_or-clear_column col a m (rw (k.rows) hc))

  pub clear_column-Tied :
      (a m : List Bytes) (col : ℕ) (x y : ℕ → ℕ)
      → col < n
      → AreBytes x
      → AreBytes y
      → IsMatrix n a
      → IsMatrix n m
      → Tied n x y a m
      → Tied n x y (clear_column col a a 0 a) (clear_column col a m 0 m)
  clear_column-Tied a m col x y hc hx hy h k t r hr = elim (ℕ_discrete r col) [
    | yes e ↦ kept_row a a col r x hc e h ∙ t col hc ∙ sym (kept_row a m col r y hc e k)
    | no ne ↦
        dot-cleared a a col r x hc hr ne hx h h
        ∙ ap₂ (λ u v. bit_xor u (mul (entry a r col) v)) (t r hr) (t col hc)
        ∙ sym (dot-cleared a m col r y hc hr ne hy h k)
  ]
