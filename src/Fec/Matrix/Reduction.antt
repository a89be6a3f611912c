-- ===== src/Fec/Matrix/Reduction.antt =====
-- One column of the elimination of `invert` in crates/protocol/src/fec.rs.
use game_streamer_agent.Base.{
  ℕ, suc, ◌≡◌, ◌≢◌, ◌<◌, ◌≤◌, sym, ap, ap₂, ◌∙◌, true, false, List, arith, ◌==◌, bit_xor, get_or,
  ℕ_discrete,
}
use game_streamer_agent.Base.Xor.{bit_xor_self, bit_xor-zero}
use game_streamer_agent.Fec.Code.{Bytes, entry, swap_rows, clear_column, reduce_column}
use game_streamer_agent.Fec.Field.{mul, inv}
use game_streamer_agent.Fec.Field.Laws.{mul_comm, zero-mul, one-mul, mul-inv, inv-lt}
use game_streamer_agent.Fec.Matrix.{
  swapped, get_or-swap_rows, entry-scaled, get_or-clear_column, entry-cleared,
}
use game_streamer_agent.Fec.Matrix.Dot.{AreBytes, unit_at}
use game_streamer_agent.Fec.Matrix.Shape.{
  IsMatrix, swapped-lt, swap_rows-IsMatrix, scaled-IsMatrix, clear_column-IsMatrix,
}
use game_streamer_agent.Fec.Matrix.Elimination.{
  IsReduced, scale_row, Tied, swap_rows-Tied, scale_row-Tied, clear_column-Tied,
}

swapped_unit :
    (col pivot r c : ℕ) → col ≤ pivot → c < col → unit_at (swapped col pivot r) c ≡ unit_at r c
swapped_unit col pivot r c low small = ground arith

pivot_row : (col pivot : ℕ) → swapped col pivot col ≡ pivot
pivot_row col pivot = ground arith

module _ (n : ℕ) where
  pub entry-pivot :
      (a : List Bytes) (col pivot : ℕ)
      → col < n
      → pivot < n
      → IsMatrix n a
      → entry (swap_rows a col pivot) col col ≡ entry a pivot col
  entry-pivot a col pivot small high h =
      ap (λ row. get_or row col 0)
        (get_or-swap_rows a col pivot col (rw (h.rows) small) (rw (h.rows) high))
      ∙ ap (λ t. entry a t col) (pivot_row col pivot)

  swap_rows-IsReduced :
      (a : List Bytes) (col pivot : ℕ)
      → col ≤ pivot
      → pivot < n
      → IsMatrix n a
      → IsReduced n col a
      → IsReduced n col (swap_rows a col pivot)
  swap_rows-IsReduced a col pivot low high h red r c hr hc =
      ap (λ row. get_or row c 0)
        (get_or-swap_rows a col pivot r (rw (h.rows) (omega arith)) (rw (h.rows) high))
      ∙ red (swapped col pivot r) c (swapped-lt n col pivot r (omega arith) high hr) hc
      ∙ swapped_unit col pivot r c low hc

  scale_row-IsReduced :
      (b : List Bytes) (col k : ℕ)
      → col < n
      → IsMatrix n b
      → IsReduced n col b
      → IsReduced n col (scale_row col k b)
  scale_row-IsReduced b col k small h red r c hr hc = elim (ℕ_discrete r col) [
    | yes e ↦
        let same : (r == col) ≡ true = ground arith in
        let none_there : unit_at col c ≡ 0 = ground arith in
        let none_here : unit_at r c ≡ 0 = ground arith in
        entry-scaled b col k r c (rw (h.rows) small)
        ∙ rw same (ap (λ t. mul t k) (red col c small hc ∙ none_there) ∙ zero-mul k ∙ sym none_here)
    | no ne ↦
        let other : (r == col) ≡ false = ground arith in
        entry-scaled b col k r c (rw (h.rows) small) ∙ rw other (red r c hr hc)
  ]

  scale_row-one :
      (b : List Bytes) (col : ℕ)
      → col < n
      → IsMatrix n b
      → entry b col col ≢ 0
      → entry (scale_row col (inv (entry b col col)) b) col col ≡ 1
  scale_row-one b col small h nz =
      let same : (col == col) ≡ true = ground arith in
      entry-scaled b col (inv (entry b col col)) col col (rw (h.rows) small)
      ∙ rw same (mul-inv (entry b col col) (h.bytes col small col) nz)

  clear_column-IsReduced :
      (b : List Bytes) (col : ℕ)
      → col < n
      → IsMatrix n b
      → IsReduced n col b
      → entry b col col ≡ 1
      → IsReduced n (suc col) (clear_column col b b 0 b)
  clear_column-IsReduced b col small h red one r c hr hc = elim (ℕ_discrete r col) [
    | yes e ↦
        let from : entry (clear_column col b b 0 b) r c ≡ entry b col c =
          ap (λ t. entry (clear_column col b b 0 b) t c) e
          ∙ ap (λ row. get_or row c 0) (get_or-clear_column col b b (rw (h.rows) small)) in
        from ∙ elim (ℕ_discrete c col) [
          | yes ec ↦ ap (entry b col) ec ∙ one ∙ ground arith
          | no nc ↦ red col c small (omega arith) ∙ ap (λ t. unit_at t c) (sym e)
        ]
    | no ne ↦
        entry-cleared col b b r c (rw (h.rows) hr) ne (h.wide r hr ∙ sym (h.wide col small))
        ∙ elim (ℕ_discrete c col) [
          | yes ec ↦
              let off : unit_at r c ≡ 0 = ground arith in
              ap₂ bit_xor (ap (entry b r) ec) (
                ap (mul (entry b r col)) (ap (entry b col) ec ∙ one)
                ∙ mul_comm (entry b r col) 1
                ∙ one-mul (entry b r col) (h.bytes r hr col))
              ∙ bit_xor_self (entry b r col)
              ∙ sym off
          | no nc ↦
              let off : unit_at col c ≡ 0 = ground arith in
              ap₂ bit_xor (red r c hr (omega arith)) (
                ap (mul (entry b r col)) (red col c small (omega arith) ∙ off)
                ∙ mul_comm (entry b r col) 0
                ∙ zero-mul (entry b r col))
              ∙ bit_xor-zero (unit_at r c)
        ]
  ]

  -- Where the elimination stands at a column: the matrix so far and the inverse so far.
  pub record Stands (x y : ℕ → ℕ) (col : ℕ) (a m : List Bytes) : Type 0 where
    pub left : IsMatrix n a
    pub right : IsMatrix n m
    pub tied : Tied n x y a m
    pub reduced : IsReduced n col a

  pub reduce_column-Stands :
      (x y : ℕ → ℕ) (col pivot : ℕ) (a m : List Bytes)
      → AreBytes x
      → AreBytes y
      → col ≤ pivot
      → pivot < n
      → entry a pivot col ≢ 0
      → Stands x y col a m
      → Stands x y (suc col) (reduce_column col pivot a m).0 (reduce_column col pivot a m).1
  unfolding reduce_column
  reduce_column-Stands x y col pivot a m hx hy low high nz s =
      let small : col < n = omega arith in
      let a1 = swap_rows a col pivot in
      let m1 = swap_rows m col pivot in
      let h1 = swap_rows-IsMatrix n a col pivot small high s.left in
      let k1 = swap_rows-IsMatrix n m col pivot small high s.right in
      let t1 = swap_rows-Tied n a m col pivot x y small high s.left s.right s.tied in
      let r1 = swap_rows-IsReduced a col pivot low high s.left s.reduced in
      let top = entry-pivot a col pivot small high s.left in
      let nz1 : entry a1 col col ≢ 0 = λ e. nz (sym top ∙ e) in
      let k = inv (entry a1 col col) in
      let hk = inv-lt (entry a1 col col) (h1.bytes col small col) nz1 in
      let a2 = scale_row col k a1 in
      let m2 = scale_row col k m1 in
      let h2 = scaled-IsMatrix n a1 col k small hk h1 in
      let k2 = scaled-IsMatrix n m1 col k small hk k1 in
      let t2 = scale_row-Tied n a1 m1 col k x y small hk hx hy h1 k1 t1 in
      let r2 = scale_row-IsReduced a1 col k small h1 r1 in
      record {
        left = clear_column-IsMatrix n col a2 a2 small h2 h2;
        right = clear_column-IsMatrix n col a2 m2 small h2 k2;
        tied = clear_column-Tied n a2 m2 col x y small hx hy h2 k2 t2;
        reduced = clear_column-IsReduced a2 col small h2 r2 (scale_row-one a1 col small h1 nz1);
      }
