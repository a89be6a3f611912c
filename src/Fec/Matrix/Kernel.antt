-- ===== src/Fec/Matrix/Kernel.antt =====
-- The vectors that a matrix takes to 0, under the row operations of `invert` in
-- crates/protocol/src/fec.rs.
use game_streamer_agent.Base.{
  ℕ, ◌≡◌, ◌≢◌, ◌<◌, refl, sym, ap, ◌∙◌, true, false, List, arith, ◌==◌, bit_xor, ℕ_discrete,
}
use game_streamer_agent.Base.Xor.{bit_xor-zero}
use game_streamer_agent.Fec.Code.{Bytes, entry, swap_rows, clear_column}
use game_streamer_agent.Fec.Field.{mul}
use game_streamer_agent.Fec.Field.Laws.{mul_comm, zero-mul, mul_ne_zero}
use game_streamer_agent.Fec.Matrix.{swapped}
use game_streamer_agent.Fec.Matrix.Dot.{AreBytes, dot, dot-lt}
use game_streamer_agent.Fec.Matrix.Shape.{IsMatrix, swapped-lt}
use game_streamer_agent.Fec.Matrix.Elimination.{
  scale_row, dot-swapped, dot-scale_row, dot-cleared, kept_row,
}

scaled_zero : (d k : ℕ) → d < 256 → k < 256 → k ≢ 0 → mul k d ≡ 0 → d ≡ 0
scaled_zero d k hd hk nz e = elim (ℕ_discrete d 0) [
  | yes z ↦ z
  | no ne ↦ absurd (mul_ne_zero k d hk hd nz ne e)
]

module _ (n : ℕ) where
  -- The matrix takes the vector to 0.
  abbrev pub Kills : List Bytes → (ℕ → ℕ) → Type 0
  Kills a x = (r : ℕ) → r < n → dot n (entry a r) x ≡ 0

  abbrev pub HasNoKernel : List Bytes → Type 0
  HasNoKernel a = (x : ℕ → ℕ) → AreBytes x → Kills a x → (c : ℕ) → c < n → x c ≡ 0

  pub swap_rows-Kills :
      (a : List Bytes) (i j : ℕ) (x : ℕ → ℕ)
      → i < n
      → j < n
      → IsMatrix n a
      → Kills (swap_rows a i j) x
      → Kills a x
  swap_rows-Kills a i j x hi hj h k r hr =
      let back : swapped i j (swapped i j r) ≡ r = ground arith in
      ap (λ t. dot n (entry a t) x) (sym back)
      ∙ sym (dot-swapped n a i j (swapped i j r) x hi hj h)
      ∙ k (swapped i j r) (swapped-lt n i j r hi hj hr)

  pub scale_row-Kills :
      (a : List Bytes) (col k : ℕ) (x : ℕ → ℕ)
      → col < n
      → k < 256
      → k ≢ 0
      → AreBytes x
      → IsMatrix n a
      → Kills (scale_row col k a) x
      → Kills a x
  scale_row-Kills a col k x hc hk nz hx h z r hr =
      let got = sym (dot-scale_row n a col k r x hc hk hx h) ∙ z r hr in
      elim (ℕ_discrete r col) [
        | yes e ↦
            let same : (r == col) ≡ true = ground arith in
            ap (λ t. dot n (entry a t) x) e
            ∙ scaled_zero (dot n (entry a col) x) k (dot-lt n _ x (h.bytes col hc) hx) hk nz
                (rw same at got)
        | no ne ↦ let other : (r == col) ≡ false = ground arith in rw other at got
      ]

  pub clear_column-Kills :
      (a : List Bytes) (col : ℕ) (x : ℕ → ℕ)
      → col < n
      → AreBytes x
      → IsMatrix n a
      → Kills (clear_column col a a 0 a) x
      → Kills a x
  clear_column-Kills a col x hc hx h z r hr =
      let top : dot n (entry a col) x ≡ 0 = sym (kept_row n a a col col x hc refl h) ∙ z col hc in
      elim (ℕ_discrete r col) [
        | yes e ↦ ap (λ t. dot n (entry a t) x) e ∙ top
        | no ne ↦
            sym (bit_xor-zero (dot n (entry a r) x))
            ∙ ap (bit_xor (dot n (entry a r) x)) (
                sym (
                  ap (mul (entry a r col)) top
                  ∙ mul_comm (entry a r col) 0
                  ∙ zero-mul (entry a r col)))
            ∙ sym (dot-cleared n a a col r x hc hr ne hx h h)
            ∙ z r hr
      ]
