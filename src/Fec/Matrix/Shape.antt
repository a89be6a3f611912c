-- ===== src/Fec/Matrix/Shape.antt =====
-- Square matrices of bytes, under the row operations of `invert` in crates/protocol/src/fec.rs.
use game_streamer_agent.Base.{
  ℕ, ◌≡◌, ◌<◌, sym, ap, ◌∙◌, subst, List, [], map, arith, length, get_or, set, length-set,
  length-map, ℕ_discrete,
}
use game_streamer_agent.Base.Xor.{bit_xor_below}
use game_streamer_agent.Fec.Code.{Bytes, entry, swap_rows, clear_column}
use game_streamer_agent.Fec.Field.{mul}
use game_streamer_agent.Fec.Field.Laws.{mul-lt}
use game_streamer_agent.Fec.Matrix.{
  swapped, get_or-set_self, get_or-set_ne, get_or-swap_rows, entry-scaled, get_or-clear_column,
  entry-cleared, length-clear_column, wide-clear_column,
}
use game_streamer_agent.Fec.Matrix.Dot.{AreBytes}

pub record IsMatrix (n : ℕ) (a : List Bytes) : Type 0 where
  pub rows : length a ≡ n
  pub wide : (r : ℕ) → r < n → length (get_or a r []) ≡ n
  pub bytes : (r : ℕ) → r < n → AreBytes (entry a r)

pub swapped-lt : (n i j r : ℕ) → i < n → j < n → r < n → swapped i j r < n
swapped-lt n i j r hi hj hr = ground arith

pub swap_rows-IsMatrix :
    (n : ℕ) (a : List Bytes) (i j : ℕ) → i < n → j < n → IsMatrix n a → IsMatrix n (swap_rows a i j)
unfolding swap_rows
swap_rows-IsMatrix n a i j hi hj h =
    let from : (r : ℕ) → get_or (swap_rows a i j) r [] ≡ get_or a (swapped i j r) [] =
      λ r. get_or-swap_rows a i j r (rw (h.rows) hi) (rw (h.rows) hj) in
    record {
      rows = length-set (set a i (get_or a j [])) j _ ∙ length-set a i _ ∙ h.rows;
      wide = λ r k. ap length (from r) ∙ h.wide (swapped i j r) (swapped-lt n i j r hi hj k);
      bytes = λ r k c.
          subst (λ row. get_or row c 0 < 256) (sym (from r))
            (h.bytes (swapped i j r) (swapped-lt n i j r hi hj k) c);
    }

scaled_wide :
    (n : ℕ) (a : List Bytes) (col k r : ℕ)
    → IsMatrix n a
    → col < n
    → r < n
    → length (get_or (set a col (map (λ x. mul x k) (get_or a col []))) r []) ≡ n
scaled_wide n a col k r h hc hr = elim (ℕ_discrete r col) [
  | yes e ↦
      ap (λ t. length (get_or (set a col (map (λ x. mul x k) (get_or a col []))) t [])) e
      ∙ ap length (get_or-set_self a col _ [] (rw (h.rows) hc))
      ∙ length-map (get_or a col []) _
      ∙ h.wide col hc
  | no ne ↦ ap length (get_or-set_ne a col r _ [] (λ e. ne (sym e))) ∙ h.wide r hr
]

pub scaled-IsMatrix :
    (n : ℕ) (a : List Bytes) (col k : ℕ)
    → col < n
    → k < 256
    → IsMatrix n a
    → IsMatrix n (set a col (map (λ x. mul x k) (get_or a col [])))
scaled-IsMatrix n a col k hc hk h = record {
  rows = length-set a col _ ∙ h.rows;
  wide = λ r hr. scaled_wide n a col k r h hc hr;
  bytes = λ r hr c.
      let one = mul-lt (entry a col c) k (h.bytes col hc c) hk in
      let other = h.bytes r hr c in
      subst (λ t. t < 256) (sym (entry-scaled a col k r c (rw (h.rows) hc))) (ground arith);
}

pub clear_column-IsMatrix :
    (n : ℕ) (col : ℕ) (a m : List Bytes)
    → col < n
    → IsMatrix n a
    → IsMatrix n m
    → IsMatrix n (clear_column col a m 0 m)
clear_column-IsMatrix n col a m hc h k = record {
  rows = length-clear_column col a m 0 m ∙ k.rows;
  wide = λ r hr. wide-clear_column col a m r (rw (k.rows) hr) ∙ k.wide r hr;
  bytes = λ r hr c. elim (ℕ_discrete r col) [
    | yes e ↦
        subst (λ t. entry (clear_column col a m 0 m) t c < 256) (sym e)
          (subst (λ row. get_or row c 0 < 256) (sym (get_or-clear_column col a m (rw (k.rows) hc)))
            (k.bytes col hc c))
    | no ne ↦
        subst (λ t. t < 256)
          (sym (entry-cleared col a m r c (rw (k.rows) hr) ne (k.wide r hr ∙ sym (k.wide col hc))))
          (bit_xor_below 8 _ _ (k.bytes r hr c)
            (mul-lt (entry a r col) (entry m col c) (h.bytes r hr col) (k.bytes col hc c)))
  ];
}
