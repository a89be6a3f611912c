-- ===== src/Fec/Recovery/Group.antt =====
-- One group of crates/protocol/src/fec.rs on its way: what is missing of it, and the parity that stands
-- in for that.
use game_streamer_agent.Base.{
  ℕ, zero, suc, ◌+◌, ◌-◌, ◌≡◌, ◌<◌, ◌≤◌, refl, sym, ap, ◌∙◌, subst, Option, none, some, List, [],
  ◌++◌, map, arith, bit_xor, length, get_or, take, drop, replicate, All-append, length-append,
  length-map, length-take, length-drop, length-replicate,
}
use game_streamer_agent.Base.Xor.{bit_xor_comm, bit_xor-zero}
use game_streamer_agent.Fec.Code.{
  Bytes, range, first_len, absent, present, add_columns, remove_known, or_empty,
}
use game_streamer_agent.Fec.Code.Shape.{length-range, rows_lengths, length-add_columns}
use game_streamer_agent.Fec.Field.{coef}
use game_streamer_agent.Fec.Matrix.Dot.{dot}
use game_streamer_agent.Fec.Matrix.Inverse.{get_or-range}
use game_streamer_agent.Fec.Matrix.Coefficients.{IsRising, rising-lt, get_or-map_in}
use game_streamer_agent.Fec.Recovery.{
  AreFrom, HoldFrom, AreLong, over, term, get_or-add_columns, get_or-remove_known, over-absent,
  over-dot,
}
use game_streamer_agent.Fec.Recovery.Slots.{
  absent-IsRising, present-IsRising, IsRising-minus, IsRising-take, length-absent-present,
  present_holds, hold_take, hold_drop,
}
use game_streamer_agent.Fec.Recovery.Erased.{
  IsErased, length-erased, hold_erased, from_self, get_or-append_left, get_or-append_right,
  get_or-drop, get_or-take, length-present_split, Encoded,
}

pub get_or-zeros : (len b : ℕ) → get_or (replicate {A = ℕ} len 0) b 0 ≡ 0
get_or-zeros zero b = refl
get_or-zeros (suc len) zero = refl
get_or-zeros (suc len) (suc b) = get_or-zeros len b

abbrev pub shard_at : List Bytes → List Bytes → ℕ → Bytes
shard_at group parity i = get_or (group ++ parity) i []

abbrev pub missing_of : ℕ → List (Option Bytes) → List ℕ
missing_of k rx = absent 0 (take k rx)

abbrev pub rows_of : ℕ → List (Option Bytes) → List ℕ
rows_of k rx = take (length (missing_of k rx)) (map (λ i. i - k) (present k (drop k rx)))

module _ (group parity : List Bytes) (m : ℕ) (enc : Encoded group parity m)
    (rx : List (Option Bytes)) (erased : IsErased rx (group ++ parity)) where
  abbrev k : ℕ
  k = length group

  abbrev len : ℕ
  len = first_len group

  abbrev d : ℕ → Bytes
  d = shard_at group parity

  pub group_from : AreFrom d len 0 group
  group_from = from_self d len 0 group enc.long (λ t h.
      let at : t ≡ 0 + t = omega arith in sym (get_or-append_left group parity t h) ∙ ap d at)

  parity_long : AreLong len parity
  parity_long = subst (AreLong len) (sym enc.made) (rows_lengths k len group (range 0 m))

  all_from : AreFrom d len 0 (group ++ parity)
  all_from =
      from_self d len 0 (group ++ parity)
        (All-append (λ s. length s ≡ len) group parity enc.long parity_long)
        (λ t h. let at : t ≡ 0 + t = omega arith in ap d at)

  pub slots_hold : HoldFrom d len 0 rx
  slots_hold = hold_erased d len 0 rx (group ++ parity) erased all_from

  length-parity : length parity ≡ m
  length-parity = ap length enc.made ∙ length-map (range 0 m) _ ∙ length-range 0 m

  pub length-rx : length rx ≡ k + m
  length-rx =
      length-erased rx (group ++ parity) erased
      ∙ length-append group parity
      ∙ ap (λ t. k + t) length-parity

  pub length-first : length (take k rx) ≡ k
  length-first = let whole = length-rx in let cut = length-take k rx in omega arith

  pub missing-IsRising : IsRising 0 (missing_of k rx) k
  missing-IsRising =
      let at : 0 + length (take k rx) ≡ k = omega (arith, length-first) in
      subst (IsRising 0 (missing_of k rx)) at (absent-IsRising 0 (take k rx))

  pub rows-IsRising : IsRising 0 (rows_of k rx) m
  rows-IsRising =
      let low : k - k ≡ 0 = omega arith in
      let high : k + length (drop k rx) - k ≡ m = omega (arith, length-rx, length-drop k rx) in
      IsRising-take (length (missing_of k rx)) 0 (map (λ i. i - k) (present k (drop k rx))) m (
        subst (λ l. IsRising l (map (λ i. i - k) (present k (drop k rx))) m) low
          (subst (IsRising (k - k) (map (λ i. i - k) (present k (drop k rx)))) high (
            IsRising-minus k k (present k (drop k rx)) (k + length (drop k rx)) (omega arith)
              (present-IsRising k (drop k rx)))))

  -- Enough parity is there, where as many shards are there as there is data.
  pub length-later :
      k ≤ length (present 0 rx) → length (missing_of k rx) ≤ length (present k (drop k rx))
  length-later enough =
      let split = length-present_split 0 k rx in
      let at : 0 + k ≡ k = omega arith in
      let same = ap (λ u. length (present u (drop k rx))) at in
      let parts = length-absent-present 0 (take k rx) in let first = length-first in omega arith

  pub length-rows : k ≤ length (present 0 rx) → length (rows_of k rx) ≡ length (missing_of k rx)
  length-rows enough =
      let later = length-later enough in
      length-take (length (missing_of k rx)) (map (λ i. i - k) (present k (drop k rx)))
      ∙ omega (arith, length-map (present k (drop k rx)) (λ i. i - k))

  -- The index of a parity row at hand, and its shard.
  record RowAtHand (r : ℕ) : Type 0 where
    index-lt : get_or (rows_of k rx) r 0 < m
    held : get_or rx (k + get_or (rows_of k rx) r 0) none ≡ some (d (k + get_or (rows_of k rx) r 0))

  row_at_hand : k ≤ length (present 0 rx) → (r : ℕ) → r < length (missing_of k rx) → RowAtHand r
  row_at_hand enough r hr =
      let later = length-later enough in
      let rows = length-rows enough in
      let start : 0 + k ≡ k = omega arith in
      let (t, at, holds, long) =
        present_holds d len k (drop k rx) r
          (subst (λ u. HoldFrom d len u (drop k rx)) start (hold_drop d len 0 k rx slots_hold))
          (omega arith) in
      let back : get_or (present k (drop k rx)) r 0 - k ≡ t = omega arith in
      let index : get_or (rows_of k rx) r 0 ≡ t =
        get_or-take (map (λ i. i - k) (present k (drop k rx))) (length (missing_of k rx)) r 0 hr
        ∙ get_or-map_in (λ i. i - k) (present k (drop k rx)) r 0 0 (omega arith)
        ∙ back in
      record {
        index-lt = (rising-lt 0 (rows_of k rx) m r rows-IsRising (omega arith)).1;
        held =
            ap (λ u. get_or rx (k + u) none) index
            ∙ sym (get_or-drop rx k t none)
            ∙ holds
            ∙ ap (λ u. some (d (k + u))) (sym index);
      }

  parity_shard : (j : ℕ) → j < m → d (k + j) ≡ add_columns k j 0 group (replicate len 0)
  parity_shard j hj =
      let at : 0 + j ≡ j = omega arith in
      get_or-append_right group parity k j refl
      ∙ ap (λ ps. get_or ps j []) enc.made
      ∙ get_or-range (λ j. add_columns k j 0 group (replicate len 0)) 0 m j [] hj
      ∙ ap (λ u. add_columns k u 0 group (replicate len 0)) at

  pub row_shard :
      k ≤ length (present 0 rx)
      → (r : ℕ) → r < length (missing_of k rx)
      → or_empty (get_or rx (k + get_or (rows_of k rx) r 0) none)
        ≡ add_columns k (get_or (rows_of k rx) r 0) 0 group (replicate len 0)
  row_shard enough r hr =
      let row = row_at_hand enough r hr in
      ap or_empty row.held ∙ parity_shard (get_or (rows_of k rx) r 0) row.index-lt

  -- A parity shard less what is known is the sum over what is missing.
  pub missing_sum :
      (j b : ℕ)
      → get_or (remove_known k j 0 (take k rx) (add_columns k j 0 group (replicate len 0))) b 0
        ≡ dot
            (length (missing_of k rx))
            (λ c. coef k j (get_or (missing_of k rx) c 0))
            (λ c. get_or (d (get_or (missing_of k rx) c 0)) b 0)
  missing_sum j b =
      let zeros = length-replicate {A = ℕ} len 0 in
      let f = term d len k j b in
      let read = get_or-add_columns d len k j b 0 group (replicate len 0) zeros group_from in
      get_or-remove_known d len k j b 0 (take k rx) (add_columns k j 0 group (replicate len 0))
        (length-add_columns k j 0 group (replicate len 0) ∙ zeros)
        (hold_take d len 0 k rx slots_hold)
      ∙ ap (λ t. bit_xor t (over (present 0 (take k rx)) f))
          (read
            ∙ ap (λ t. bit_xor t (over (range 0 k) f)) (get_or-zeros len b)
            ∙ bit_xor_comm 0 (over (range 0 k) f)
            ∙ bit_xor-zero (over (range 0 k) f)
            ∙ ap (λ t. over (range 0 t) f) (sym length-first))
      ∙ over-absent f 0 (take k rx)
      ∙ over-dot (coef k j) (λ i. get_or (d i) b 0) (missing_of k rx)

  abbrev pub right_sides : List Bytes
  right_sides =
      map (λ j. remove_known k j 0 (take k rx) (or_empty (get_or rx (k + j) none))) (rows_of k rx)

  pub right_side :
      k ≤ length (present 0 rx)
      → (r b : ℕ) → r < length (missing_of k rx)
      → get_or (get_or right_sides r []) b 0
        ≡ dot
            (length (missing_of k rx))
            (λ c. coef k (get_or (rows_of k rx) r 0) (get_or (missing_of k rx) c 0))
            (λ c. get_or (d (get_or (missing_of k rx) c 0)) b 0)
  right_side enough r b hr =
      let rows = length-rows enough in
      ap (λ s. get_or s b 0)
        (get_or-map_in (λ j. remove_known k j 0 (take k rx) (or_empty (get_or rx (k + j) none)))
            (rows_of k rx) r 0 [] (omega arith)
          ∙ ap (remove_known k (get_or (rows_of k rx) r 0) 0 (take k rx)) (row_shard enough r hr))
      ∙ missing_sum (get_or (rows_of k rx) r 0) b
