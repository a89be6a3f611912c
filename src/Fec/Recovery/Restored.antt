-- ===== src/Fec/Recovery/Restored.antt =====
-- `reconstruct_data` of crates/protocol/src/fec.rs on a group that `encode_parity` encoded.
use game_streamer_agent.Base.{
  ℕ, ◌+◌, ◌≡◌, ◌<◌, ◌≤◌, ◌⊎◌, inl, inr, refl, sym, ap, ◌∙◌, subst, Bool, true, false, not, ◌||◌,
  Option, none, some, List, [], ◌∷◌, ◌++◌, map, arith, length, get_or, take, All, ltb, ◌==◌,
  ℕ_discrete,
}
use game_streamer_agent.Fec.Code.{
  Bytes, first_len, all_len, flat_some, present, encode_parity, solve, reconstruct_data,
}
use game_streamer_agent.Fec.Recovery.Slots.{
  In, slot_cases, write_missing-Held, length-write_missing, hold_take, take_data,
}
use game_streamer_agent.Fec.Recovery.Erased.{
  IsErased, Encoded, encode_parity-Encoded, get_or-take, all_len-flat_some, first_len-flat_some,
}
use game_streamer_agent.Fec.Recovery.Group.{
  shard_at, missing_of, rows_of, group_from, slots_hold, length-rx, length-first, missing-IsRising,
  length-rows, right_sides,
}
use game_streamer_agent.Fec.Recovery.Solved.{solved}

none-In : (js : List ℕ) (i : ℕ) → length js ≡ 0 → In i js → ⊥
none-In [] i e l = l
none-In (j ∷ js) i e l = absurd (omega arith)

abbrev Restored : List Bytes → List (Option Bytes) × Bool → Type 0
Restored group r = (r.1 ≡ true) × (take (length group) r.0 ≡ map some group)

module _ (group parity : List Bytes) (m : ℕ) (enc : Encoded group parity m)
    (rx : List (Option Bytes)) (erased : IsErased rx (group ++ parity))
    (bytes : All (All (λ v. v < 256)) group) (enough : length group ≤ length (present 0 rx))
    (full : 0 < first_len group) where
  abbrev k : ℕ
  k = length group

  abbrev d : ℕ → Bytes
  d = shard_at group parity

  -- Each data slot holds its shard or is among the missing.
  data_cases : (i : ℕ) → i < k → (get_or rx i none ≡ some (d i)) ⊎ In i (missing_of k rx)
  data_cases i h =
      let start : 0 + i ≡ i = omega arith in
      let first = length-first group parity m enc rx erased in
      elim (slot_cases d (first_len group) 0 (take k rx) i
        (hold_take d (first_len group) 0 k rx (slots_hold group parity m enc rx erased))
        (omega arith)) [
          | inl e ↦ inl (sym (get_or-take rx k i none h) ∙ e ∙ ap (λ u. some (d u)) start)
          | inr l ↦ inr (subst (λ u. In u (missing_of k rx)) start l)
        ]

  -- Slots that all hold their shard are the data.
  all_held :
      (ss : List (Option Bytes))
      → length ss ≡ length rx
      → ((i : ℕ) → i < k → get_or ss i none ≡ some (d i))
      → take k ss ≡ map some group
  all_held ss e held =
      let total = length-rx group parity m enc rx erased in
      take_data d (first_len group) 0 group ss (group_from group parity m enc rx erased)
        (omega arith)
        (λ t h. let at : t ≡ 0 + t = omega arith in held t h ∙ ap (λ u. some (d u)) at)

  nothing_missing : length (missing_of k rx) ≡ 0 → take k rx ≡ map some group
  nothing_missing e = all_held rx refl (λ i h. elim (data_cases i h) [
    | inl held ↦ held
    | inr l ↦ absurd (none-In (missing_of k rx) i e l)
  ])

  solve-Restored :
      0 < length (missing_of k rx)
      → Restored group (solve rx k (first_len group) (missing_of k rx) (rows_of k rx))
  unfolding solve
  solve-Restored lost =
      let (out, comes, long, gives) = solved group parity m enc rx erased bytes enough lost in
      rw (comes, solve)
        (
          refl,
          all_held _
              (length-write_missing d (first_len group) (missing_of k rx) out
                (right_sides group parity m enc rx erased) rx)
              (λ i h.
                write_missing-Held d (first_len group) (missing_of k rx) out
                  (right_sides group parity m enc rx erased) rx 0 k i long gives
                  (missing-IsRising group parity m enc rx erased)
                  (omega (arith, length-rx group parity m enc rx erased)) (data_cases i h)),
        )

  pub reconstructed : Restored group (reconstruct_data rx k)
  unfolding reconstruct_data
  reconstructed =
      let total = length-rx group parity m enc rx erased in
      let positive = enc.at_least in
      let room = enc.at_most in
      let rows = length-rows group parity m enc rx erased enough in
      let sizes : ((k == 0 || ltb (length rx) k) || ltb 255 (length rx)) ≡ false = ground arith in
      let holds = slots_hold group parity m enc rx erased in
      let one_len = all_len-flat_some d (first_len group) 0 rx holds in
      let len : first_len (flat_some rx) ≡ first_len group =
        first_len-flat_some d (first_len group) 0 rx holds (omega arith) in
      elim (ℕ_discrete (length (missing_of k rx)) 0) [
        | yes e ↦
            let whole : (length (missing_of k rx) == 0) ≡ true = ground arith in
            rw (sizes, whole) (refl, nothing_missing e)
        | no ne ↦
            let some_lost : (length (missing_of k rx) == 0) ≡ false = ground arith in
            let enough_rows : ltb (length (rows_of k rx)) (length (missing_of k rx)) ≡ false =
              ground arith in
            let good : ((first_len group == 0) || not (all_len (first_len group) (flat_some rx)))
                ≡ false =
              ground arith in
            rw (sizes, some_lost, enough_rows, len, good) (solve-Restored (omega arith))
      ]

-- Any `k` shards of a group of `k` give its data back: when `encode_parity` made the parity of a
-- group of shards of bytes whose first is not empty, and at least as many of all the shards as there
-- is data arrived, whichever they are, each in its slot, then `reconstruct_data` reports the data
-- complete and its first slots hold exactly the data.
pub reconstruct_data-encode_parity :
    (group parity : List Bytes) (m : ℕ) (rx : List (Option Bytes))
    → encode_parity group m ≡ some parity
    → All (All (λ v. v < 256)) group
    → 0 < first_len group
    → IsErased rx (group ++ parity)
    → length group ≤ length (present 0 rx)
    → ((reconstruct_data rx (length group)).1 ≡ true)
      × (take (length group) (reconstruct_data rx (length group)).0 ≡ map some group)
reconstruct_data-encode_parity group parity m rx encoded bytes full erased enough =
    reconstructed group parity m (encode_parity-Encoded group parity m encoded) rx erased bytes
      enough full
