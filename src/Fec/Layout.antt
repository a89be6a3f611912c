-- ===== src/Fec/Layout.antt =====
-- `group_layout` of crates/protocol/src/fec.rs: how a frame's shards are split into groups.
pub mod Tiling
use game_streamer_agent.Base.{
  ℕ, zero, suc, ◌+◌, ◌-◌, ◌/◌, ◌%◌, max, List, [], ◌∷◌, ltb, if◌then◌else◌,
}

abbrev pub max_group_data : ℕ
max_group_data = 32

pub record FecGroup : Type 0 where
  pub data_start : ℕ
  pub data_len : ℕ
  pub parity_start : ℕ
  pub parity_len : ℕ

abbrev pub div_ceil : ℕ → ℕ → ℕ
div_ceil a b = (a + (b - 1)) / b

-- The number of groups of a frame with `k` data shards.
abbrev pub group_count : ℕ → ℕ
group_count k = max (div_ceil k max_group_data) 1

-- The share of group `g`: the first `rem` groups have one more.
abbrev pub share : ℕ → ℕ → ℕ → ℕ
share base rem g = base + (if ltb g rem then 1 else 0)

-- The iterator's remaining `rounds` groups, from group `g` and the two running starts.
unfoldable pub layout_from : ℕ → ℕ → ℕ → ℕ → ℕ → ℕ → ℕ → ℕ → List FecGroup
layout_from data_base data_rem parity_base parity_rem zero g data_start parity_start = []
layout_from data_base data_rem parity_base parity_rem (suc rounds) g data_start parity_start =
    record {
      data_start = data_start;
      data_len = share data_base data_rem g;
      parity_start = parity_start;
      parity_len = share parity_base parity_rem g;
    }
    ∷ layout_from data_base data_rem parity_base parity_rem rounds (suc g)
        (data_start + share data_base data_rem g) (parity_start + share parity_base parity_rem g)

unfoldable pub group_layout : ℕ → ℕ → List FecGroup
unfolding layout_from
group_layout k m =
    let groups = group_count k in
    layout_from (k / groups) (k % groups) (m / groups) (m % groups) groups 0 0 k
