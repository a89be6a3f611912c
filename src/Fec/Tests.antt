-- ===== src/Fec/Tests.antt =====
-- Runs of the erasure code, and the theorems at concrete inputs.
use game_streamer_agent.Base.{
  arith, All, ◌<◌, ◌⊎◌, inl, ◌≢◌, ◌≤◌, bit_xor, length, take, ℕ, ◌≡◌, refl, Option, none, some,
  List, [], ◌∷◌, map, true, false,
}
use game_streamer_agent.Fec.Field.{exp_at, log_at, mul, inv, coef, build_tables}
use game_streamer_agent.Fec.Layout.{group_layout}
use game_streamer_agent.Fec.Layout.Tiling.{Tiles, Fits, group_layout-Tiles, group_layout-Fits}
use game_streamer_agent.Fec.Field.Laws.{mul_field, coef_lem}
use game_streamer_agent.Fec.Code.Shape.{ParityShards, encode_parity-ParityShards}
use game_streamer_agent.Fec.Code.{
  Bytes, add_scaled, encode_parity, present, entry, invert, reconstruct_data,
}
use game_streamer_agent.Fec.Matrix.Dot.{AreBytes, dot}
use game_streamer_agent.Fec.Matrix.Shape.{IsMatrix}
use game_streamer_agent.Fec.Matrix.Coefficients.{coefficients, invert-coefficients}
use game_streamer_agent.Fec.Recovery.Restored.{reconstruct_data-encode_parity}

abbrev four_shards : List Bytes
four_shards = (1 ∷ 2 ∷ 3 ∷ []) ∷ (40 ∷ 50 ∷ 60 ∷ []) ∷ (255 ∷ 0 ∷ 7 ∷ []) ∷ (9 ∷ 9 ∷ 9 ∷ []) ∷ []

-- Both first shards are lost and come back from the other two and the two parity shards.
abbrev recovered : Option (List Bytes) → List (Option Bytes)
recovered none = []
recovered (some parity) =
    take 4
      (reconstruct_data
        (none ∷ none ∷ some (255 ∷ 0 ∷ 7 ∷ []) ∷ some (9 ∷ 9 ∷ 9 ∷ []) ∷ map some parity) 4).0

two_losses : recovered (encode_parity four_shards 2) ≡ map some four_shards
unfolding encode_parity reconstruct_data mul exp_at log_at inv build_tables coef
two_losses = refl

-- Two losses are too many for one parity shard.
one_parity :
    (reconstruct_data (none ∷ none ∷ some (3 ∷ []) ∷ some (4 ∷ []) ∷ some (5 ∷ []) ∷ []) 4).1
    ≡ false
unfolding reconstruct_data
one_parity = refl

group_layout-Tiles_example : Tiles 0 70 70 75 (group_layout 70 5)
group_layout-Tiles_example = group_layout-Tiles 70 5

group_layout-Fits_example : All Fits (group_layout 70 5)
group_layout-Fits_example = group_layout-Fits 70 5 (omega arith) (inl (omega arith))

abbrev some_byte : ℕ
some_byte = 87

abbrev other_byte : ℕ
other_byte = 131

mul_field_example :
    (mul some_byte other_byte < 256)
    × (mul some_byte other_byte ≡ mul other_byte some_byte)
    × (mul (mul some_byte other_byte) 200 ≡ mul some_byte (mul other_byte 200))
    × (mul some_byte (bit_xor other_byte 200)
        ≡ bit_xor (mul some_byte other_byte) (mul some_byte 200))
    × (mul 1 some_byte ≡ some_byte)
    × ((some_byte ≡ 0) ⊎ ((other_byte ≡ 0) ⊎ (mul some_byte other_byte ≢ 0)))
mul_field_example = mul_field some_byte other_byte 200 (omega arith) (omega arith) (omega arith)

coef_lem_example : (mul (bit_xor 5 2) (coef 4 1 2) ≡ 1) × (coef 4 1 2 < 256) × (coef 4 1 2 ≢ 0)
coef_lem_example = coef_lem 4 1 2 (omega arith) (omega arith)

encode_parity-ParityShards_example : ParityShards 3 2 four_shards
encode_parity-ParityShards_example =
    encode_parity-ParityShards 3 2 four_shards (omega arith) (omega arith) refl

abbrev two_parities : List Bytes
two_parities = (232 ∷ 37 ∷ 189 ∷ []) ∷ (215 ∷ 92 ∷ 119 ∷ []) ∷ []

-- A data shard and a parity shard are lost.
abbrev received : List (Option Bytes)
received =
    some (1 ∷ 2 ∷ 3 ∷ [])
    ∷ none
    ∷ some (255 ∷ 0 ∷ 7 ∷ [])
    ∷ some (9 ∷ 9 ∷ 9 ∷ [])
    ∷ none
    ∷ some (215 ∷ 92 ∷ 119 ∷ [])
    ∷ []

encoded : encode_parity four_shards 2 ≡ some two_parities
unfolding encode_parity add_scaled mul exp_at log_at build_tables coef
encoded = refl

four_present : 4 ≤ length (present 0 received)
unfolding present
four_present = omega arith

four_bytes : All (All (λ v. v < 256)) four_shards
four_bytes = (
  (omega arith, (omega arith, (omega arith, tt))),
  (
    (omega arith, (omega arith, (omega arith, tt))),
    (
      (omega arith, (omega arith, (omega arith, tt))),
      ((omega arith, (omega arith, (omega arith, tt))), tt),
    ),
  ),
)

reconstruct_data-encode_parity_example :
    ((reconstruct_data received 4).1 ≡ true)
    × (take 4 (reconstruct_data received 4).0 ≡ map some four_shards)
reconstruct_data-encode_parity_example =
    reconstruct_data-encode_parity four_shards two_parities 2 received encoded four_bytes
      (omega arith) (refl, (refl, (refl, (refl, tt)))) four_present

abbrev first_two : List ℕ
first_two = 0 ∷ 1 ∷ []

invert-coefficients_example :
    (out : List Bytes) × (invert (coefficients 4 first_two first_two) ≡ some out)
    × IsMatrix 2 out
    × ((x y : ℕ → ℕ)
        → AreBytes x
        → AreBytes y
        → ((r : ℕ) → r < 2 → dot 2 (entry (coefficients 4 first_two first_two) r) x ≡ y r)
        → (r : ℕ) → r < 2
        → dot 2 (entry out r) y ≡ x r)
invert-coefficients_example =
    invert-coefficients 4 2 first_two first_two refl refl (omega arith)
      (omega arith, (omega arith, (omega arith, (omega arith, tt)))) 2 (omega arith) (omega arith)
      (omega arith, (omega arith, (omega arith, (omega arith, tt))))
