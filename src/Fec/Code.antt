-- ===== src/Fec/Code.antt =====
-- `encode_parity`, `reconstruct_data` and `invert` of crates/protocol/src/fec.rs. A shard is a list
-- of bytes; the code's index panics are out of reach, since the loops run over the lengths.
pub mod Shape
use game_streamer_agent.Base.{
  ℕ, zero, suc, ◌+◌, ◌-◌, Bool, true, false, not, ◌&&◌, ◌||◌, Option, none, some, List, [], ◌∷◌,
  ◌++◌, map, ltb, leb, ◌==◌, if◌then◌else◌, bit_xor, length, get_or, set, take, drop, replicate,
}
use game_streamer_agent.Fec.Field.{mul, inv, coef}

abbrev pub Bytes : Type 0
Bytes = List ℕ

-- The numbers from `i` on, `n` of them.
abbrev pub range : ℕ → ℕ → List ℕ
range i zero = []
range i (suc n) = i ∷ range (suc i) n

abbrev pub all_len : ℕ → List Bytes → Bool
all_len n [] = true
all_len n (d ∷ ds) = (length d == n) && all_len n ds

-- `for (o, &b) in out.iter_mut().zip(shard) { *o ^= mul(c, b) }`
unfoldable pub add_scaled : ℕ → Bytes → Bytes → Bytes
add_scaled c [] shard = []
add_scaled c (o ∷ out) [] = o ∷ out
add_scaled c (o ∷ out) (b ∷ shard) = bit_xor o (mul c b) ∷ add_scaled c out shard

-- The sum over the data shards from column `i` on, for parity row `j` of a group of `k`.
unfoldable pub add_columns : ℕ → ℕ → ℕ → List Bytes → Bytes → Bytes
add_columns k j i [] out = out
add_columns k j i (shard ∷ rest) out =
    add_columns k j (suc i) rest (add_scaled (coef k j i) out shard)

abbrev pub first_len : List Bytes → ℕ
first_len [] = 0
first_len (d ∷ ds) = length d

-- `none` is a failed assertion.
unfoldable pub encode_parity : List Bytes → ℕ → Option (List Bytes)
unfolding add_columns
encode_parity data_shards parity =
    let k = length data_shards in
    let len = first_len data_shards in
    if leb 1 k && leb (k + parity) 255 && all_len len data_shards
    then some (map (λ j. add_columns k j 0 data_shards (replicate len 0)) (range 0 parity))
    else none

abbrev pub is_none {ℓ} : {A : Type ℓ} → Option A → Bool
is_none none = true
is_none (some a) = false

-- The indices from `i` on of the absent, and of the present, entries.
unfoldable pub absent : ℕ → List (Option Bytes) → List ℕ
absent i [] = []
absent i (s ∷ ss) = if is_none s then i ∷ absent (suc i) ss else absent (suc i) ss

unfoldable pub present : ℕ → List (Option Bytes) → List ℕ
present i [] = []
present i (s ∷ ss) = if is_none s then present (suc i) ss else i ∷ present (suc i) ss

-- `shards.iter().flatten()`
unfoldable pub flat_some : List (Option Bytes) → List Bytes
flat_some [] = []
flat_some (none ∷ ss) = flat_some ss
flat_some (some b ∷ ss) = b ∷ flat_some ss

-- `m[r][c]`
abbrev pub entry : List Bytes → ℕ → ℕ → ℕ
entry m r c = get_or (get_or m r []) c 0

unfoldable pub identity : ℕ → List Bytes
identity n = map (λ i. map (λ j. if i == j then 1 else 0) (range 0 n)) (range 0 n)

-- `(col..n).find(|&r| a[r][col] != 0)`, over the `fuel` rows from `r` on.
unfoldable pub find_pivot : List Bytes → ℕ → ℕ → ℕ → Option ℕ
find_pivot a col r zero = none
find_pivot a col r (suc fuel) =
    let rest = find_pivot a col (suc r) fuel in if entry a r col == 0 then rest else some r

unfoldable pub swap_rows : List Bytes → ℕ → ℕ → List Bytes
swap_rows m i j = set (set m i (get_or m j [])) j (get_or m i [])

-- Every row but `col` that has something in column `col` of `a` loses that multiple of row `col`.
unfoldable pub clear_column : ℕ → List Bytes → List Bytes → ℕ → List Bytes → List Bytes
unfolding add_scaled
clear_column col a m r [] = []
clear_column col a m r (row ∷ rows) =
    (if not (r == col) && not (entry a r col == 0)
      then add_scaled (entry a r col) row (get_or m col [])
      else row)
    ∷ clear_column col a m (suc r) rows

-- One column of the elimination, on the matrix and on the inverse that is being built.
unfoldable pub reduce_column : ℕ → ℕ → List Bytes → List Bytes → List Bytes × List Bytes
unfolding swap_rows clear_column
reduce_column col pivot a m =
    let a1 = swap_rows a col pivot in
    let m1 = swap_rows m col pivot in
    let piv_inv = inv (entry a1 col col) in
    let a2 = set a1 col (map (λ x. mul x piv_inv) (get_or a1 col [])) in
    let m2 = set m1 col (map (λ x. mul x piv_inv) (get_or m1 col [])) in
    (clear_column col a2 a2 0 a2, clear_column col a2 m2 0 m2)

unfoldable pub invert_from : ℕ → ℕ → ℕ → List Bytes → List Bytes → Option (List Bytes)
unfolding find_pivot reduce_column
invert_from n col zero a m = some m
invert_from n col (suc rounds) a m = elim (find_pivot a col col (n - col)) [
  | none ↦ none
  | some pivot ↦ let (a', m') = reduce_column col pivot a m in invert_from n (suc col) rounds a' m'
]

unfoldable pub invert : List Bytes → Option (List Bytes)
unfolding identity invert_from
invert a = invert_from (length a) 0 (length a) a (identity (length a))

-- The parity shard less what the data shards at hand put into it.
unfoldable pub remove_known : ℕ → ℕ → ℕ → List (Option Bytes) → Bytes → Bytes
unfolding add_scaled
remove_known k j i [] row = row
remove_known k j i (none ∷ ss) row = remove_known k j (suc i) ss row
remove_known k j i (some shard ∷ ss) row =
    remove_known k j (suc i) ss (add_scaled (coef k j i) row shard)

abbrev pub or_empty : Option Bytes → Bytes
or_empty none = []
or_empty (some b) = b

-- One row of the inverse applied to the right-hand sides.
unfoldable pub combine : Bytes → List Bytes → Bytes → Bytes
unfolding add_scaled
combine (c ∷ cs) (row ∷ rows) out = combine cs rows (add_scaled c out row)
combine _ _ out = out

unfoldable pub write_missing :
    ℕ → List ℕ → List Bytes → List Bytes → List (Option Bytes) → List (Option Bytes)
unfolding combine
write_missing len (idx ∷ missing) (coefs ∷ rows) rhs shards =
    write_missing len missing rows rhs (set shards idx (some (combine coefs rhs (replicate len 0))))
write_missing len _ _ rhs shards = shards

-- The system for the missing shards, solved.
unfoldable pub solve : List (Option Bytes) → ℕ → ℕ → List ℕ → List ℕ → List (Option Bytes) × Bool
unfolding invert remove_known write_missing
solve shards k len missing parity_rows =
    let a = map (λ j. map (λ i. coef k j i) missing) parity_rows in
    elim (invert a) [
      | none ↦ (shards, false)
      | some a_inv ↦
          let rhs =
            map (λ j. remove_known k j 0 (take k shards) (or_empty (get_or shards (k + j) none)))
              parity_rows in
          (write_missing len missing a_inv rhs shards, true)
    ]

-- The shards afterwards, and whether the data is complete.
unfoldable pub reconstruct_data : List (Option Bytes) → ℕ → List (Option Bytes) × Bool
unfolding absent present flat_some solve
reconstruct_data shards k =
    let total = length shards in
    let missing = absent 0 (take k shards) in
    let parity_rows = take (length missing) (map (λ i. i - k) (present k (drop k shards))) in
    let len = first_len (flat_some shards) in
    if (k == 0 || ltb total k) || ltb 255 total
    then (shards, false)
    else if length missing == 0
    then (shards, true)
    else if ltb (length parity_rows) (length missing)
    then (shards, false)
    else if len == 0 || not (all_len len (flat_some shards))
    then (shards, false)
    else solve shards k len missing parity_rows
