-- ===== src/Fec/Code/Shape.antt =====
-- How many parity shards `encode_parity` makes, and how long they are.
use game_streamer_agent.Base.{
  ℕ, zero, suc, ◌+◌, ◌≡◌, ◌≤◌, refl, ap, ◌∙◌, subst, Bool, true, some, List, [], ◌∷◌, map, arith,
  leb, ◌==◌, ◌&&◌, length, take, drop, replicate, All, length-map, length-replicate,
}
use game_streamer_agent.Fec.Code.{Bytes, range, all_len, add_scaled, add_columns, encode_parity}

pub length-range : (i n : ℕ) → length (range i n) ≡ n
length-range i zero = refl
length-range i (suc n) = ap suc (length-range (suc i) n)

pub length-add_scaled : (c : ℕ) (out shard : Bytes) → length (add_scaled c out shard) ≡ length out
unfolding add_scaled
length-add_scaled c [] shard = refl
length-add_scaled c (o ∷ out) [] = refl
length-add_scaled c (o ∷ out) (b ∷ shard) = ap suc (length-add_scaled c out shard)

pub length-add_columns :
    (k j i : ℕ) (ss : List Bytes) (out : Bytes) → length (add_columns k j i ss out) ≡ length out
unfolding add_columns
length-add_columns k j i [] out = refl
length-add_columns k j i (s ∷ ss) out =
    length-add_columns k j (suc i) ss _ ∙ length-add_scaled _ out s

pub all_len-drop :
    (n len : ℕ) (ss : List Bytes) → all_len len ss ≡ true → all_len len (drop n ss) ≡ true
all_len-drop zero len ss h = h
all_len-drop (suc n) len [] h = h
all_len-drop (suc n) len (s ∷ ss) h = all_len-drop n len ss (ground arith)

pub all_len-take :
    (n len : ℕ) (ss : List Bytes) → all_len len ss ≡ true → all_len len (take n ss) ≡ true
all_len-take zero len ss h = refl
all_len-take (suc n) len [] h = refl
all_len-take (suc n) len (s ∷ ss) h = ground (arith, all_len-take n len ss)

abbrev pub HasLength : ℕ → Bytes → Type 0
HasLength n p = length p ≡ n

zeros : (n : ℕ) → length (replicate {A = ℕ} n 0) ≡ n
zeros n = length-replicate n 0

pub rows_lengths :
    (k len : ℕ) (ss : List Bytes) (js : List ℕ)
    → All (HasLength len) (map (λ j. add_columns k j 0 ss (replicate len 0)) js)
rows_lengths k len ss [] = tt
rows_lengths k len ss (j ∷ js) =
    (length-add_columns k j 0 ss (replicate len 0) ∙ zeros len, rows_lengths k len ss js)

-- The parity of a group, with what is known of it.
pub record ParityShards (len m : ℕ) (group : List Bytes) : Type 0 where
  pub shards : List Bytes
  pub result : encode_parity group m ≡ some shards
  pub count : length shards ≡ m
  pub lengths : All (HasLength len) shards

same_len : (n : ℕ) (b : Bool) → b ≡ true → ((n == n) && b) ≡ true
same_len n b h = ground arith

asserted :
    (n m : ℕ) (b : Bool) → 1 ≤ n → n + m ≤ 255 → b ≡ true → (leb 1 n && leb (n + m) 255 && b) ≡ true
asserted n m b h small e = ground arith

first_Parity :
    (m : ℕ) (s : Bytes) (ss : List Bytes)
    → length (s ∷ ss) + m ≤ 255
    → all_len (length s) ss ≡ true
    → ParityShards (length s) m (s ∷ ss)
unfolding encode_parity
first_Parity m s ss small same = record {
  shards =
      map (λ j. add_columns (length (s ∷ ss)) j 0 (s ∷ ss) (replicate (length s) 0)) (range 0 m);
  result =
      rw
        (asserted (length (s ∷ ss)) m _ (omega arith) small
          (same_len (length s) (all_len (length s) ss) same))
        refl;
  count = length-map (range 0 m) _ ∙ length-range 0 m;
  lengths = rows_lengths (length (s ∷ ss)) (length s) (s ∷ ss) (range 0 m);
}

-- A group of 1 or more data shards of one length, with at most 255 shards in all, gets the parity
-- shards that are asked for, as long as the data shards: no assertion fails.
pub encode_parity-ParityShards :
    (len m : ℕ) (group : List Bytes)
    → 1 ≤ length group
    → length group + m ≤ 255
    → all_len len group ≡ true
    → ParityShards len m group
encode_parity-ParityShards len m [] h small same = absurd (omega arith)
encode_parity-ParityShards len m (s ∷ ss) h small same =
    let e : length s ≡ len = ground arith in
    subst (λ n. ParityShards n m (s ∷ ss)) e (first_Parity m s ss small (rw e (ground arith)))
