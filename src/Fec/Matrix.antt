-- ===== src/Fec/Matrix.antt =====
-- The entries of the matrices of `invert` in crates/protocol/src/fec.rs under its row operations.

pub mod Dot
pub mod Shape
pub mod Elimination
pub mod Reduction
pub mod Kernel
pub mod Pivot
pub mod Inverse
pub mod Cauchy
pub mod Independent
pub mod Coefficients
use game_streamer_agent.Base.{
  ℕ, zero, suc, ◌+◌, ◌≡◌, ◌≢◌, ◌<◌, refl, sym, ap, ◌∙◌, subst, Bool, ℕ_discrete, Bool-cases, inl,
  inr, true, false, not, ◌&&◌, List, [], ◌∷◌, map, arith, ◌==◌, if◌then◌else◌, bit_xor, length,
  get_or, set, length-set,
}
use game_streamer_agent.Base.Xor.{bit_xor-zero}
use game_streamer_agent.Fec.Code.{Bytes, entry, add_scaled, swap_rows, clear_column}
use game_streamer_agent.Fec.Code.Shape.{length-add_scaled}
use game_streamer_agent.Fec.Field.{mul}
use game_streamer_agent.Fec.Field.Laws.{mul_comm, zero-mul}

module _ {ℓ} {A : Type ℓ} where
  pub get_or-set_self :
      (xs : List A) (i : ℕ) (v d : A) → i < length xs → get_or (set xs i v) i d ≡ v
  get_or-set_self [] i v d h = absurd (omega arith)
  get_or-set_self (x ∷ xs) zero v d h = refl
  get_or-set_self (x ∷ xs) (suc i) v d h = get_or-set_self xs i v d (omega arith)

  pub get_or-set_ne :
      (xs : List A) (i j : ℕ) (v d : A) → i ≢ j → get_or (set xs i v) j d ≡ get_or xs j d
  get_or-set_ne [] i j v d h = refl
  get_or-set_ne (x ∷ xs) zero zero v d h = absurd (h refl)
  get_or-set_ne (x ∷ xs) zero (suc j) v d h = refl
  get_or-set_ne (x ∷ xs) (suc i) zero v d h = refl
  get_or-set_ne (x ∷ xs) (suc i) (suc j) v d h = get_or-set_ne xs i j v d (λ e. h (ap suc e))

get_or-map : (f : ℕ → ℕ) (xs : Bytes) (i : ℕ) → f 0 ≡ 0 → get_or (map f xs) i 0 ≡ f (get_or xs i 0)
get_or-map f [] i z = sym z
get_or-map f (x ∷ xs) zero z = refl
get_or-map f (x ∷ xs) (suc i) z = get_or-map f xs i z

-- Where row `r` comes from when rows `i` and `j` are swapped.
abbrev pub swapped : ℕ → ℕ → ℕ → ℕ
swapped i j r = if r == j then i else if r == i then j else r

pub get_or-swap_rows :
    (m : List Bytes) (i j r : ℕ)
    → i < length m
    → j < length m
    → get_or (swap_rows m i j) r [] ≡ get_or m (swapped i j r) []
unfolding swap_rows
get_or-swap_rows m i j r hi hj = elim (ℕ_discrete r j) [
  | yes e ↦
      subst (λ t. get_or (swap_rows m i j) t [] ≡ get_or m (swapped i j t) []) (sym e)
        (get_or-set_self (set m i (get_or m j [])) j (get_or m i []) []
            (rw (length-set m i (get_or m j [])) hj)
          ∙ ap (λ t. get_or m t []) (sym (ground arith)))
  | no ne ↦
      get_or-set_ne (set m i (get_or m j [])) j r (get_or m i []) [] (λ e. ne (sym e))
      ∙ elim (ℕ_discrete r i) [
        | yes e ↦
            subst (λ t. get_or (set m i (get_or m j [])) t [] ≡ get_or m (swapped i j r) []) (sym e)
              (get_or-set_self m i (get_or m j []) [] hi ∙ ap (λ t. get_or m t []) (ground arith))
        | no ne' ↦
            get_or-set_ne m i r (get_or m j []) [] (λ e. ne' (sym e))
            ∙ ap (λ t. get_or m t []) (ground arith)
      ]
]

pub entry-scaled :
    (m : List Bytes) (col k r c : ℕ)
    → col < length m
    → entry (set m col (map (λ x. mul x k) (get_or m col []))) r c
      ≡ (if r == col then mul (entry m col c) k else entry m r c)
entry-scaled m col k r c h = elim (ℕ_discrete r col) [
  | yes e ↦
      let same : (r == col) ≡ true = ground arith in
      rw same (
        ap (λ t. entry (set m col (map (λ x. mul x k) (get_or m col []))) t c) e
        ∙ ap (λ row. get_or row c 0) (get_or-set_self m col _ [] h)
        ∙ get_or-map (λ x. mul x k) (get_or m col []) c (zero-mul k))
  | no ne ↦
      let other : (r == col) ≡ false = ground arith in
      rw other (ap (λ row. get_or row c 0) (get_or-set_ne m col r _ [] (λ e. ne (sym e))))
]

pub get_or-add_scaled :
    (k : ℕ) (out shard : Bytes) (i : ℕ)
    → length out ≡ length shard
    → get_or (add_scaled k out shard) i 0 ≡ bit_xor (get_or out i 0) (mul k (get_or shard i 0))
unfolding add_scaled
get_or-add_scaled k [] [] i e = sym (ap (bit_xor 0) (mul_comm k 0 ∙ zero-mul k))
get_or-add_scaled k [] (b ∷ shard) i e = absurd (omega arith)
get_or-add_scaled k (o ∷ out) [] i e = absurd (omega arith)
get_or-add_scaled k (o ∷ out) (b ∷ shard) zero e = refl
get_or-add_scaled k (o ∷ out) (b ∷ shard) (suc i) e = get_or-add_scaled k out shard i (omega arith)

cleared_row :
    (col : ℕ) (a m : List Bytes) (r : ℕ) (rows : List Bytes) (i : ℕ)
    → i < length rows
    → get_or (clear_column col a m r rows) i [] ≡ (
        if not (r + i == col) && not (entry a (r + i) col == 0)
        then add_scaled (entry a (r + i) col) (get_or rows i []) (get_or m col [])
        else get_or rows i [])
unfolding clear_column
cleared_row col a m r [] i h = absurd (omega arith)
cleared_row col a m r (row ∷ rows) zero h = let whole : r + 0 ≡ r = omega arith in rw whole
cleared_row col a m r (row ∷ rows) (suc i) h =
    let next : r + suc i ≡ suc r + i = omega arith in
    cleared_row col a m (suc r) rows i (omega arith)
    ∙ ap
        (λ t.
          if not (t == col) && not (entry a t col == 0)
          then add_scaled (entry a t col) (get_or rows i []) (get_or m col [])
          else get_or rows i [])
        (sym next)

top_row :
    (col : ℕ) (a m : List Bytes) (r : ℕ)
    → r < length m
    → get_or (clear_column col a m 0 m) r [] ≡ (
        if not (r == col) && not (entry a r col == 0)
        then add_scaled (entry a r col) (get_or m r []) (get_or m col [])
        else get_or m r [])
top_row col a m r h =
    let whole : 0 + r ≡ r = omega arith in
    subst
      (λ t. get_or (clear_column col a m 0 m) r [] ≡ (
        if not (t == col) && not (entry a t col == 0)
        then add_scaled (entry a t col) (get_or m r []) (get_or m col [])
        else get_or m r []))
      whole (cleared_row col a m 0 m r h)

pub get_or-clear_column :
    (col : ℕ) (a m : List Bytes)
    → col < length m
    → get_or (clear_column col a m 0 m) col [] ≡ get_or m col []
get_or-clear_column col a m h = top_row col a m col h ∙ ground arith

-- The other rows lose their multiple, be it 0.
pub entry-cleared :
    (col : ℕ) (a m : List Bytes) (r c : ℕ)
    → r < length m
    → r ≢ col
    → length (get_or m r []) ≡ length (get_or m col [])
    → entry (clear_column col a m 0 m) r c
      ≡ bit_xor (entry m r c) (mul (entry a r col) (entry m col c))
entry-cleared col a m r c h ne same = elim (ℕ_discrete (entry a r col) 0) [
  | yes e ↦
      let kept : (not (r == col) && not (entry a r col == 0)) ≡ false = ground arith in
      ap (λ row. get_or row c 0) (top_row col a m r h)
      ∙ rw kept (
          sym (
            ap (bit_xor (entry m r c))
              (ap (λ t. mul t (entry m col c)) e ∙ zero-mul (entry m col c))
            ∙ bit_xor-zero (entry m r c)))
  | no ne0 ↦
      let lost : (not (r == col) && not (entry a r col == 0)) ≡ true = ground arith in
      ap (λ row. get_or row c 0) (top_row col a m r h)
      ∙ rw lost (get_or-add_scaled (entry a r col) (get_or m r []) (get_or m col []) c same)
]

length-clear_column :
    (col : ℕ) (a m : List Bytes) (r : ℕ) (rows : List Bytes)
    → length (clear_column col a m r rows) ≡ length rows
unfolding clear_column
length-clear_column col a m r [] = refl
length-clear_column col a m r (row ∷ rows) = ap suc (length-clear_column col a m (suc r) rows)

pub wide-clear_column :
    (col : ℕ) (a m : List Bytes) (r : ℕ)
    → r < length m
    → length (get_or (clear_column col a m 0 m) r []) ≡ length (get_or m r [])
wide-clear_column col a m r h =
    ap length (top_row col a m r h)
    ∙ elim (Bool-cases (not (r == col) && not (entry a r col == 0))) [
      | inl e ↦ rw e (length-add_scaled (entry a r col) (get_or m r []) (get_or m col []))
      | inr e ↦ rw e
    ]
