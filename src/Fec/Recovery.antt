-- ===== src/Fec/Recovery.antt =====
-- The bytes that `encode_parity` and `reconstruct_data` of crates/protocol/src/fec.rs add up, at one
-- position of the shards.
pub mod Slots
pub mod Erased
pub mod Group
pub mod Solved
pub mod Restored
use game_streamer_agent.Base.{
  ℕ, zero, suc, ◌+◌, ◌≡◌, ◌≢◌, ◌<◌, ◌≤◌, refl, sym, ap, ap₂, ◌∙◌, subst, Option, none, some, List,
  [], ◌∷◌, map, arith, bit_xor, length, get_or, All,
}
use game_streamer_agent.Base.Xor.{bit_xor_comm, bit_xor_assoc, bit_xor_self, bit_xor-zero}
use game_streamer_agent.Fec.Code.{
  Bytes, range, add_scaled, add_columns, absent, present, remove_known, combine,
}
use game_streamer_agent.Fec.Code.Shape.{HasLength, length-add_scaled}
use game_streamer_agent.Fec.Field.{mul, coef}
use game_streamer_agent.Fec.Matrix.{get_or-add_scaled}
use game_streamer_agent.Fec.Matrix.Dot.{dot, exchange}

-- The sum over a list of indices.
abbrev pub over : List ℕ → (ℕ → ℕ) → ℕ
over [] f = 0
over (i ∷ is) f = bit_xor (f i) (over is f)

-- The shards from index `i` on are the given ones, all of one length.
abbrev pub AreFrom : (ℕ → Bytes) → ℕ → ℕ → List Bytes → Type 0
AreFrom d len i [] = Unit
AreFrom d len i (s ∷ ss) = ((s ≡ d i) × (length s ≡ len)) × AreFrom d len (suc i) ss

-- The slots from index `i` on are empty or hold the given shards.
abbrev pub HoldFrom : (ℕ → Bytes) → ℕ → ℕ → List (Option Bytes) → Type 0
HoldFrom d len i [] = Unit
HoldFrom d len i (none ∷ ss) = HoldFrom d len (suc i) ss
HoldFrom d len i (some s ∷ ss) = ((s ≡ d i) × (length s ≡ len)) × HoldFrom d len (suc i) ss

module _ (d : ℕ → Bytes) (len k j b : ℕ) where
  abbrev pub term : ℕ → ℕ
  term i = mul (coef k j i) (get_or (d i) b 0)

  -- A shard at hand added to a row.
  added_at :
      (i : ℕ) (row s : Bytes)
      → length row ≡ len
      → s ≡ d i
      → length s ≡ len
      → get_or (add_scaled (coef k j i) row s) b 0 ≡ bit_xor (get_or row b 0) (term i)
  added_at i row s e same e' =
      get_or-add_scaled (coef k j i) row s b (e ∙ sym e')
      ∙ ap (λ t. bit_xor (get_or row b 0) (mul (coef k j i) (get_or t b 0))) same

  pub get_or-add_columns :
      (i : ℕ) (ss : List Bytes) (out : Bytes)
      → length out ≡ len
      → AreFrom d len i ss
      → get_or (add_columns k j i ss out) b 0
        ≡ bit_xor (get_or out b 0) (over (range i (length ss)) term)
  unfolding add_columns
  get_or-add_columns i [] out e h = sym (bit_xor-zero (get_or out b 0))
  get_or-add_columns i (s ∷ ss) out e ((same, e'), rest) =
      get_or-add_columns (suc i) ss (add_scaled (coef k j i) out s)
        (length-add_scaled (coef k j i) out s ∙ e) rest
      ∙ ap (λ t. bit_xor t (over (range (suc i) (length ss)) term)) (added_at i out s e same e')
      ∙ bit_xor_assoc (get_or out b 0) (term i) (over (range (suc i) (length ss)) term)

  pub get_or-remove_known :
      (i : ℕ) (ss : List (Option Bytes)) (row : Bytes)
      → length row ≡ len
      → HoldFrom d len i ss
      → get_or (remove_known k j i ss row) b 0 ≡ bit_xor (get_or row b 0) (over (present i ss) term)
  unfolding remove_known present
  get_or-remove_known i [] row e h = sym (bit_xor-zero (get_or row b 0))
  get_or-remove_known i (none ∷ ss) row e h = get_or-remove_known (suc i) ss row e h
  get_or-remove_known i (some s ∷ ss) row e ((same, e'), rest) =
      get_or-remove_known (suc i) ss (add_scaled (coef k j i) row s)
        (length-add_scaled (coef k j i) row s ∙ e) rest
      ∙ ap (λ t. bit_xor t (over (present (suc i) ss) term)) (added_at i row s e same e')
      ∙ bit_xor_assoc (get_or row b 0) (term i) (over (present (suc i) ss) term)

-- Every index is absent or present.
over-split :
    (f : ℕ → ℕ) (i : ℕ) (ss : List (Option Bytes))
    → over (range i (length ss)) f ≡ bit_xor (over (absent i ss) f) (over (present i ss) f)
unfolding absent present
over-split f i [] = sym (bit_xor-zero 0)
over-split f i (none ∷ ss) =
    ap (bit_xor (f i)) (over-split f (suc i) ss)
    ∙ sym (bit_xor_assoc (f i) (over (absent (suc i) ss) f) (over (present (suc i) ss) f))
over-split f i (some s ∷ ss) =
    let a = over (absent (suc i) ss) f in
    let p = over (present (suc i) ss) f in
    ap (bit_xor (f i)) (over-split f (suc i) ss)
    ∙ sym (bit_xor_assoc (f i) a p)
    ∙ ap (λ t. bit_xor t p) (bit_xor_comm (f i) a)
    ∙ bit_xor_assoc a (f i) p

-- What is known of a sum taken away leaves the rest.
pub over-absent :
    (f : ℕ → ℕ) (i : ℕ) (ss : List (Option Bytes))
    → bit_xor (over (range i (length ss)) f) (over (present i ss) f) ≡ over (absent i ss) f
over-absent f i ss =
    let a = over (absent i ss) f in
    let p = over (present i ss) f in
    ap (λ t. bit_xor t p) (over-split f i ss)
    ∙ bit_xor_assoc a p p
    ∙ ap (bit_xor a) (bit_xor_self p)
    ∙ bit_xor-zero a

-- The first place of a row split off.
dot_front :
    (n : ℕ) (f x : ℕ → ℕ)
    → dot (suc n) f x ≡ bit_xor (mul (f 0) (x 0)) (dot n (λ c. f (suc c)) (λ c. x (suc c)))
unfolding dot
dot_front zero f x = bit_xor_comm 0 (mul (f 0) (x 0))
dot_front (suc n) f x =
    ap (λ t. bit_xor t (mul (f (suc n)) (x (suc n)))) (dot_front n f x)
    ∙ bit_xor_assoc (mul (f 0) (x 0)) (dot n (λ c. f (suc c)) (λ c. x (suc c)))
        (mul (f (suc n)) (x (suc n)))

pub over-dot :
    (g h : ℕ → ℕ) (js : List ℕ)
    → over js (λ t. mul (g t) (h t))
      ≡ dot (length js) (λ c. g (get_or js c 0)) (λ c. h (get_or js c 0))
unfolding dot
over-dot g h [] = refl
over-dot g h (j ∷ js) =
    ap (bit_xor (mul (g j) (h j))) (over-dot g h js)
    ∙ sym (dot_front (length js) (λ c. g (get_or (j ∷ js) c 0)) (λ c. h (get_or (j ∷ js) c 0)))

-- Shards of one length.
abbrev pub AreLong : ℕ → List Bytes → Type 0
AreLong len = All (HasLength len)

pub get_or-combine :
    (coefs : Bytes) (rows : List Bytes) (out : Bytes) (len b : ℕ)
    → length coefs ≡ length rows
    → length out ≡ len
    → AreLong len rows
    → get_or (combine coefs rows out) b 0
      ≡ bit_xor
          (get_or out b 0)
          (dot (length rows) (λ c. get_or coefs c 0) (λ c. get_or (get_or rows c []) b 0))
unfolding combine dot
get_or-combine [] [] out len b same e h = sym (bit_xor-zero (get_or out b 0))
get_or-combine [] (row ∷ rows) out len b same e h = absurd (omega arith)
get_or-combine (c ∷ cs) [] out len b same e h = absurd (omega arith)
get_or-combine (c ∷ cs) (row ∷ rows) out len b same e (long, rest) =
    get_or-combine cs rows (add_scaled c out row) len b (omega arith)
      (length-add_scaled c out row ∙ e) rest
    ∙ ap
        (λ t.
          bit_xor t (dot (length rows) (λ i. get_or cs i 0) (λ i. get_or (get_or rows i []) b 0)))
        (get_or-add_scaled c out row b (e ∙ sym long))
    ∙ bit_xor_assoc (get_or out b 0) (mul c (get_or row b 0)) _
    ∙ ap (bit_xor (get_or out b 0)) (
        sym (
          dot_front (length rows) (λ i. get_or (c ∷ cs) i 0)
            (λ i. get_or (get_or (row ∷ rows) i []) b 0)))

pub length-combine :
    (coefs : Bytes) (rows : List Bytes) (out : Bytes) → length (combine coefs rows out) ≡ length out
unfolding combine
length-combine [] rows out = refl
length-combine (c ∷ cs) [] out = refl
length-combine (c ∷ cs) (row ∷ rows) out =
    length-combine cs rows (add_scaled c out row) ∙ length-add_scaled c out row
