-- ===== src/Wire/Bytes.antt =====
-- Bytes, big-endian numbers and checked slices, as the parsers of crates/protocol/src/datagram.rs
-- use them, with the errors of crates/core/src/error.rs.
use native.Mathlib.Numerals.{unary_clauses}
use native.Mathlib.Nat.{zero-add, add-zero}
use game_streamer_agent.Base.{
  ◌⊎◌, ℕ, zero, suc, ◌+◌, ◌*◌, ◌/◌, ◌%◌, ◌^◌, ◌≤◌, ◌<◌, ◌≡◌, refl, Bool, true, false, ◌&&◌, none,
  some, List, [], ◌∷◌, ◌++◌, arith, ltb, leb, if◌then◌else◌, length, get_elem?, slice_of, All, take,
  drop, length-drop, ap,
}

-- Why `chunk_video_frame` refuses a frame.
pub data Refusal : Type 0 where
  small_datagram : Refusal
  many_chunks : ℕ → Refusal

pub data ProtocolError : Type 0 where
  too_short : ℕ → ℕ → ProtocolError
  unknown_datagram_type unknown_frame_kind : ℕ → ProtocolError
  invalid_chunk : ℕ → ℕ → ProtocolError
  unsupported_version : ℕ → ProtocolError
  serialize : Refusal → ProtocolError
  deserialize : List ℕ → ProtocolError

-- A call returns a value, returns an error, or panics.
pub data Outcome {ℓ} (A : Type ℓ) : Type ℓ where
  ok : A → Outcome A
  err : ProtocolError → Outcome A
  panic : Outcome A

infixl 5 ◌>>=◌ ◌>>◌
abbrev pub ◌>>=◌ {ℓ κ} : {A : Type ℓ} {B : Type κ} → Outcome A → (A → Outcome B) → Outcome B
ok a >>= f = f a
err e >>= f = err e
panic >>= f = panic

abbrev pub ◌>>◌ {ℓ} : {B : Type ℓ} → Outcome (Unit {0}) → Outcome B → Outcome B
m >> k = m >>= λ _. k

abbrev pub refuse_if : Bool → ProtocolError → Outcome (Unit {0})
refuse_if true e = err e
refuse_if false e = ok tt

abbrev pub IsByte : ℕ → Type 0
IsByte b = b < 256

abbrev pub U16 : ℕ → Type 0
U16 n = n < 0x1_0000

abbrev pub U32 : ℕ → Type 0
U32 n = n < 0x1_0000_0000

-- `d[i]`
abbrev pub index {ℓ} : {A : Type ℓ} → List A → ℕ → Outcome A
index d i = elim (get_elem? d i) [ none ↦ panic | some b ↦ ok b ]

-- `&d[a..b]`
abbrev pub slice {ℓ} : {A : Type ℓ} → List A → ℕ → ℕ → Outcome (List A)
slice d a b = if leb a b && leb b (length d) then ok (slice_of d a b) else panic

abbrev pub be_value : ℕ → List ℕ → ℕ
be_value acc [] = acc
be_value acc (b ∷ bs) = be_value (acc * 256 + b) bs

-- `v.to_be_bytes()` of a number of `n` bytes
abbrev pub to_be_bytes : ℕ → ℕ → List ℕ
to_be_bytes zero v = []
to_be_bytes (suc n) v = v / 256 ^ n % 256 ∷ to_be_bytes n v

-- `from_be_bytes(d[a..b].try_into().expect("sized"))`
abbrev pub from_be_bytes : List ℕ → ℕ → ℕ → Outcome ℕ
from_be_bytes d a b = do bs ← slice d a b; ok (be_value 0 bs)

pub be_value-to_be_bytes_two : (v : ℕ) → U16 v → be_value 0 (to_be_bytes 2 v) ≡ v
be_value-to_be_bytes_two v h = omega arith

pub be_value-to_be_bytes_four : (v : ℕ) → U32 v → be_value 0 (to_be_bytes 4 v) ≡ v
be_value-to_be_bytes_four v h = omega arith

-- The checks on a datagram of `n` bytes or more.
pub not_short : (n : ℕ) (d : List ℕ) → n ≤ length d → ltb (length d) n ≡ false
not_short n d h = ground arith

pub within : (n b : ℕ) (d : List ℕ) → n ≤ length d → b ≤ n → leb b (length d) ≡ true
within n b d h k = ground arith

pub leb_refl : (n : ℕ) → leb n n ≡ true
leb_refl n = ground arith

pub get_elem?-IsSome : (d : List ℕ) (i : ℕ) → i < length d → (b : ℕ) × (get_elem? d i ≡ some b)
get_elem?-IsSome [] i h = absurd (omega arith)
get_elem?-IsSome (b ∷ d) zero h = (b, refl)
get_elem?-IsSome (b ∷ d) (suc i) h = get_elem?-IsSome d i (omega arith)

pub get_elem?-IsByte : (d : List ℕ) (i b : ℕ) → All IsByte d → get_elem? d i ≡ some b → IsByte b
get_elem?-IsByte [] i b a h = cc
get_elem?-IsByte (x ∷ d) zero b a h = ground arith
get_elem?-IsByte (x ∷ d) (suc i) b a h = get_elem?-IsByte d i b a.1 h

pub drop-drop : (m n : ℕ) (d : List ℕ) → drop m (drop n d) ≡ drop (n + m) d
drop-drop m zero d = rw zero-add
drop-drop zero (suc n) [] = simp add-zero
drop-drop (suc m) (suc n) [] = simp unary_clauses
drop-drop m (suc n) (x ∷ d) =
    let e : suc n + m ≡ suc (n + m) = omega arith in rw e (drop-drop m n d)

pub All-drop : (n : ℕ) (d : List ℕ) → All IsByte d → All IsByte (drop n d)
All-drop zero d a = a
All-drop (suc n) [] a = a
All-drop (suc n) (x ∷ d) a = All-drop n d a.1

pub take_all : (n : ℕ) (d : List ℕ) → length d ≤ n → take n d ≡ d
take_all zero [] h = refl
take_all zero (x ∷ d) h = absurd (omega arith)
take_all (suc n) [] h = refl
take_all (suc n) (x ∷ d) h = ap (λ l. x ∷ l) (take_all n d (omega arith))

pub slice_of_rest : (n : ℕ) (d : List ℕ) → slice_of d n (length d) ≡ drop n d
slice_of_rest n d = take_all _ (drop n d) (omega (arith, length-drop n d))

-- A number that was read from its bytes is written as those bytes.
two_front :
    (d : List ℕ)
    → All IsByte d
    → 2 ≤ length d
    → to_be_bytes 2 (be_value 0 (take 2 d)) ++ drop 2 d ≡ d
two_front [] a h = absurd (omega arith)
two_front (x ∷ []) a h = absurd (omega arith)
two_front (x ∷ y ∷ d) a h = ground arith

four_front :
    (d : List ℕ)
    → All IsByte d
    → 4 ≤ length d
    → to_be_bytes 4 (be_value 0 (take 4 d)) ++ drop 4 d ≡ d
four_front [] a h = absurd (omega arith)
four_front (x ∷ []) a h = absurd (omega arith)
four_front (x ∷ y ∷ []) a h = absurd (omega arith)
four_front (x ∷ y ∷ z ∷ []) a h = absurd (omega arith)
four_front (x ∷ y ∷ z ∷ w ∷ d) a h = ground arith

be_value_two_front : (d : List ℕ) → All IsByte d → U16 (be_value 0 (take 2 d))
be_value_two_front [] a = omega arith
be_value_two_front (x ∷ []) a = omega arith
be_value_two_front (x ∷ y ∷ d) a = omega arith

be_value_four_front : (d : List ℕ) → All IsByte d → U32 (be_value 0 (take 4 d))
be_value_four_front [] a = omega arith
be_value_four_front (x ∷ []) a = omega arith
be_value_four_front (x ∷ y ∷ []) a = omega arith
be_value_four_front (x ∷ y ∷ z ∷ []) a = omega arith
be_value_four_front (x ∷ y ∷ z ∷ w ∷ d) a = omega arith

module _ (d : List ℕ) (bytes : All IsByte d) (n : ℕ) where
  pub be_value_two-U16 : U16 (be_value 0 (take 2 (drop n d)))
  be_value_two-U16 = be_value_two_front (drop n d) (All-drop n d bytes)

  pub be_value_four-U32 : U32 (be_value 0 (take 4 (drop n d)))
  be_value_four-U32 = be_value_four_front (drop n d) (All-drop n d bytes)

  pub two_back :
      (v : ℕ)
      → v ≡ be_value 0 (take 2 (drop n d))
      → n + 2 ≤ length d
      → to_be_bytes 2 v ++ drop (n + 2) d ≡ drop n d
  two_back v e h =
      rw (e, ← drop-drop 2 n d)
        (two_front (drop n d) (All-drop n d bytes) (omega (arith, length-drop n d)))

  pub four_back :
      (v : ℕ)
      → v ≡ be_value 0 (take 4 (drop n d))
      → n + 4 ≤ length d
      → to_be_bytes 4 v ++ drop (n + 4) d ≡ drop n d
  four_back v e h =
      rw (e, ← drop-drop 4 n d)
        (four_front (drop n d) (All-drop n d bytes) (omega (arith, length-drop n d)))

pub one_back : (d : List ℕ) (n b : ℕ) → get_elem? d n ≡ some b → b ∷ drop (suc n) d ≡ drop n d
one_back [] n b h = cc
one_back (x ∷ d) zero b h = ap (λ y. y ∷ d) (ground arith)
one_back (x ∷ d) (suc n) b h = one_back d n b h

pub length_cases : (n : ℕ) (d : List ℕ) → (length d < n) ⊎ (n ≤ length d)
length_cases n d = grind arith
