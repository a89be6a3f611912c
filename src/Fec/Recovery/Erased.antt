-- ===== src/Fec/Recovery/Erased.antt =====
-- A group of shards of crates/protocol/src/fec.rs of which some were lost.
use game_streamer_agent.Base.{
  ℕ, zero, suc, ◌+◌, ◌≡◌, ◌<◌, ◌≤◌, inl, inr, refl, sym, ap, ap₂, ◌∙◌, Bool-cases, true, ◌&&◌, ◌==◌,
  leb, Option, none, some, List, [], ◌∷◌, ◌++◌, map, arith, length, get_or, take, drop, replicate,
  All,
}
use game_streamer_agent.Fec.Code.{
  Bytes, range, all_len, first_len, flat_some, present, add_columns, encode_parity,
}
use game_streamer_agent.Fec.Recovery.{AreFrom, HoldFrom, AreLong}

-- Each slot is empty or holds its shard.
abbrev pub IsErased : List (Option Bytes) → List Bytes → Type 0
IsErased [] [] = Unit
IsErased [] (s ∷ ss) = ⊥
IsErased (slot ∷ rx) [] = ⊥
IsErased (none ∷ rx) (s ∷ ss) = IsErased rx ss
IsErased (some t ∷ rx) (s ∷ ss) = (t ≡ s) × IsErased rx ss

pub length-erased :
    (rx : List (Option Bytes)) (ss : List Bytes) → IsErased rx ss → length rx ≡ length ss
length-erased [] [] h = refl
length-erased [] (s ∷ ss) h = elim h [ ]
length-erased (none ∷ rx) [] h = elim h [ ]
length-erased (some t ∷ rx) [] h = elim h [ ]
length-erased (none ∷ rx) (s ∷ ss) h = ap suc (length-erased rx ss h)
length-erased (some t ∷ rx) (s ∷ ss) (e, h) = ap suc (length-erased rx ss h)

module _ (d : ℕ → Bytes) (len : ℕ) where
  pub hold_erased :
      (i : ℕ) (rx : List (Option Bytes)) (ss : List Bytes)
      → IsErased rx ss
      → AreFrom d len i ss
      → HoldFrom d len i rx
  hold_erased i [] [] h a = tt
  hold_erased i [] (s ∷ ss) h a = elim h [ ]
  hold_erased i (none ∷ rx) [] h a = elim h [ ]
  hold_erased i (some t ∷ rx) [] h a = elim h [ ]
  hold_erased i (none ∷ rx) (s ∷ ss) h (this, rest) = hold_erased (suc i) rx ss h rest
  hold_erased i (some t ∷ rx) (s ∷ ss) (e, h) ((same, long), rest) =
      ((e ∙ same, ap length e ∙ long), hold_erased (suc i) rx ss h rest)

  pub from_self :
      (i : ℕ) (ss : List Bytes)
      → AreLong len ss
      → ((t : ℕ) → t < length ss → get_or ss t [] ≡ d (i + t))
      → AreFrom d len i ss
  from_self i [] long at = tt
  from_self i (s ∷ ss) (this, rest) at =
      let here : i + 0 ≡ i = omega arith in
      (
        (at 0 (omega arith) ∙ ap d here, this),
        from_self (suc i) ss rest (λ t k.
            let next : i + suc t ≡ suc i + t = omega arith in at (suc t) (omega arith) ∙ ap d next),
      )

  pub all_len-flat_some :
      (i : ℕ) (ss : List (Option Bytes)) → HoldFrom d len i ss → all_len len (flat_some ss) ≡ true
  unfolding flat_some
  all_len-flat_some i [] h = refl
  all_len-flat_some i (none ∷ ss) h = all_len-flat_some (suc i) ss h
  all_len-flat_some i (some s ∷ ss) ((same, long), rest) =
      let others = all_len-flat_some (suc i) ss rest in
      let this : (length s == len) ≡ true = ground arith in ground arith

  pub first_len-flat_some :
      (i : ℕ) (ss : List (Option Bytes))
      → HoldFrom d len i ss
      → 0 < length (present i ss)
      → first_len (flat_some ss) ≡ len
  unfolding flat_some present
  first_len-flat_some i [] h k = absurd (omega arith)
  first_len-flat_some i (none ∷ ss) h k = first_len-flat_some (suc i) ss h k
  first_len-flat_some i (some s ∷ ss) ((same, long), rest) k = long

pub get_or-append_left :
    (xs ys : List Bytes) (i : ℕ) → i < length xs → get_or (xs ++ ys) i [] ≡ get_or xs i []
get_or-append_left [] ys i h = absurd (omega arith)
get_or-append_left (x ∷ xs) ys zero h = refl
get_or-append_left (x ∷ xs) ys (suc i) h = get_or-append_left xs ys i (omega arith)

pub get_or-append_right :
    (xs ys : List Bytes) (k t : ℕ) → length xs ≡ k → get_or (xs ++ ys) (k + t) [] ≡ get_or ys t []
get_or-append_right [] ys k t e = let at : k + t ≡ t = omega arith in ap (λ u. get_or ys u []) at
get_or-append_right (x ∷ xs) ys zero t e = absurd (omega arith)
get_or-append_right (x ∷ xs) ys (suc k) t e =
    let at : suc k + t ≡ suc (k + t) = omega arith in
    ap (λ u. get_or (x ∷ (xs ++ ys)) u []) at ∙ get_or-append_right xs ys k t (omega arith)

pub list_ext :
    (xs ys : Bytes) → length xs ≡ length ys → ((b : ℕ) → get_or xs b 0 ≡ get_or ys b 0) → xs ≡ ys
list_ext [] [] e h = refl
list_ext [] (y ∷ ys) e h = absurd (omega arith)
list_ext (x ∷ xs) [] e h = absurd (omega arith)
list_ext (x ∷ xs) (y ∷ ys) e h =
    ap₂ (λ a l. a ∷ l) (h 0) (list_ext xs ys (omega arith) (λ b. h (suc b)))

pub get_or-drop :
    {A : Type 0} (ss : List A) (n t : ℕ) (e : A) → get_or (drop n ss) t e ≡ get_or ss (n + t) e
get_or-drop ss zero t e = let at : t ≡ 0 + t = omega arith in ap (λ u. get_or ss u e) at
get_or-drop [] (suc n) t e = refl
get_or-drop (s ∷ ss) (suc n) t e =
    let at : suc (n + t) ≡ suc n + t = omega arith in
    get_or-drop ss n t e ∙ ap (λ u. get_or (s ∷ ss) u e) at

pub get_or-take :
    {A : Type 0} (ss : List A) (n t : ℕ) (e : A) → t < n → get_or (take n ss) t e ≡ get_or ss t e
get_or-take ss zero t e h = absurd (omega arith)
get_or-take [] (suc n) t e h = refl
get_or-take (s ∷ ss) (suc n) zero e h = refl
get_or-take (s ∷ ss) (suc n) (suc t) e h = get_or-take ss n t e (omega arith)

pub length-present_split :
    (i n : ℕ) (ss : List (Option Bytes))
    → length (present i ss) ≡ length (present i (take n ss)) + length (present (i + n) (drop n ss))
unfolding present
length-present_split i zero ss =
    let at : i ≡ i + 0 = omega arith in let same = ap (λ u. length (present u ss)) at in omega arith
length-present_split i (suc n) [] = refl
length-present_split i (suc n) (none ∷ ss) =
    let at : suc i + n ≡ i + suc n = omega arith in
    length-present_split (suc i) n ss
    ∙ ap (λ u. length (present (suc i) (take n ss)) + length (present u (drop n ss))) at
length-present_split i (suc n) (some s ∷ ss) =
    let at : suc i + n ≡ i + suc n = omega arith in
    let rest =
      length-present_split (suc i) n ss
      ∙ ap (λ u. length (present (suc i) (take n ss)) + length (present u (drop n ss))) at in
    omega arith

byte_at : (s : Bytes) (b : ℕ) → All (λ v. v < 256) s → get_or s b 0 < 256
byte_at [] b h = omega arith
byte_at (v ∷ s) zero (this, rest) = this
byte_at (v ∷ s) (suc b) (this, rest) = byte_at s b rest

-- The bytes of shards, also past their ends.
pub bytes_at :
    (ss : List Bytes) (i b : ℕ) → All (All (λ v. v < 256)) ss → get_or (get_or ss i []) b 0 < 256
bytes_at [] i b h = omega arith
bytes_at (s ∷ ss) zero b (this, rest) = byte_at s b this
bytes_at (s ∷ ss) (suc i) b (this, rest) = bytes_at ss i b rest

long_all_len : (len : ℕ) (ss : List Bytes) → all_len len ss ≡ true → AreLong len ss
long_all_len len [] h = tt
long_all_len len (s ∷ ss) h =
    let this : length s ≡ len = ground arith in
    let rest : all_len len ss ≡ true = ground arith in (this, long_all_len len ss rest)

-- What the assertions of `encode_parity` say of a group that it encodes, and what it makes of it.
pub record Encoded (group parity : List Bytes) (m : ℕ) : Type 0 where
  pub at_least : 1 ≤ length group
  pub at_most : length group + m ≤ 255
  pub long : AreLong (first_len group) group
  pub made :
      parity
      ≡ map (λ j. add_columns (length group) j 0 group (replicate (first_len group) 0)) (range 0 m)

from_some : Option (List Bytes) → List Bytes
from_some none = []
from_some (some ss) = ss

pub encode_parity-Encoded :
    (group parity : List Bytes) (m : ℕ)
    → encode_parity group m ≡ some parity
    → Encoded group parity m
unfolding encode_parity from_some
encode_parity-Encoded group parity m e =
    elim (Bool-cases
      (leb 1 (length group) && leb (length group + m) 255 && all_len (first_len group) group)) [
        | inl yes_all ↦
            let made = rw yes_all at e in
            let whole : all_len (first_len group) group ≡ true = ground arith in
            record {
              at_least = ground arith;
              at_most = ground arith;
              long = long_all_len (first_len group) group whole;
              made = sym (ap from_some made);
            }
        | inr not_all ↦ let failed = rw not_all at e in absurd (ground arith)
      ]
