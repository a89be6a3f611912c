-- ===== src/Fec/Recovery/Slots.antt =====
-- The slots that `reconstruct_data` of crates/protocol/src/fec.rs reads and writes.
use game_streamer_agent.Base.{
  ℕ, zero, suc, ◌+◌, ◌-◌, ◌≡◌, ◌<◌, ◌≤◌, ◌⊎◌, inl, inr, refl, sym, ap, ◌∙◌, subst, Option, none,
  some, List, [], ◌∷◌, map, arith, length, get_or, set, take, drop, replicate, length-set,
  ℕ_discrete,
}
use game_streamer_agent.Fec.Code.{Bytes, absent, present, combine, write_missing}
use game_streamer_agent.Fec.Matrix.{get_or-set_self, get_or-set_ne}
use game_streamer_agent.Fec.Matrix.Coefficients.{IsRising}
use game_streamer_agent.Fec.Recovery.{AreFrom, HoldFrom}

IsRising-weaken :
    (low low' : ℕ) (js : List ℕ) (high : ℕ)
    → low' ≤ low
    → IsRising low js high
    → IsRising low' js high
IsRising-weaken low low' [] high le h = tt
IsRising-weaken low low' (j ∷ js) high le (lo, rest) = (omega arith, rest)

IsRising-widen :
    (low : ℕ) (js : List ℕ) (high high' : ℕ)
    → high ≤ high'
    → IsRising low js high
    → IsRising low js high'
IsRising-widen low [] high high' le h = tt
IsRising-widen low (j ∷ js) high high' le (lo, (hi, rest)) =
    (lo, (omega arith, IsRising-widen (suc j) js high high' le rest))

pub absent-IsRising : (i : ℕ) (ss : List (Option Bytes)) → IsRising i (absent i ss) (i + length ss)
unfolding absent
absent-IsRising i [] = tt
absent-IsRising i (none ∷ ss) = (
  omega arith,
  (
    omega arith,
    IsRising-widen (suc i) (absent (suc i) ss) (suc i + length ss) _ (omega arith)
        (absent-IsRising (suc i) ss),
  ),
)
absent-IsRising i (some s ∷ ss) = IsRising-weaken (suc i) i (absent (suc i) ss) _ (omega arith) (
    IsRising-widen (suc i) (absent (suc i) ss) (suc i + length ss) _ (omega arith)
      (absent-IsRising (suc i) ss))

pub present-IsRising :
    (i : ℕ) (ss : List (Option Bytes)) → IsRising i (present i ss) (i + length ss)
unfolding present
present-IsRising i [] = tt
present-IsRising i (some s ∷ ss) = (
  omega arith,
  (
    omega arith,
    IsRising-widen (suc i) (present (suc i) ss) (suc i + length ss) _ (omega arith)
        (present-IsRising (suc i) ss),
  ),
)
present-IsRising i (none ∷ ss) = IsRising-weaken (suc i) i (present (suc i) ss) _ (omega arith) (
    IsRising-widen (suc i) (present (suc i) ss) (suc i + length ss) _ (omega arith)
      (present-IsRising (suc i) ss))

pub IsRising-minus :
    (k low : ℕ) (js : List ℕ) (high : ℕ)
    → k ≤ low
    → IsRising low js high
    → IsRising (low - k) (map (λ i. i - k) js) (high - k)
IsRising-minus k low [] high le h = tt
IsRising-minus k low (j ∷ js) high le (lo, (hi, rest)) = (
  omega arith,
  (
    omega arith,
    IsRising-weaken (suc j - k) (suc (j - k)) (map (λ i. i - k) js) (high - k) (omega arith)
        (IsRising-minus k (suc j) js high (omega arith) rest),
  ),
)

pub IsRising-take :
    (n low : ℕ) (js : List ℕ) (high : ℕ) → IsRising low js high → IsRising low (take n js) high
IsRising-take zero low js high h = tt
IsRising-take (suc n) low [] high h = tt
IsRising-take (suc n) low (j ∷ js) high (lo, (hi, rest)) =
    (lo, (hi, IsRising-take n (suc j) js high rest))

abbrev pub In : ℕ → List ℕ → Type 0
In i [] = ⊥
In i (j ∷ js) = (i ≡ j) ⊎ In i js

pub length-absent-present :
    (i : ℕ) (ss : List (Option Bytes)) → length (absent i ss) + length (present i ss) ≡ length ss
unfolding absent present
length-absent-present i [] = refl
length-absent-present i (none ∷ ss) = omega (arith, length-absent-present (suc i) ss)
length-absent-present i (some s ∷ ss) = omega (arith, length-absent-present (suc i) ss)

module _ (d : ℕ → Bytes) (len : ℕ) where
  -- Every slot holds its shard or is listed as absent.
  pub slot_cases :
      (i : ℕ) (ss : List (Option Bytes)) (t : ℕ)
      → HoldFrom d len i ss
      → t < length ss
      → (get_or ss t none ≡ some (d (i + t))) ⊎ In (i + t) (absent i ss)
  unfolding absent
  slot_cases i [] t h k = absurd (omega arith)
  slot_cases i (none ∷ ss) zero h k = inr (inl (omega arith))
  slot_cases i (some s ∷ ss) zero ((same, e), rest) k =
      let at : i + 0 ≡ i = omega arith in inl (ap some (same ∙ ap d (sym at)))
  slot_cases i (none ∷ ss) (suc t) h k =
      let next : suc i + t ≡ i + suc t = omega arith in
      elim (slot_cases (suc i) ss t h (omega arith)) [
        | inl e ↦ inl (e ∙ ap (λ u. some (d u)) next)
        | inr l ↦ inr (inr (subst (λ u. In u (absent (suc i) ss)) next l))
      ]
  slot_cases i (some s ∷ ss) (suc t) (this, rest) k =
      let next : suc i + t ≡ i + suc t = omega arith in
      elim (slot_cases (suc i) ss t rest (omega arith)) [
        | inl e ↦ inl (e ∙ ap (λ u. some (d u)) next)
        | inr l ↦ inr (subst (λ u. In u (absent (suc i) ss)) next l)
      ]

  -- A slot listed as present holds its shard.
  pub present_holds :
      (i : ℕ) (ss : List (Option Bytes)) (r : ℕ)
      → HoldFrom d len i ss
      → r < length (present i ss)
      → (t : ℕ) × (get_or (present i ss) r 0 ≡ i + t)
        × (get_or ss t none ≡ some (d (i + t)))
        × (length (d (i + t)) ≡ len)
  unfolding present
  present_holds i [] r h k = absurd (omega arith)
  present_holds i (none ∷ ss) r h k =
      let (t, at, holds, long) = present_holds (suc i) ss r h k in
      let next : suc i + t ≡ i + suc t = omega arith in
      (
        suc t,
        at ∙ next,
        holds ∙ ap (λ u. some (d u)) next,
        ap (λ u. length (d u)) (sym next) ∙ long,
      )
  present_holds i (some s ∷ ss) zero ((same, e), rest) k =
      let at : i ≡ i + 0 = omega arith in
      (0, at, ap some (same ∙ ap d at), ap (λ u. length (d u)) (sym at) ∙ ap length (sym same) ∙ e)
  present_holds i (some s ∷ ss) (suc r) (this, rest) k =
      let (t, at, holds, long) = present_holds (suc i) ss r rest (omega arith) in
      let next : suc i + t ≡ i + suc t = omega arith in
      (
        suc t,
        at ∙ next,
        holds ∙ ap (λ u. some (d u)) next,
        ap (λ u. length (d u)) (sym next) ∙ long,
      )

  -- The slots that are written, and those that held their shard before, hold it afterwards.
  pub write_missing-Held :
      (missing : List ℕ) (rows rhs : List Bytes) (shards : List (Option Bytes)) (low high i : ℕ)
      → length rows ≡ length missing
      → ((r : ℕ)
          → r < length missing
          → combine (get_or rows r []) rhs (replicate len 0) ≡ d (get_or missing r 0))
      → IsRising low missing high
      → high ≤ length shards
      → (get_or shards i none ≡ some (d i)) ⊎ In i missing
      → get_or (write_missing len missing rows rhs shards) i none ≡ some (d i)
  unfolding write_missing
  write_missing-Held [] rows rhs shards low high i same right rising fits (inl e) = e
  write_missing-Held [] rows rhs shards low high i same right rising fits (inr l) = elim l [ ]
  write_missing-Held (j ∷ js) [] rhs shards low high i same right rising fits here =
      absurd (omega arith)
  write_missing-Held (j ∷ js) (c ∷ rows) rhs shards low high i same right (lo, (hi, rest)) fits
        here =
      let new = some (combine c rhs (replicate len 0)) in
      let now : (get_or (set shards j new) i none ≡ some (d i)) ⊎ In i js = elim (ℕ_discrete j i) [
        | yes e ↦ inl (
            ap (λ t. get_or (set shards j new) t none) (sym e)
            ∙ get_or-set_self shards j new none (omega arith)
            ∙ ap some (right 0 (omega arith) ∙ ap d e))
        | no ne ↦ elim here [
          | inl e ↦ inl (get_or-set_ne shards j i new none ne ∙ e)
          | inr l ↦ elim l [ inl e ↦ absurd (ne (sym e)) | inr l ↦ inr l ]
        ]
      ] in
      write_missing-Held js rows rhs (set shards j new) (suc j) high i (omega arith)
        (λ r k. right (suc r) (omega arith)) rest (omega (arith, length-set shards j new)) now

  pub length-write_missing :
      (missing : List ℕ) (rows rhs : List Bytes) (shards : List (Option Bytes))
      → length (write_missing len missing rows rhs shards) ≡ length shards
  unfolding write_missing
  length-write_missing [] rows rhs shards = refl
  length-write_missing (j ∷ js) [] rhs shards = refl
  length-write_missing (j ∷ js) (c ∷ rows) rhs shards =
      length-write_missing js rows rhs _ ∙ length-set shards j _

  pub hold_take :
      (i n : ℕ) (ss : List (Option Bytes)) → HoldFrom d len i ss → HoldFrom d len i (take n ss)
  hold_take i zero ss h = tt
  hold_take i (suc n) [] h = tt
  hold_take i (suc n) (none ∷ ss) h = hold_take (suc i) n ss h
  hold_take i (suc n) (some s ∷ ss) (this, rest) = (this, hold_take (suc i) n ss rest)

  pub hold_drop :
      (i n : ℕ) (ss : List (Option Bytes))
      → HoldFrom d len i ss
      → HoldFrom d len (i + n) (drop n ss)
  hold_drop i zero ss h = let at : i ≡ i + 0 = omega arith in subst (λ u. HoldFrom d len u ss) at h
  hold_drop i (suc n) [] h = tt
  hold_drop i (suc n) (none ∷ ss) h =
      let next : suc i + n ≡ i + suc n = omega arith in
      subst (λ u. HoldFrom d len u (drop n ss)) next (hold_drop (suc i) n ss h)
  hold_drop i (suc n) (some s ∷ ss) (this, rest) =
      let next : suc i + n ≡ i + suc n = omega arith in
      subst (λ u. HoldFrom d len u (drop n ss)) next (hold_drop (suc i) n ss rest)

  -- Where every slot of the data holds its shard, the first slots are the data.
  pub take_data :
      (i : ℕ) (ds : List Bytes) (ss : List (Option Bytes))
      → AreFrom d len i ds
      → length ds ≤ length ss
      → ((t : ℕ) → t < length ds → get_or ss t none ≡ some (d (i + t)))
      → take (length ds) ss ≡ map some ds
  take_data i [] ss h le all = refl
  take_data i (s ∷ ds) [] h le all = absurd (omega arith)
  take_data i (s ∷ ds) (slot ∷ ss) ((same, e), rest) le all =
      let at : i + 0 ≡ i = omega arith in
      let first : slot ≡ some s = all 0 (omega arith) ∙ ap some (ap d at ∙ sym same) in
      let others = take_data (suc i) ds ss rest (omega arith) (λ t k.
        let next : i + suc t ≡ suc i + t = omega arith in
        all (suc t) (omega arith) ∙ ap (λ u. some (d u)) next) in
      ap (λ u. u ∷ take (length ds) ss) first ∙ ap (λ l. some s ∷ l) others
