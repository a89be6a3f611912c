-- ===== src/Keymap/Injective.antt =====
-- The key tables as functions of the usage.
use game_streamer_agent.Base.{
  ℕ, ◌+◌, ◌≡◌, ◌≢◌, refl, sym, ap, Bool, Bool-cases, true, not, ◌&&◌, inl, inr, some, List, [], ◌∷◌,
  ◌==◌, if◌then◌else◌, arith,
}
use game_streamer_agent.Keymap.{find, macos_arms, scancode_arms, hid_to_macos, hid_to_scancode}

both_true : {a b : Bool} → (a && b) ≡ true → (a ≡ true) × (b ≡ true)
both_true e = (ground arith, ground arith)

module _ {ℓ} {A : Type ℓ} (tag : A → ℕ) where
  -- No arm has a code with the tag `n`.
  abbrev fresh : ℕ → List (ℕ × A) → Bool
  fresh n [] = true
  fresh n ((key, code) ∷ arms) = not (tag code == n) && fresh n arms

  abbrev distinct : List (ℕ × A) → Bool
  distinct [] = true
  distinct ((key, code) ∷ arms) = fresh (tag code) arms && distinct arms

  some_tag : (x y : A) → some x ≡ some y → tag x ≡ tag y
  some_tag x y e = ap tag (cc)

  find-fresh :
      (u n : ℕ) (v : A) (arms : List (ℕ × A))
      → fresh n arms ≡ true
      → find u arms ≡ some v
      → tag v ≢ n
  find-fresh u n v [] f e = absurd cc
  find-fresh u n v ((key, code) ∷ arms) f e = elim (Bool-cases (key == u)) [
    | inl z ↦
        let same : tag code ≡ tag v = some_tag code v (rw z at e) in λ t. absurd (ground arith)
    | inr z ↦ find-fresh u n v arms (ground arith) (rw z at e)
  ]

  -- A code is not found again among fresh arms.
  clash :
      {a b : ℕ} (w : ℕ) (code v : A) (arms : List (ℕ × A))
      → fresh (tag code) arms ≡ true
      → some code ≡ some v
      → find w arms ≡ some v
      → a ≡ b
  clash w code v arms d e f = absurd (find-fresh w (tag code) v arms d f (sym (some_tag code v e)))

  find-injective :
      (u w : ℕ) (v : A) (arms : List (ℕ × A))
      → distinct arms ≡ true
      → find u arms ≡ some v
      → find w arms ≡ some v
      → u ≡ w
  find-injective u w v [] d e f = absurd cc
  find-injective u w v ((key, code) ∷ arms) d e f = elim (Bool-cases (key == u)) [
    | inl z ↦ elim (Bool-cases (key == w)) [
      | inl y ↦ ground arith
      | inr y ↦ clash w code v arms (both_true d).0 (rw z at e) (rw y at f)
    ]
    | inr z ↦ elim (Bool-cases (key == w)) [
      | inl y ↦ sym (clash u code v arms (both_true d).0 (rw y at f) (rw z at e))
      | inr y ↦ find-injective u w v arms (both_true d).1 (rw z at e) (rw y at f)
    ]
  ]

macos_distinct : distinct (λ code. code) macos_arms ≡ true
macos_distinct = refl

-- Plain and extended codes apart.
abbrev scan_tag : ℕ × Bool → ℕ
scan_tag (code, extended) = if extended then code + 256 else code

scancode_distinct : distinct scan_tag scancode_arms ≡ true
scancode_distinct = refl

-- On macOS no two usages are mapped to one keycode: an injected key tells which key was pressed.
pub hid_to_macos-injective : (u w v : ℕ) → hid_to_macos u ≡ some v → hid_to_macos w ≡ some v → u ≡ w
unfolding hid_to_macos
hid_to_macos-injective u w v e f = find-injective (λ code. code) u w v macos_arms macos_distinct e f

-- On Windows no two usages are mapped to one scancode with the same mark of an extended key.
pub hid_to_scancode-injective :
    (u w : ℕ) (v : ℕ × Bool) → hid_to_scancode u ≡ some v → hid_to_scancode w ≡ some v → u ≡ w
unfolding hid_to_scancode
hid_to_scancode-injective u w v e f =
    find-injective scan_tag u w v scancode_arms scancode_distinct e f
