-- ===== src/Keymap.antt =====
-- The keycode tables of crates/input/src/keymap.rs: a `match` on the usage is its arms, tried in order.
pub mod Injective
mod Tests
use game_streamer_agent.Base.{
  ℕ, Bool, true, false, Option, none, some, List, [], ◌∷◌, ◌==◌, if◌then◌else◌,
}

module _ {ℓ} {A : Type ℓ} where
  abbrev pub find : ℕ → List (ℕ × A) → Option A
  find usage [] = none
  find usage ((key, code) ∷ arms) =
      let rest = find usage arms in if key == usage then some code else rest

abbrev pub macos_arms : List (ℕ × ℕ)
macos_arms =
    (0x04, 0)
    ∷ (0x05, 11)
    ∷ (0x06, 8)
    ∷ (0x07, 2)
    ∷ (0x08, 14)
    ∷ (0x09, 3)
    ∷ (0x0a, 5)
    ∷ (0x0b, 4)
    ∷ (0x0c, 34)
    ∷ (0x0d, 38)
    ∷ (0x0e, 40)
    ∷ (0x0f, 37)
    ∷ (0x10, 46)
    ∷ (0x11, 45)
    ∷ (0x12, 31)
    ∷ (0x13, 35)
    ∷ (0x14, 12)
    ∷ (0x15, 15)
    ∷ (0x16, 1)
    ∷ (0x17, 17)
    ∷ (0x18, 32)
    ∷ (0x19, 9)
    ∷ (0x1a, 13)
    ∷ (0x1b, 7)
    ∷ (0x1c, 16)
    ∷ (0x1d, 6)
    ∷ (0x1e, 18)
    ∷ (0x1f, 19)
    ∷ (0x20, 20)
    ∷ (0x21, 21)
    ∷ (0x22, 23)
    ∷ (0x23, 22)
    ∷ (0x24, 26)
    ∷ (0x25, 28)
    ∷ (0x26, 25)
    ∷ (0x27, 29)
    ∷ (0x28, 36)
    ∷ (0x29, 53)
    ∷ (0x2a, 51)
    ∷ (0x2b, 48)
    ∷ (0x2c, 49)
    ∷ (0x2d, 27)
    ∷ (0x2e, 24)
    ∷ (0x2f, 33)
    ∷ (0x30, 30)
    ∷ (0x31, 42)
    ∷ (0x33, 41)
    ∷ (0x34, 39)
    ∷ (0x35, 50)
    ∷ (0x36, 43)
    ∷ (0x37, 47)
    ∷ (0x38, 44)
    ∷ (0x39, 57)
    ∷ (0x3a, 122)
    ∷ (0x3b, 120)
    ∷ (0x3c, 99)
    ∷ (0x3d, 118)
    ∷ (0x3e, 96)
    ∷ (0x3f, 97)
    ∷ (0x40, 98)
    ∷ (0x41, 100)
    ∷ (0x42, 101)
    ∷ (0x43, 109)
    ∷ (0x44, 103)
    ∷ (0x45, 111)
    ∷ (0x4f, 124)
    ∷ (0x50, 123)
    ∷ (0x51, 125)
    ∷ (0x52, 126)
    ∷ (0xe0, 59)
    ∷ (0xe1, 56)
    ∷ (0xe2, 58)
    ∷ (0xe3, 55)
    ∷ (0xe4, 62)
    ∷ (0xe5, 60)
    ∷ (0xe6, 61)
    ∷ (0xe7, 54)
    ∷ []

unfoldable pub hid_to_macos : ℕ → Option ℕ
hid_to_macos usage = find usage macos_arms

-- A scancode, and whether it is extended.
abbrev pub ext : ℕ → ℕ × Bool
ext code = (code, true)

abbrev pub plain : ℕ → ℕ × Bool
plain code = (code, false)

abbrev pub scancode_arms : List (ℕ × (ℕ × Bool))
scancode_arms =
    (0x04, plain 0x1e)
    ∷ (0x05, plain 0x30)
    ∷ (0x06, plain 0x2e)
    ∷ (0x07, plain 0x20)
    ∷ (0x08, plain 0x12)
    ∷ (0x09, plain 0x21)
    ∷ (0x0a, plain 0x22)
    ∷ (0x0b, plain 0x23)
    ∷ (0x0c, plain 0x17)
    ∷ (0x0d, plain 0x24)
    ∷ (0x0e, plain 0x25)
    ∷ (0x0f, plain 0x26)
    ∷ (0x10, plain 0x32)
    ∷ (0x11, plain 0x31)
    ∷ (0x12, plain 0x18)
    ∷ (0x13, plain 0x19)
    ∷ (0x14, plain 0x10)
    ∷ (0x15, plain 0x13)
    ∷ (0x16, plain 0x1f)
    ∷ (0x17, plain 0x14)
    ∷ (0x18, plain 0x16)
    ∷ (0x19, plain 0x2f)
    ∷ (0x1a, plain 0x11)
    ∷ (0x1b, plain 0x2d)
    ∷ (0x1c, plain 0x15)
    ∷ (0x1d, plain 0x2c)
    ∷ (0x1e, plain 0x02)
    ∷ (0x1f, plain 0x03)
    ∷ (0x20, plain 0x04)
    ∷ (0x21, plain 0x05)
    ∷ (0x22, plain 0x06)
    ∷ (0x23, plain 0x07)
    ∷ (0x24, plain 0x08)
    ∷ (0x25, plain 0x09)
    ∷ (0x26, plain 0x0a)
    ∷ (0x27, plain 0x0b)
    ∷ (0x28, plain 0x1c)
    ∷ (0x29, plain 0x01)
    ∷ (0x2a, plain 0x0e)
    ∷ (0x2b, plain 0x0f)
    ∷ (0x2c, plain 0x39)
    ∷ (0x2d, plain 0x0c)
    ∷ (0x2e, plain 0x0d)
    ∷ (0x2f, plain 0x1a)
    ∷ (0x30, plain 0x1b)
    ∷ (0x31, plain 0x2b)
    ∷ (0x33, plain 0x27)
    ∷ (0x34, plain 0x28)
    ∷ (0x35, plain 0x29)
    ∷ (0x36, plain 0x33)
    ∷ (0x37, plain 0x34)
    ∷ (0x38, plain 0x35)
    ∷ (0x39, plain 0x3a)
    ∷ (0x3a, plain 0x3b)
    ∷ (0x3b, plain 0x3c)
    ∷ (0x3c, plain 0x3d)
    ∷ (0x3d, plain 0x3e)
    ∷ (0x3e, plain 0x3f)
    ∷ (0x3f, plain 0x40)
    ∷ (0x40, plain 0x41)
    ∷ (0x41, plain 0x42)
    ∷ (0x42, plain 0x43)
    ∷ (0x43, plain 0x44)
    ∷ (0x44, plain 0x57)
    ∷ (0x45, plain 0x58)
    ∷ (0x47, plain 0x46)
    ∷ (0x49, ext 0x52)
    ∷ (0x4a, ext 0x47)
    ∷ (0x4b, ext 0x49)
    ∷ (0x4c, ext 0x53)
    ∷ (0x4d, ext 0x4f)
    ∷ (0x4e, ext 0x51)
    ∷ (0x4f, ext 0x4d)
    ∷ (0x50, ext 0x4b)
    ∷ (0x51, ext 0x50)
    ∷ (0x52, ext 0x48)
    ∷ (0x53, plain 0x45)
    ∷ (0x54, ext 0x35)
    ∷ (0x55, plain 0x37)
    ∷ (0x56, plain 0x4a)
    ∷ (0x57, plain 0x4e)
    ∷ (0x58, ext 0x1c)
    ∷ (0x59, plain 0x4f)
    ∷ (0x5a, plain 0x50)
    ∷ (0x5b, plain 0x51)
    ∷ (0x5c, plain 0x4b)
    ∷ (0x5d, plain 0x4c)
    ∷ (0x5e, plain 0x4d)
    ∷ (0x5f, plain 0x47)
    ∷ (0x60, plain 0x48)
    ∷ (0x61, plain 0x49)
    ∷ (0x62, plain 0x52)
    ∷ (0x63, plain 0x53)
    ∷ (0x65, ext 0x5d)
    ∷ (0xe0, plain 0x1d)
    ∷ (0xe1, plain 0x2a)
    ∷ (0xe2, plain 0x38)
    ∷ (0xe3, ext 0x5b)
    ∷ (0xe4, ext 0x1d)
    ∷ (0xe5, plain 0x36)
    ∷ (0xe6, ext 0x38)
    ∷ (0xe7, ext 0x5c)
    ∷ []

unfoldable pub hid_to_scancode : ℕ → Option (ℕ × Bool)
hid_to_scancode usage = find usage scancode_arms
