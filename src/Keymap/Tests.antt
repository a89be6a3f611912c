-- ===== src/Keymap/Tests.antt =====
-- The key tables at the usage of `w`.
use game_streamer_agent.Base.{ℕ, ◌≡◌, refl, false, some}
use game_streamer_agent.Keymap.{hid_to_scancode}
use game_streamer_agent.Keymap.Injective.{hid_to_scancode-injective}

abbrev key_w : ℕ
key_w = 0x1a

scan_w : hid_to_scancode key_w ≡ some (0x11, false)
unfolding hid_to_scancode
scan_w = refl

hid_to_scancode-injective_example : key_w ≡ key_w
hid_to_scancode-injective_example =
    hid_to_scancode-injective key_w key_w (0x11, false) scan_w scan_w
