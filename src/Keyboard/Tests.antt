-- ===== src/Keyboard/Tests.antt =====
-- A key behind two interrupts without one.
use multi_process.Base.{ℕ, ◌≡◌, refl, false, List, [], ◌∷◌}
use multi_process.Keyboard.{Keyboard, key_interrupt, await, read}

abbrev kb : Keyboard
kb = record { key_pressed = false; key_code = 0 }

-- An empty buffer, and a key that is let go; then a key.
abbrev noise : List (ℕ × ℕ)
noise = (2, 30) ∷ (1, 158) ∷ (1, 30) ∷ []

key_behind_noise : (read noise kb).0 ≡ 30
unfolding read await key_interrupt
key_behind_noise = refl
