-- ===== src/Drivers/Keyboard/Tests.antt =====
-- The theorems at the initial keyboard.
use zwei_os.Base.{
  ℕ, ◌≡◌, refl, ◌⊎◌, false, none, some, [], ◌∷◌, ◌++◌, arith, ltb, if◌then◌else◌, length,
}
use zwei_os.Drivers.Keyboard.{initial, key_char, keyboard_poll, ring_push, ring_pop}
use zwei_os.Drivers.Keyboard.Waiting.{IsRing, waiting, ring_refines}
use zwei_os.Drivers.Keyboard.Keys.{IsIdle, keyboard_poll_extended}

initial-IsRing : IsRing initial.ring
unfolding initial
initial-IsRing = record { size = refl; head_in = omega arith; tail_in = omega arith }

initial-IsIdle : IsIdle initial
unfolding initial
initial-IsIdle = record { no_shift = refl; no_ctrl = refl; no_prefix = refl }

-- The keypad's minus and plus are 0x4a and 0x4e; the tables have them one place too low.
keypad_minus : (key_char false false 0x4a ≡ 0) × (key_char false false 0x49 ≡ 45)
unfolding key_char
keypad_minus = (refl, refl)

keypad_plus : (key_char false false 0x4e ≡ 0) × (key_char false false 0x4d ≡ 43)
unfolding key_char
keypad_plus = (refl, refl)

ring_refines_example :
    IsRing (ring_push initial.ring 65)
    × IsRing (ring_pop initial.ring).1
    × (waiting (ring_push initial.ring 65) ≡ (
        if ltb (length (waiting initial.ring)) 255
        then waiting initial.ring ++ (65 ∷ [])
        else waiting initial.ring))
    × (((waiting initial.ring ≡ []) × (ring_pop initial.ring ≡ (none, initial.ring)))
        ⊎ ((x : ℕ) × (waiting initial.ring ≡ x ∷ waiting (ring_pop initial.ring).1)
            × ((ring_pop initial.ring).0 ≡ some x)))
ring_refines_example = ring_refines initial.ring 65 initial-IsRing

keyboard_poll_extended_example : keyboard_poll initial (0xe0 ∷ 0x48 ∷ []) ≡ initial
unfolding initial
keyboard_poll_extended_example = keyboard_poll_extended initial 0x48 (omega arith) refl
