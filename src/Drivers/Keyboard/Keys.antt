-- ===== src/Drivers/Keyboard/Keys.antt =====
-- What typing does: letters with shift and caps lock, and the keys with a prefix.
use zwei_os.Base.{
  all_below, all_below_sound, ℕ, ◌+◌, ◌-◌, ◌%◌, ◌≤◌, ◌<◌, ◌≡◌, refl, ap, ◌∙◌, ◌≢◌, Bool, true,
  false, not, ◌&&◌, ◌||◌, [], ◌∷◌, arith, leb, ◌==◌, if◌then◌else◌,
}
use zwei_os.Drivers.Keyboard.{
  Keyboard, key_char, push_char, press, release, process_scancode, keyboard_poll, xor,
}

-- A key that types a letter: its scancode is no modifier's, and shift and caps lock each change its case.
abbrev is_letter : ℕ → Bool
is_letter c = leb 97 (key_char false false c) && leb (key_char false false c) 122

abbrev is_plain : ℕ → Bool
is_plain c =
    not (c == 0x2a || c == 0x36)
    && (not (c == 0x1d) && (not (c == 0x38) && (not (c == 0x3a) && not (c == 0x60))))

abbrev letter_test : ℕ → Bool
letter_test c =
    not (is_letter c)
    || (is_plain c
        && (key_char true false c == key_char false false c - 32
            && (key_char false true c == key_char false false c - 32
                && key_char true true c == key_char false false c)))

letter_table : all_below 128 letter_test ≡ true
unfolding all_below key_char
letter_table = refl

letter_lem : (c : ℕ) → c < 128 → letter_test c ≡ true
letter_lem c h = all_below_sound 128 letter_test c letter_table h

-- A keyboard with no modifier but caps lock.
pub record IsIdle (k : Keyboard) : Type 0 where
  pub no_shift : k.shift_pressed ≡ false
  pub no_ctrl : k.ctrl_pressed ≡ false
  pub no_prefix : k.extended_e0 ≡ false

letter_char :
    (shift caps : Bool) (c : ℕ)
    → c < 128
    → 97 ≤ key_char false false c
    → key_char false false c ≤ 122
    → key_char shift caps c
      ≡ (if xor shift caps then key_char false false c - 32 else key_char false false c)
letter_char true true c h low high = ground (arith, letter_lem c h)
letter_char true false c h low high = ground (arith, letter_lem c h)
letter_char false true c h low high = ground (arith, letter_lem c h)
letter_char false false c h low high = refl

-- A letter's key is none of a modifier's.
plain_letter :
    (c : ℕ)
    → c < 128
    → 97 ≤ key_char false false c
    → key_char false false c ≤ 122
    → is_plain c ≡ true
plain_letter c h low high = ground (arith, letter_lem c h)

press_letter :
    (k : Keyboard) (c : ℕ)
    → c < 128
    → 97 ≤ key_char false false c
    → key_char false false c ≤ 122
    → k.ctrl_pressed ≡ false
    → press k c
      ≡ push_char k (
          if xor k.shift_pressed k.caps_locked
          then key_char false false c - 32
          else key_char false false c)
unfolding press
press_letter k c h low high ctrl =
    let e = letter_char k.shift_pressed k.caps_locked c h low high in
    let positive : (key_char k.shift_pressed k.caps_locked c == 0) ≡ false =
      ground (arith, e, low) in
    ground (arith, plain_letter c h low high, ctrl, positive, ap (push_char k) e)

shift_down : (k : Keyboard) → press k 0x2a ≡ record k { shift_pressed = true }
unfolding press
shift_down k = refl

release_plain : (k : Keyboard) (c : ℕ) → is_plain c ≡ true → release k c ≡ k
unfolding release
release_plain k c h = ground (arith, h)

shift_released :
    (k : Keyboard) (letter : ℕ)
    → IsIdle k
    → process_scancode (push_char (record k { shift_pressed = true }) letter) 0xaa
      ≡ push_char k letter
unfolding process_scancode push_char
shift_released k letter i = ground (arith, i)

process_press :
    (k : Keyboard) (c : ℕ) → k.extended_e0 ≡ false → c < 128 → process_scancode k c ≡ press k c
unfolding process_scancode
process_press k c x h = ground (arith, x)

process_release :
    (k : Keyboard) (c : ℕ)
    → k.extended_e0 ≡ false
    → c < 128
    → c ≢ 0x60
    → process_scancode k (c + 128) ≡ release k c
unfolding process_scancode
process_release k c x h n =
    let low : (c + 128) % 128 ≡ c = omega arith in ground (arith, x, ap (release k) low)

-- Shift down, a letter's key down and up, shift up: on a keyboard with no shift and no ctrl, the letter
-- is pushed in the other case than caps lock gives alone, and the modifiers are what they were.
pub keyboard_poll_shifted :
    (k : Keyboard) (c : ℕ)
    → c < 128
    → 97 ≤ key_char false false c
    → key_char false false c ≤ 122
    → IsIdle k
    → keyboard_poll k (0x2a ∷ c ∷ (c + 128) ∷ 0xaa ∷ [])
      ≡ push_char k (if k.caps_locked then key_char false false c else key_char false false c - 32)
unfolding keyboard_poll push_char
keyboard_poll_shifted k c h low high i =
    let plain = plain_letter c h low high in
    let k1 : Keyboard = record k { shift_pressed = true } in
    let letter = if k.caps_locked then key_char false false c else key_char false false c - 32 in
    let k2 = push_char k1 letter in
    let down : process_scancode k 0x2a ≡ k1 =
      process_press k 0x2a i.no_prefix (omega arith) ∙ shift_down k in
    let typed : process_scancode k1 c ≡ k2 =
      process_press k1 c i.no_prefix h
      ∙ press_letter k1 c h low high i.no_ctrl
      ∙ ap (push_char k1) (ground arith) in
    let up : process_scancode k2 (c + 128) ≡ k2 =
      process_release k2 c i.no_prefix h (ground (arith, plain)) ∙ release_plain k2 c plain in
    let shift_up : process_scancode k2 0xaa ≡ push_char k letter = shift_released k letter i in
    ap (λ k. process_scancode (process_scancode (process_scancode k c) (c + 128)) 0xaa) down
    ∙ ap (λ k. process_scancode (process_scancode k (c + 128)) 0xaa) typed
    ∙ ap (λ k. process_scancode k 0xaa) up
    ∙ shift_up

-- A key with the prefix, pressed or released, changes nothing at all.
pub keyboard_poll_extended :
    (k : Keyboard) (c : ℕ) → c ≢ 0xe0 → k.extended_e0 ≡ false → keyboard_poll k (0xe0 ∷ c ∷ []) ≡ k
unfolding keyboard_poll process_scancode
keyboard_poll_extended k c n x = ground (arith, n, x)
