-- ===== src/Drivers/Keyboard.antt =====
-- kernel/drivers/keyboard.cpp: the ring of typed characters and the scancode machine. What the
-- controller has pending is the list of its scancodes; the bits of a scancode are written by division.
pub mod Waiting
pub mod Keys
mod Tests
use zwei_os.Base.{
  ℕ, zero, suc, ◌+◌, ◌-◌, ◌/◌, ◌%◌, ◌<◌, ◌≡◌, Bool, true, false, not, ◌&&◌, ◌||◌, Option, none,
  some, List, [], ◌∷◌, ltb, leb, ◌==◌, if◌then◌else◌, get_or, set, replicate,
}

abbrev pub keyboard_buffer_size : ℕ
keyboard_buffer_size = 256

pub record Ring : Type 0 where
  pub buffer : List ℕ
  pub head : ℕ
  pub tail : ℕ

pub ring_push : Ring → ℕ → Ring
ring_push r c =
    let next = (r.head + 1) % keyboard_buffer_size in
    if not (next == r.tail) then record r { buffer = set r.buffer r.head c; head = next } else r

-- `none` is the result `false`.
pub ring_pop : Ring → Option ℕ × Ring
ring_pop r =
    if r.head == r.tail
    then (none, r)
    else (some (get_or r.buffer r.tail 0), record r { tail = (r.tail + 1) % keyboard_buffer_size })

pub record Keyboard : Type 0 where
  pub ring : Ring
  pub shift_pressed : Bool
  pub ctrl_pressed : Bool
  pub alt_pressed : Bool
  pub caps_locked : Bool
  pub extended_e0 : Bool

-- The static initialisers.
pub initial : Keyboard
initial = record {
  ring = record { buffer = replicate keyboard_buffer_size 0; head = 0; tail = 0 };
  shift_pressed = false;
  ctrl_pressed = false;
  alt_pressed = false;
  caps_locked = false;
  extended_e0 = false;
}

-- The tables; the entries that are not written are 0.
scancode_set1_normal : List ℕ
scancode_set1_normal =
    0 ∷ 27 ∷ 49 ∷ 50 ∷ 51 ∷ 52 ∷ 53 ∷ 54 ∷ 55 ∷ 56 ∷ 57 ∷ 48 ∷ 45 ∷ 61 ∷ 8 ∷ 9 ∷ 113 ∷ 119 ∷ 101
    ∷ 114 ∷ 116 ∷ 121 ∷ 117 ∷ 105 ∷ 111 ∷ 112 ∷ 91 ∷ 93 ∷ 10 ∷ 0 ∷ 97 ∷ 115 ∷ 100 ∷ 102 ∷ 103 ∷ 104
    ∷ 106 ∷ 107 ∷ 108 ∷ 59 ∷ 39 ∷ 96 ∷ 0 ∷ 92 ∷ 122 ∷ 120 ∷ 99 ∷ 118 ∷ 98 ∷ 110 ∷ 109 ∷ 44 ∷ 46 ∷ 47
    ∷ 0 ∷ 42 ∷ 0 ∷ 32 ∷ 0 ∷ 0 ∷ 0 ∷ 0 ∷ 0 ∷ 0 ∷ 0 ∷ 0 ∷ 0 ∷ 0 ∷ 0 ∷ 0 ∷ 0 ∷ 0 ∷ 0 ∷ 45 ∷ 0 ∷ 0 ∷ 0
    ∷ 43 ∷ 0 ∷ 0 ∷ 0 ∷ 0 ∷ 0 ∷ 0 ∷ 0 ∷ 0 ∷ 0 ∷ 0 ∷ 0 ∷ 0 ∷ 0 ∷ 0 ∷ 0 ∷ 0 ∷ 0 ∷ 0 ∷ 0 ∷ 0 ∷ 0 ∷ 0 ∷ 0
    ∷ 0 ∷ 0 ∷ 0 ∷ 0 ∷ 0 ∷ 0 ∷ 0 ∷ 0 ∷ 0 ∷ 0 ∷ []

scancode_set1_shifted : List ℕ
scancode_set1_shifted =
    0 ∷ 27 ∷ 33 ∷ 64 ∷ 35 ∷ 36 ∷ 37 ∷ 94 ∷ 38 ∷ 42 ∷ 40 ∷ 41 ∷ 95 ∷ 43 ∷ 8 ∷ 9 ∷ 81 ∷ 87 ∷ 69 ∷ 82
    ∷ 84 ∷ 89 ∷ 85 ∷ 73 ∷ 79 ∷ 80 ∷ 123 ∷ 125 ∷ 10 ∷ 0 ∷ 65 ∷ 83 ∷ 68 ∷ 70 ∷ 71 ∷ 72 ∷ 74 ∷ 75 ∷ 76
    ∷ 58 ∷ 34 ∷ 126 ∷ 0 ∷ 124 ∷ 90 ∷ 88 ∷ 67 ∷ 86 ∷ 66 ∷ 78 ∷ 77 ∷ 60 ∷ 62 ∷ 63 ∷ 0 ∷ 42 ∷ 0 ∷ 32
    ∷ 0 ∷ 0 ∷ 0 ∷ 0 ∷ 0 ∷ 0 ∷ 0 ∷ 0 ∷ 0 ∷ 0 ∷ 0 ∷ 0 ∷ 0 ∷ 0 ∷ 0 ∷ 45 ∷ 0 ∷ 0 ∷ 0 ∷ 43 ∷ 0 ∷ 0 ∷ 0
    ∷ 0 ∷ 0 ∷ 0 ∷ 0 ∷ 0 ∷ 0 ∷ 0 ∷ 0 ∷ 0 ∷ 0 ∷ 0 ∷ 0 ∷ 0 ∷ 0 ∷ 0 ∷ 0 ∷ 0 ∷ 0 ∷ 0 ∷ 0 ∷ 0 ∷ 0 ∷ 0 ∷ 0
    ∷ 0 ∷ 0 ∷ 0 ∷ 0 ∷ 0 ∷ 0 ∷ []

abbrev pub xor : Bool → Bool → Bool
xor true b = not b
xor false b = b

abbrev is_lower : ℕ → Bool
is_lower c = leb 97 c && leb c 122

-- The character of a key with the modifiers; 0 is none.
unfoldable pub key_char : Bool → Bool → ℕ → ℕ
unfolding scancode_set1_normal scancode_set1_shifted
key_char shift caps scancode =
    let normal = get_or scancode_set1_normal scancode 0 in
    let shifted = get_or scancode_set1_shifted scancode 0 in
    if not (ltb scancode 128)
    then 0
    else if is_lower normal
    then (if xor shift caps then shifted else normal)
    else if shift
    then shifted
    else normal

pub push_char : Keyboard → ℕ → Keyboard
push_char k c = record k { ring = ring_push k.ring c }

-- The key is released.
pub release : Keyboard → ℕ → Keyboard
release k released =
    if released == 0x2a || released == 0x36
    then record k { shift_pressed = false }
    else if released == 0x1d
    then record k { ctrl_pressed = false }
    else if released == 0x38
    then record k { alt_pressed = false }
    else k

-- The key is pressed.
pub press : Keyboard → ℕ → Keyboard
unfolding push_char
press k scancode =
    if scancode == 0x2a || scancode == 0x36
    then record k { shift_pressed = true }
    else if scancode == 0x1d
    then record k { ctrl_pressed = true }
    else if scancode == 0x38
    then record k { alt_pressed = true }
    else if scancode == 0x3a
    then record k { caps_locked = not k.caps_locked }
    else if k.ctrl_pressed
    then (if scancode == 0x2e
        then push_char k 3
        else if scancode == 0x26
        then push_char k 12
        else k)
    else if not (key_char k.shift_pressed k.caps_locked scancode == 0)
    then push_char k (key_char k.shift_pressed k.caps_locked scancode)
    else k

pub process_scancode : Keyboard → ℕ → Keyboard
unfolding release press
process_scancode k scancode =
    if scancode == 0xe0
    then record k { extended_e0 = true }
    else if k.extended_e0
    then record k { extended_e0 = false }
    else if scancode / 128 % 2 == 1
    then release k (scancode % 128)
    else press k scancode

pub keyboard_poll : Keyboard → List ℕ → Keyboard
keyboard_poll k [] = k
keyboard_poll k (c ∷ cs) = keyboard_poll (process_scancode k c) cs

-- `keyboard_has_char` and `keyboard_try_getchar`, which poll where interrupts are off.
pub keyboard_has_char : Keyboard → Bool → List ℕ → Bool × Keyboard
keyboard_has_char k interrupts pending =
    let k' = if interrupts then k else keyboard_poll k pending in
    (not (k'.ring.head == k'.ring.tail), k')

pub take_char : Keyboard → Option ℕ × Keyboard
unfolding ring_pop
take_char k = let (c, r) = ring_pop k.ring in (c, record k { ring = r })

pub keyboard_try_getchar : Keyboard → Bool → List ℕ → Option ℕ × Keyboard
unfolding take_char
keyboard_try_getchar k interrupts pending =
    take_char (if interrupts then k else keyboard_poll k pending)
