-- ===== src/Driver/Keyboard/UsLayout.antt =====
-- kernel/driver/keyboard.c: the characters of the keys of a US keyboard.
use pi_os.Common.{
  ℕ, ◌+◌, Bool, true, ◌&&◌, ◌||◌, not, Option, none, some, List, [], ◌∷◌, ◌==◌, if◌then◌else◌,
}
use pi_os.Driver.Keyboard.{is_shift, outc}
use pi_os.Driver.Keyboard.Keys.{at_rest}

-- A key: its scan code, what it sends alone and with Shift, and its control character, if it has one.
pub record KeyCap : Type 0 where
  pub code : ℕ
  pub plain : ℕ
  pub shifted : ℕ
  pub control : Option ℕ

-- The letter of place `n` in the alphabet.
abbrev letter : (code n : ℕ) → KeyCap
letter code n = record { code = code; plain = 96 + n; shifted = 64 + n; control = some n }

abbrev symbol : (code plain shifted : ℕ) → KeyCap
symbol code plain shifted = record { code = code; plain = plain; shifted = shifted; control = none }

abbrev with_control : (code plain shifted control : ℕ) → KeyCap
with_control code plain shifted control = record {
  code = code;
  plain = plain;
  shifted = shifted;
  control = some control;
}

-- The keys of a US keyboard in scan code set 2: the letters from A to Z, the keys without a control
-- character, with Tab, Enter and Backspace as the last of them, and the others.
abbrev pub us_layout : List KeyCap
us_layout =
    letter 0x1C 1
    ∷ letter 0x32 2
    ∷ letter 0x21 3
    ∷ letter 0x23 4
    ∷ letter 0x24 5
    ∷ letter 0x2B 6
    ∷ letter 0x34 7
    ∷ letter 0x33 8
    ∷ letter 0x43 9
    ∷ letter 0x3B 10
    ∷ letter 0x42 11
    ∷ letter 0x4B 12
    ∷ letter 0x3A 13
    ∷ letter 0x31 14
    ∷ letter 0x44 15
    ∷ letter 0x4D 16
    ∷ letter 0x15 17
    ∷ letter 0x2D 18
    ∷ letter 0x1B 19
    ∷ letter 0x2C 20
    ∷ letter 0x3C 21
    ∷ letter 0x2A 22
    ∷ letter 0x1D 23
    ∷ letter 0x22 24
    ∷ letter 0x35 25
    ∷ letter 0x1A 26
    ∷ symbol 0x0E b'`' b'~'
    ∷ symbol 0x16 b'1' b'!'
    ∷ symbol 0x26 b'3' b'#'
    ∷ symbol 0x25 b'4' b'$'
    ∷ symbol 0x2E b'5' b'%'
    ∷ symbol 0x3D b'7' b'&'
    ∷ symbol 0x3E b'8' b'*'
    ∷ symbol 0x46 b'9' b'('
    ∷ symbol 0x45 b'0' b')'
    ∷ symbol 0x55 b'=' b'+'
    ∷ symbol 0x4C b';' b':'
    ∷ symbol 0x52 39 b'"'
    ∷ symbol 0x41 b',' b'<'
    ∷ symbol 0x49 b'.' b'>'
    ∷ symbol 0x29 b' ' b' '
    ∷ symbol 0x0D 9 9
    ∷ symbol 0x5A 10 10
    ∷ symbol 0x66 8 8
    ∷ with_control 0x1E b'2' b'@' 0
    ∷ with_control 0x36 b'6' b'^' 30
    ∷ with_control 0x4E b'-' b'_' 31
    ∷ with_control 0x54 b'[' b'{' 27
    ∷ with_control 0x5D 92 b'|' 28
    ∷ with_control 0x5B b']' b'}' 29
    ∷ with_control 0x4A b'/' b'?' 127
    ∷ []

abbrev control_or : (control : Option ℕ) → (otherwise : ℕ) → ℕ
control_or none otherwise = otherwise
control_or (some c) otherwise = c

-- What a key should send.
abbrev pub key_char : (shift ctrl : Bool) → KeyCap → ℕ
key_char shift ctrl key =
    let shown = if shift then key.shifted else key.plain in
    if ctrl then control_or key.control shown else shown

abbrev all_keys : (KeyCap → Bool) → List KeyCap → Bool
all_keys f [] = true
all_keys f (key ∷ keys) = f key && all_keys f keys

abbrev is_key : KeyCap → Bool
is_key key = not (
    is_shift key.code
    || (key.code == 0x14)
    || (key.code == 0xE0)
    || (key.code == 0xF0)
    || (key.code == 0x81))

abbrev sends :
    ((shift : Bool) → (scancode : ℕ) → ℕ) → (shift ctrl : Bool) → (prev : ℕ) → KeyCap → Bool
sends behind shift ctrl prev key =
    outc behind (at_rest shift ctrl prev) key.code == key_char shift ctrl key
