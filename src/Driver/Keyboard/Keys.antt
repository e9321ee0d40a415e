-- ===== src/Driver/Keyboard/Keys.antt =====
-- kernel/driver/keyboard.c: presses of keys.
use pi_os.Common.{ℕ, ◌≡◌, refl, Bool, true, false, List, [], ◌∷◌, ◌++◌, ◌==◌}
use pi_os.Driver.Keyboard.{
  Keyboard, is_shift, arrow_keys, outc, decode, print_scancode, print_scancodes,
}

-- A code that is neither a prefix, nor a modifier, nor the code that is passed over.
pub record IsKey (scancode : ℕ) : Type 0 where
  pub no_shift : is_shift scancode ≡ false
  pub no_ctrl : (scancode == 0x14) ≡ false
  pub no_extended : (scancode == 0xE0) ≡ false
  pub no_release : (scancode == 0xF0) ≡ false
  pub not_buggy : (scancode == 0x81) ≡ false

-- A keyboard at rest: no prefix has come.
abbrev pub at_rest : (shift ctrl : Bool) → (prev_scancode : ℕ) → Keyboard
at_rest shift ctrl prev_scancode = record {
  prev_scancode = prev_scancode;
  shift = shift;
  ctrl = ctrl;
  extended_scancode = false;
}

-- One code after another.
print_scancodes-cons :
    (behind : (shift : Bool) → (scancode : ℕ) → ℕ) (k k' k'' : Keyboard) (scancode : ℕ)
    (scancodes keys keys' : List ℕ)
    → print_scancode behind k scancode ≡ (k', keys)
    → print_scancodes behind k' scancodes ≡ (k'', keys')
    → print_scancodes behind k (scancode ∷ scancodes) ≡ (k'', keys ++ keys')
unfolding print_scancodes
print_scancodes-cons behind k k' k'' scancode scancodes keys keys' first rest =
    rw (first, rest) refl

print_scancodes-nil :
    (behind : (shift : Bool) → (scancode : ℕ) → ℕ) (k : Keyboard)
    → print_scancodes behind k [] ≡ (k, [])
unfolding print_scancodes
print_scancodes-nil behind k = refl

module _ (behind : (shift : Bool) → (scancode : ℕ) → ℕ) (shift ctrl : Bool) (scancode : ℕ)
    (key : IsKey scancode) where
  press :
      (prev : ℕ)
      → (prev == 0xF0) ≡ false
      → print_scancode behind (at_rest shift ctrl prev) scancode
        ≡ (at_rest shift ctrl scancode, outc behind (at_rest shift ctrl prev) scancode ∷ [])
  unfolding print_scancode decode
  press prev before =
      rw (key.no_shift, key.no_ctrl, key.no_extended, key.no_release, key.not_buggy, before) refl

  release :
      print_scancode behind (at_rest shift ctrl 0xF0) scancode ≡ (at_rest shift ctrl scancode, [])
  unfolding print_scancode decode
  release = rw (key.no_shift, key.no_ctrl, key.no_extended, key.not_buggy) refl

  release_prefix :
      print_scancode behind (at_rest shift ctrl scancode) 0xF0 ≡ (at_rest shift ctrl 0xF0, [])
  unfolding print_scancode decode
  release_prefix = rw key.no_release refl

  -- The code behind a prefix that Ctrl has left standing
  swallow :
      arrow_keys scancode ≡ []
      → print_scancode behind
          (record (at_rest shift ctrl 0x14) { extended_scancode = true })
          scancode
        ≡ (at_rest shift ctrl scancode, [])
  unfolding print_scancode decode
  swallow no_arrow =
      rw (key.no_shift, key.no_ctrl, key.no_extended, key.no_release, key.not_buggy, no_arrow) refl

-- A key that is pressed and released sends one character, the one of the tables for the state of
-- Shift and Ctrl, at the press; afterwards the keyboard is at rest with the same modifiers.
pub print_scancodes-outc :
    (behind : (shift : Bool) → (scancode : ℕ) → ℕ) (shift ctrl : Bool) (prev scancode : ℕ)
    → (prev == 0xF0) ≡ false
    → IsKey scancode
    → print_scancodes behind (at_rest shift ctrl prev) (scancode ∷ 0xF0 ∷ scancode ∷ [])
      ≡ (at_rest shift ctrl scancode, outc behind (at_rest shift ctrl prev) scancode ∷ [])
print_scancodes-outc behind shift ctrl prev scancode before key =
    print_scancodes-cons behind _ _ _ scancode _ _ _
      (press behind shift ctrl scancode key prev before)
      (print_scancodes-cons behind _ _ _ 0xF0 _ _ _ (release_prefix behind shift ctrl scancode key)
        (print_scancodes-cons behind _ _ _ scancode _ _ _ (release behind shift ctrl scancode key)
          (print_scancodes-nil behind (at_rest shift ctrl scancode))))

ctrl_press :
    (behind : (shift : Bool) → (scancode : ℕ) → ℕ) (shift ctrl : Bool) (prev : ℕ)
    → (prev == 0xF0) ≡ false
    → print_scancode behind (at_rest shift ctrl prev) 0x14 ≡ (at_rest shift true 0x14, [])
unfolding print_scancode decode
ctrl_press behind shift ctrl prev before = rw before refl

right_ctrl_press :
    (behind : (shift : Bool) → (scancode : ℕ) → ℕ) (shift ctrl : Bool) (prev : ℕ)
    (scancodes keys : List ℕ) (k : Keyboard)
    → print_scancodes behind
        (record (at_rest shift true 0x14) { extended_scancode = true })
        scancodes
      ≡ (k, keys)
    → print_scancodes behind (at_rest shift ctrl prev) (0xE0 ∷ 0x14 ∷ scancodes) ≡ (k, keys)
unfolding print_scancode decode
right_ctrl_press behind shift ctrl prev scancodes keys k rest =
    print_scancodes-cons behind _ (record (at_rest shift ctrl 0xE0) { extended_scancode = true }) _
      0xE0 _ [] _ refl
      (print_scancodes-cons behind _ (record (at_rest shift true 0x14) { extended_scancode = true })
        _ 0x14 _ [] _ refl rest)

-- Behind the codes of the right Ctrl key, 0xE0 and 0x14, the press of a key that is no arrow sends
-- nothing, while behind the left one, 0x14 alone, it sends its character with Ctrl.
pub print_scancodes_right_ctrl :
    (behind : (shift : Bool) → (scancode : ℕ) → ℕ) (shift ctrl : Bool) (prev scancode : ℕ)
    → (prev == 0xF0) ≡ false
    → IsKey scancode
    → arrow_keys scancode ≡ []
    → (print_scancodes behind (at_rest shift ctrl prev) (0xE0 ∷ 0x14 ∷ scancode ∷ [])
        ≡ (at_rest shift true scancode, []))
      × (print_scancodes behind (at_rest shift ctrl prev) (0x14 ∷ scancode ∷ [])
          ≡ (at_rest shift true scancode, outc behind (at_rest shift true 0x14) scancode ∷ []))
print_scancodes_right_ctrl behind shift ctrl prev scancode before key no_arrow = (
  right_ctrl_press behind shift ctrl prev _ _ _ (
      print_scancodes-cons behind _ _ _ scancode _ _ _
        (swallow behind shift true scancode key no_arrow)
        (print_scancodes-nil behind (at_rest shift true scancode))),
  print_scancodes-cons behind _ _ _ 0x14 _ _ _ (ctrl_press behind shift ctrl prev before) (
      print_scancodes-cons behind _ _ _ scancode _ _ _
        (press behind shift true scancode key 0x14 refl)
        (print_scancodes-nil behind (at_rest shift true scancode))),
)
