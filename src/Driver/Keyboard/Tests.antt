-- ===== src/Driver/Keyboard/Tests.antt =====
-- keyboard.c on the key C, code 0x21.
use pi_os.Common.{ℕ, ◌≡◌, refl, Bool, true, false, [], ◌∷◌}
use pi_os.Driver.Keyboard.{outc, print_scancodes}
use pi_os.Driver.Keyboard.Keys.{IsKey, at_rest, print_scancodes_right_ctrl}

abbrev zero_behind : Bool → ℕ → ℕ
zero_behind shift scancode = 0

abbrev scancode_c : ℕ
scancode_c = 0x21

scancode_c-IsKey : IsKey scancode_c
scancode_c-IsKey = record {
  no_shift = refl;
  no_ctrl = refl;
  no_extended = refl;
  no_release = refl;
  not_buggy = refl;
}

key_c : outc zero_behind (at_rest false false 0) 0x21 ≡ 99
unfolding outc
key_c = refl

ctrl_c : outc zero_behind (at_rest false true 0) 0x21 ≡ 3
unfolding outc
ctrl_c = refl

print_scancodes_right_ctrl_example :
    (print_scancodes zero_behind (at_rest false false 0) (0xE0 ∷ 0x14 ∷ 0x21 ∷ [])
      ≡ (at_rest false true 0x21, []))
    × (print_scancodes zero_behind (at_rest false false 0) (0x14 ∷ 0x21 ∷ [])
        ≡ (at_rest false true 0x21, outc zero_behind (at_rest false true 0x14) 0x21 ∷ []))
print_scancodes_right_ctrl_example =
    print_scancodes_right_ctrl zero_behind false false 0 0x21 refl scancode_c-IsKey refl
