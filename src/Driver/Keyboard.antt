-- ===== src/Driver/Keyboard.antt =====
-- kernel/driver/keyboard.c: the keys that scan codes stand for. The keys that `send_key` gets are
-- returned. The two bits of `keyboard_state` that are used are fields of their own; what lies behind
-- the tables in memory is a parameter, by the table and the index.
pub mod Keys
pub mod UsLayout
mod Tests
use pi_os.Common.{
  ℕ, ◌-◌, ◌+◌, Bool, true, false, ◌&&◌, ◌||◌, not, List, [], ◌∷◌, ◌++◌, leb, ◌==◌, if◌then◌else◌,
  get_or,
}

-- ASCII
abbrev pub printable_scancodes : List ℕ
printable_scancodes =
    32 ∷ 32 ∷ 32 ∷ 32 ∷ 32 ∷ 32 ∷ 32 ∷ 32 ∷ 32 ∷ 32 ∷ 32 ∷ 32 ∷ 32 ∷ 9 ∷ 96 ∷ 32 ∷ 32 ∷ 32 ∷ 32 ∷ 32
    ∷ 32 ∷ 113 ∷ 49 ∷ 32 ∷ 32 ∷ 32 ∷ 122 ∷ 115 ∷ 97 ∷ 119 ∷ 50 ∷ 32 ∷ 32 ∷ 99 ∷ 120 ∷ 100 ∷ 101 ∷ 52
    ∷ 51 ∷ 32 ∷ 32 ∷ 32 ∷ 118 ∷ 102 ∷ 116 ∷ 114 ∷ 53 ∷ 32 ∷ 32 ∷ 110 ∷ 98 ∷ 104 ∷ 103 ∷ 121 ∷ 54
    ∷ 32 ∷ 32 ∷ 32 ∷ 109 ∷ 106 ∷ 117 ∷ 55 ∷ 56 ∷ 32 ∷ 32 ∷ 44 ∷ 107 ∷ 105 ∷ 111 ∷ 48 ∷ 57 ∷ 32 ∷ 32
    ∷ 46 ∷ 47 ∷ 108 ∷ 59 ∷ 112 ∷ 45 ∷ 32 ∷ 32 ∷ 32 ∷ 39 ∷ 32 ∷ 91 ∷ 61 ∷ 32 ∷ 32 ∷ 32 ∷ 32 ∷ 10 ∷ 93
    ∷ 32 ∷ 92 ∷ 32 ∷ 32 ∷ 32 ∷ 32 ∷ 32 ∷ 32 ∷ 32 ∷ 32 ∷ 8 ∷ []

abbrev pub shift_scancodes : List ℕ
shift_scancodes =
    32 ∷ 32 ∷ 32 ∷ 32 ∷ 32 ∷ 32 ∷ 32 ∷ 32 ∷ 32 ∷ 32 ∷ 32 ∷ 32 ∷ 32 ∷ 9 ∷ 126 ∷ 32 ∷ 32 ∷ 32 ∷ 32
    ∷ 32 ∷ 32 ∷ 81 ∷ 33 ∷ 32 ∷ 32 ∷ 32 ∷ 90 ∷ 83 ∷ 65 ∷ 87 ∷ 64 ∷ 32 ∷ 32 ∷ 67 ∷ 88 ∷ 68 ∷ 69 ∷ 36
    ∷ 35 ∷ 32 ∷ 32 ∷ 32 ∷ 86 ∷ 70 ∷ 84 ∷ 82 ∷ 37 ∷ 32 ∷ 32 ∷ 78 ∷ 66 ∷ 72 ∷ 71 ∷ 89 ∷ 94 ∷ 32 ∷ 32
    ∷ 32 ∷ 77 ∷ 74 ∷ 85 ∷ 38 ∷ 42 ∷ 32 ∷ 32 ∷ 60 ∷ 75 ∷ 73 ∷ 79 ∷ 41 ∷ 40 ∷ 32 ∷ 32 ∷ 62 ∷ 63 ∷ 76
    ∷ 58 ∷ 80 ∷ 95 ∷ 32 ∷ 32 ∷ 32 ∷ 34 ∷ 32 ∷ 123 ∷ 43 ∷ 32 ∷ 32 ∷ 32 ∷ 32 ∷ 10 ∷ 125 ∷ 32 ∷ 124
    ∷ 32 ∷ 32 ∷ 32 ∷ 32 ∷ 32 ∷ 32 ∷ 32 ∷ 32 ∷ 8 ∷ []

pub record Keyboard : Type 0 where
  pub prev_scancode : ℕ
  pub shift : Bool
  pub ctrl : Bool
  pub extended_scancode : Bool

abbrev pub release_scancode : ℕ
release_scancode = 0xF0

-- Whether the code before said that a key is released.
abbrev pub released : Keyboard → Bool
released k = k.prev_scancode == release_scancode

abbrev pub is_shift : ℕ → Bool
is_shift scancode = (scancode == 0x12) || (scancode == 0x59)

-- ESC, `[` and a letter
abbrev pub arrow_keys : ℕ → List ℕ
arrow_keys scancode =
    if scancode == 0x75
    then 27 ∷ 91 ∷ 65 ∷ []
    else if scancode == 0x72
    then 27 ∷ 91 ∷ 66 ∷ []
    else if scancode == 0x74
    then 27 ∷ 91 ∷ 67 ∷ []
    else if scancode == 0x6B
    then 27 ∷ 91 ∷ 68 ∷ []
    else []

abbrev pub char_between : (low high c : ℕ) → Bool
char_between low high c = leb low c && leb c high

-- The key with Ctrl, `printable` and `shifted` being what the tables have.
abbrev pub ctrl_key : (shift : Bool) → (printable shifted : ℕ) → ℕ
ctrl_key shift printable shifted =
    if char_between 64 90 shifted || char_between 94 95 shifted
    then shifted - 64
    else if char_between 91 93 printable
    then printable - 64
    else if shifted == 63
    then 127
    else if shift
    then shifted
    else printable

module _ (behind : (shift : Bool) → (scancode : ℕ) → ℕ) where
  unfoldable pub outc : Keyboard → (scancode : ℕ) → ℕ
  outc k scancode =
      let printable = get_or printable_scancodes scancode (behind false scancode) in
      let shifted = get_or shift_scancodes scancode (behind true scancode) in
      if k.ctrl then ctrl_key k.shift printable shifted else if k.shift then shifted else printable

  -- All branches of `print_scancode`, before `prev_scancode` is set.
  unfoldable pub decode : Keyboard → (scancode : ℕ) → Keyboard × List ℕ
  decode k scancode =
      if is_shift scancode
      then (record k { shift = not (released k) }, [])
      else if scancode == 0x14
      then (record k { ctrl = not (released k) }, [])
      else if scancode == 0xE0
      then (record k { extended_scancode = true }, [])
      else if k.extended_scancode
      then (
        record k { extended_scancode = scancode == release_scancode },
        (if released k then [] else arrow_keys scancode),
      )
      else if not (released k) && not (scancode == release_scancode)
      then (k, outc k scancode ∷ [])
      else (k, [])

  unfoldable pub print_scancode : Keyboard → (scancode : ℕ) → Keyboard × List ℕ
  print_scancode k scancode =
      let (k', keys) = decode k scancode in
      if scancode == 0x81 then (k, []) else (record k' { prev_scancode = scancode }, keys)

  -- The codes of several interrupts.
  unfoldable pub print_scancodes : Keyboard → List ℕ → Keyboard × List ℕ
  print_scancodes k [] = (k, [])
  print_scancodes k (scancode ∷ scancodes) =
      let (k', keys) = print_scancode k scancode in
      let (k'', keys') = print_scancodes k' scancodes in (k'', keys ++ keys')
