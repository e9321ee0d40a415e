-- ===== src/Common/Word.antt =====
-- The 16-bit machine words of the processor (`size_t`, `u16`, `unsigned`, and `int` as its bits).
use mathlib.Core.Bool.{Bool}
use pi_os.Common.Tests.{ltb, leb, if◌then◌else◌}
use Prim.Native.Nat.{ℕ, ◌+◌, ◌-◌, ◌*◌, ◌%◌}

abbrev pub u16_mod : ℕ
u16_mod = 0x1_0000

-- `a + b`, `a - b` and `a * b` on `unsigned`.
abbrev pub add16 : ℕ → ℕ → ℕ
add16 a b = (a + b) % u16_mod

abbrev pub sub16 : ℕ → ℕ → ℕ
sub16 a b = (a + u16_mod - b % u16_mod) % u16_mod

abbrev pub mul16 : ℕ → ℕ → ℕ
mul16 a b = (a * b) % u16_mod

-- The word of the `int` value `-a`.
abbrev pub neg16 : ℕ → ℕ
neg16 a = sub16 0 a

-- Whether a word is negative as an `int`.
abbrev pub is_neg16 : ℕ → Bool
is_neg16 w = leb 0x8000 w

-- `a < b` on `int`.
abbrev pub slt16 : ℕ → ℕ → Bool
slt16 a b = ltb (add16 a 0x8000) (add16 b 0x8000)

-- `MAX` and `MIN` of libk/math.h on `int`.
abbrev pub max16 : ℕ → ℕ → ℕ
max16 a b = if slt16 a b then b else a

abbrev pub min16 : ℕ → ℕ → ℕ
min16 a b = if slt16 a b then a else b
