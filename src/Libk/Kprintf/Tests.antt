-- ===== src/Libk/Kprintf/Tests.antt =====
-- kprintf.c on small numbers.
use pi_os.Common.{◌≡◌, refl, inr, some, [], ◌∷◌}
use pi_os.Libk.Kprintf.{utoa, digits, swap_loop, vsprintf, percent_step, long, at_head}
use pi_os.Libk.Kprintf.Number.{read_number, utoa-read_number}

utoa-read_number_example : read_number 16 0 (utoa 0x1A2 16) ≡ 0x1A2
utoa-read_number_example = utoa-read_number 0x1A2 16 (inr refl)

utoa_hex : utoa 0x1A2 16 ≡ b'1' ∷ b'a' ∷ b'2' ∷ []
unfolding utoa digits swap_loop
utoa_hex = refl

-- The low part of a `long` is filled up with zeros.
vsprintf_long :
    vsprintf at_head (b'%' ∷ b'l' ∷ b'x' ∷ []) (long 0x1_000F ∷ [])
    ≡ some (b'1' ∷ b'0' ∷ b'0' ∷ b'0' ∷ b'f' ∷ [])
unfolding vsprintf percent_step utoa digits swap_loop
vsprintf_long = refl
