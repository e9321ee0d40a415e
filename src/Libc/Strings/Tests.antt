-- ===== src/Libc/Strings/Tests.antt =====
-- string.c at small strings.
use pi_os.Common.{[], ◌∷◌}
use pi_os.Libc.Strings.{CString}

abbrev dev : CString
dev = b'd' ∷ b'e' ∷ b'v' ∷ []

-- The same text with its 0 and a byte behind it.
abbrev dev' : CString
dev' = b'd' ∷ b'e' ∷ b'v' ∷ 0 ∷ b'x' ∷ []
