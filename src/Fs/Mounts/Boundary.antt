-- ===== src/Fs/Mounts/Boundary.antt =====
-- A mount path matches a path at the boundary of a segment.
use pi_os.Common.{
  ℕ, zero, suc, ◌+◌, ◌-◌, ◌≤◌, ◌≡◌, ◌≢◌, refl, ap, ◌∙◌, sym, subst, arith, Bool, true, false, ◌||◌,
  ◌&&◌, [], ◌∷◌, ◌++◌, ◌==◌, if◌then◌else◌, length, drop, length-append, Bool-cases, inl, inr,
  ne→==,
}
use pi_os.Libc.Strings.{CString, strlen, strncmp, strchr}
use pi_os.Fs.Mounts.{slash, is_zero, segment_end, full_match_len, mount_matches}

-- A path with no 0 inside it.
abbrev pub Plain : CString → Type 0
Plain [] = Unit {0}
Plain (c ∷ s) = (c ≢ 0) × Plain s

abbrev pub ends_in_slash : CString → Bool
ends_in_slash [] = false
ends_in_slash (c ∷ []) = c == slash
ends_in_slash (c ∷ d ∷ s) = ends_in_slash (d ∷ s)

abbrev pub begins_segment : CString → Bool
begins_segment [] = true
begins_segment (c ∷ s) = c == slash

-- The length of the first segment.
abbrev segment_length : CString → ℕ
segment_length [] = 0
segment_length (c ∷ s) = if c == slash then 0 else suc (segment_length s)

pub strlen-Plain : (s : CString) → Plain s → strlen s ≡ length s
unfolding strlen
strlen-Plain [] h = refl
strlen-Plain (c ∷ s) (n, h) = ground (arith, n, strlen-Plain s h)

-- A mount path that `strncmp` finds in front of a path is a prefix of it.
prefix-of_strncmp :
    (m path : CString)
    → Plain m
    → is_zero (strncmp m path (length m)) ≡ true
    → path ≡ m ++ drop (length m) path
unfolding strncmp
prefix-of_strncmp [] path h e = refl
prefix-of_strncmp (a ∷ m) [] (n, h) e = absurd (ground (arith, n))
prefix-of_strncmp (a ∷ []) (b ∷ path) (n, h) e = ground (arith, n)
prefix-of_strncmp (a ∷ c ∷ m) (b ∷ path) (n, h) e =
    ground (arith, n, prefix-of_strncmp (c ∷ m) path h)

strncmp-prefix :
    (m rest : CString) (j : ℕ) → Plain m → j ≤ length m → is_zero (strncmp m (m ++ rest) j) ≡ true
unfolding strncmp
strncmp-prefix m rest zero h l = refl
strncmp-prefix [] rest (suc j) h l = absurd (omega arith)
strncmp-prefix (a ∷ m) rest (suc j) (n, h) l = ground (arith, n, strncmp-prefix m rest j h)

strncmp-past :
    (m rest : CString) (k : ℕ)
    → Plain m
    → is_zero (strncmp m (m ++ rest) (length m + k)) ≡ is_zero (strncmp [] rest k)
unfolding strncmp
strncmp-past [] rest k h = ap (λ n. is_zero (strncmp [] rest n)) (omega arith)
strncmp-past (a ∷ m) rest k (n, h) =
    let e : suc (length m) + k ≡ suc (length m + k) = omega arith in
    rw e (ground (arith, n, strncmp-past m rest k h, strncmp-prefix m rest 0 h))

-- Past the mount path, the comparison goes on to the end of the segment; it succeeds when nothing
-- of the segment is left.
strncmp-segment :
    (rest : CString)
    → Plain rest
    → is_zero (strncmp [] rest (segment_length rest)) ≡ begins_segment rest
unfolding strncmp
strncmp-segment [] h = refl
strncmp-segment (c ∷ s) (n, h) = ground (arith, n)

-- Where `strchr` ends the segment that `s` begins with.
segment_end-lem :
    (s path : CString)
    → Plain s
    → strlen path ≡ length path
    → length s ≤ length path
    → segment_end path (strchr s slash) ≡ length path - length s + segment_length s
unfolding strchr
segment_end-lem [] path h e l = omega (arith, e)
segment_end-lem (c ∷ s) path (n, h) e l = ground (arith, n, segment_end-lem s path h e)

-- Dropping all but the last byte of the mount path.
drop-last :
    (c : ℕ) (m rest : CString)
    → Plain (c ∷ m)
    → (last : ℕ) × (drop (length m) (c ∷ (m ++ rest)) ≡ last ∷ rest)
      × (last ≢ 0)
      × (ends_in_slash (c ∷ m) ≡ (last == slash))
drop-last c [] rest h = (c, refl, h.0, refl)
drop-last c (d ∷ m) rest h = drop-last d m rest h.1

Plain-append : (m rest : CString) → Plain m → Plain rest → Plain (m ++ rest)
Plain-append [] rest h k = k
Plain-append (c ∷ m) rest (n, h) k = (n, Plain-append m rest h k)

Plain-drop : (n : ℕ) (s : CString) → Plain s → Plain (drop n s)
Plain-drop zero s h = h
Plain-drop (suc n) [] h = tt
Plain-drop (suc n) (c ∷ s) (_, h) = Plain-drop n s h

drop_last_of :
    (c : ℕ) (m rest : CString)
    → drop (suc (length m) - 1) (c ∷ (m ++ rest)) ≡ drop (length m) (c ∷ (m ++ rest))
drop_last_of c m rest = ap (λ n. drop n (c ∷ (m ++ rest))) (omega arith)

segment_end-last :
    (c : ℕ) (m rest : CString) (last : ℕ)
    → last ≢ 0
    → length (m ++ rest) ≡ length m + length rest
    → segment_end (c ∷ (m ++ rest)) (strchr rest slash)
      ≡ suc (length (m ++ rest)) - length rest + segment_length rest
    → segment_end (c ∷ (m ++ rest)) (strchr (last ∷ rest) slash)
      ≡ (if last == slash then length m else suc (length m) + segment_length rest)
unfolding strchr
segment_end-last c m rest last ne size e = elim (Bool-cases (last == slash)) [
  | inl here ↦ rw here (omega (arith, size))
  | inr miss ↦ let ne' = ne→== last 0 ne in rw (miss, ne') (omega (arith, e, size))
]

-- The length that the loop compares: up to the mount path's own slash, or to the end of the segment
-- that the mount path ends in.
full_match_len-lem :
    (c : ℕ) (m rest : CString)
    → Plain (c ∷ m)
    → Plain rest
    → full_match_len (c ∷ m) (c ∷ (m ++ rest))
      ≡ (if ends_in_slash (c ∷ m) then length m else suc (length m) + segment_length rest)
unfolding full_match_len strchr
full_match_len-lem c m rest h k =
    let path = c ∷ (m ++ rest) in
    let (last, at, ne, ends) = drop-last c m rest h in
    let size = length-append m rest in
    let len = strlen-Plain path (Plain-append (c ∷ m) rest h k) in
    let cut : drop (strlen (c ∷ m) - 1) path ≡ last ∷ rest =
      ap (λ n. drop (n - 1) path) (strlen-Plain (c ∷ m) h) ∙ drop_last_of c m rest ∙ at in
    ap (λ s. segment_end path (strchr s slash)) cut
    ∙ segment_end-last c m rest last ne size (segment_end-lem rest path k len (omega (arith, size)))
    ∙ ap (λ b. if b then length m else suc (length m) + segment_length rest) (sym ends)

-- On a prefix, the tests of the loop come down to the boundary.
mount_matches-prefix :
    (c : ℕ) (m rest : CString)
    → Plain (c ∷ m)
    → Plain rest
    → mount_matches (c ∷ m) (c ∷ (m ++ rest)) ≡ (ends_in_slash (c ∷ m) || begins_segment rest)
unfolding mount_matches
mount_matches-prefix c m rest h k =
    let front : is_zero (strncmp (c ∷ m) (c ∷ (m ++ rest)) (strlen (c ∷ m))) ≡ true =
      strncmp-prefix (c ∷ m) rest (strlen (c ∷ m)) h (omega (arith, strlen-Plain (c ∷ m) h)) in
    rw (front, full_match_len-lem c m rest h k)
      (elim (Bool-cases (ends_in_slash (c ∷ m))) [
        | inl e ↦ rw e (strncmp-prefix (c ∷ m) rest (length m) h (omega arith))
        | inr e ↦ rw e (strncmp-past (c ∷ m) rest (segment_length rest) h ∙ strncmp-segment rest k)
      ])

and-left : (a b : Bool) → (a && b) ≡ true → a ≡ true
and-left a b h = ground arith

mount_matches-front :
    (m path : CString) → Plain m → mount_matches m path ≡ true → path ≡ m ++ drop (length m) path
unfolding mount_matches
mount_matches-front m path h e =
    prefix-of_strncmp m path h
      (ap (λ n. is_zero (strncmp m path n)) (sym (strlen-Plain m h)) ∙ and-left _ _ e)

Plain-tail : (m rest : CString) → Plain (m ++ rest) → Plain rest
Plain-tail [] rest h = h
Plain-tail (c ∷ m) rest (_, h) = Plain-tail m rest h

-- On paths with no 0 inside them a mount path matches exactly the paths that it is a prefix of,
-- ending at a segment's boundary: at its own last slash, before a slash, or at the end.
pub mount_matches_iff :
    (mount path : CString)
    → Plain mount
    → Plain path
    → mount ≢ []
    → (mount_matches mount path ≡ true
        → (rest : CString) × (path ≡ mount ++ rest)
          × ((ends_in_slash mount || begins_segment rest) ≡ true))
      × ((rest : CString)
          → path ≡ mount ++ rest
          → (ends_in_slash mount || begins_segment rest) ≡ true
          → mount_matches mount path ≡ true)
mount_matches_iff [] path h k ne = absurd (ne refl)
mount_matches_iff (c ∷ m) path h k ne = (
  λ e.
      let rest = drop (suc (length m)) path in
      let is = mount_matches-front (c ∷ m) path h e in
      (
        rest,
        is,
        sym (mount_matches-prefix c m rest h (Plain-drop (suc (length m)) path k))
            ∙ ap (mount_matches (c ∷ m)) (sym is)
            ∙ e,
      ),
  λ rest e b.
      ap (mount_matches (c ∷ m)) e
      ∙ mount_matches-prefix c m rest h (Plain-tail (c ∷ m) rest (subst Plain e k))
      ∙ b,
)
