-- ===== src/Fs/Mounts/Under.antt =====
-- The search for the file system of a path, by the segments of the paths.
use pi_os.Common.{
  ℕ, ◌+◌, ◌≤◌, ◌<◌, ◌≡◌, ◌≢◌, refl, sym, ap, ◌∙◌, subst, arith, Bool, true, false, ◌||◌, Option,
  none, some, List, [], ◌∷◌, ◌++◌, ◌==◌, if◌then◌else◌, Bool-cases, inl, inr, ◌⊎◌, ==→eq, eq→==,
}
use pi_os.Libc.Strings.{CString, strcnt}
use pi_os.Fs.Mounts.{slash, Vnode, mount_matches, vfs_vnode_for}
use pi_os.Fs.Mounts.Best.{depth_for, NoDeeper, FirstAt, vfs_vnode_for_deepest}
use pi_os.Fs.Mounts.Boundary.{Plain, ends_in_slash, begins_segment, mount_matches_iff}

-- What is left of a path behind a prefix of it.
abbrev pub rest_after : (mount path : CString) → Option CString
rest_after [] path = some path
rest_after (c ∷ m) [] = none
rest_after (c ∷ m) (d ∷ path) = if c == d then rest_after m path else none

abbrev pub at_boundary : (mount : CString) → Option CString → Bool
at_boundary mount none = false
at_boundary mount (some rest) = ends_in_slash mount || begins_segment rest

-- The mount path is a prefix of the path that ends where a segment does.
unfoldable pub lies_under : (path mount : CString) → Bool
lies_under path mount = at_boundary mount (rest_after mount path)

abbrev pub slashes : CString → ℕ
slashes [] = 0
slashes (c ∷ s) = if c == slash then slashes s + 1 else slashes s

-- The number of slashes of the mount path, if the path lies under it, and 0 otherwise.
abbrev pub depth : CString → Vnode → ℕ
depth path v = if lies_under path v.abs_mount_path then slashes v.abs_mount_path else 0

-- No mount point of the list that the path lies under has more than `d` slashes.
abbrev pub DeepestIs : CString → ℕ → List Vnode → Type 0
DeepestIs path d [] = Unit {0}
DeepestIs path d (v ∷ mounts) = (depth path v ≤ d) × DeepestIs path d mounts

-- `best` is the first mount point of the list with the depth `d`, and those before it have less.
abbrev pub IsFirst : CString → ℕ → Vnode → List Vnode → Type 0
IsFirst path d best [] = ⊥
IsFirst path d best (v ∷ mounts) =
    ((v ≡ best) × (depth path v ≡ d)) ⊎ ((depth path v < d) × IsFirst path d best mounts)

-- The mount paths have no 0 inside them and are not empty.
abbrev pub ArePlain : List Vnode → Type 0
ArePlain [] = Unit {0}
ArePlain (v ∷ mounts) = Plain v.abs_mount_path × (v.abs_mount_path ≢ []) × ArePlain mounts

rest_after-append : (m rest : CString) → rest_after m (m ++ rest) ≡ some rest
rest_after-append [] rest = refl
rest_after-append (c ∷ m) rest = rw (eq→== c c refl) (rest_after-append m rest)

append-rest_after : (m path rest : CString) → rest_after m path ≡ some rest → path ≡ m ++ rest
append-rest_after [] path rest e = cc e
append-rest_after (c ∷ m) [] rest e = cc e
append-rest_after (c ∷ m) (d ∷ path) rest e = elim (Bool-cases (c == d)) [
  | inl same ↦
      ap (λ x. x ∷ path) (sym (==→eq c d same))
      ∙ ap (λ t. c ∷ t) (append-rest_after m path rest (rw same at e))
  | inr other ↦ absurd (cc (rw other at e))
]

slashes-strcnt : (s : CString) → Plain s → strcnt s slash ≡ slashes s
unfolding strcnt
slashes-strcnt [] h = refl
slashes-strcnt (c ∷ s) (n, h) = ground (arith, n, slashes-strcnt s h)

true_iff : (a b : Bool) → (a ≡ true → b ≡ true) → (b ≡ true → a ≡ true) → a ≡ b
true_iff true b f g = sym (f refl)
true_iff false true f g = g refl
true_iff false false f g = refl

mount_matches-lies_under :
    (mount path : CString)
    → Plain mount
    → Plain path
    → mount ≢ []
    → mount_matches mount path ≡ lies_under path mount
unfolding lies_under
mount_matches-lies_under mount path h k ne =
    let (there, back) = mount_matches_iff mount path h k ne in
    true_iff (mount_matches mount path) (at_boundary mount (rest_after mount path))
      (λ e.
        let (rest, split, boundary) = there e in
        ap (λ t. at_boundary mount (rest_after mount t)) split
        ∙ ap (at_boundary mount) (rest_after-append mount rest)
        ∙ boundary)
      (λ e. by_rest back (rest_after mount path) refl e)
  where
    by_rest :
        ((rest : CString)
          → path ≡ mount ++ rest
          → (ends_in_slash mount || begins_segment rest) ≡ true
          → mount_matches mount path ≡ true)
        → (o : Option CString) → rest_after mount path ≡ o
        → at_boundary mount o ≡ true
        → mount_matches mount path ≡ true
    by_rest back none f e = cc e
    by_rest back (some rest) f e = back rest (append-rest_after mount path rest f) e

depth-depth_for :
    (path : CString) (v : Vnode)
    → Plain v.abs_mount_path
    → v.abs_mount_path ≢ []
    → Plain path
    → depth_for path v ≡ depth path v
depth-depth_for path v h ne k =
    ap (λ b. if b then strcnt v.abs_mount_path slash else 0)
      (mount_matches-lies_under v.abs_mount_path path h k ne)
    ∙ ap (λ n. if lies_under path v.abs_mount_path then n else 0)
        (slashes-strcnt v.abs_mount_path h)

module _ (path : CString) (k : Plain path) where
  NoDeeper-DeepestIs :
      (d : ℕ) (mounts : List Vnode)
      → ArePlain mounts
      → NoDeeper path d mounts
      → DeepestIs path d mounts
  NoDeeper-DeepestIs d [] plain h = tt
  NoDeeper-DeepestIs d (v ∷ mounts) (p, ne, plain) (le, h) =
      (subst (λ n. n ≤ d) (depth-depth_for path v p ne k) le, NoDeeper-DeepestIs d mounts plain h)

  FirstAt-IsFirst :
      (d : ℕ) (best : Vnode) (mounts : List Vnode)
      → ArePlain mounts
      → FirstAt path d best mounts
      → IsFirst path d best mounts
  FirstAt-IsFirst d best [] plain h = absurd h
  FirstAt-IsFirst d best (v ∷ mounts) (p, ne, plain) (inl (e, f)) =
      inl (e, sym (depth-depth_for path v p ne k) ∙ f)
  FirstAt-IsFirst d best (v ∷ mounts) (p, ne, plain) (inr (lt, h)) =
      inr (
        subst (λ n. n < d) (depth-depth_for path v p ne k) lt,
        FirstAt-IsFirst d best mounts plain h,
      )

-- On paths with no 0 inside them, and mount paths that are not empty, `vfs_vnode_for` finds no file
-- system just when the path lies under no mount path with a slash; otherwise it finds the first
-- mounted one of those with the most slashes of the mount paths that the path lies under. It lies
-- under a mount path that is a prefix of it and ends where a segment does.
pub vfs_vnode_for_lies_under :
    (mounts : List Vnode) (path : CString)
    → ArePlain mounts
    → Plain path
    → ((vfs_vnode_for mounts path ≡ none) × DeepestIs path 0 mounts)
      ⊎ ((v : Vnode) × (d : ℕ) × (vfs_vnode_for mounts path ≡ some v)
          × (0 < d)
          × IsFirst path d v mounts
          × DeepestIs path d mounts)
vfs_vnode_for_lies_under mounts path plain k = elim (vfs_vnode_for_deepest mounts path) [
  | inl (e, h) ↦ inl (e, NoDeeper-DeepestIs path k 0 mounts plain h)
  | inr (v, d, e, lt, first, h) ↦ inr (
    v,
    d,
    e,
    lt,
    FirstAt-IsFirst path k d v mounts plain first,
    NoDeeper-DeepestIs path k d mounts plain h,
  )
]
