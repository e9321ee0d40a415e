-- ===== src/Fs/Mounts/Best.antt =====
-- The search finds the deepest mount point that a path lies under.
use pi_os.Common.{
  ℕ, ◌≤◌, ◌<◌, ◌≡◌, refl, sym, subst, arith, Option, none, some, List, [], ◌∷◌, ltb, if◌then◌else◌,
  Bool-cases, inl, inr, ltb→lt, ◌⊎◌,
}
use pi_os.Libc.Strings.{CString, strcnt}
use pi_os.Fs.Mounts.{slash, Vnode, mount_matches, visit, search_mounts, vfs_vnode_for}

-- The number of slashes of a mount point that the path lies under, 0 for another.
abbrev pub depth_for : CString → Vnode → ℕ
depth_for path v = if mount_matches v.abs_mount_path path then strcnt v.abs_mount_path slash else 0

-- No mount point of the list that the path lies under is deeper than `d`.
abbrev pub NoDeeper : CString → ℕ → List Vnode → Type 0
NoDeeper path d [] = Unit {0}
NoDeeper path d (v ∷ mounts) = (depth_for path v ≤ d) × NoDeeper path d mounts

-- `best` is the first mount point of the list with the depth `d`.
abbrev pub FirstAt : CString → ℕ → Vnode → List Vnode → Type 0
FirstAt path d best [] = ⊥
FirstAt path d best (v ∷ mounts) =
    ((v ≡ best) × (depth_for path v ≡ d)) ⊎ ((depth_for path v < d) × FirstAt path d best mounts)

abbrev Found : CString → List Vnode → Option Vnode × ℕ → Option Vnode × ℕ → Type 0
Found path mounts (old, c) (best, d) =
    (c ≤ d)
    × NoDeeper path d mounts
    × (((best ≡ old) × (d ≡ c))
        ⊎ ((v : Vnode) × (best ≡ some v) × (c < d) × FirstAt path d v mounts))

Found-deeper :
    (path : CString) (mounts : List Vnode) (old : Option Vnode) (c : ℕ) (v : Vnode)
    (out : Option Vnode × ℕ)
    → c < depth_for path v
    → Found path mounts (some v, depth_for path v) out
    → Found path (v ∷ mounts) (old, c) out
Found-deeper path mounts old c v (best, d) lt (le, none_deeper, inl (e, f)) =
    (omega arith, (omega arith, none_deeper), inr (v, e, omega arith, inl (refl, sym f)))
Found-deeper path mounts old c v (best, d) lt (le, none_deeper, inr (w, e, lt', first)) =
    (omega arith, (omega arith, none_deeper), inr (w, e, omega arith, inr (lt', first)))

Found-kept :
    (path : CString) (mounts : List Vnode) (old : Option Vnode) (c : ℕ) (v : Vnode)
    (out : Option Vnode × ℕ)
    → depth_for path v ≤ c
    → Found path mounts (old, c) out
    → Found path (v ∷ mounts) (old, c) out
Found-kept path mounts old c v (best, d) le (le', none_deeper, inl same) =
    (le', (omega arith, none_deeper), inl same)
Found-kept path mounts old c v (best, d) le (le', none_deeper, inr (w, e, lt, first)) =
    (le', (omega arith, none_deeper), inr (w, e, lt, inr (omega arith, first)))

visit-cases :
    (path : CString) (old : Option Vnode) (c : ℕ) (v : Vnode)
    → ((c < depth_for path v) × (visit path (old, c) v ≡ (some v, depth_for path v)))
      ⊎ ((depth_for path v ≤ c) × (visit path (old, c) v ≡ (old, c)))
unfolding visit
visit-cases path old c v = elim (Bool-cases (mount_matches v.abs_mount_path path)) [
  | inr e ↦ inr (rw e (omega arith), ground (arith, e))
  | inl e ↦ elim (Bool-cases (ltb c (strcnt v.abs_mount_path slash))) [
    | inl lt ↦ inl (rw e (ltb→lt _ _ lt), ground (arith, e, lt))
    | inr ge ↦ inr (rw e (ground (arith, ge)), ground (arith, e, ge))
  ]
]

search_mounts-Found :
    (path : CString) (mounts : List Vnode) (old : Option Vnode) (c : ℕ)
    → Found path mounts (old, c) (search_mounts path (old, c) mounts)
unfolding search_mounts
search_mounts-Found path [] old c = (omega arith, tt, inl (refl, refl))
search_mounts-Found path (v ∷ mounts) old c = elim (visit-cases path old c v) [
  | inl (lt, e) ↦
      subst (λ p. Found path (v ∷ mounts) (old, c) (search_mounts path p mounts)) (sym e)
        (Found-deeper path mounts old c v _ lt
          (search_mounts-Found path mounts (some v) (depth_for path v)))
  | inr (le, e) ↦
      subst (λ p. Found path (v ∷ mounts) (old, c) (search_mounts path p mounts)) (sym e)
        (Found-kept path mounts old c v _ le (search_mounts-Found path mounts old c))
]

-- `vfs_vnode_for` finds a file system just when the path lies under a mount point with a slash, and
-- then it is the first mounted one of those with the most slashes in their mount path.
pub vfs_vnode_for_deepest :
    (mounts : List Vnode) (path : CString)
    → ((vfs_vnode_for mounts path ≡ none) × NoDeeper path 0 mounts)
      ⊎ ((v : Vnode) × (d : ℕ) × (vfs_vnode_for mounts path ≡ some v)
          × (0 < d)
          × FirstAt path d v mounts
          × NoDeeper path d mounts)
unfolding vfs_vnode_for
vfs_vnode_for_deepest mounts path = conclude _ (search_mounts-Found path mounts none 0)
  where
    conclude :
        (out : Option Vnode × ℕ)
        → Found path mounts (none, 0) out
        → ((out.0 ≡ none) × NoDeeper path 0 mounts)
          ⊎ ((v : Vnode) × (d : ℕ) × (out.0 ≡ some v)
              × (0 < d)
              × FirstAt path d v mounts
              × NoDeeper path d mounts)
    conclude (best, d) (le, none_deeper, inl (e, f)) =
        inl (e, subst (λ n. NoDeeper path n mounts) f none_deeper)
    conclude (best, d) (le, none_deeper, inr (v, e, lt, first)) =
        inr (v, d, e, lt, first, none_deeper)
