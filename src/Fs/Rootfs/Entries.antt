-- ===== src/Fs/Rootfs/Entries.antt =====
-- A new entry is found by its path, and its path by its inode.
use pi_os.Common.{
  ℕ, suc, ◌+◌, ◌-◌, ◌<◌, ◌≡◌, refl, sym, ap, ◌∙◌, arith, true, Option, none, some, List, [], ◌∷◌,
  ◌++◌, take, drop, length, length-drop, Bool-cases, inl, inr, eq→==, ne→==,
}
use pi_os.Libc.Strings.{CString, strlen, strcmp, strcpy}
use pi_os.Libc.Strings.Compare.{text, terminated, strlen-length, strcmp-of_eq}
use pi_os.Libc.Strings.Copy.{strcpy-terminated, text-strcpy}
use pi_os.Fs.{Inode}
use pi_os.Fs.Mounts.{is_zero}
use pi_os.Fs.Rootfs.{
  Ent, Rootfs, full_path, rootfs_create_entry, found_later, rootfs_vfs_find_inode,
  rootfs_vfs_absolute_path,
}

text-append : (s r : CString) → text (text s ++ r) ≡ text s ++ text r
text-append [] r = refl
text-append (c ∷ s) r = ground (arith, text-append s r)

take-terminated : (s : CString) (r : List ℕ) → take (length (text s)) (terminated s ++ r) ≡ text s
take-terminated [] r = refl
take-terminated (c ∷ s) r = ground (arith, take-terminated s r)

length-terminated : (s : CString) → length (terminated s) ≡ suc (length (text s))
length-terminated [] = refl
length-terminated (c ∷ s) = ground (arith, length-terminated s)

length-strcpy : (dest : List ℕ) (src : CString) → length (strcpy dest src) ≡ length dest
unfolding strcpy
length-strcpy [] src = refl
length-strcpy (d ∷ dest) [] = refl
length-strcpy (d ∷ dest) (c ∷ src) = ground (arith, length-strcpy dest src)

text-full_path :
    (junk : List ℕ) (path_prefix name : CString)
    → length (text path_prefix) + length (text name) < length junk
    → text (full_path junk path_prefix name) ≡ text path_prefix ++ text name
unfolding full_path
text-full_path junk path_prefix name room =
    let n = length (text path_prefix) in
    let copied = strcpy-terminated junk path_prefix (omega (arith, room)) in
    let front : take (strlen path_prefix) (strcpy junk path_prefix) ≡ text path_prefix =
      ap (λ k. take k (strcpy junk path_prefix)) (strlen-length path_prefix)
      ∙ ap (take n) copied
      ∙ take-terminated path_prefix _ in
    let rest : length (drop (strlen path_prefix) (strcpy junk path_prefix)) ≡ length junk - n =
      omega (
        arith,
        length-drop (strlen path_prefix) (strcpy junk path_prefix),
        length-strcpy junk path_prefix,
        strlen-length path_prefix,
      ) in
    ap (λ t. text (t ++ strcpy (drop (strlen path_prefix) (strcpy junk path_prefix)) name)) front
    ∙ text-append path_prefix _
    ∙ ap (λ t. text path_prefix ++ t) (text-strcpy _ name (omega (arith, rest, room)))

-- The fids of the entries are below `n`.
abbrev pub FidsBelow : ℕ → List Ent → Type 0
FidsBelow n [] = Unit {0}
FidsBelow n (ent ∷ ents) = (ent.inode.fid < n) × FidsBelow n ents

rootfs_vfs_absolute_path-snoc :
    (inode : Inode) (ents : List Ent) (path : CString)
    → FidsBelow inode.fid ents
    → rootfs_vfs_absolute_path inode (ents ++ (record { full_path = path; inode = inode } ∷ []))
      ≡ some path
unfolding rootfs_vfs_absolute_path
rootfs_vfs_absolute_path-snoc inode [] path h = rw (eq→== inode.fid inode.fid refl) refl
rootfs_vfs_absolute_path-snoc inode (ent ∷ ents) path (lt, h) =
    rw (ne→== ent.inode.fid inode.fid (omega (arith, lt)))
      (rootfs_vfs_absolute_path-snoc inode ents path h)

rootfs_vfs_find_inode-snoc :
    (self : ℕ) (path : CString) (ents : List Ent) (ent : Ent)
    → rootfs_vfs_find_inode self path ents ≡ none
    → is_zero (strcmp path ent.full_path) ≡ true
    → ent.inode.vnode ≡ some self
    → rootfs_vfs_find_inode self path (ents ++ (ent ∷ [])) ≡ some (ent.inode, ents ++ (ent ∷ []))
unfolding rootfs_vfs_find_inode
rootfs_vfs_find_inode-snoc self path [] ent h e at = ground (arith, e, at)
rootfs_vfs_find_inode-snoc self path (x ∷ ents) ent h e at =
    elim (Bool-cases (is_zero (strcmp path x.full_path))) [
      | inl found ↦ absurd (ground (arith, h, found))
      | inr miss ↦ rw miss (
          ap (found_later x) (
            rootfs_vfs_find_inode-snoc self path ents ent
              (later (rootfs_vfs_find_inode self path ents) (ground (arith, h, miss))) e at))
    ]
  where
    later : (o : Option (Inode × List Ent)) → found_later x o ≡ none → o ≡ none
    later none h = refl
    later (some (a, b)) h = absurd (cc h)

-- A new entry whose path is the prefix and then the name, and is not taken yet, is what a search for
-- that path finds, and the absolute path of its inode is that path.
pub rootfs_vfs_find_inode-rootfs_create_entry :
    (junk : List ℕ) (s : Rootfs) (self : ℕ) (path_prefix name path : CString) (kind : ℕ)
    → text path ≡ text path_prefix ++ text name
    → length (text path_prefix) + length (text name) < length junk
    → FidsBelow s.ffid s.in_list
    → rootfs_vfs_find_inode self path s.in_list ≡ none
    → let (inode, s') = rootfs_create_entry junk s self path_prefix name kind in
      (rootfs_vfs_find_inode self path s'.in_list ≡ some (inode, s'.in_list))
      × ((full : CString) × (rootfs_vfs_absolute_path inode s'.in_list ≡ some full)
          × (text full ≡ text path))
unfolding rootfs_create_entry
rootfs_vfs_find_inode-rootfs_create_entry junk s self path_prefix name path kind is room below
      free =
    let same : text (full_path junk path_prefix name) ≡ text path =
      text-full_path junk path_prefix name room ∙ sym is in
    (
      rootfs_vfs_find_inode-snoc self path s.in_list _ free
          (ap is_zero (strcmp-of_eq path (full_path junk path_prefix name) (sym same))) refl,
      (
        full_path junk path_prefix name,
        rootfs_vfs_absolute_path-snoc _ s.in_list (full_path junk path_prefix name) below,
        same,
      ),
    )
