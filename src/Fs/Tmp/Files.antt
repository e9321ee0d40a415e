-- ===== src/Fs/Tmp/Files.antt =====
-- The files of the temporary file system by their paths.
use pi_os.Common.{
  ℕ, ◌+◌, ◌≤◌, ◌<◌, ◌≡◌, refl, sym, ap, subst, arith, true, false, Option, none, some, List, [],
  ◌∷◌, ◌++◌, leb, length, Bool-cases, inl, inr, ◌%◌,
}
use pi_os.Libc.Strings.{CString, strcmp, strcpy}
use pi_os.Libc.Strings.Compare.{text, strcmp-of_eq}
use pi_os.Libc.Strings.Copy.{text-strcpy}
use pi_os.Fs.{Inode}
use pi_os.Fs.Mounts.{is_zero}
use pi_os.Fs.Tmp.{
  Tmp, max_files, new_inode, found_again, find_name, create_file, or_create, tmp_find_inode,
}

find_name-snoc :
    (self : ℕ) (path : CString) (files : List Inode) (inode : Inode)
    → find_name self path files ≡ none
    → is_zero (strcmp inode.name path) ≡ true
    → inode.vnode ≡ some self
    → find_name self path (files ++ (inode ∷ [])) ≡ some (inode, files ++ (inode ∷ []))
unfolding find_name
find_name-snoc self path [] inode h e at = ground (arith, e, at)
find_name-snoc self path (i ∷ files) inode h e at =
    elim (Bool-cases (is_zero (strcmp i.name path))) [
      | inl found ↦ absurd (ground (arith, h, found))
      | inr miss ↦ rw miss (
          ap (found_again i) (
            find_name-snoc self path files inode
              (later (find_name self path files) (ground (arith, h, miss))) e at))
    ]
  where
    later : (o : Option (Inode × List Inode)) → found_again i o ≡ none → o ≡ none
    later none h = refl
    later (some (a, b)) h = absurd (cc h)

-- What was found is found again, where the search leaves it.
abbrev FoundAgain : ℕ → CString → Option (Inode × List Inode) → Type 0
FoundAgain self path none = Unit {0}
FoundAgain self path (some (inode, files)) = find_name self path files ≡ some (inode, files)

find_name-FoundAgain :
    (self : ℕ) (path : CString) (files : List Inode)
    → FoundAgain self path (find_name self path files)
unfolding find_name
find_name-FoundAgain self path [] = tt
find_name-FoundAgain self path (i ∷ files) = elim (Bool-cases (is_zero (strcmp i.name path))) [
  | inl found ↦ rw (found, found) refl
  | inr miss ↦
      rw miss (later miss (find_name self path files) (find_name-FoundAgain self path files))
]
  where
    later :
        is_zero (strcmp i.name path) ≡ false
        → (o : Option (Inode × List Inode)) → FoundAgain self path o
        → FoundAgain self path (found_again i o)
    later miss none h = tt
    later miss (some (inode, files')) h = rw miss (ap (found_again i) h)

abbrev Again : (self : ℕ) → CString → List ℕ → Option Inode × Tmp → Type 0
Again self path junk (none, s) = Unit {0}
Again self path junk (some inode, s) = tmp_find_inode self path junk s ≡ (some inode, s)

create_file-Again :
    (self : ℕ) (path : CString) (junk junk' : List ℕ) (s : Tmp)
    → length (text path) < length junk
    → find_name self path s.files ≡ none
    → Again self path junk' (create_file self path junk s)
unfolding tmp_find_inode
create_file-Again self path junk junk' s room miss = elim (Bool-cases (leb max_files s.fid)) [
  | inl full ↦ rw full tt
  | inr free ↦
      let same : is_zero (strcmp (strcpy junk path) path) ≡ true =
        ap is_zero (strcmp-of_eq (strcpy junk path) path (text-strcpy junk path room)) in
      rw (free, find_name-snoc self path s.files (new_inode self path junk s.fid) miss same refl)
        refl
]

or_create-Again :
    (self : ℕ) (path : CString) (junk junk' : List ℕ) (s : Tmp) (o : Option (Inode × List Inode))
    → length (text path) < length junk
    → find_name self path s.files ≡ o
    → FoundAgain self path o
    → Again self path junk' (or_create self path junk s o)
unfolding tmp_find_inode
or_create-Again self path junk junk' s none room e h =
    create_file-Again self path junk junk' s room e
or_create-Again self path junk junk' s (some (inode, files)) room e h = rw h refl

tmp_find_inode-Again :
    (self : ℕ) (path : CString) (junk junk' : List ℕ) (s : Tmp)
    → length (text path) < length junk
    → Again self path junk' (tmp_find_inode self path junk s)
unfolding tmp_find_inode
tmp_find_inode-Again self path junk junk' s room =
    or_create-Again self path junk junk' s _ room refl (find_name-FoundAgain self path s.files)

-- A path names one file: a search that finds or creates an inode is found by every later search for
-- the path, which changes nothing.
pub tmp_find_inode_again :
    (self : ℕ) (path : CString) (junk junk' : List ℕ) (s : Tmp) (inode : Inode) (s' : Tmp)
    → length (text path) < length junk
    → tmp_find_inode self path junk s ≡ (some inode, s')
    → tmp_find_inode self path junk' s' ≡ (some inode, s')
tmp_find_inode_again self path junk junk' s inode s' room e =
    subst (Again self path junk') e (tmp_find_inode-Again self path junk junk' s room)

-- The fids ascend from `lo` in the order of the list, to below `hi`.
abbrev pub FidsWithin : ℕ → List Inode → ℕ → Type 0
FidsWithin lo [] hi = lo ≤ hi
FidsWithin lo (i ∷ files) hi = (lo ≤ i.fid) × FidsWithin (i.fid + 1) files hi

FidsWithin-snoc :
    (lo : ℕ) (files : List Inode) (i : Inode)
    → FidsWithin lo files i.fid
    → FidsWithin lo (files ++ (i ∷ [])) (i.fid + 1)
FidsWithin-snoc lo [] i h = (h, omega arith)
FidsWithin-snoc lo (j ∷ files) i (l, h) = (l, FidsWithin-snoc (j.fid + 1) files i h)

abbrev SameFids : List Inode → Option (Inode × List Inode) → Type 0
SameFids files none = Unit {0}
SameFids files (some (i, files')) = (lo hi : ℕ) → FidsWithin lo files hi → FidsWithin lo files' hi

find_name-SameFids :
    (self : ℕ) (path : CString) (files : List Inode) → SameFids files (find_name self path files)
unfolding find_name
find_name-SameFids self path [] = tt
find_name-SameFids self path (i ∷ files) = elim (Bool-cases (is_zero (strcmp i.name path))) [
  | inl found ↦ rw found (λ lo hi h. h)
  | inr miss ↦ rw miss (later (find_name self path files) (find_name-SameFids self path files))
]
  where
    later :
        (o : Option (Inode × List Inode))
        → SameFids files o
        → SameFids (i ∷ files) (found_again i o)
    later none h = tt
    later (some (j, files')) h = λ lo hi (l, k). (l, h (i.fid + 1) hi k)

-- The files have distinct fids, below `fid` and below the number of slots.
pub record IsNumbered (s : Tmp) : Type 0 where
  pub fids : FidsWithin 0 s.files s.fid
  pub slots : s.fid ≤ max_files

or_create-IsNumbered :
    (self : ℕ) (path : CString) (junk : List ℕ) (s : Tmp) (o : Option (Inode × List Inode))
    → IsNumbered s
    → SameFids s.files o
    → IsNumbered (or_create self path junk s o).1
or_create-IsNumbered self path junk s none v h = elim (Bool-cases (leb max_files s.fid)) [
  | inl full ↦ rw full v
  | inr free ↦
      let next : (s.fid + 1) % 0x1_0000 ≡ s.fid + 1 = omega (arith, v.slots) in
      rw free (record {
        fids = subst (FidsWithin 0 _) (sym next) (FidsWithin-snoc 0 s.files _ v.fids);
        slots = ground (arith, free, v.slots);
      })
]
or_create-IsNumbered self path junk s (some (i, files)) v h = record {
  fids = h 0 s.fid v.fids;
  slots = v.slots;
}

-- `tmp_find_inode` keeps the fids distinct and inside the 64 slots of `alloc_fid`.
pub tmp_find_inode-IsNumbered :
    (self : ℕ) (path : CString) (junk : List ℕ) (s : Tmp)
    → IsNumbered s
    → IsNumbered (tmp_find_inode self path junk s).1
unfolding tmp_find_inode
tmp_find_inode-IsNumbered self path junk s v =
    or_create-IsNumbered self path junk s _ v (find_name-SameFids self path s.files)
