-- ===== src/Fs/Tar/Read.antt =====
-- A read of up to two sectors past the one that it starts in delivers the bytes of the file.
use pi_os.Common.{
  ℕ, zero, suc, ◌+◌, ◌-◌, ◌*◌, ◌/◌, ◌%◌, ◌≤◌, ◌<◌, ◌≡◌, refl, sym, ap, ap₂, ◌∙◌, arith, inl, inr,
  false, List, [], ◌∷◌, ◌++◌, append-nil, min, leb, ltb, ◌==◌, if◌then◌else◌, take, drop,
  Bool-cases, ==→eq, ne→==, take-drop-take, drop-drop, take-split,
}
use pi_os.Common.Word.{add16}
use pi_os.Fs.Tar.{
  sector_size, SdRead, sd_read_block, full_reads, last_read, clipped, sector_reads,
  tar_read_blocking,
}

-- What the reads put into the buffer, one behind the other.
abbrev pub deliver : (ℕ → List ℕ) → List SdRead → List ℕ
deliver disk [] = []
deliver disk (r ∷ rs) = sd_read_block (disk r.block) r ++ deliver disk rs

full_reads-none :
    (fuel new_len s : ℕ)
    → new_len < 512
    → full_reads (suc fuel) 0 new_len s ≡ record { reads = []; new_len = new_len; sector = s }
unfolding full_reads
full_reads-none fuel new_len s h = ground arith

full_reads-once :
    (fuel new_len s : ℕ)
    → 512 ≤ new_len
    → new_len ≤ 1024
    → full_reads (suc (suc fuel)) 0 new_len s ≡ record {
      reads = record { block = s; len = 512; offset = 0 } ∷ [];
      new_len = new_len - 512;
      sector = add16 s 1;
    }
unfolding full_reads
full_reads-once fuel new_len s lo hi = ground arith

-- The disk holds the bytes of a file behind its header.
abbrev pub Holds : (ℕ → List ℕ) → (fid : ℕ) → List ℕ → Type 0
Holds disk fid bytes =
    (k : ℕ) → disk (fid + 1 + k) ≡ take sector_size (drop (sector_size * k) bytes)

module _ (disk : ℕ → List ℕ) (fid : ℕ) (bytes : List ℕ) (holds : Holds disk fid bytes) where
  sd_read_block-take :
      (k block p r : ℕ)
      → block ≡ fid + 1 + k
      → p + r ≤ 512
      → sd_read_block (disk block) (record { block = block; len = r; offset = p })
        ≡ take r (drop (512 * k + p) bytes)
  unfolding sd_read_block
  sd_read_block-take k block p r e fits =
      ap (λ s. take r (drop p s)) (ap disk e ∙ holds k)
      ∙ take-drop-take r p 512 (drop (512 * k) bytes) fits
      ∙ ap (take r) (drop-drop (512 * k) p bytes)

  deliver-one :
      (k block r : ℕ)
      → block ≡ fid + 1 + k
      → r ≤ 512
      → deliver disk (record { block = block; len = r; offset = 0 } ∷ [])
        ≡ take r (drop (512 * k) bytes)
  deliver-one k block r e fits =
      let z : 512 * k + 0 ≡ 512 * k = omega arith in
      append-nil _
      ∙ sd_read_block-take k block 0 r e (omega (arith, fits))
      ∙ ap (λ n. take r (drop n bytes)) z

  deliver-two :
      (k block new_len : ℕ)
      → block ≡ fid + 1 + k
      → block < 0xFFFF
      → 512 ≤ new_len
      → new_len ≤ 1024
      → deliver disk (
          record { block = block; len = 512; offset = 0 }
          ∷ record { block = add16 block 1; len = new_len - 512; offset = 0 }
          ∷ [])
        ≡ take new_len (drop (512 * k) bytes)
  deliver-two k block new_len e small lo hi =
      let at : 512 * (k + 1) ≡ 512 * k + 512 = omega arith in
      let first : 512 * k + 0 ≡ 512 * k = omega arith in
      let sum : 512 + (new_len - 512) ≡ new_len = omega (arith, lo) in
      ap₂ (λ a b. a ++ b)
        (sd_read_block-take k block 0 512 e (omega arith) ∙ ap (λ n. take 512 (drop n bytes)) first)
        (deliver-one (k + 1) (add16 block 1) (new_len - 512) (omega (arith, e, small))
            (omega (arith, hi))
          ∙ ap (λ n. take (new_len - 512) (drop n bytes)) at
          ∙ ap (take (new_len - 512)) (sym (drop-drop (512 * k) 512 bytes)))
      ∙ take-split 512 (new_len - 512) (drop (512 * k) bytes)
      ∙ ap (λ n. take n (drop (512 * k) bytes)) sum

  -- The reads behind the first, from the start of sector `k` on.
  deliver-others :
      (fuel k block new_len : ℕ)
      → block ≡ fid + 1 + k
      → block < 0xFFFF
      → new_len ≤ 1024
      → deliver disk
          (if new_len == 0 then [] else last_read (full_reads (suc (suc fuel)) 0 new_len block))
        ≡ take new_len (drop (512 * k) bytes)
  deliver-others fuel k block new_len e small le = elim (Bool-cases (ltb new_len 512)) [
    | inl short ↦ elim (Bool-cases (new_len == 0)) [
      | inl empty ↦ rw empty (ap (λ n. take n (drop (512 * k) bytes)) (sym (==→eq new_len 0 empty)))
      | inr some_left ↦
          rw
            (some_left, full_reads-none (suc fuel) new_len block (ground (arith, short)), some_left)
            (deliver-one k block new_len e (ground (arith, short)))
    ]
    | inr long ↦
        let lo : 512 ≤ new_len = ground (arith, long) in
        let some_left : (new_len == 0) ≡ false = ne→== new_len 0 (omega (arith, lo)) in
        elim (Bool-cases (new_len - 512 == 0)) [
          | inl whole ↦
              let same : 512 ≡ new_len = omega (arith, lo, ==→eq (new_len - 512) 0 whole) in
              rw (some_left, full_reads-once fuel new_len block lo le, whole)
                (deliver-one k block 512 e (omega arith)
                  ∙ ap (λ n. take n (drop (512 * k) bytes)) same)
          | inr more ↦
              rw (some_left, full_reads-once fuel new_len block lo le, more)
                (deliver-two k block new_len e small lo le)
        ]
  ]

  sector_reads-take :
      (fuel k pos len : ℕ)
      → fid + 1 + k < 0xFFFE
      → pos < 512
      → len ≤ 512 - pos + 1024
      → deliver disk (sector_reads (suc (suc fuel)) pos (fid + 1 + k) len)
        ≡ take len (drop (512 * k + pos) bytes)
  unfolding sector_reads
  sector_reads-take fuel k pos len small inside le =
      let n = min len (512 - pos) in
      let sum : n + (len - n) ≡ len = omega arith in
      let next : add16 (fid + 1 + k) 1 ≡ fid + 1 + (k + 1) = omega (arith, small) in
      ap₂ (λ a b. a ++ b) (sd_read_block-take k (fid + 1 + k) pos n refl (omega (arith, inside)))
        (deliver-others fuel (k + 1) (add16 (fid + 1 + k) 1) (len - n) next (omega (arith, small))
            (omega (arith, le))
          ∙ others (len - n) n refl refl)
      ∙ take-split n (len - n) (drop (512 * k + pos) bytes)
      ∙ ap (λ m. take m (drop (512 * k + pos) bytes)) sum
    where
      -- When something is left, the first read went up to the end of its sector.
      others :
          (left n : ℕ)
          → left ≡ len - n
          → n ≡ min len (512 - pos)
          → take left (drop (512 * (k + 1)) bytes) ≡ take left (drop n (drop (512 * k + pos) bytes))
      others zero n e f = refl
      others (suc left) n e f =
          let at : 512 * (k + 1) ≡ 512 * k + pos + n = omega (arith, e, f, inside) in
          ap (λ m. take (suc left) (drop m bytes)) at
          ∙ ap (take (suc left)) (sym (drop-drop (512 * k + pos) n bytes))

-- A read inside a file, of no more than two sectors past the one that it starts in, returns the
-- number of bytes that the file has there, up to the length, moves the offset by it, and delivers
-- those bytes of the file. The words must not wrap.
pub tar_read_blocking-take :
    (disk : ℕ → List ℕ) (fid : ℕ) (bytes : List ℕ) (file_size offset len : ℕ)
    → Holds disk fid bytes
    → fid < 0xFF00
    → file_size < 0x1_0000
    → offset < file_size
    → offset + len < 0x1_0000
    → min len (file_size - offset) ≤ 512 - offset % 512 + 1024
    → let (n, offset', reads) = tar_read_blocking file_size fid offset len in
      (n ≡ min len (file_size - offset))
      × (offset' ≡ offset + n)
      × (deliver disk reads ≡ take n (drop offset bytes))
unfolding tar_read_blocking
tar_read_blocking-take disk fid bytes file_size offset len holds low size inside fits le =
    let n : clipped file_size offset len ≡ min len (file_size - offset) =
      ground (arith, inside, fits, size) in
    let open_ : leb file_size offset ≡ false = ground (arith, inside) in
    let sector : add16 (add16 fid (offset / 512)) 1 ≡ fid + 1 + offset / 512 =
      omega (arith, low, inside, size) in
    let at : 512 * (offset / 512) + offset % 512 ≡ offset = omega arith in
    rw (open_, n, sector)
      (
        refl,
        omega (arith, inside, size),
        sector_reads-take disk fid bytes holds 126 (offset / 512) (offset % 512)
              (min len (file_size - offset)) (omega (arith, low, inside, size)) (omega arith) le
            ∙ ap (λ m. take (min len (file_size - offset)) (drop m bytes)) at,
      )
