-- ===== src/Fs/Tar/Oversized.antt =====
-- A longer read asks for more than a sector at its end, and is left short.
use pi_os.Common.{
  ℕ, zero, suc, ◌+◌, ◌-◌, ◌/◌, ◌%◌, ◌≤◌, ◌<◌, ◌≡◌, ◌≢◌, refl, ap, arith, inl, inr, true, false,
  List, [], ◌∷◌, ◌++◌, min, leb, ltb, take, drop, length, length-append, length-take, length-drop,
  Bool-cases, ne→==,
}
use pi_os.Common.Word.{add16}
use pi_os.Fs.Tar.{
  sector_size, SdRead, sd_read_block, Reads, then_read, full_reads, last_read, clipped,
  sector_reads, tar_read_blocking,
}
use pi_os.Fs.Tar.Read.{deliver}

-- More rounds than the length has sectors change nothing.
pub full_reads_enough :
    (fuel i new_len s : ℕ)
    → new_len / 512 ≤ i + fuel
    → full_reads fuel i new_len s ≡ full_reads (suc fuel) i new_len s
unfolding full_reads
full_reads_enough zero i new_len s h = ground (arith, h)
full_reads_enough (suc fuel) i new_len s h = elim (Bool-cases (ltb i (new_len / 512))) [
  | inl on ↦ rw on (
      ap (then_read (record { block = s; len = 512; offset = 0 }))
        (full_reads_enough fuel (i + 1) (new_len - 512) (add16 s 1) (omega (arith, h))))
  | inr off ↦ rw off refl
]

-- The room that the reads have in a sector each.
abbrev capped : List SdRead → ℕ
capped [] = 0
capped (r ∷ rs) = min r.len 512 + capped rs

capped-append : (xs ys : List SdRead) → capped (xs ++ ys) ≡ capped xs + capped ys
capped-append [] ys = omega arith
capped-append (x ∷ xs) ys = omega (arith, capped-append xs ys)

length-deliver :
    (disk : ℕ → List ℕ) (rs : List SdRead)
    → ((s : ℕ) → length (disk s) ≡ 512)
    → length (deliver disk rs) ≤ capped rs
unfolding sd_read_block
length-deliver disk [] h = omega arith
length-deliver disk (r ∷ rs) h =
    let here = drop r.offset (disk r.block) in
    omega (
      arith,
      length-append (take r.len here) (deliver disk rs),
      length-take r.len here,
      length-drop r.offset (disk r.block),
      h r.block,
      length-deliver disk rs h,
    )

-- What the loop reads is what it takes off the length.
full_reads-capped :
    (fuel i new_len s : ℕ)
    → capped (full_reads fuel i new_len s).reads + (full_reads fuel i new_len s).new_len ≡ new_len
unfolding full_reads
full_reads-capped zero i new_len s = omega arith
full_reads-capped (suc fuel) i new_len s = elim (Bool-cases (ltb i (new_len / 512))) [
  | inl on ↦ rw on (ground (arith, on, full_reads-capped fuel (i + 1) (new_len - 512) (add16 s 1)))
  | inr off ↦ rw off (omega arith)
]

-- The bound of the loop shrinks with the length, so it stops with more than a sector left.
full_reads-left :
    (fuel i new_len s : ℕ) → 2 ≤ i → 512 < new_len → 512 < (full_reads fuel i new_len s).new_len
unfolding full_reads
full_reads-left zero i new_len s hi h = h
full_reads-left (suc fuel) i new_len s hi h = elim (Bool-cases (ltb i (new_len / 512))) [
  | inl on ↦ rw on (
      full_reads-left fuel (i + 1) (new_len - 512) (add16 s 1) (omega (arith, hi))
        (ground (arith, on, hi)))
  | inr off ↦ rw off h
]

full_reads-left_of_one :
    (fuel new_len s : ℕ)
    → 512 < new_len
    → new_len ≢ 1024
    → 512 < (full_reads fuel 1 new_len s).new_len
unfolding full_reads
full_reads-left_of_one zero new_len s h ne = h
full_reads-left_of_one (suc fuel) new_len s h ne = elim (Bool-cases (ltb 1 (new_len / 512))) [
  | inl on ↦
      rw on
        (full_reads-left fuel 2 (new_len - 512) (add16 s 1) (omega arith) (ground (arith, on, ne)))
  | inr off ↦ rw off h
]

full_reads-left_of_zero :
    (fuel new_len s : ℕ)
    → 1024 < new_len
    → new_len ≢ 1536
    → 512 < (full_reads fuel 0 new_len s).new_len
unfolding full_reads
full_reads-left_of_zero zero new_len s h ne = omega (arith, h)
full_reads-left_of_zero (suc fuel) new_len s h ne =
    let on : ltb 0 (new_len / 512) ≡ true = ground (arith, h) in
    rw on (
      full_reads-left_of_one fuel (new_len - 512) (add16 s 1) (omega (arith, h))
        (λ e. ne (omega (arith, e, h))))

capped-last_read : (r : Reads) → 512 < r.new_len → capped (last_read r) ≡ capped r.reads + 512
capped-last_read r h = rw (ne→== r.new_len 0 (omega (arith, h))) (
    omega (
      arith,
      h,
      capped-append r.reads (record { block = r.sector; len = r.new_len; offset = 0 } ∷ []),
    ))

sector_reads-capped :
    (fuel pos s len : ℕ)
    → pos < 512
    → 512 - pos + 1024 < len
    → len ≢ 512 - pos + 1536
    → capped (sector_reads fuel pos s len) < len
unfolding sector_reads
sector_reads-capped fuel pos s len inside long ne =
    let n = min len (512 - pos) in
    let first : n ≡ 512 - pos = omega (arith, long) in
    let r = full_reads fuel 0 (len - n) (add16 s 1) in
    let left : 512 < r.new_len =
      full_reads-left_of_zero fuel (len - n) (add16 s 1) (omega (arith, long, first))
        (λ e. ne (omega (arith, e, first, long))) in
    rw (ne→== (len - n) 0 (omega (arith, long, first))) (
      omega (
        arith,
        capped-last_read r left,
        full_reads-capped fuel 0 (len - n) (add16 s 1),
        left,
        first,
        long,
      ))

-- A read inside a file that goes on for more than two sectors past the one that it starts in, and not
-- for just three, returns the whole number of bytes but delivers fewer, from a disk of whole sectors:
-- its last request is for more than a sector.
pub tar_read_blocking-deliver :
    (disk : ℕ → List ℕ) (fid file_size offset len : ℕ)
    → ((s : ℕ) → length (disk s) ≡ sector_size)
    → offset + len ≤ file_size
    → file_size < 0x1_0000
    → 512 - offset % 512 + 1024 < len
    → len ≢ 512 - offset % 512 + 1536
    → let (n, offset', reads) = tar_read_blocking file_size fid offset len in
      (n ≡ len) × (length (deliver disk reads) < n)
unfolding tar_read_blocking
tar_read_blocking-deliver disk fid file_size offset len whole fits size long ne =
    let n : clipped file_size offset len ≡ len = ground (arith, fits, size) in
    let open_ : leb file_size offset ≡ false = ground (arith, fits, long) in
    let s = add16 (add16 fid (offset / 512)) 1 in
    let short = sector_reads-capped 128 (offset % 512) s len (omega arith) long ne in
    rw (open_, n)
      (
        refl,
        omega (arith, short, length-deliver disk (sector_reads 128 (offset % 512) s len) whole),
      )
