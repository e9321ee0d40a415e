-- ===== src/Fs/Tar.antt =====
-- kernel/fs/tar.c: numbers in a header, and the reads of a file on the SD card; and what
-- `sd_read_block` of kernel/driver/sd.c delivers for one of them.
pub mod Octal
pub mod Read
pub mod Oversized
mod Tests
use pi_os.Common.{
  ℕ, zero, suc, ◌+◌, ◌-◌, ◌/◌, ◌%◌, List, [], ◌∷◌, ◌++◌, min, leb, ltb, ◌==◌, if◌then◌else◌, take,
  drop,
}
use pi_os.Common.Word.{add16, sub16, mul16}

abbrev pub sector_size : ℕ
sector_size = 512

-- The list is what is left of the digits.
unfoldable pub octal_from : ℕ → List ℕ → ℕ
octal_from res [] = res
octal_from res (c ∷ octal) = octal_from (add16 (mul16 res 8) (sub16 c b'0')) octal

unfoldable pub convert_octal : List ℕ → ℕ
convert_octal octal = octal_from 0 (take 11 octal)

-- A call of `sd_read_adapter`
pub record SdRead : Type 0 where
  pub block : ℕ
  pub len : ℕ
  pub offset : ℕ

-- The bytes of the sector that `sd_read_block` puts into the buffer.
unfoldable pub sd_read_block : (sector : List ℕ) → SdRead → List ℕ
sd_read_block sector req = take req.len (drop req.offset sector)

-- The reads of whole sectors, and what is left of the length and the next sector.
pub record Reads : Type 0 where
  pub reads : List SdRead
  pub new_len : ℕ
  pub sector : ℕ

abbrev pub then_read : SdRead → Reads → Reads
then_read req r = record r { reads = req ∷ r.reads }

-- The loop from `i` on; each round takes a sector off the length.
unfoldable pub full_reads : (fuel i new_len sector : ℕ) → Reads
full_reads zero i new_len sector = record { reads = []; new_len = new_len; sector = sector }
full_reads (suc fuel) i new_len sector =
    let rest = full_reads fuel (i + 1) (new_len - sector_size) (add16 sector 1) in
    if ltb i (new_len / sector_size)
    then then_read (record { block = sector; len = sector_size; offset = 0 }) rest
    else record { reads = []; new_len = new_len; sector = sector }

-- `if (new_len) sd_read_adapter(…)`
abbrev pub last_read : Reads → List SdRead
last_read r =
    if r.new_len == 0
    then r.reads
    else r.reads ++ (record { block = r.sector; len = r.new_len; offset = 0 } ∷ [])

-- The length after `len = file_size - file->offset`
abbrev pub clipped : (file_size offset len : ℕ) → ℕ
clipped file_size offset len = if ltb file_size (add16 offset len) then file_size - offset else len

-- The first read, from `pos` on in its sector, and the others.
unfoldable pub sector_reads : (fuel pos sector len : ℕ) → List SdRead
sector_reads fuel pos sector len =
    let readlen = min len (sector_size - pos) in
    let new_len = len - readlen in
    record { block = sector; len = readlen; offset = pos }
    ∷ (if new_len == 0 then [] else last_read (full_reads fuel 0 new_len (add16 sector 1)))

-- The result, the offset of the file after it, and the reads in their order, each into the buffer
-- behind the one before. `fid` is the sector of the header. A length has at most 127 whole sectors.
unfoldable pub tar_read_blocking : (file_size fid offset len : ℕ) → ℕ × ℕ × List SdRead
tar_read_blocking file_size fid offset len =
    if leb file_size offset
    then (0, offset, [])
    else (let n = clipped file_size offset len in
        (
          n,
          add16 offset n,
          sector_reads 128 (offset % sector_size) (add16 (add16 fid (offset / sector_size)) 1) n,
        ))
