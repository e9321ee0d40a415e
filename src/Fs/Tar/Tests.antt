-- ===== src/Fs/Tar/Tests.antt =====
-- tar.c on small files.
use pi_os.Common.{
  ℕ, zero, suc, ◌+◌, ◌*◌, ◌≤◌, ◌≡◌, refl, arith, List, [], ◌∷◌, ◌==◌, if◌then◌else◌, take, drop,
  ne→==,
}
use pi_os.Fs.Tar.{convert_octal, octal_from, tar_read_blocking}
use pi_os.Fs.Tar.Octal.{ascii}
use pi_os.Fs.Tar.Read.{deliver, Holds, tar_read_blocking-take}

abbrev digits : List ℕ
digits = 0 ∷ 0 ∷ 0 ∷ 0 ∷ 0 ∷ 0 ∷ 0 ∷ 1 ∷ 7 ∷ 5 ∷ 0 ∷ []

converts : convert_octal (ascii digits) ≡ 1000
unfolding convert_octal octal_from
converts = refl

abbrev three : List ℕ
three = 1 ∷ 2 ∷ 3 ∷ []

abbrev small_disk : ℕ → List ℕ
small_disk s = if s == 6 then three else []

drop-three : (n : ℕ) → 3 ≤ n → drop n three ≡ []
drop-three zero h = absurd (omega arith)
drop-three (suc zero) h = absurd (omega arith)
drop-three (suc (suc zero)) h = absurd (omega arith)
drop-three (suc (suc (suc zero))) h = refl
drop-three (suc (suc (suc (suc n)))) h = refl

small_disk-Holds : Holds small_disk 5 three
small_disk-Holds zero = refl
small_disk-Holds (suc k) =
    rw (ne→== (6 + suc k) 6 (omega arith), drop-three (512 * suc k) (omega arith)) refl

tar_read_blocking-take_example :
    let (n, offset', reads) = tar_read_blocking 3 5 1 20 in
    (n ≡ 2) × (offset' ≡ 1 + n) × (deliver small_disk reads ≡ take n (2 ∷ 3 ∷ []))
tar_read_blocking-take_example =
    tar_read_blocking-take small_disk 5 three 3 1 20 small_disk-Holds (omega arith) (omega arith)
      (omega arith) (omega arith) (omega arith)
