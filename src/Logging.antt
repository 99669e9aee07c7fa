-- ===== src/Logging.antt =====
-- internal/logging/rotate.go: files that are renamed when they grow, over a disk whose calls can fail.
-- The file is generation 0, <path>.1 is generation 1, and so on.
mod Rotation
mod Scenarios
use kickd.Prelude.{
  ℕ, zero, suc, ◌+◌, ◌-◌, ◌&&◌, not, Bool, true, false, Option, none, some, List, [], ◌∷◌, ◌++◌,
  if◌then◌else◌, nat_eq, ◌==◌, ltb, length,
}

-- `faults` says which of the calls to come fail; a call that fails changes nothing.
pub record Disk : Type 0 where
  pub files : ℕ → Option (List ℕ)
  pub faults : List Bool

-- rotatingFile; `is_open` says that f is not nil, and `failures` counts the calls of reportFailure.
pub record RotatingFile : Type 0 where
  pub disk : Disk
  pub limit : ℕ
  pub backups : ℕ
  pub is_open : Bool
  pub size : ℕ
  pub failures : ℕ

-- Whether the next call fails, and the disk after it.
abbrev pub next_fault : Disk → Bool × Disk
next_fault d = elim d.faults [ [] ↦ (false, d) | b ∷ bs ↦ (b, record d { faults = bs }) ]

abbrev pub set_file : ℕ → Option (List ℕ) → Disk → Disk
set_file i content d = record d { files = λ k. if k == i then content else d.files k }

-- os.Remove, and the number of errors: a file that is not there is none.
unfoldable pub remove_file : ℕ → Bool × Disk → ℕ × Disk
remove_file i (true, d) = (1, d)
remove_file i (false, d) = (0, set_file i none d)

-- os.Rename of a generation to the next one. `absent` is the number of errors where there is no file.
abbrev pub moved : ℕ → ℕ → Disk → Option (List ℕ) → ℕ × Disk
moved absent i d none = (absent, d)
moved absent i d (some content) = (0, set_file i none (set_file (suc i) (some content) d))

unfoldable pub rename_file : ℕ → ℕ → Bool × Disk → ℕ × Disk
rename_file absent i (true, d) = (1, d)
rename_file absent i (false, d) = moved absent i d (d.files i)

-- The loop over the generations below n, from the oldest one, down to the file itself.
unfoldable pub shift_files : ℕ → ℕ × Disk → ℕ × Disk
shift_files zero (errors, d) = (errors, d)
shift_files (suc zero) (errors, d) =
    let (e, d') = rename_file 1 0 (next_fault d) in (errors + e, d')
shift_files (suc (suc i)) (errors, d) =
    let (e, d') = rename_file 0 (suc i) (next_fault d) in shift_files (suc i) (errors + e, d')

-- open: the file is created where it is not there.
abbrev pub opened : RotatingFile → Disk → Option (List ℕ) → RotatingFile
opened r d none = record r { disk = set_file 0 (some []) d; is_open = true; size = 0 }
opened r d (some content) = record r { disk = d; is_open = true; size = length content }

unfoldable pub open_file : RotatingFile → Bool × Disk → ℕ × RotatingFile
open_file r (true, d) = (1, record r { disk = d })
open_file r (false, d) = (0, opened r d (d.files 0))

unfoldable pub rotate_closed : RotatingFile → Bool × Disk → ℕ × RotatingFile
rotate_closed r (true, d) = let (e, r') = open_file r (next_fault d) in (1 + e, r')
rotate_closed r (false, d) =
    let (errors, d') = shift_files r.backups (remove_file r.backups (next_fault d)) in
    let (e, r') = open_file r (next_fault d') in (errors + e, r')

-- rotate: the number of errors that are joined. The first call closes the file, which fails where it is
-- not open.
unfoldable pub rotate : RotatingFile → ℕ × RotatingFile
rotate r =
    rotate_closed (record r { is_open = false })
      (if r.is_open then next_fault r.disk else (true, r.disk))

abbrev pub noted : ℕ × RotatingFile → RotatingFile
noted (errors, r) = if errors == 0 then r else record r { failures = r.failures + 1 }

abbrev pub is_over : RotatingFile → List ℕ → Bool
is_over r p = not (r.limit == 0) && not (r.size == 0) && ltb r.limit (r.size + length p)

abbrev pub content_of : Option (List ℕ) → List ℕ
content_of none = []
content_of (some content) = content

unfoldable pub append_file : List ℕ → RotatingFile → Bool × Disk → Option ℕ × RotatingFile
append_file p r (true, d) = (none, record r { disk = d })
append_file p r (false, d) = (
  some (length p),
  record r { disk = set_file 0 (some (content_of (d.files 0) ++ p)) d; size = r.size + length p },
)

unfoldable pub write_open : List ℕ → RotatingFile → Option ℕ × RotatingFile
write_open p r = if r.is_open then append_file p r (next_fault r.disk) else (none, r)

-- Write: the number of bytes, or none where it fails.
unfoldable pub write_file : List ℕ → RotatingFile → Option ℕ × RotatingFile
write_file p r = write_open p (if is_over r p then noted (rotate r) else r)
