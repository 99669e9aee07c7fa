-- ===== src/Logging/Scenarios.antt =====
-- A file of five bytes with a limit of six, and three more bytes.
use kickd.Prelude.{ℕ, ◌≡◌, refl, Option, none, some, List, [], ◌∷◌, if◌then◌else◌, nat_eq, ◌==◌}
use kickd.Logging.{
  write_file, rotate, rotate_closed, remove_file, rename_file, shift_files, open_file, write_open,
  append_file,
}
use kickd.Logging.Rotation.{IsWritten, in_use, write_file-IsWritten}

abbrev five : List ℕ
five = 1 ∷ 2 ∷ 3 ∷ 4 ∷ 5 ∷ []

abbrev three : List ℕ
three = 6 ∷ 7 ∷ 8 ∷ []

abbrev only_current : ℕ → Option (List ℕ)
only_current k = if k == 0 then some five else none

write_file-IsWritten_example :
    IsWritten 1 6 only_current five three (write_file three (in_use 1 6 0 only_current five))
write_file-IsWritten_example = write_file-IsWritten 1 6 0 only_current five three refl

rotated_test : (write_file three (in_use 1 6 0 only_current five)).1.disk.files 1 ≡ some five
unfolding write_file rotate rotate_closed remove_file rename_file shift_files open_file write_open
    append_file
rotated_test = refl
