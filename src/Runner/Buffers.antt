-- ===== src/Runner/Buffers.antt =====
-- capBuffer and the lines of tailBuffer, over bytes.
use kickd.Prelude.{
  ℕ, ◌-◌, Bool, true, List, [], ◌∷◌, ◌++◌, if◌then◌else◌, ltb, leb, length, take, zero, suc,
}

-- A byte is a number below 256.
pub record CapBuffer : Type 0 where
  pub buf : List ℕ
  pub limit : ℕ
  pub truncated : Bool

-- capBuffer.Write
unfoldable pub write : CapBuffer → List ℕ → CapBuffer
write b p =
    let room = b.limit - length b.buf in
    if leb b.limit (length b.buf)
    then record b { truncated = true }
    else if ltb room (length p)
    then record b { buf = b.buf ++ take room p; truncated = true }
    else record b { buf = b.buf ++ p }

unfoldable pub write_all : CapBuffer → List (List ℕ) → CapBuffer
write_all b [] = b
write_all b (p ∷ ps) = write_all (write b p) ps

-- xs[n:]
unfoldable pub drop {ℓ} : {A : Type ℓ} → ℕ → List A → List A
drop zero xs = xs
drop (suc n) [] = []
drop (suc n) (x ∷ xs) = drop n xs

-- tailBuffer.push: the last max_lines lines.
unfoldable pub push {ℓ} : {A : Type ℓ} → ℕ → List A → A → List A
push max_lines lines line =
    let all = lines ++ line ∷ [] in
    if ltb max_lines (length all) then drop (length all - max_lines) all else all

unfoldable pub push_all {ℓ} : {A : Type ℓ} → ℕ → List A → List A → List A
push_all max_lines lines [] = lines
push_all max_lines lines (line ∷ rest) = push_all max_lines (push max_lines lines line) rest
