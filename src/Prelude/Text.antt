-- ===== src/Prelude/Text.antt =====
-- Decimal text of numbers, as strconv.Itoa and the verb %d of fmt print them.
use Prim.Native.String.{String, ◌++◌}
use kickd.Prelude.{ℕ, zero, suc, ◌/◌, ◌%◌, ◌≡◌, refl, if◌then◌else◌, nat_eq, ◌==◌}

digit : ℕ → String
digit n =
    if n == 0
    then "0"
    else if n == 1
    then "1"
    else if n == 2
    then "2"
    else if n == 3
    then "3"
    else if n == 4
    then "4"
    else if n == 5
    then "5"
    else if n == 6
    then "6"
    else if n == 7
    then "7"
    else if n == 8
    then "8"
    else "9"

-- Each round takes the last digit, so n + 1 rounds are enough.
digits : ℕ → ℕ → String → String
digits zero n rest = rest
digits (suc fuel) n rest =
    let text = digit (n % 10) ++ rest in
    let longer = digits fuel (n / 10) text in if n / 10 == 0 then text else longer

unfoldable pub decimal : ℕ → String
unfolding digits digit
decimal n = digits (suc n) n ""

decimal_1024 : decimal 1024 ≡ "1024"
unfolding decimal
decimal_1024 = refl

decimal_zero : decimal 0 ≡ "0"
unfolding decimal
decimal_zero = refl
