-- ===== src/Prelude/Ascii.antt =====
-- The functions of the package strings that the program uses. Letters and white space are those of
-- ASCII, which is all that the program compares its texts with.
use Prim.Native.Char.{Char, code}
use Prim.Native.String.{String, char_at}
use kickd.Prelude.{
  ℕ, ◌-◌, ◌≡◌, refl, Bool, true, false, ◌&&◌, ◌||◌, if◌then◌else◌, leb, nat_eq, string_eq, ◌==◌,
}

abbrev pub between : ℕ → ℕ → Char → Bool
between lo hi c = leb lo (code c) && leb (code c) hi

abbrev pub is_upper : Char → Bool
is_upper = between b'A' b'Z'

abbrev pub is_lower : Char → Bool
is_lower = between b'a' b'z'

abbrev pub is_digit : Char → Bool
is_digit = between b'0' b'9'

abbrev pub is_letter : Char → Bool
is_letter c = is_upper c || is_lower c

abbrev pub is_char : ℕ → Char → Bool
is_char n c = code c == n

lower_char : Char → Char
lower_char c = if is_upper c then char_at "abcdefghijklmnopqrstuvwxyz" (code c - b'A') else c

upper_char : Char → Char
upper_char c = if is_lower c then char_at "ABCDEFGHIJKLMNOPQRSTUVWXYZ" (code c - b'a') else c

-- strings.ToLower and strings.ToUpper
unfoldable pub to_lower : String → String
unfolding lower_char
to_lower String.[] = ""
to_lower (String.◌∷◌ c s) = String.◌∷◌ (lower_char c) (to_lower s)

unfoldable pub to_upper : String → String
unfolding upper_char
to_upper String.[] = ""
to_upper (String.◌∷◌ c s) = String.◌∷◌ (upper_char c) (to_upper s)

-- strings.EqualFold
abbrev pub equal_fold : String → String → Bool
equal_fold a b = to_lower a == to_lower b

abbrev pub is_space : Char → Bool
is_space c = between 9 13 c || is_char 32 c

unfoldable pub trim_left : String → String
trim_left String.[] = ""
trim_left (String.◌∷◌ c s) = let rest = trim_left s in if is_space c then rest else String.◌∷◌ c s

unfoldable pub trim_right : String → String
trim_right String.[] = ""
trim_right (String.◌∷◌ c s) =
    let rest = trim_right s in if is_space c && rest == "" then "" else String.◌∷◌ c rest

-- strings.TrimSpace
abbrev pub trim_space : String → String
trim_space s = trim_right (trim_left s)

-- strings.HasPrefix
unfoldable pub has_prefix : String → String → Bool
has_prefix s String.[] = true
has_prefix String.[] (String.◌∷◌ d p) = false
has_prefix (String.◌∷◌ c s) (String.◌∷◌ d p) = code c == code d && has_prefix s p

unfoldable pub drop_chars : String → String → String
drop_chars s String.[] = s
drop_chars String.[] (String.◌∷◌ d p) = ""
drop_chars (String.◌∷◌ c s) (String.◌∷◌ d p) = drop_chars s p

-- strings.TrimPrefix
abbrev pub trim_prefix : String → String → String
trim_prefix s p = if has_prefix s p then drop_chars s p else s

-- Whether every character passes the test.
unfoldable pub all_chars : (Char → Bool) → String → Bool
all_chars p String.[] = true
all_chars p (String.◌∷◌ c s) = p c && all_chars p s

unfoldable pub any_char : (Char → Bool) → String → Bool
any_char p String.[] = false
any_char p (String.◌∷◌ c s) = p c || any_char p s

to_lower_test : to_lower " Skip " ≡ " skip "
unfolding to_lower
to_lower_test = refl

to_upper_test : to_upper "post-1" ≡ "POST-1"
unfolding to_upper
to_upper_test = refl

trim_space_test : trim_space " a b " ≡ "a b"
unfolding trim_left trim_right
trim_space_test = refl

trim_prefix_test : trim_prefix "Bearer xyz" "Bearer " ≡ "xyz"
unfolding has_prefix drop_chars
trim_prefix_test = refl
