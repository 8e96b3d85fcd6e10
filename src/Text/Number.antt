-- ===== src/Text/Number.antt =====
-- `atoi` and `stoi` of the C and C++ libraries, within the range of `int`: blanks, a sign, then digits up to the first
-- other byte.
use dfss.Base.{
  ℕ, ◌+◌, ◌-◌, ◌*◌, Bool, false, ◌&&◌, ◌||◌, Option, none, some, [], ◌∷◌, ◌==◌, leb, if◌then◌else◌,
}
use dfss.Base.Int.{ℤ, pos, neg}
use dfss.Text.{Str}

abbrev pub is_digit : ℕ → Bool
is_digit c = leb b'0' c && leb c b'9'

abbrev is_space : ℕ → Bool
is_space c = (c == 32) || (leb 9 c && leb c 13)

unfoldable pub digits : ℕ → Str → ℕ
digits acc [] = acc
digits acc (c ∷ s) = let rest = digits (10 * acc + (c - b'0')) s in if is_digit c then rest else acc

unfoldable pub signed : Str → ℤ
unfolding digits
signed [] = pos 0
signed (c ∷ s) =
    if c == b'-'
    then neg (digits 0 s)
    else if c == b'+'
    then pos (digits 0 s)
    else pos (digits 0 (c ∷ s))

unfoldable pub atoi : Str → ℤ
unfolding signed
atoi [] = pos 0
atoi (c ∷ s) = let rest = atoi s in if is_space c then rest else signed (c ∷ s)

-- Are there digits to convert, behind blanks and a sign?
unfoldable pub starts_digit : Str → Bool
starts_digit [] = false
starts_digit (c ∷ s) = is_digit c

unfoldable pub converts : Str → Bool
unfolding starts_digit
converts [] = false
converts (c ∷ s) =
    let rest = converts s in
    if is_space c then rest else if (c == b'-') || (c == b'+') then starts_digit s else is_digit c

-- `std::stoi`, within the range of `int`: `none` is `std::invalid_argument`.
unfoldable pub string_to_int : Str → Option ℤ
unfolding converts atoi
string_to_int s = if converts s then some (atoi s) else none
