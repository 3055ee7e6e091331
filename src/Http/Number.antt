-- ===== src/Http/Number.antt =====
-- `std::stoll`: blanks, a sign, the digits up to the first other character; `none` where it throws.
use unity_catalog.Base.{
  ℕ, ◌+◌, ◌-◌, ◌*◌, ◌^◌, ◌≡◌, refl, Option, none, some, [], ◌∷◌, Bool, ◌&&◌, ◌||◌, Text, lit,
  if◌then◌else◌, ◌==◌, ltb, leb, ℤ, pos, negsuc,
}

abbrev is_digit : ℕ → Bool
is_digit c = leb 48 c && leb c 57

abbrev is_blank : ℕ → Bool
is_blank c = c == 32 || leb 9 c && leb c 13

digits : ℕ → Text → ℕ
digits n [] = n
digits n (c ∷ s) = let rest = digits (n * 10 + (c - 48)) s in if is_digit c then rest else n

-- The digits, of which there is at least one.
number : Text → Option ℕ
unfolding digits
number [] = none
number (c ∷ s) = if is_digit c then some (digits 0 (c ∷ s)) else none

positive : Option ℕ → Option ℤ
positive none = none
positive (some n) = if ltb n (2 ^ 63) then some (pos n) else none

negative : Option ℕ → Option ℤ
negative none = none
negative (some n) =
    if n == 0 then some (pos 0) else if leb n (2 ^ 63) then some (negsuc (n - 1)) else none

signed : Text → Option ℤ
unfolding number positive negative
signed [] = none
signed (c ∷ s) =
    if c == b'-'
    then negative (number s)
    else if c == b'+'
    then positive (number s)
    else positive (number (c ∷ s))

pub stoll : Text → Option ℤ
unfolding signed
stoll [] = none
stoll (c ∷ s) = let rest = stoll s in if is_blank c then rest else signed (c ∷ s)

stoll_examples :
    (stoll (lit " 12;x") ≡ some (pos 12))
    × (stoll (lit "-3") ≡ some (negsuc 2))
    × (stoll (lit "Wed") ≡ none)
    × (stoll (lit "9223372036854775808") ≡ none)
unfolding stoll lit
stoll_examples = (refl, refl, refl, refl)
