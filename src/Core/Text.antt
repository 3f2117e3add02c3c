-- ===== src/Core/Text.antt =====
-- The texts that f-strings build from numbers.
use Prim.Native.String.{◌++◌}
use Prim.Native.Char.{code}
use ishly_back.Prelude.{
  ℕ, zero, suc, ◌/◌, ◌%◌, ◌≡◌, refl, String, Bool, List, [], ◌∷◌, ltb, ◌==◌, if◌then◌else◌,
}

unfoldable pub digit : ℕ → String
digit d =
    if d == 0
    then "0"
    else if d == 1
    then "1"
    else if d == 2
    then "2"
    else if d == 3
    then "3"
    else if d == 4
    then "4"
    else if d == 5
    then "5"
    else if d == 6
    then "6"
    else if d == 7
    then "7"
    else if d == 8
    then "8"
    else "9"

-- The decimal digits of a number; as much fuel as it has digits is enough.
unfoldable pub str_from : ℕ → ℕ → String
unfolding digit
str_from zero n = ""
str_from (suc fuel) n =
    let front = str_from fuel (n / 10) in if ltb n 10 then digit n else front ++ digit (n % 10)

-- `str(n)`
unfoldable pub str : ℕ → String
unfolding str_from
str n = str_from (suc n) n

-- `str(amount / 100)` below 10 ^ 16: no zero stands after the first decimal.
unfoldable pub str_uzs : ℕ → String
unfolding str digit
str_uzs amount =
    let front = str (amount / 100) ++ "." ++ digit (amount / 10 % 10) in
    if amount % 10 == 0 then front else front ++ digit (amount % 10)

-- `text.split(":")`, from the part read so far
unfoldable pub split_from : String → String → List String
split_from part String.[] = part ∷ []
split_from part (String.◌∷◌ c rest) = elim (code c == 58) [
  | Bool.true ↦ part ∷ split_from "" rest
  | Bool.false ↦ split_from (part ++ String.◌∷◌ c String.[]) rest
]

unfoldable pub split_colon : String → List String
unfolding split_from
split_colon = split_from ""

str_1050 : str 1050 ≡ "1050"
unfolding str
str_1050 = refl

str_uzs_1050 : str_uzs 1050 ≡ "10.5"
unfolding str_uzs
str_uzs_1050 = refl

split_pair : split_colon "ab:c" ≡ "ab" ∷ "c" ∷ []
unfolding split_colon
split_pair = refl
