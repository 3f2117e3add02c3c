-- ===== src/Core/Phone.antt =====
-- `normalize_phone_number` of apps/core/utils.py.
use Prim.Native.Char.{code}
use ishly_back.Prelude.{
  ℕ, ◌≡◌, refl, Bool, false, ◌||◌, inl, inr, String, ◌==◌, if◌then◌else◌, Bool-cases,
}
use ishly_back.Core.Strip.{is_space}

-- the class of `[\s\-\(\)]`
unfoldable pub is_filler : ℕ → Bool
is_filler c = is_space c || c == 45 || c == 40 || c == 41

-- `re.sub(r"[\s\-\(\)]", "", phone)`
unfoldable pub cleaned : String → String
cleaned String.[] = ""
cleaned (String.◌∷◌ c s) =
    let rest = cleaned s in if is_filler (code c) then rest else String.◌∷◌ c rest

-- `startswith("+")`
abbrev pub starts_plus : String → Bool
starts_plus String.[] = false
starts_plus (String.◌∷◌ c s) = code c == 43

unfoldable pub normalize_phone_number : String → String
normalize_phone_number phone =
    let number = cleaned phone in if starts_plus number then number else String.◌∷◌ "+" number

cleaned_twice : (s : String) → cleaned (cleaned s) ≡ cleaned s
unfolding cleaned
cleaned_twice String.[] = refl
cleaned_twice (String.◌∷◌ c s) = elim (Bool-cases (is_filler (code c))) [
  | inl filler ↦ rw filler (cleaned_twice s)
  | inr digit ↦ rw digit (rw digit (rw (cleaned_twice s) refl))
]

-- A number that is normalized stays as it is.
pub normalize_twice :
    (phone : String)
    → normalize_phone_number (normalize_phone_number phone) ≡ normalize_phone_number phone
unfolding normalize_phone_number cleaned is_filler is_space
normalize_twice phone = elim (Bool-cases (starts_plus (cleaned phone))) [
  | inl plus ↦ rw plus (rw (cleaned_twice phone) (rw plus refl))
  | inr none_there ↦ rw none_there (rw (cleaned_twice phone) refl)
]
