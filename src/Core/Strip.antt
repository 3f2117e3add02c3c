-- ===== src/Core/Strip.antt =====
-- `str.strip`, `str.isdigit` and `len` of Python texts.
use Prim.Native.Char.{code}
use ishly_back.Prelude.{ℕ, ◌+◌, Bool, true, not, ◌&&◌, ◌||◌, String, leb, ◌==◌, if◌then◌else◌}

-- `str.isspace` of one character
unfoldable pub is_space : ℕ → Bool
is_space c =
    leb 9 c && leb c 13
    || leb 28 c && leb c 32
    || c == 133
    || c == 160
    || c == 5760
    || leb 8192 c && leb c 8202
    || c == 8232
    || c == 8233
    || c == 8239
    || c == 8287
    || c == 12288

-- `len(text)`
unfoldable pub text_length : String → ℕ
text_length String.[] = 0
text_length (String.◌∷◌ c s) = text_length s + 1

-- `lstrip`, `rstrip` and `strip`
unfoldable pub lstrip : String → String
lstrip String.[] = ""
lstrip (String.◌∷◌ c s) = let rest = lstrip s in if is_space (code c) then rest else String.◌∷◌ c s

unfoldable pub rstrip : String → String
rstrip String.[] = ""
rstrip (String.◌∷◌ c s) =
    let rest = rstrip s in
    if is_space (code c) && text_length rest == 0 then "" else String.◌∷◌ c rest

unfoldable pub strip : String → String
strip s = rstrip (lstrip s)

-- `str.isdigit` for texts of ASCII characters: not empty, and digits only
unfoldable pub all_digits : String → Bool
all_digits String.[] = true
all_digits (String.◌∷◌ c s) = let rest = all_digits s in leb 48 (code c) && leb (code c) 57 && rest

unfoldable pub is_digit : String → Bool
unfolding all_digits text_length
is_digit s = not (text_length s == 0) && all_digits s
