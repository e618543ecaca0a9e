-- ===== src/Base/Ascii.antt =====
-- The tests and changes of characters and texts in Rust's `char` and `str`.
use Prim.Native.Nat.{ℕ, ◌+◌, ◌/◌, ◌%◌}
use mathlib.Core.Path.{◌≡◌, refl}
use mathlib.Core.Bool.{Bool, true, false, ◌&&◌, ◌||◌}
use mathlib.Core.List.{[], ◌∷◌, ◌++◌}
use native.Mathlib.Omega.{arith}
use rustbase.Base.Tests.{◌==◌, leb, ltb, if◌then◌else◌}
use rustbase.Base.Lists.{all, is_empty}
use rustbase.Base.Text.{Str}

abbrev pub is_ascii_upper : ℕ → Bool
is_ascii_upper c = leb b'A' c && leb c b'Z'

abbrev pub is_ascii_alphabetic : ℕ → Bool
is_ascii_alphabetic c = is_ascii_upper c || (leb b'a' c && leb c b'z')

abbrev pub is_ascii_digit : ℕ → Bool
is_ascii_digit c = leb b'0' c && leb c b'9'

-- A character of an identifier: `c.is_ascii_alphanumeric() || c == '_'`.
abbrev pub is_word : ℕ → Bool
is_word c = (is_ascii_alphabetic c || is_ascii_digit c) || c == b'_'

-- `char::is_whitespace`.
abbrev pub is_whitespace : ℕ → Bool
is_whitespace c =
    (((leb 9 c && leb c 13) || c == 32) || (c == 133 || c == 160))
    || (((c == 5760 || (leb 8192 c && leb c 8202)) || (c == 8232 || c == 8233))
        || ((c == 8239 || c == 8287) || c == 12288))

unfoldable pub trim_start : Str → Str
trim_start [] = []
trim_start (c ∷ s) = if is_whitespace c then trim_start s else c ∷ s

unfoldable pub trim_end : Str → Str
trim_end [] = []
trim_end (c ∷ s) =
    let rest = trim_end s in if is_whitespace c && is_empty rest then [] else c ∷ rest

-- `str::trim`.
unfoldable pub trim : Str → Str
unfolding trim_start trim_end
trim s = trim_end (trim_start s)

-- `str::eq_ignore_ascii_case`.
abbrev pub to_ascii_lower : ℕ → ℕ
to_ascii_lower c = if is_ascii_upper c then c + 32 else c

unfoldable pub eq_ignore_ascii_case : Str → Str → Bool
eq_ignore_ascii_case [] [] = true
eq_ignore_ascii_case [] (d ∷ t) = false
eq_ignore_ascii_case (c ∷ s) [] = false
eq_ignore_ascii_case (c ∷ s) (d ∷ t) =
    to_ascii_lower c == to_ascii_lower d && eq_ignore_ascii_case s t

-- The bytes of a character in UTF-8.
unfoldable pub utf8 : ℕ → Str
utf8 c =
    if ltb c 128
    then c ∷ []
    else if ltb c 2048
    then (192 + c / 64) ∷ (128 + c % 64) ∷ []
    else if ltb c 65536
    then (224 + c / 4096) ∷ (128 + (c / 64) % 64) ∷ (128 + c % 64) ∷ []
    else (240 + c / 262144) ∷ (128 + (c / 4096) % 64) ∷ (128 + (c / 64) % 64) ∷ (128 + c % 64) ∷ []

-- `as_bytes`.
unfoldable pub utf8_all : Str → Str
unfolding utf8
utf8_all [] = []
utf8_all (c ∷ s) = utf8 c ++ utf8_all s

-- How often a character stands in a text.
unfoldable pub count : ℕ → Str → ℕ
count c [] = 0
count c (d ∷ s) = (if c == d then 1 else 0) + count c s

pub count-append : (c : ℕ) (s t : Str) → count c (s ++ t) ≡ count c s + count c t
unfolding count
count-append c [] t = omega arith
count-append c (d ∷ s) t = omega (arith, count-append c s t)

-- A character that no identifier has is not in a text of their characters.
pub count-word : (c : ℕ) (s : Str) → is_word c ≡ false → all is_word s ≡ true → count c s ≡ 0
unfolding count
count-word c [] n h = refl
count-word c (d ∷ s) n h = ground (arith, count-word c s)
