-- ===== src/Go/Text.antt =====
-- Strings: `strings.TrimSpace`, `strings.ToLower`, `+`. A string is a text of Unicode characters.
use Prim.Native.String.{◌++◌}
use Prim.Native.Char.{Char, code}
use epistemic_engine.Prelude.{
  ℕ, zero, suc, ◌+◌, ◌/◌, String, Bool, true, false, List, [], ◌∷◌, ◌++◌ as append, ◌&&◌, ◌||◌, map,
  leb, ltb, nat_eq, ◌==◌, is_empty, if◌then◌else◌,
}
use epistemic_engine.Go.Numbers.{RawMessage}
use Prim.Native.Nat.{◌%◌}

-- `unicode.IsSpace` on a code point.
unfoldable pub is_space_code : ℕ → Bool
is_space_code c =
    leb 9 c && leb c 13
    || leb 32 c && leb c 32
    || leb 0x85 c && leb c 0x85
    || leb 0xa0 c && leb c 0xa0
    || leb 0x1680 c && leb c 0x1680
    || leb 0x2000 c && leb c 0x200a
    || leb 0x2028 c && leb c 0x2029
    || leb 0x202f c && leb c 0x202f
    || leb 0x205f c && leb c 0x205f
    || leb 0x3000 c && leb c 0x3000

unfoldable pub is_space : Char → Bool
unfolding is_space_code
is_space c = is_space_code (code c)

-- Drops the characters at the start on which the test is true.
unfoldable pub trim_left : (Char → Bool) → String → String
trim_left p String.[] = String.[]
trim_left p (String.◌∷◌ c s) = let rest = trim_left p s in if p c then rest else String.◌∷◌ c s

-- The same at the end: a character that only such characters follow goes if it is one.
unfoldable pub trim_right : (Char → Bool) → String → String
trim_right p String.[] = String.[]
trim_right p (String.◌∷◌ c s) =
    let rest = trim_right p s in if p c && rest == "" then String.[] else String.◌∷◌ c rest

-- `strings.TrimSpace`
unfoldable pub trim_space : String → String
unfolding trim_left trim_right is_space
trim_space s = trim_right is_space (trim_left is_space s)

-- `strings.TrimSpace(s) == ""`
unfoldable pub is_blank : String → Bool
unfolding trim_space
is_blank s = trim_space s == ""

-- A field with its default: `if s == "" { s = d }`.
abbrev pub or_default : String → String → String
or_default s d = if s == "" then d else s

-- `a + b`
abbrev pub concat : String → String → String
concat a b = a ++ b

-- UTF-8, the bytes behind `[]byte(s)`.
unfoldable pub utf8 : ℕ → List ℕ
utf8 c =
    if ltb c 0x80
    then c ∷ []
    else if ltb c 0x800
    then (0xc0 + c / 0x40) ∷ (0x80 + c % 0x40) ∷ []
    else if ltb c 0x10000
    then (0xe0 + c / 0x1000) ∷ (0x80 + c / 0x40 % 0x40) ∷ (0x80 + c % 0x40) ∷ []
    else (0xf0 + c / 0x40000)
      ∷ (0x80 + c / 0x1000 % 0x40)
      ∷ (0x80 + c / 0x40 % 0x40)
      ∷ (0x80 + c % 0x40)
      ∷ []

unfoldable pub bytes_of : String → RawMessage
unfolding utf8
bytes_of String.[] = []
bytes_of (String.◌∷◌ c s) = append (utf8 (code c)) (bytes_of s)

-- `unicode.ToLower` as far as ASCII letters can tell: the ASCII capitals, and the two other
-- characters whose lower case is an ASCII letter (U+0130 and U+212A).
unfoldable pub lower_code : ℕ → ℕ
lower_code c =
    if leb b'A' c && leb c b'Z'
    then c + 32
    else if leb 0x130 c && leb c 0x130
    then b'i'
    else if leb 0x212a c && leb c 0x212a
    then b'k'
    else c

abbrev pub codes : String → List ℕ
codes String.[] = []
codes (String.◌∷◌ c s) = code c ∷ codes s

unfoldable pub begins_with : List ℕ → List ℕ → Bool
begins_with [] s = true
begins_with (p ∷ ps) [] = false
begins_with (p ∷ ps) (c ∷ s) = nat_eq p c && begins_with ps s

unfoldable pub has_infix : List ℕ → List ℕ → Bool
unfolding begins_with
has_infix p [] = is_empty p
has_infix p (c ∷ s) = begins_with p (c ∷ s) || has_infix p s

-- `strings.Contains(strings.ToLower(s), p)` for an ASCII `p`.
unfoldable pub contains_lower : String → String → Bool
unfolding lower_code has_infix
contains_lower p s = has_infix (codes p) (map lower_code (codes s))

-- `strings.Contains`
unfoldable pub contains : String → String → Bool
unfolding has_infix
contains p s = has_infix (codes p) (codes s)

-- `s[:n]` of a text of ASCII characters that has as many.
unfoldable pub take_text : ℕ → String → String
take_text zero s = ""
take_text (suc n) String.[] = ""
take_text (suc n) (String.◌∷◌ c s) = String.◌∷◌ c (take_text n s)
