-- ===== src/Service/Slug.antt =====
-- apps/control-plane/internal/service/portfolio.go: `slugify`.
use Prim.Native.Char.{Char, code}
use epistemic_engine.Prelude.{
  String, Bool, true, false, Option, none, some, nat_eq, ◌≡◌, refl, if◌then◌else◌,
}
use epistemic_engine.Go.Text.{trim_space, trim_left, trim_right}

-- The character of the second alphabet that stands where the first has `c`.
translate : String → String → Char → Option Char
translate String.[] to c = none
translate (String.◌∷◌ a source) String.[] c = none
translate (String.◌∷◌ a source) (String.◌∷◌ b to) c =
    let later = translate source to c in if nat_eq (code a) (code c) then some b else later

abbrev slug_alphabet : String
slug_alphabet = "abcdefghijklmnopqrstuvwxyz0123456789ABCDEFGHIJKLMNOPQRSTUVWXYZİK"

abbrev slug_image : String
slug_image = "abcdefghijklmnopqrstuvwxyz0123456789abcdefghijklmnopqrstuvwxyzik"

-- `strings.ToLower` and the test of `[^a-z0-9]`: the slug's character for `c`, if `c` is kept.
unfoldable pub slug_char : Char → Option Char
unfolding translate
slug_char = translate slug_alphabet slug_image

-- `slugCharacters.ReplaceAllString(strings.ToLower(s), "-")`: one dash for each longest run of
-- other characters. `in_run` says that the run before the text has its dash.
replace_runs : Bool → String → String
unfolding slug_char
replace_runs in_run String.[] = String.[]
replace_runs in_run (String.◌∷◌ c s) = elim (slug_char c) [
  | some d ↦ String.◌∷◌ d (replace_runs false s)
  | none ↦ elim in_run [ true ↦ replace_runs true s | false ↦ String.◌∷◌ "-" (replace_runs true s) ]
]

is_dash : Char → Bool
is_dash c = nat_eq (code c) b'-'

unfoldable pub slugify : String → String
unfolding replace_runs trim_space trim_left trim_right is_dash
slugify s = trim_right is_dash (trim_left is_dash (replace_runs false (trim_space s)))

slug_of_title : slugify "  Payments — API (v2)! " ≡ "payments-api-v2"
unfolding slugify
slug_of_title = refl
