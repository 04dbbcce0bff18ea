-- ===== src/Go/Split.antt =====
-- `strings.Split` and `strings.SplitN` at one ASCII character, and `strings.Join`.
use Prim.Native.Char.{Char, code}
use Prim.Native.String.{◌++◌}
use text.Mathlib.TextLemmas.{nil-append, cons-append}
use epistemic_engine.Go.Text.{trim_left, trim_right}
use epistemic_engine.Prelude.{
  arith, ◌==◌, eq_iff, ℕ, String, Bool, true, false, not, Option, none, some, List, [], ◌∷◌, ◌≡◌,
  refl, ap, ◌&&◌, nat_eq, All, Bool-cases, inl, inr, if◌then◌else◌,
}

abbrev pub is_char : ℕ → Char → Bool
is_char sep c = nat_eq (code c) sep

-- Puts a character before the first text of a list.
abbrev pub onto_first : Char → List String → List String
onto_first c [] = String.◌∷◌ c String.[] ∷ []
onto_first c (s ∷ ss) = String.◌∷◌ c s ∷ ss

unfoldable pub split : ℕ → String → List String
split sep String.[] = String.[] ∷ []
split sep (String.◌∷◌ c s) =
    let rest = split sep s in if is_char sep c then String.[] ∷ rest else onto_first c rest

-- `strings.SplitN(s, sep, 2)` where it has two parts.
unfoldable pub cut : ℕ → String → Option (String × String)
cut sep String.[] = none
cut sep (String.◌∷◌ c s) =
    let rest = cut sep s in
    if is_char sep c
    then some (String.[], s)
    else elim rest [ none ↦ none | some (before, after) ↦ some (String.◌∷◌ c before, after) ]

unfoldable pub join : String → List String → String
join sep [] = ""
join sep (s ∷ []) = s
join sep (s ∷ t ∷ ts) = let rest = join sep (t ∷ ts) in s ++ (sep ++ rest)

-- No character of the text is the separator.
unfoldable pub lacks : ℕ → String → Bool
lacks sep String.[] = true
lacks sep (String.◌∷◌ c s) = not (is_char sep c) && lacks sep s

cons_not_empty : (c : Char) (s : String) → (String.◌∷◌ c s == "") ≡ false
cons_not_empty c s = elim (Bool-cases (String.◌∷◌ c s == "")) [
  | inr f ↦ f
  | inl t ↦ let e : String.◌∷◌ c s ≡ "" = (eq_iff (String.◌∷◌ c s) "").0 t in absurd (cc e)
]

pub nil_or_not : (s t : String) → (t == "") ≡ false → (s ++ t == "") ≡ false
nil_or_not String.[] t h = rw nil-append h
nil_or_not (String.◌∷◌ c s) t h = rw cons-append (cons_not_empty c (s ++ t))

pub lacks-append : (sep : ℕ) (s t : String) → lacks sep (s ++ t) ≡ (lacks sep s && lacks sep t)
unfolding lacks
lacks-append sep String.[] t = rw nil-append refl
lacks-append sep (String.◌∷◌ c s) t = rw cons-append (ground (arith, lacks-append sep s t))

pub split-append :
    (sep : ℕ) (c : Char) (s t : String)
    → lacks sep s ≡ true
    → is_char sep c ≡ true
    → split sep (s ++ String.◌∷◌ c t) ≡ s ∷ split sep t
unfolding split lacks
split-append sep c String.[] t h e = rw (nil-append, split, e) refl
split-append sep c (String.◌∷◌ d s) t h e =
    let own : is_char sep d ≡ false = ground arith in
    rw (cons-append, split, own, split-append sep c s t (ground arith) e) refl

pub split_whole : (sep : ℕ) (s : String) → lacks sep s ≡ true → split sep s ≡ s ∷ []
unfolding split lacks
split_whole sep String.[] h = refl
split_whole sep (String.◌∷◌ d s) h =
    let own : is_char sep d ≡ false = ground arith in
    rw (split, own, split_whole sep s (ground arith)) refl

pub cut-append :
    (sep : ℕ) (c : Char) (s t : String)
    → lacks sep s ≡ true
    → is_char sep c ≡ true
    → cut sep (s ++ String.◌∷◌ c t) ≡ some (s, t)
unfolding cut lacks
cut-append sep c String.[] t h e = rw (nil-append, cut, e) refl
cut-append sep c (String.◌∷◌ d s) t h e =
    let own : is_char sep d ≡ false = ground arith in
    rw (cons-append, cut, own, cut-append sep c s t (ground arith) e) refl

-- Splitting undoes joining, where no part holds the separator.
pub split-join :
    (sep : ℕ) (c : Char) (s : String) (ss : List String)
    → is_char sep c ≡ true
    → All (λ t. lacks sep t ≡ true) (s ∷ ss)
    → split sep (join (String.◌∷◌ c String.[]) (s ∷ ss)) ≡ s ∷ ss
unfolding join
split-join sep c s [] e h = split_whole sep s h.0
split-join sep c s (t ∷ ts) e h =
    rw
      (cons-append, nil-append, split-append sep c s (join (String.◌∷◌ c String.[]) (t ∷ ts)) h.0 e)
      (ap (λ l. s ∷ l) (split-join sep c t ts e h.1))

-- `strings.TrimSpace` keeps a text that neither begins nor ends with a space.
pub trim_right-append :
    (p : Char → Bool) (s t : String)
    → (t == "") ≡ false
    → trim_right p t ≡ t
    → trim_right p (s ++ t) ≡ s ++ t
unfolding trim_right
trim_right-append p String.[] t some_ kept = rw nil-append kept
trim_right-append p (String.◌∷◌ c s) t some_ kept =
    rw (cons-append, trim_right, trim_right-append p s t some_ kept, nil_or_not s t some_)
      (ground arith)

pub trim_left-cons :
    (p : Char → Bool) (c : Char) (s : String)
    → p c ≡ false
    → trim_left p (String.◌∷◌ c s) ≡ String.◌∷◌ c s
unfolding trim_left
trim_left-cons p c s h = rw (trim_left, h) refl
