-- ===== src/Analyzer/Text.antt =====
-- What apps/control-plane/internal/analysis looks for in texts. A text is its bytes here, since a
-- payload need not be UTF-8: every word that is searched for is ASCII.
use epistemic_engine.Prelude.{
  ℕ, ◌+◌, String, Bool, true, false, List, [], ◌∷◌, ◌++◌, ◌&&◌, ◌||◌, leb, nat_eq, if◌then◌else◌,
}
use epistemic_engine.Go.Numbers.{RawMessage}
use epistemic_engine.Go.Text.{bytes_of, codes, has_infix}

-- The bytes of a character that are read but not written yet.
pub data Lead : Type 0 where
  nothing c4 e2 e2_84 : Lead

abbrev pub lower_byte : ℕ → ℕ
lower_byte b = if leb b'A' b && leb b b'Z' then b + 32 else b

unfoldable pub step_plain : ℕ → Lead × List ℕ
step_plain b =
    if nat_eq b 0xc4
    then (c4, [])
    else if nat_eq b 0xe2
    then (e2, [])
    else (nothing, lower_byte b ∷ [])

abbrev pub after : List ℕ → Lead × List ℕ → Lead × List ℕ
after before (lead, out) = (lead, before ++ out)

unfoldable pub step : Lead → ℕ → Lead × List ℕ
unfolding step_plain
step nothing b = step_plain b
step c4 b = if nat_eq b 0xb0 then (nothing, b'i' ∷ []) else after (0xc4 ∷ []) (step_plain b)
step e2 b = if nat_eq b 0x84 then (e2_84, []) else after (0xe2 ∷ []) (step_plain b)
step e2_84 b =
    if nat_eq b 0xaa then (nothing, b'k' ∷ []) else after (0xe2 ∷ 0x84 ∷ []) (step_plain b)

abbrev pub flush : Lead → List ℕ
flush nothing = []
flush c4 = 0xc4 ∷ []
flush e2 = 0xe2 ∷ []
flush e2_84 = 0xe2 ∷ 0x84 ∷ []

unfoldable pub lower_from : Lead → List ℕ → List ℕ
unfolding step
lower_from lead [] = flush lead
lower_from lead (b ∷ bytes) = let (next, out) = step lead b in out ++ lower_from next bytes

-- `strings.ToLower`, as far as ASCII words can tell: the capitals, and the two other characters with
-- an ASCII lower case, U+0130 and U+212A.
unfoldable pub lower_bytes : List ℕ → List ℕ
unfolding lower_from
lower_bytes bytes = lower_from nothing bytes

-- `strings.ToLower(text + " " + string(payload))`
unfoldable pub value_of : String → RawMessage → List ℕ
unfolding lower_bytes bytes_of
value_of text payload = lower_bytes (bytes_of text ++ (b' ' ∷ payload))

-- `strings.Contains(value, word)`
unfoldable pub mentions : String → List ℕ → Bool
unfolding has_infix
mentions word value = has_infix (codes word) value

abbrev pub is_letter : ℕ → Bool
is_letter b = leb b'a' b && leb b b'z'

abbrev pub is_domain : ℕ → Bool
is_domain b = is_letter b || leb b'0' b && leb b b'9' || nat_eq b b'.' || nat_eq b b'-'

abbrev pub is_local : ℕ → Bool
is_local b = is_domain b || nat_eq b b'_' || nat_eq b b'%' || nat_eq b b'+'

unfoldable pub two_letters : List ℕ → Bool
two_letters (a ∷ b ∷ bytes) = is_letter a && is_letter b
two_letters _ = false

-- A domain: at least one of its bytes, of which `some` is read, then a dot and two letters.
unfoldable pub domain_follows : Bool → List ℕ → Bool
unfolding two_letters
domain_follows some [] = false
domain_follows some (b ∷ bytes) =
    is_domain b && (some && nat_eq b b'.' && two_letters bytes || domain_follows true bytes)

unfoldable pub address_from : Bool → List ℕ → Bool
unfolding domain_follows
address_from local [] = false
address_from local (b ∷ bytes) =
    local && nat_eq b b'@' && domain_follows false bytes || address_from (is_local b) bytes

-- U+017F folds to an "s" where a pattern ignores case.
unfoldable pub fold_after : Bool → List ℕ → List ℕ
fold_after lead [] = if lead then 0xc5 ∷ [] else []
fold_after lead (b ∷ bytes) =
    let rest = fold_after (nat_eq b 0xc5) bytes in
    if lead && nat_eq b 0xbf
    then b's' ∷ rest
    else (if lead then 0xc5 ∷ [] else []) ++ (if nat_eq b 0xc5 then rest else b ∷ rest)

-- `emailPattern.MatchString(value)`: something before an "@", and a domain behind it. In lower case
-- already, but for U+017F.
unfoldable pub has_email : List ℕ → Bool
unfolding address_from fold_after
has_email value = address_from false (fold_after false value)
