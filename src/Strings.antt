-- ===== src/Strings.antt =====
-- The functions of Go's packages strings, unicode and fmt that the program calls. A Go string is a
-- native `String`, a sequence of code points: an ill-formed byte is read as U+FFFD, as `range` does.
pub mod Laws
pub mod Format
pub mod Cut
use Prim.Native.String.{◌++◌, ◌∷◌, []}
use text.Mathlib.Text.{find?}
use mathlib.Core.List.{[], ◌∷◌}
use tip_olg_nats_agent_core.Common.{
  ℕ, Char, code, String, ◌==◌, Bool, true, false, ◌&&◌, ◌||◌, List, leb, ltb, nat_eq, is_some,
  length, if◌then◌else◌,
}

-- The Unicode tables beyond ASCII are data of Go's standard library and stay abstract: which code
-- points are letters or decimal digits, and which lower-case letter belongs to each.
pub record Unicode : Type 0 where
  pub letter : Char → Bool
  pub digit : Char → Bool
  pub lower : Char → Char

abbrev pub is_code : ℕ → Char → Bool
is_code n c = nat_eq (code c) n

abbrev pub between : ℕ → ℕ → Char → Bool
between lo hi c = leb lo (code c) && leb (code c) hi

-- unicode.IsSpace
unfoldable pub is_space : Char → Bool
is_space c =
    between 9 13 c
    || is_code 32 c
    || is_code 0x85 c
    || is_code 0xa0 c
    || is_code 0x1680 c
    || between 0x2000 0x200a c
    || is_code 0x2028 c
    || is_code 0x2029 c
    || is_code 0x202f c
    || is_code 0x205f c
    || is_code 0x3000 c

-- unicode.IsLetter
unfoldable pub is_letter : Unicode → Char → Bool
is_letter u c = if ltb (code c) 128 then between b'A' b'Z' c || between b'a' b'z' c else u.letter c

-- unicode.IsDigit
unfoldable pub is_digit : Unicode → Char → Bool
is_digit u c = if ltb (code c) 128 then between b'0' b'9' c else u.digit c

unfoldable pub trim_left : String → String
trim_left [] = ""
trim_left (c ∷ s) = if is_space c then trim_left s else c ∷ s

unfoldable pub trim_right : String → String
trim_right [] = ""
trim_right (c ∷ s) = let rest = trim_right s in if is_space c && rest == "" then "" else c ∷ rest

-- strings.TrimSpace
unfoldable pub trim_space : String → String
unfolding trim_left trim_right is_space
trim_space s = trim_right (trim_left s)

-- A test on some code point of a text.
unfoldable pub any_char : (Char → Bool) → String → Bool
any_char p [] = false
any_char p (c ∷ s) = p c || any_char p s

-- strings.Contains at a text of one code point
abbrev pub contains_char : ℕ → String → Bool
contains_char n s = any_char (is_code n) s

-- strings.ContainsAny(s, " \t\r\n")
abbrev pub contains_whitespace : String → Bool
contains_whitespace s =
    any_char (λ c. is_code b' ' c || is_code 9 c || is_code 13 c || is_code 10 c) s

-- strings.Contains at any text
abbrev pub contains : String → String → Bool
contains s t = is_some (find? s t)

-- The lower-case letter that stands in the second text where `c` stands in the first.
unfoldable pub paired : String → String → Char → Char
paired (a ∷ s) (b ∷ t) c = if nat_eq (code a) (code c) then b else paired s t c
paired _ _ c = c

unfoldable pub lower_char : Unicode → Char → Char
unfolding paired
lower_char u c =
    if ltb (code c) 128
    then paired "ABCDEFGHIJKLMNOPQRSTUVWXYZ" "abcdefghijklmnopqrstuvwxyz" c
    else u.lower c

-- strings.ToLower
unfoldable pub to_lower : Unicode → String → String
unfolding lower_char
to_lower u [] = ""
to_lower u (c ∷ s) = lower_char u c ∷ to_lower u s

abbrev pub is_verb : Char → Char → Bool
is_verb c d = is_code b'%' c && is_code b's' d

-- A text cut at each "%s", from the left and without overlaps: the part before the first, and the
-- parts behind each.
abbrev pub Parts : Type 0
Parts = String × List String

abbrev pub cut_here : Parts → Parts
cut_here (head, rest) = ("", head ∷ rest)

abbrev pub put : Char → Parts → Parts
put c (head, rest) = (c ∷ head, rest)

unfoldable pub split_verbs : String → Parts
split_verbs [] = ("", [])
split_verbs (c ∷ []) = (c ∷ "", [])
split_verbs (c ∷ d ∷ s) =
    let cut = cut_here (split_verbs s) in
    let kept = put c (split_verbs (d ∷ s)) in if is_verb c d then cut else kept

abbrev pub joined : List String → String
joined [] = ""
joined (s ∷ rest) = s ++ joined rest

-- strings.Count(s, "%s")
unfoldable pub count_verbs : String → ℕ
unfolding split_verbs
count_verbs s = length (split_verbs s).1

-- strings.ReplaceAll(s, "%s", "")
unfoldable pub remove_verbs : String → String
unfolding split_verbs
remove_verbs s = (split_verbs s).0 ++ joined (split_verbs s).1

abbrev extra_more : List String → String
extra_more [] = ")"
extra_more (a ∷ args) = ", string=" ++ (a ++ extra_more args)

abbrev extra : List String → String
extra [] = ""
extra (a ∷ args) = "%!(EXTRA string=" ++ (a ++ extra_more args)

abbrev fill : List String → List String → String
fill [] args = extra args
fill (part ∷ parts) [] = "%!s(MISSING)" ++ (part ++ fill parts [])
fill (part ∷ parts) (a ∷ args) = a ++ (part ++ fill parts args)

-- fmt.Sprintf with string arguments, at a format whose only directives are %s. The program calls it
-- only at formats that it has checked to be such.
unfoldable pub sprintf : String → List String → String
unfolding split_verbs
sprintf format args = (split_verbs format).0 ++ fill (split_verbs format).1 args
