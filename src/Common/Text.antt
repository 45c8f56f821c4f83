-- ===== src/Common/Text.antt =====
-- The functions of Go's `strings` package that the program calls, over code points. A text is a
-- list of characters, so each is a recursion on it. Case mapping covers the letters of ASCII and
-- the characters outside it that map into ASCII; other letters are left as they are.
use Prim.Native.Nat.{ℕ}
use Prim.Native.Char.{Char, code}
use Prim.Native.String.{String, [], ◌∷◌}
use mathlib.Core.Bool.{Bool, true, false, ◌&&◌, ◌||◌}
use mathlib.Core.Option.{Option, none, some}
use mathlib.Core.List.{List, [], ◌∷◌}
use text.Mathlib.Text.{◌==◌}
use activitypub_core.Common.Tests.{leb, nat_eq, if◌then◌else◌}

-- `a + b`
infixr 65 ◌⧺◌
unfoldable pub ◌⧺◌ : String → String → String
[] ⧺ t = t
(c ∷ s) ⧺ t = c ∷ (s ⧺ t)

abbrev pub is_empty : String → Bool
is_empty [] = true
is_empty (c ∷ s) = false

-- `unicode.IsSpace`
unfoldable pub is_space : ℕ → Bool
is_space c =
    (leb 9 c && leb c 13)
    || nat_eq c 32
    || nat_eq c 0x85
    || nat_eq c 0xA0
    || nat_eq c 0x1680
    || (leb 0x2000 c && leb c 0x200A)
    || nat_eq c 0x2028
    || nat_eq c 0x2029
    || nat_eq c 0x202F
    || nat_eq c 0x205F
    || nat_eq c 0x3000

abbrev pub is_slash : ℕ → Bool
is_slash c = nat_eq c b'/'

unfoldable pub trim_left : (ℕ → Bool) → String → String
trim_left p [] = []
trim_left p (c ∷ s) = let rest = trim_left p s in if p (code c) then rest else c ∷ s

-- puts `c` back unless it is the last character and is to be cut
abbrev pub cons_kept : (ℕ → Bool) → Char → String → String
cons_kept p c [] = if p (code c) then [] else c ∷ []
cons_kept p c (d ∷ s) = c ∷ d ∷ s

unfoldable pub trim_right : (ℕ → Bool) → String → String
trim_right p [] = []
trim_right p (c ∷ s) = cons_kept p c (trim_right p s)

-- `strings.TrimSpace`
unfoldable pub trim_space : String → String
unfolding trim_left trim_right is_space
trim_space s = trim_right is_space (trim_left is_space s)

-- `strings.TrimRight(s, "/")`
unfoldable pub trim_right_slash : String → String
unfolding trim_right
trim_right_slash s = trim_right is_slash s

-- `strings.Trim(s, "/")`
unfoldable pub trim_slash : String → String
unfolding trim_left trim_right
trim_slash s = trim_right is_slash (trim_left is_slash s)

-- the character of `to` at the place where `from` has `c`
abbrev translate : String → String → Char → Char
translate (a ∷ from) (b ∷ to) c = if nat_eq (code a) (code c) then b else translate from to c
translate _ _ c = c

map_text : (Char → Char) → String → String
map_text f [] = []
map_text f (c ∷ s) = f c ∷ map_text f s

-- `strings.ToLower`: U+0130 and U+212A go to "i" and "k"
unfoldable pub to_lower : String → String
unfolding map_text
to_lower s = map_text (translate "ABCDEFGHIJKLMNOPQRSTUVWXYZİK" "abcdefghijklmnopqrstuvwxyzik") s

-- `strings.ToUpper`: U+0131 and U+017F go to "I" and "S"
unfoldable pub to_upper : String → String
unfolding map_text
to_upper s = map_text (translate "abcdefghijklmnopqrstuvwxyzıſ" "ABCDEFGHIJKLMNOPQRSTUVWXYZIS") s

-- The simple folding of `strings.EqualFold`: U+212A and U+017F fold to "k" and "s".
unfoldable pub fold_case : String → String
unfolding map_text
fold_case s = map_text (translate "ABCDEFGHIJKLMNOPQRSTUVWXYZKſ" "abcdefghijklmnopqrstuvwxyzks") s

unfoldable pub equal_fold : String → String → Bool
unfolding fold_case
equal_fold s t = fold_case s == fold_case t

-- what follows the prefix `p`
unfoldable pub cut_prefix : String → String → Option String
cut_prefix s [] = some s
cut_prefix [] (d ∷ p) = none
cut_prefix (c ∷ s) (d ∷ p) = if nat_eq (code c) (code d) then cut_prefix s p else none

unfoldable pub has_prefix : String → String → Bool
unfolding cut_prefix
has_prefix s p = elim (cut_prefix s p) [ none ↦ false | some _ ↦ true ]

-- `strings.TrimPrefix`
unfoldable pub trim_prefix : String → String → String
unfolding cut_prefix
trim_prefix s p = elim (cut_prefix s p) [ none ↦ s | some rest ↦ rest ]

unfoldable pub has_suffix : String → String → Bool
has_suffix [] t = is_empty t
has_suffix (c ∷ s) t = (c ∷ s) == t || has_suffix s t

unfoldable pub contains : String → String → Bool
unfolding has_prefix
contains [] t = is_empty t
contains (c ∷ s) t = has_prefix (c ∷ s) t || contains s t

abbrev before_cons : Char → Option (String × String) → Option (String × String)
before_cons c none = none
before_cons c (some (a, b)) = some (c ∷ a, b)

-- `strings.Cut` at one character; `none` where it does not occur
unfoldable pub cut : ℕ → String → Option (String × String)
cut d [] = none
cut d (c ∷ s) = if nat_eq (code c) d then some ([], s) else before_cons c (cut d s)

-- What follows the last occurrence of a character.
unfoldable pub after_last : ℕ → String → Option String
after_last d [] = none
after_last d (c ∷ s) = elim (after_last d s) [
  | some r ↦ some r
  | none ↦ if nat_eq (code c) d then some s else none
]

abbrev pub head_cons : Char → List String → List String
head_cons c [] = (c ∷ []) ∷ []
head_cons c (part ∷ parts) = (c ∷ part) ∷ parts

-- `strings.Split` at one character
unfoldable pub split : ℕ → String → List String
split d [] = [] ∷ []
split d (c ∷ s) = if nat_eq (code c) d then [] ∷ split d s else head_cons c (split d s)

-- `strings.Join`
unfoldable pub join : String → List String → String
unfolding ◌⧺◌
join sep [] = []
join sep (s ∷ []) = s
join sep (s ∷ t ∷ rest) = s ⧺ sep ⧺ join sep (t ∷ rest)

-- `strings.ReplaceAll` of one character by another
unfoldable pub replace_char : Char → Char → String → String
unfolding map_text
replace_char a b s = map_text (λ c. if nat_eq (code c) (code a) then b else c) s

-- the fields of `strings.Fields`, the current one in front
abbrev pub close_field : List String → List String
close_field ([] ∷ parts) = parts
close_field parts = parts

unfoldable pub fields_from : (ℕ → Bool) → String → List String
fields_from p [] = [] ∷ []
fields_from p (c ∷ s) =
    let rest = fields_from p s in if p (code c) then [] ∷ close_field rest else head_cons c rest

-- `strings.FieldsFunc`
unfoldable pub fields_func : (ℕ → Bool) → String → List String
unfolding fields_from
fields_func p s = close_field (fields_from p s)

unfoldable pub fields : String → List String
unfolding fields_func is_space
fields s = fields_func is_space s
