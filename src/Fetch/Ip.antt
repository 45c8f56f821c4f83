-- ===== src/Fetch/Ip.antt =====
-- The part of Go's `net` that the policy calls: addresses, `ParseIP` and the classes of addresses.
use activitypub_core.Common.{
  ℕ, zero, suc, ◌+◌, ◌-◌, ◌*◌, ◌/◌, ◌%◌, String, code, Bool, true, false, ◌&&◌, ◌||◌, Option, none,
  some, List, [], ◌∷◌, ◌++◌, ltb, leb, nat_eq, length, if◌then◌else◌,
}
use activitypub_core.Common.Text.{split, contains}

-- The four bytes, or the eight groups of sixteen bits.
pub data Ip : Type 0 where
  v4 : (a b c d : ℕ) → Ip
  v6 : (g0 g1 g2 g3 g4 g5 g6 g7 : ℕ) → Ip

-- `To4` of a v4-mapped address
unfoldable pub normalize_ip : Ip → Ip
normalize_ip (v4 a b c d) = v4 a b c d
normalize_ip (v6 g0 g1 g2 g3 g4 g5 g6 g7) =
    if nat_eq g0 0 && nat_eq g1 0 && nat_eq g2 0 && nat_eq g3 0 && nat_eq g4 0 && nat_eq g5 0xFFFF
    then v4 (g6 / 256) (g6 % 256) (g7 / 256) (g7 % 256)
    else v6 g0 g1 g2 g3 g4 g5 g6 g7

unfoldable pub is_loopback : Ip → Bool
is_loopback (v4 a b c d) = nat_eq a 127
is_loopback (v6 g0 g1 g2 g3 g4 g5 g6 g7) =
    nat_eq g0 0
    && nat_eq g1 0
    && nat_eq g2 0
    && nat_eq g3 0
    && nat_eq g4 0
    && nat_eq g5 0
    && nat_eq g6 0
    && nat_eq g7 1

unfoldable pub is_private : Ip → Bool
is_private (v4 a b c d) =
    nat_eq a 10 || (nat_eq a 172 && nat_eq (b / 16) 1) || (nat_eq a 192 && nat_eq b 168)
is_private (v6 g0 g1 g2 g3 g4 g5 g6 g7) = nat_eq (g0 / 512) 0x7E

unfoldable pub is_link_local_unicast : Ip → Bool
is_link_local_unicast (v4 a b c d) = nat_eq a 169 && nat_eq b 254
is_link_local_unicast (v6 g0 g1 g2 g3 g4 g5 g6 g7) = nat_eq (g0 / 64) 0x3FA

unfoldable pub is_link_local_multicast : Ip → Bool
is_link_local_multicast (v4 a b c d) = nat_eq a 224 && nat_eq b 0 && nat_eq c 0
is_link_local_multicast (v6 g0 g1 g2 g3 g4 g5 g6 g7) = nat_eq (g0 / 256) 0xFF && nat_eq (g0 % 16) 2

-- whether two addresses have one text
unfoldable pub same_ip : Ip → Ip → Bool
same_ip (v4 a b c d) (v4 a' b' c' d') = nat_eq a a' && nat_eq b b' && nat_eq c c' && nat_eq d d'
same_ip (v6 a b c d e f g h) (v6 a' b' c' d' e' f' g' h') =
    nat_eq a a'
    && nat_eq b b'
    && nat_eq c c'
    && nat_eq d d'
    && nat_eq e e'
    && nat_eq f f'
    && nat_eq g g'
    && nat_eq h h'
same_ip _ _ = false

-- Digits in a base; `none` for any other character.
digit : ℕ → ℕ → Option ℕ
digit base c =
    let v =
      if leb b'0' c && leb c b'9'
      then c - b'0'
      else if leb b'a' c && leb c b'f'
      then c - b'a' + 10
      else if leb b'A' c && leb c b'F'
      then c - b'A' + 10
      else 99 in
    if ltb v base then some v else none

number_from : ℕ → ℕ → String → Option ℕ
unfolding digit
number_from base acc String.[] = some acc
number_from base acc (String.◌∷◌ c s) = elim (digit base (code c)) [
  | none ↦ none
  | some v ↦ number_from base (acc * base + v) s
]

char_count : String → ℕ
char_count String.[] = 0
char_count (String.◌∷◌ c s) = suc (char_count s)

-- A number of one to `most` digits, below `bound`.
field : ℕ → ℕ → ℕ → String → Option ℕ
unfolding number_from char_count
field base most bound s =
    if nat_eq (char_count s) 0 || ltb most (char_count s)
    then none
    else elim (number_from base 0 s) [ none ↦ none | some v ↦ if ltb v bound then some v else none ]

leading_zero : String → Bool
leading_zero String.[] = false
leading_zero (String.◌∷◌ c String.[]) = false
leading_zero (String.◌∷◌ c (String.◌∷◌ d s)) = nat_eq (code c) b'0'

byte_field : String → Option ℕ
unfolding field leading_zero
byte_field s = if leading_zero s then none else field 10 3 256 s

-- Every element, or `none`.
abbrev all_some : List (Option ℕ) → Option (List ℕ)
all_some [] = some []
all_some (none ∷ os) = none
all_some (some v ∷ os) = elim (all_some os) [ none ↦ none | some vs ↦ some (v ∷ vs) ]

abbrev map_field : (String → Option ℕ) → List String → List (Option ℕ)
map_field f [] = []
map_field f (s ∷ ss) = f s ∷ map_field f ss

abbrev of_bytes : List ℕ → Option Ip
of_bytes (a ∷ b ∷ c ∷ d ∷ []) = some (v4 a b c d)
of_bytes _ = none

parse_v4 : String → Option Ip
unfolding byte_field split
parse_v4 s = elim (all_some (map_field byte_field (split b'.' s))) [
  | none ↦ none
  | some bs ↦ of_bytes bs
]

-- The groups of one half of a v6 address; the last of the whole may be written as a v4 address.
groups : Bool → List String → Option (List ℕ)
unfolding parse_v4 field contains
groups last [] = some []
groups last (s ∷ []) =
    let group : Option (List ℕ) = elim (field 16 4 65536 s) [
      | none ↦ none
      | some v ↦ some (v ∷ [])
    ] in
    let dotted : Option (List ℕ) = elim (parse_v4 s) [
      | none ↦ none
      | some ip ↦ elim ip [
        | v4 a b c d ↦ some ((a * 256 + b) ∷ (c * 256 + d) ∷ [])
        | v6 _ _ _ _ _ _ _ _ ↦ none
      ]
    ] in
    if last && contains s "." then dotted else group
groups last (s ∷ t ∷ ss) = elim (field 16 4 65536 s) [
  | none ↦ none
  | some v ↦ elim (groups last (t ∷ ss)) [ none ↦ none | some vs ↦ some (v ∷ vs) ]
]

half : Bool → String → Option (List ℕ)
unfolding groups split
half last String.[] = some []
half last (String.◌∷◌ c s) = groups last (split b':' (String.◌∷◌ c s))

-- The texts before and after the first `::`.
cut_ellipsis : String → Option (String × String)
cut_ellipsis String.[] = none
cut_ellipsis (String.◌∷◌ c String.[]) = none
cut_ellipsis (String.◌∷◌ c (String.◌∷◌ d s)) =
    let later : Option (String × String) = elim (cut_ellipsis (String.◌∷◌ d s)) [
      | none ↦ none
      | some (a, b) ↦ some (String.◌∷◌ c a, b)
    ] in
    if nat_eq (code c) b':' && nat_eq (code d) b':' then some ("", s) else later

abbrev zeros : ℕ → List ℕ
zeros zero = []
zeros (suc n) = 0 ∷ zeros n

abbrev of_groups : List ℕ → Option Ip
of_groups (a ∷ b ∷ c ∷ d ∷ e ∷ f ∷ g ∷ h ∷ []) = some (v6 a b c d e f g h)
of_groups _ = none

-- An ellipsis stands for one group at least.
abbrev expand : List ℕ → List ℕ → Option Ip
expand l r =
    if leb (length l + length r) 7
    then of_groups (l ++ zeros (8 - (length l + length r)) ++ r)
    else none

parse_v6 : String → Option Ip
unfolding half cut_ellipsis contains
parse_v6 s = elim (cut_ellipsis s) [
  | none ↦ elim (half true s) [ none ↦ none | some gs ↦ of_groups gs ]
  | some (a, b) ↦ elim (half false a) [
    | none ↦ none
    | some l ↦ elim (half true b) [ none ↦ none | some r ↦ expand l r ]
  ]
]

-- `net.ParseIP`
unfoldable pub parse_ip : String → Option Ip
unfolding parse_v4 parse_v6 contains
parse_ip s = if contains s ":" then parse_v6 s else parse_v4 s
