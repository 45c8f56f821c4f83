-- ===== src/Url.antt =====
-- The part of Go's `net/url` that the program calls: `url.Parse`, the methods `Hostname`,
-- `EscapedPath` and `String`, and the escaping of one path segment. The user information of an
-- authority is checked as in Go and kept as it is written.
mod Escape
pub mod Query
mod Tests
unfoldable pub use Escape.{unescape, path_escape}
use Escape.{is_letter, is_digit, escape_path, escape_host, valid_encoded, host_ok}
use activitypub_core.Common.{
  ℕ, String, Char, code, Bool, true, false, not, ◌&&◌, ◌||◌, Option, none, some, List, [], ◌∷◌,
  ◌==◌, ltb, nat_eq, if◌then◌else◌,
}
use activitypub_core.Common.Text.{◌⧺◌, cut, cut_prefix, has_prefix, has_suffix, contains, to_lower}

-- `path` is decoded, `escaped_path` is what `EscapedPath` returns.
pub record Url : Type 0 where
  pub scheme : String
  pub opaque : String
  pub user : Option String
  pub host : String
  pub omit_host : Bool
  pub path : String
  pub escaped_path : String
  pub force_query : Bool
  pub raw_query : String
  pub fragment : String

-- a character below space, or DEL
has_control : String → Bool
has_control String.[] = false
has_control (String.◌∷◌ c s) = ltb (code c) 32 || nat_eq (code c) 127 || has_control s

abbrev is_scheme_char : ℕ → Bool
is_scheme_char c = is_letter c || is_digit c || nat_eq c b'+' || nat_eq c b'-' || nat_eq c b'.'

abbrev push_front : Char → String × String → String × String
push_front c (a, b) = (String.◌∷◌ c a, b)

-- The longest prefix of characters that a scheme may have, and the rest.
span_scheme : String → String × String
span_scheme String.[] = ("", "")
span_scheme (String.◌∷◌ c s) =
    let longer = push_front c (span_scheme s) in
    if is_scheme_char (code c) then longer else ("", String.◌∷◌ c s)

abbrev scheme_before_colon : String → String × String → String × String
scheme_before_colon whole (a, String.[]) = ("", whole)
scheme_before_colon whole (a, String.◌∷◌ d r) = if nat_eq (code d) b':' then (a, r) else ("", whole)

-- `getScheme`: `none` where the text begins with a colon
get_scheme : String → Option (String × String)
unfolding span_scheme
get_scheme String.[] = some ("", "")
get_scheme (String.◌∷◌ c s) =
    if is_letter (code c)
    then some (scheme_before_colon (String.◌∷◌ c s) (span_scheme (String.◌∷◌ c s)))
    else if nat_eq (code c) b':'
    then none
    else some ("", String.◌∷◌ c s)

-- The texts before and after the last `d`.
cut_last : ℕ → String → Option (String × String)
cut_last d String.[] = none
cut_last d (String.◌∷◌ c s) = elim (cut_last d s) [
  | some (a, b) ↦ some (String.◌∷◌ c a, b)
  | none ↦ if nat_eq (code c) d then some ("", s) else none
]

all_digits : String → Bool
all_digits String.[] = true
all_digits (String.◌∷◌ c s) = is_digit (code c) && all_digits s

-- nothing, or a colon and digits
valid_optional_port : String → Bool
unfolding all_digits cut_prefix
valid_optional_port s =
    if s == "" then true else elim (cut_prefix s ":") [ none ↦ false | some p ↦ all_digits p ]

valid_host_port : String → Bool
unfolding valid_optional_port cut_last has_prefix
valid_host_port host =
    let bracketed : Bool = elim (cut_last b']' host) [
      | none ↦ false
      | some (_, b) ↦ valid_optional_port b
    ] in
    let named : Bool = elim (cut_last b':' host) [ none ↦ true | some (_, p) ↦ all_digits p ] in
    if has_prefix host "[" then bracketed else named

parse_host : String → Option String
unfolding valid_host_port host_ok unescape
parse_host host = if valid_host_port host && host_ok host then unescape host else none

abbrev is_userinfo_char : Char → Bool
is_userinfo_char c =
    is_letter (code c)
    || is_digit (code c)
    || contains "-._:~!$&'()*+,;=%@" (String.◌∷◌ c String.[])

all_userinfo : String → Bool
unfolding contains
all_userinfo String.[] = true
all_userinfo (String.◌∷◌ c s) = is_userinfo_char c && all_userinfo s

-- `validUserinfo`, and the escapes of the name and the password
valid_userinfo : String → Bool
unfolding all_userinfo unescape
valid_userinfo u = all_userinfo u && elim (unescape u) [ none ↦ false | some _ ↦ true ]

parse_authority : String → Option (Option String × String)
unfolding parse_host cut_last valid_userinfo
parse_authority s = elim (cut_last b'@' s) [
  | none ↦ elim (parse_host s) [ none ↦ none | some h ↦ some (none, h) ]
  | some (u, s') ↦ elim (parse_host s') [
    | none ↦ none
    | some h ↦ if valid_userinfo u then some (some u, h) else none
  ]
]

-- The authority and the path, at the first slash.
split_authority : String → String × String
unfolding cut
split_authority s = elim (cut b'/' s) [ none ↦ (s, "") | some (a, b) ↦ (a, String.◌∷◌ "/" b) ]

-- The query, and whether an empty one is forced: a `?` that stands only at the end.
split_query : String → String × String × Bool
unfolding cut
split_query s = elim (cut b'?' s) [ none ↦ (s, "", false) | some (a, q) ↦ (a, q, q == "") ]

abbrev set_path : Url → String → Option Url
set_path u p = elim (unescape p) [
  | none ↦ none
  | some path ↦
      some
        (record u { path = path; escaped_path = if valid_encoded p then p else escape_path path })
]

abbrev after_authority : Url → String → Option Url
after_authority u s =
    let (authority, p) = split_authority s in
    elim (parse_authority authority) [
      | none ↦ none
      | some (user, host) ↦ set_path (record u { user = user; host = host }) p
    ]

abbrev first_segment_colon : String → Bool
first_segment_colon s = elim (cut b'/' s) [ none ↦ contains s ":" | some (a, _) ↦ contains a ":" ]

abbrev start : String → String → Bool → String → Url
start scheme raw_query force_query fragment = record {
  scheme = scheme;
  opaque = "";
  user = none;
  host = "";
  omit_host = false;
  path = "";
  escaped_path = "";
  force_query = force_query;
  raw_query = raw_query;
  fragment = fragment;
}

-- after the scheme and the query
parse_rest : Url → String → Option Url
unfolding split_authority parse_authority has_prefix cut_prefix contains valid_encoded escape_path
    unescape
parse_rest u rest =
    if not (has_prefix rest "/")
    then if not (u.scheme == "")
      then some (record u { opaque = rest })
      else if first_segment_colon rest
      then none
      else set_path u rest
    else if has_prefix rest "//" && not (u.scheme == "" && has_prefix rest "///")
    then elim (cut_prefix rest "//") [ none ↦ none | some s ↦ after_authority u s ]
    else set_path (record u { omit_host = not (u.scheme == "") }) rest

parse_without_fragment : String → String → Option Url
unfolding has_control get_scheme split_query parse_rest to_lower
parse_without_fragment s fragment =
    if has_control s
    then none
    else if s == "*"
    then some (record (start "" "" false fragment) { path = "*"; escaped_path = "*" })
    else elim (get_scheme s) [
      | none ↦ none
      | some (scheme, rest) ↦
          let (p, query, force) = split_query rest in
          parse_rest (start (to_lower scheme) query force fragment) p
    ]

-- `url.Parse`
unfoldable pub parse : String → Option Url
unfolding parse_without_fragment cut unescape
parse raw = elim (cut b'#' raw) [
  | none ↦ parse_without_fragment raw ""
  | some (s, f) ↦ elim (unescape f) [ none ↦ none | some frag ↦ parse_without_fragment s frag ]
]

-- `u.Hostname()`
unfoldable pub hostname : Url → String
unfolding cut_last all_digits cut_prefix has_suffix
hostname u =
    let name : String = elim (cut_last b':' u.host) [
      | none ↦ u.host
      | some (a, p) ↦ if all_digits p then a else u.host
    ] in
    if has_suffix name "]"
    then elim (cut_prefix name "[") [
      | none ↦ name
      | some inner ↦ elim (cut_last b']' inner) [ none ↦ name | some (a, _) ↦ a ]
    ]
    else name

abbrev user_prefix : Option String → String
user_prefix none = ""
user_prefix (some u) = u ⧺ "@"

abbrev has_user : Option String → Bool
has_user none = false
has_user (some u) = true

abbrev authority_text : Url → String
authority_text u =
    let slashes = if u.host == "" && u.path == "" && not (has_user u.user) then "" else "//" in
    if u.omit_host && u.host == "" && not (has_user u.user)
    then ""
    else slashes ⧺ user_prefix u.user ⧺ escape_host u.host

-- `u.String()` of a value with a scheme and an empty fragment
unfoldable pub to_string : Url → String
unfolding escape_host ◌⧺◌ has_prefix
to_string u =
    let query = if u.force_query || not (u.raw_query == "") then "?" ⧺ u.raw_query else "" in
    if not (u.opaque == "")
    then u.scheme ⧺ ":" ⧺ u.opaque ⧺ query
    else u.scheme ⧺ ":" ⧺ authority_text u ⧺ u.escaped_path ⧺ query
