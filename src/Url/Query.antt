-- ===== src/Url/Query.antt =====
-- `url.Values` and the query strings of `net/url`: `ParseQuery`, `Get`, `Set` and `Encode`. The
-- keys of a map have no order; here they stand in the order in which they were added.
use activitypub_core.Common.{
  String, code, Bool, true, false, ◌&&◌, ◌||◌, Option, none, some, List, [], ◌∷◌, ◌++◌, map, ◌==◌,
  ltb, nat_eq, if◌then◌else◌,
}
use activitypub_core.Common.Text.{◌⧺◌, cut, contains, split, join, replace_char}
use activitypub_core.Url.Escape.{unescape, query_escape}

abbrev pub Values : Type 0
Values = List (String × List String)

unfoldable pub values_of : String → Values → List String
values_of key [] = []
values_of key ((k, vs) ∷ q) = if k == key then vs else values_of key q

abbrev first_or_empty : List String → String
first_or_empty [] = ""
first_or_empty (v ∷ vs) = v

-- `q.Get(key)`
unfoldable pub get : String → Values → String
unfolding values_of
get key q = first_or_empty (values_of key q)

-- `q.Set(key, value)`
unfoldable pub set : String → String → Values → Values
set key v [] = (key, v ∷ []) ∷ []
set key v ((k, vs) ∷ q) = if k == key then (k, v ∷ []) ∷ q else (k, vs) ∷ set key v q

-- `q[key] = append(q[key], vs...)`
unfoldable pub append_values : String → List String → Values → Values
append_values key new [] = (key, new) ∷ []
append_values key new ((k, vs) ∷ q) =
    if k == key then (k, vs ++ new) ∷ q else (k, vs) ∷ append_values key new q

-- `url.QueryUnescape`
unfoldable pub query_unescape : String → Option String
unfolding unescape replace_char
query_unescape s = unescape (replace_char "+" " " s)

-- One setting of a query: the name and the value, or an error.
query_setting : String → Option (String × String)
unfolding query_unescape cut contains
query_setting part =
    let (name, value) : String × String = elim (cut b'=' part) [ none ↦ (part, "") | some p ↦ p ] in
    if contains part ";" then none else elim (query_unescape name) [
      | none ↦ none
      | some k ↦ elim (query_unescape value) [ none ↦ none | some v ↦ some (k, v) ]
    ]

-- The settings that can be read, and whether all can.
query_settings : List String → Values → Values × Bool
unfolding query_setting append_values
query_settings [] q = (q, true)
query_settings (part ∷ parts) q =
    if part == "" then query_settings parts q else elim (query_setting part) [
      | none ↦ ((query_settings parts q).0, false)
      | some (k, v) ↦ query_settings parts (append_values k (v ∷ []) q)
    ]

-- `url.ParseQuery`: `false` is the error; `u.Query()` leaves it out.
unfoldable pub parse_query : String → Values × Bool
unfolding query_settings split
parse_query s = query_settings (split b'&' s) []

-- The order of the texts by their characters.
text_before : String → String → Bool
text_before String.[] String.[] = false
text_before String.[] (String.◌∷◌ d t) = true
text_before (String.◌∷◌ c s) String.[] = false
text_before (String.◌∷◌ c s) (String.◌∷◌ d t) =
    ltb (code c) (code d) || (nat_eq (code c) (code d) && text_before s t)

insert_key : String × List String → Values → Values
unfolding text_before
insert_key p [] = p ∷ []
insert_key (k, vs) ((l, ws) ∷ q) =
    if text_before k l then (k, vs) ∷ (l, ws) ∷ q else (l, ws) ∷ insert_key (k, vs) q

sort_keys : Values → Values
unfolding insert_key
sort_keys [] = []
sort_keys (p ∷ q) = insert_key p (sort_keys q)

settings : Values → List String
unfolding query_escape ◌⧺◌
settings [] = []
settings ((k, vs) ∷ q) = map (λ v. query_escape k ⧺ "=" ⧺ query_escape v) vs ++ settings q

-- `q.Encode()`
unfoldable pub encode : Values → String
unfolding settings sort_keys join
encode q = join "&" (settings (sort_keys q))
