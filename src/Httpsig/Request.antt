-- ===== src/Httpsig/Request.antt =====
-- The parts of an HTTP request that a signature covers, and signing_string.go.
use activitypub_core.Common.{String, not, ◌&&◌, List, [], ◌∷◌, ◌==◌, if◌then◌else◌}
use activitypub_core.Common.Text.{◌⧺◌, trim_space, to_lower, join}
use activitypub_core.Common.Exec.{Result, ok, err, failure, bind_result}

-- The header map, under names in lower case: `http.Header` keeps one spelling for each name, and
-- the program asks for names through it. `escaped_path` and `raw_query` are those of `r.URL`.
pub record Request : Type 0 where
  pub method : String
  pub escaped_path : String
  pub raw_query : String
  pub url_host : String
  pub host : String
  pub header : List (String × List String)

-- `h.Values(name)`
unfoldable pub values : String → List (String × List String) → List String
values name [] = []
values name ((k, vs) ∷ h) = if k == name then vs else values name h

abbrev first_or_empty : List String → String
first_or_empty [] = ""
first_or_empty (v ∷ vs) = v

-- `h.Get(name)`
unfoldable pub get : String → List (String × List String) → String
unfolding values
get name h = first_or_empty (values name h)

-- `h.Set(name, value)`
unfoldable pub set : String → String → List (String × List String) → List (String × List String)
set name v [] = (name, v ∷ []) ∷ []
set name v ((k, vs) ∷ h) = if k == name then (name, v ∷ []) ∷ h else (k, vs) ∷ set name v h

unfoldable pub set_header : String → String → Request → Request
set_header name v r = record r { header = set name v r.header }

abbrev path_or_root : Request → String
path_or_root r = if r.escaped_path == "" then "/" else r.escaped_path

abbrev request_target : Request → String
request_target r =
    let path = path_or_root r in
    "(request-target): "
    ⧺ to_lower r.method
    ⧺ " "
    ⧺ (if r.raw_query == "" then path else path ⧺ "?" ⧺ r.raw_query)

-- The values of a header; the host may stand in the request itself.
unfoldable pub signed_values : Request → String → List String
unfolding values
signed_values r lower = elim (values lower r.header) [
  | v ∷ vs ↦ v ∷ vs
  | [] ↦ if lower == "host" && not (r.host == "") then r.host ∷ [] else []
]

abbrev header_line : String → List String → Result String
header_line lower [] = err (failure "missing signed header")
header_line lower (v ∷ vs) = ok (lower ⧺ ": " ⧺ join ", " (v ∷ vs))

unfoldable pub signing_line : Request → String → Result String
unfolding signed_values
signing_line r name =
    let lower = to_lower (trim_space name) in
    if lower == "(request-target)"
    then ok (request_target r)
    else header_line lower (signed_values r lower)

unfoldable pub signing_lines : Request → List String → Result (List String)
unfolding signing_line
signing_lines r [] = ok []
signing_lines r (name ∷ names) =
    bind_result (signing_line r name) λ l. bind_result (signing_lines r names) λ ls. ok (l ∷ ls)

unfoldable pub build_signing_string : Request → List String → Result String
unfolding signing_lines
build_signing_string r names = bind_result (signing_lines r names) λ ls. ok (join "\n" ls)
