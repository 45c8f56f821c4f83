-- ===== src/Httpsig/Parse.antt =====
-- internal/httpsig/parse.go. The two indices of the source are a text: what stands from `i` on.
-- Each loop is a function of its own; a character is read once, so all recur on the text.
use activitypub_core.Common.{
  ℕ, String, code, Bool, ◌||◌, Option, none, some, List, [], ◌∷◌, ◌==◌, nat_eq, if◌then◌else◌,
}
use activitypub_core.Common.Text.{◌⧺◌, trim_space, to_lower}
use activitypub_core.Common.Exec.{Result, ok, err, failure}

-- `map[string]string`, the later entries behind the earlier ones
abbrev pub Params : Type 0
Params = List (String × String)

abbrev is_separator : ℕ → Bool
is_separator c = nat_eq c 32 || nat_eq c b',' || nat_eq c 9

abbrev entry : String → String → Option Params → Option Params
entry key value none = none
entry key value (some ps) = some ((to_lower (trim_space key), value) ∷ ps)

-- Where the scan stands: between parameters, in a name, behind its `=`, in a quoted value, behind
-- a backslash in one, in a bare value. The texts are what has been read of the name and the value.
pub data Scan : Type 0 where
  between : Scan
  in_name : String → Scan
  at_value : String → Scan
  quoted : String → String → Scan
  escaped : String → String → Scan
  bare : String → String → Scan

abbrev pub snoc : String → String → String
snoc s c = s ⧺ c

-- The end of the text: a name without `=`, no value, or an open quote is an error.
unfoldable pub finish : Scan → Option Params
finish between = some []
finish (in_name _) = none
finish (at_value _) = none
finish (quoted _ _) = none
finish (escaped _ _) = none
finish (bare key value) = entry key (trim_space value) (some [])

-- One character `c`; `k` goes on with the rest of the text.
unfoldable pub step : Scan → ℕ → String → (Scan → Option Params) → Option Params
unfolding ◌⧺◌
step between c one k =
    if is_separator c then k between else if nat_eq c b'=' then k (at_value "") else k (in_name one)
step (in_name key) c one k = if nat_eq c b'=' then k (at_value key) else k (in_name (snoc key one))
step (at_value key) c one k =
    if nat_eq c b'"'
    then k (quoted key "")
    else if nat_eq c b','
    then entry key "" (k between)
    else k (bare key one)
step (quoted key value) c one k =
    if nat_eq c b'\\'
    then k (escaped key value)
    else if nat_eq c b'"'
    then entry key value (k between)
    else k (quoted key (snoc value one))
step (escaped key value) c one k = k (quoted key (snoc value one))
step (bare key value) c one k =
    if nat_eq c b','
    then entry key (trim_space value) (k between)
    else k (bare key (snoc value one))

unfoldable pub scan : Scan → String → Option Params
unfolding step finish
scan st String.[] = finish st
scan st (String.◌∷◌ c s) = step st (code c) (String.◌∷◌ c "") (λ st'. scan st' s)

abbrev not_empty : Option Params → Result Params
not_empty none = err (failure "signature param")
not_empty (some []) = err (failure "empty signature header")
not_empty (some (p ∷ ps)) = ok (p ∷ ps)

unfoldable pub parse_signature_header : String → Result Params
unfolding scan
parse_signature_header raw = not_empty (scan between (trim_space raw))

-- `params[name]`: the last entry, "" where there is none
unfoldable pub param : String → Params → Option String
param name [] = none
param name ((k, v) ∷ ps) = elim (param name ps) [
  | some w ↦ some w
  | none ↦ if k == name then some v else none
]

unfoldable pub param_or_empty : String → Params → String
unfolding param
param_or_empty name ps = elim (param name ps) [ none ↦ "" | some v ↦ v ]
