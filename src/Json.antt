-- ===== src/Json.antt =====
-- JSON values and the decodings of `encoding/json` that the program asks for. A document that
-- `json.RawMessage` carries is the value that it denotes; numbers are kept where they are natural.
use activitypub_core.Common.{
  ℕ, String, Bool, Option, none, some, List, [], ◌∷◌, ◌==◌, if◌then◌else◌,
}
use activitypub_core.Common.Text.{equal_fold}

mutual
  pub data Json : Type 0 where
    null : Json
    bool : Bool → Json
    num : ℕ → Json
    str : String → Json
    arr : Elems → Json
    obj : Members → Json

  pub data Elems : Type 0 where
    done : Elems
    item : Json → Elems → Elems

  pub data Members : Type 0 where
    last : Members
    member : String → Json → Members → Members

-- A byte sequence as it comes from the network.
pub data Raw : Type 0 where
  no_bytes : Raw
  malformed : Raw
  json : Json → Raw

-- `map[string]json.RawMessage`: the members in the order of the document.
abbrev pub Fields : Type 0
Fields = List (String × Json)

abbrev pub elems : Elems → List Json
elems done = []
elems (item j js) = j ∷ elems js

abbrev pub members : Members → Fields
members last = []
members (member k j ms) = (k, j) ∷ members ms

-- `var s string; json.Unmarshal(raw, &s)`: null leaves the variable empty and is no error.
unfoldable pub as_string : Json → Option String
as_string null = some ""
as_string (str s) = some s
as_string _ = none

-- The same, where the program goes on only with a text that is not empty.
unfoldable pub nonempty_string : Json → Option String
nonempty_string (str s) = if s == "" then none else some s
nonempty_string _ = none

-- `var arr []json.RawMessage`
unfoldable pub as_array : Json → Option (List Json)
as_array null = some []
as_array (arr js) = some (elems js)
as_array _ = none

-- `var m map[string]json.RawMessage`
unfoldable pub as_object : Json → Option Fields
as_object null = some []
as_object (obj ms) = some (members ms)
as_object _ = none

-- `m[key]`: of two members with one name the later one stays.
unfoldable pub lookup : String → Fields → Option Json
lookup key [] = none
lookup key ((k, j) ∷ fs) = elim (lookup key fs) [
  | some v ↦ some v
  | none ↦ if k == key then some j else none
]

-- A struct with one text field, `struct { F string "json:name" }`: names are compared without
-- regard to case, null leaves the field, and another value is an error.
unfoldable pub struct_member : String → String → Fields → Option String
unfolding as_string
struct_member name acc [] = some acc
struct_member name acc ((k, null) ∷ fs) = struct_member name acc fs
struct_member name acc ((k, j) ∷ fs) =
    let skipped = struct_member name acc fs in
    let taken : Option String = elim (as_string j) [
      | none ↦ none
      | some s ↦ struct_member name s fs
    ] in
    if equal_fold k name then taken else skipped

unfoldable pub struct_string : String → Json → Option String
unfolding struct_member as_object
struct_string name j = elim (as_object j) [ none ↦ none | some fs ↦ struct_member name "" fs ]

-- The texts of an array, `el.(string)`; other elements are passed over.
unfoldable pub strings : List Json → List String
strings [] = []
strings (str s ∷ js) = s ∷ strings js
strings (_ ∷ js) = strings js

-- `[]any`
unfoldable pub string_elems : Json → List String
unfolding as_array strings
string_elems j = elim (as_array j) [ none ↦ [] | some js ↦ strings js ]
