-- ===== src/Fetch/Tests.antt =====
-- Runs of the dialer, of the search for an inbox and of the choice of a key.
use activitypub_core.Common.{
  List, ◌≤◌, ◌≡◌, ◌≢◌, sym, ◌∙◌, refl, false, none, some, [], ◌∷◌, All, length,
}
use activitypub_core.Common.Exec.{ok}
use activitypub_core.Json.{Json, str, arr, obj, item, done, member, last, struct_string, as_array}
use activitypub_core.Common.Text.{equal_fold}
use activitypub_core.Fetch.PublicKey.{KeyObject, pem_for_key_id}
use activitypub_core.Fetch.Keys.{IsKeysOf, IsKeyOf, pem_for_key_id-IsKeyOf}
use activitypub_core.Fetch.Ip.{v4, parse_ip}
use activitypub_core.Fetch.Policy.{Policy, address, Network, check_ip, dial_context}
use activitypub_core.Fetch.Client.{Client}
use activitypub_core.Fetch.Inbox.{resolve}
use activitypub_core.Fetch.Guard.{IsAllowed, dial_context-IsAllowed, dial_context-resolved}
use activitypub_core.Fetch.Steps.{Fresh, resolve-Fresh}

abbrev strict : Policy
strict = record { allow_http = false; relax_local_fetch = false }

-- One name with two public addresses, of which none accepts.
abbrev network : Network
network = record {
  lookup_ip_addr = λ _. some (v4 93 184 216 34 ∷ v4 8 8 8 8 ∷ []);
  connects = λ _. false;
}

dial_context-IsAllowed_example :
    All (IsAllowed strict) ((dial_context strict network "far.example").1)
dial_context-IsAllowed_example = dial_context-IsAllowed strict network "far.example"

is_name : parse_ip "far.example" ≡ none
unfolding parse_ip
is_name = refl

tries_both :
    (dial_context strict network "far.example").1
    ≡ address (v4 93 184 216 34) ∷ address (v4 8 8 8 8) ∷ []
unfolding dial_context parse_ip
tries_both = refl

dials : (dial_context strict network "far.example").1 ≢ []
dials e = let impossible = sym tries_both ∙ e in cc

dial_context-resolved_example :
    All (λ ip. check_ip strict ip ≡ ok tt) (v4 93 184 216 34 ∷ v4 8 8 8 8 ∷ [])
dial_context-resolved_example =
    dial_context-resolved strict network "far.example" (v4 93 184 216 34 ∷ v4 8 8 8 8 ∷ []) refl
      is_name refl dials

abbrev offline : Client
offline = record { get = λ _. none; key_file_loads = λ _. false }

resolve-Fresh_example :
    (length ((resolve offline (some strict) none 5 [] "https://far.example/m").1) ≤ 5)
    × Fresh [] ((resolve offline (some strict) none 5 [] "https://far.example/m").1)
resolve-Fresh_example = resolve-Fresh offline (some strict) none 5 [] "https://far.example/m"

abbrev two_keys : Json
two_keys = arr (
    item
      (obj (member "id" (str "https://far.example/m#old") (member "publicKeyPem" (str "OLD") last)))
      (item
        (obj
          (member "id" (str "https://far.example/m#new") (member "publicKeyPem" (str "NEW") last)))
        done))

finds_second : pem_for_key_id "https://far.example/m#new" two_keys ≡ ok "NEW"
unfolding pem_for_key_id struct_string as_array equal_fold
finds_second = refl

pem_for_key_id-IsKeyOf_example :
    (ks : List KeyObject) × (IsKeysOf two_keys ks × IsKeyOf "https://far.example/m#new" "NEW" ks)
pem_for_key_id-IsKeyOf_example =
    pem_for_key_id-IsKeyOf "https://far.example/m#new" "NEW" two_keys finds_second
