-- ===== src/Fetch/Policy.antt =====
-- internal/fetch/policy.go: which URLs and addresses an outbound request may use.
use activitypub_core.Common.{
  String, Bool, true, false, not, ◌&&◌, ◌||◌, Option, none, some, List, [], ◌∷◌, ◌++◌, ◌==◌,
  any_where, delete_where, if◌then◌else◌,
}
use activitypub_core.Common.Text.{to_lower}
use activitypub_core.Common.Exec.{Result, ok, err, failure, bind_result}
use activitypub_core.Config.{Config}
use activitypub_core.Url.{Url, parse, hostname}
use activitypub_core.Fetch.Ip.{
  Ip, v4, v6, parse_ip, normalize_ip, is_loopback, is_private, is_link_local_unicast,
  is_link_local_multicast, same_ip,
}

pub record Policy : Type 0 where
  pub allow_http : Bool
  pub relax_local_fetch : Bool

abbrev pub testing_policy : Policy
testing_policy = record { allow_http = true; relax_local_fetch = true }

-- `none` is a nil config.
unfoldable pub policy_from_config : Option Config → Policy
policy_from_config none = record { allow_http = false; relax_local_fetch = false }
policy_from_config (some c) =
    if c.fetch_relax_local
    then testing_policy
    else record { allow_http = c.fetch_allow_http; relax_local_fetch = false }

abbrev disallowed : Ip → Bool
disallowed ip =
    is_loopback ip || is_private ip || is_link_local_unicast ip || is_link_local_multicast ip

unfoldable pub check_ip : Policy → Ip → Result (Unit {0})
unfolding normalize_ip is_loopback is_private is_link_local_unicast is_link_local_multicast
check_ip p ip =
    if p.relax_local_fetch
    then ok tt
    else if disallowed (normalize_ip ip)
    then err (failure "disallowed address")
    else ok tt

unfoldable pub pre_dial_check : Policy → Url → Result (Unit {0})
unfolding check_ip
pre_dial_check p u =
    let scheme = to_lower u.scheme in
    let host = hostname u in
    if u.host == ""
    then err (failure "fetch: missing host")
    else if not (scheme == "http" || scheme == "https")
    then err (failure "fetch: unsupported scheme")
    else if scheme == "http" && not p.allow_http
    then err (failure "fetch: http disabled")
    else if host == ""
    then err (failure "fetch: missing host")
    else if p.relax_local_fetch
    then ok tt
    else elim (parse_ip host) [ none ↦ ok tt | some ip ↦ check_ip p ip ]

unfoldable pub check_url : Policy → String → Result (Unit {0})
unfolding pre_dial_check
check_url p raw = elim (parse raw) [
  | none ↦ err (failure "fetch: parse url")
  | some u ↦ pre_dial_check p u
]

abbrev pub check_each : Policy → List Ip → Result (Unit {0})
check_each p [] = ok tt
check_each p (ip ∷ ips) = bind_result (check_ip p ip) λ _. check_each p ips

abbrev check_some : Policy → List Ip → Result (Unit {0})
check_some p [] = err (failure "fetch: no addresses")
check_some p (ip ∷ ips) = check_each p (ip ∷ ips)

unfoldable pub validate_all_resolved_ips : Policy → List Ip → Result (Unit {0})
unfolding check_ip
validate_all_resolved_ips p ips = if p.relax_local_fetch then ok tt else check_some p ips

-- The normalised addresses, each once, in the order of their first occurrence.
unfoldable pub unique_ips : List Ip → List Ip → List Ip
unfolding same_ip normalize_ip
unique_ips seen [] = []
unique_ips seen (ip ∷ ips) =
    let n = normalize_ip ip in
    let rest = unique_ips (n ∷ seen) ips in
    let skipped = unique_ips seen ips in if any_where (same_ip n) seen then skipped else n ∷ rest

abbrev pub is_v4 : Ip → Bool
is_v4 (v4 _ _ _ _) = true
is_v4 (v6 _ _ _ _ _ _ _ _) = false

unfoldable pub sort_ips_prefer_ipv4 : List Ip → List Ip
unfolding unique_ips
sort_ips_prefer_ipv4 ips =
    let unique = unique_ips [] ips in
    delete_where (λ ip. not (is_v4 ip)) unique ++ delete_where is_v4 unique

-- What is dialled: an address, or under the relaxed policy the name itself.
pub data Target : Type 0 where
  address : Ip → Target
  name : String → Target

-- The resolver and the connections are the environment's: `lookup_ip_addr` gives the addresses of
-- a name, and `connects` tells which targets accept.
pub record Network : Type 0 where
  pub lookup_ip_addr : String → Option (List Ip)
  pub connects : Target → Bool

abbrev pub dial_one : Network → Target → Result Target × List Target
dial_one n t = (if n.connects t then ok t else err (failure "dial"), t ∷ [])

-- The first address that accepts, and all that were tried.
unfoldable pub dial_first : Network → List Ip → Result Target × List Target
dial_first n [] = (err (failure "fetch: could not connect"), [])
dial_first n (ip ∷ ips) =
    let (r, tried) = dial_first n ips in
    if n.connects (address ip) then (ok (address ip), address ip ∷ []) else (r, address ip ∷ tried)

abbrev pub when_ok : Result (Unit {0}) → Result Target × List Target → Result Target × List Target
when_ok (ok _) r = r
when_ok (err e) r = (err e, [])

-- The result, with every target that a connection was attempted to. The host is what
-- net.SplitHostPort gives; for an address that it refuses nothing is dialled.
unfoldable pub dial_context : Policy → Network → String → Result Target × List Target
unfolding check_ip dial_first validate_all_resolved_ips sort_ips_prefer_ipv4 unique_ips
dial_context p n host =
    if p.relax_local_fetch then dial_one n (name host) else elim (parse_ip host) [
      | some ip ↦ when_ok (check_ip p ip) (dial_one n (address ip))
      | none ↦ elim (n.lookup_ip_addr host) [
        | none ↦ (err (failure "fetch: resolve"), [])
        | some addrs ↦
            let uniq = unique_ips [] addrs in
            when_ok (validate_all_resolved_ips p uniq) (dial_first n (sort_ips_prefer_ipv4 uniq))
      ]
    ]
