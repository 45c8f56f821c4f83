-- ===== src/Fetch/Guard.antt =====
-- Which addresses internal/fetch/policy.go lets a connection go to.
use activitypub_core.Common.{
  ◌≡◌, ◌≢◌, refl, String, true, false, Bool-cases, Option-cases, inl, inr, not, none, some, List,
  [], ◌∷◌, All, All-append, All-delete_where, delete_where, any_where, arith,
}
use activitypub_core.Common.Exec.{ok, Result-cases}
use activitypub_core.Fetch.Ip.{Ip, v4, v6, parse_ip, normalize_ip, same_ip}
use activitypub_core.Fetch.Policy.{
  Policy, Target, address, name, Network, check_ip, dial_first, dial_context, unique_ips,
  sort_ips_prefer_ipv4, validate_all_resolved_ips, is_v4, check_each, when_ok, dial_one,
}

abbrev pub IsAllowed : Policy → Target → Type 0
IsAllowed p (address ip) = check_ip p ip ≡ ok tt
IsAllowed p (name host) = p.relax_local_fetch ≡ true

check_each_allowed :
    (p : Policy) (ips : List Ip) → check_each p ips ≡ ok tt → All (λ ip. check_ip p ip ≡ ok tt) ips
check_each_allowed p [] e = tt
check_each_allowed p (ip ∷ ips) e = ground (arith, check_each_allowed p ips)

each_allowed :
    (p : Policy) (ips : List Ip)
    → p.relax_local_fetch ≡ false
    → validate_all_resolved_ips p ips ≡ ok tt
    → All (λ ip. check_ip p ip ≡ ok tt) ips
unfolding validate_all_resolved_ips
each_allowed p [] r e = tt
each_allowed p (ip ∷ ips) r e = check_each_allowed p (ip ∷ ips) (ground (arith, r, e))

normalize_twice : (ip : Ip) → normalize_ip (normalize_ip ip) ≡ normalize_ip ip
unfolding normalize_ip
normalize_twice (v4 a b c d) = refl
normalize_twice (v6 a b c d e f g h) = ground arith

check_normalized : (p : Policy) (ip : Ip) → check_ip p (normalize_ip ip) ≡ check_ip p ip
unfolding check_ip
check_normalized p ip = rw (normalize_twice ip) refl

unique_allowed :
    (p : Policy) (seen ips : List Ip)
    → All (λ ip. check_ip p ip ≡ ok tt) ips
    → All (λ ip. check_ip p ip ≡ ok tt) (unique_ips seen ips)
unfolding unique_ips
unique_allowed p seen [] h = tt
unique_allowed p seen (ip ∷ ips) (h, hs) = ground (
  arith,
  check_normalized p ip,
  unique_allowed p seen ips hs,
  unique_allowed p (normalize_ip ip ∷ seen) ips hs,
)

dial_first-IsAllowed :
    (p : Policy) (n : Network) (ips : List Ip)
    → All (λ ip. check_ip p ip ≡ ok tt) ips
    → All (IsAllowed p) ((dial_first n ips).1)
unfolding dial_first
dial_first-IsAllowed p n [] h = tt
dial_first-IsAllowed p n (ip ∷ ips) (h, hs) = elim (Bool-cases (n.connects (address ip))) [
  | inl t ↦ rw t (h, tt)
  | inr t ↦ rw t (h, dial_first-IsAllowed p n ips hs)
]

sorted_allowed :
    (p : Policy) (ips : List Ip)
    → All (λ ip. check_ip p ip ≡ ok tt) ips
    → All (λ ip. check_ip p ip ≡ ok tt) (sort_ips_prefer_ipv4 ips)
unfolding sort_ips_prefer_ipv4
sorted_allowed p ips h =
    let P : Ip → Type 0 = λ ip. check_ip p ip ≡ ok tt in
    let unique = unique_allowed p [] ips h in
    All-append P (delete_where (λ ip. not (is_v4 ip)) (unique_ips [] ips))
      (delete_where is_v4 (unique_ips [] ips))
      (All-delete_where P (λ ip. not (is_v4 ip)) (unique_ips [] ips) unique)
      (All-delete_where P is_v4 (unique_ips [] ips) unique)

strict_dial-IsAllowed :
    (p : Policy) (n : Network) (addrs : List Ip)
    → p.relax_local_fetch ≡ false
    → All (IsAllowed p) (
        (when_ok (validate_all_resolved_ips p addrs) (dial_first n (sort_ips_prefer_ipv4 addrs))).1)
strict_dial-IsAllowed p n addrs r = elim (Result-cases (validate_all_resolved_ips p addrs)) [
  | inr (_, e) ↦ rw e tt
  | inl (_, e) ↦ rw e (
      dial_first-IsAllowed p n (sort_ips_prefer_ipv4 addrs)
        (sorted_allowed p addrs (each_allowed p addrs r e)))
]

literal_dial-IsAllowed :
    (p : Policy) (n : Network) (ip : Ip)
    → All (IsAllowed p) ((when_ok (check_ip p ip) (dial_one n (address ip))).1)
literal_dial-IsAllowed p n ip = elim (Result-cases (check_ip p ip)) [
  | inr (_, e) ↦ rw e tt
  | inl (_, e) ↦ rw e (e, tt)
]

dial_name :
    (p : Policy) (n : Network) (host : String) (addrs : List Ip)
    → p.relax_local_fetch ≡ false
    → parse_ip host ≡ none
    → n.lookup_ip_addr host ≡ some addrs
    → dial_context p n host
      ≡ when_ok
          (validate_all_resolved_ips p (unique_ips [] addrs))
          (dial_first n (sort_ips_prefer_ipv4 (unique_ips [] addrs)))
unfolding dial_context
dial_name p n host addrs r e f = simp (r, e, f)

dial_literal :
    (p : Policy) (n : Network) (host : String) (ip : Ip)
    → p.relax_local_fetch ≡ false
    → parse_ip host ≡ some ip
    → dial_context p n host ≡ when_ok (check_ip p ip) (dial_one n (address ip))
unfolding dial_context
dial_literal p n host ip r e = simp (r, e)

-- Whatever the policy, the network and the host, every target that `dial_context` attempts a
-- connection to is allowed: an address that passes `check_ip`, or, under the relaxed policy only,
-- the name itself.
pub dial_context-IsAllowed :
    (p : Policy) (n : Network) (host : String) → All (IsAllowed p) ((dial_context p n host).1)
unfolding dial_context
dial_context-IsAllowed p n host = elim (Bool-cases p.relax_local_fetch) [
  | inl t ↦ simp t (refl, tt)
  | inr r ↦ elim (Option-cases (parse_ip host)) [
    | inr (ip, e) ↦ rw (dial_literal p n host ip r e) (literal_dial-IsAllowed p n ip)
    | inl e ↦ elim (Option-cases (n.lookup_ip_addr host)) [
      | inl f ↦ simp (r, e, f) tt
      | inr (addrs, f) ↦
          rw (dial_name p n host addrs r e f) (strict_dial-IsAllowed p n (unique_ips [] addrs) r)
    ]
  ]
]

same_ip_eq : (a b : Ip) → same_ip a b ≡ true → a ≡ b
unfolding same_ip
same_ip_eq (v4 a b c d) (v4 a' b' c' d') e = ground arith
same_ip_eq (v6 a b c d e f g h) (v6 a' b' c' d' e' f' g' h') t = ground arith
same_ip_eq (v4 a b c d) (v6 a' b' c' d' e' f' g' h') t = cc
same_ip_eq (v6 a b c d e f g h) (v4 a' b' c' d') t = cc

seen_allowed :
    (p : Policy) (ip : Ip) (seen : List Ip)
    → All (λ i. check_ip p i ≡ ok tt) seen
    → any_where (same_ip ip) seen ≡ true
    → check_ip p ip ≡ ok tt
seen_allowed p ip [] h e = cc
seen_allowed p ip (x ∷ xs) (h, hs) e = ground (arith, seen_allowed p ip xs hs, same_ip_eq ip x)

All-seen_allowed :
    (p : Policy) (seen ips : List Ip)
    → All (λ ip. check_ip p ip ≡ ok tt) seen
    → All (λ ip. check_ip p ip ≡ ok tt) (unique_ips seen ips)
    → All (λ ip. check_ip p ip ≡ ok tt) ips
unfolding unique_ips
All-seen_allowed p seen [] hs h = tt
All-seen_allowed p seen (ip ∷ ips) hs h = ground (
  arith,
  seen_allowed p (normalize_ip ip) seen hs,
  check_normalized p ip,
  All-seen_allowed p seen ips hs,
  All-seen_allowed p (normalize_ip ip ∷ seen) ips,
)

-- Under a policy that is not relaxed, a connection to a host name is attempted only if every
-- address that the name resolves to passes `check_ip`: one address that does not blocks them all.
pub dial_context-resolved :
    (p : Policy) (n : Network) (host : String) (addrs : List Ip)
    → p.relax_local_fetch ≡ false
    → parse_ip host ≡ none
    → n.lookup_ip_addr host ≡ some addrs
    → (dial_context p n host).1 ≢ []
    → All (λ ip. check_ip p ip ≡ ok tt) addrs
dial_context-resolved p n host addrs r e f tried =
    elim (Result-cases (validate_all_resolved_ips p (unique_ips [] addrs))) [
      | inr (_, v) ↦ absurd (tried (rw (dial_name p n host addrs r e f, v) refl))
      | inl (_, v) ↦ All-seen_allowed p [] addrs tt (each_allowed p (unique_ips [] addrs) r v)
    ]
