-- ===== src/Url/Tests.antt =====
-- Runs of the model of `net/url`.
use activitypub_core.Common.{String, ◌≡◌, refl, none, some, false}
use activitypub_core.Url.{Url, parse, hostname, to_string, path_escape}
use activitypub_core.Url.Query.{encode, parse_query, set}

abbrev shown : (Url → String) → String → String
shown f s = elim (parse s) [ none ↦ "error" | some u ↦ f u ]

parse_examples :
    (shown to_string "HTTPS://u@Ex.org:8443/a%20b/c?q=1#f" ≡ "https://u@Ex.org:8443/a%20b/c?q=1")
    × (shown hostname "https://[::1]:80/x" ≡ "::1")
    × (shown (λ u. u.path) "https://h/%C3%A9" ≡ "/é")
    × (shown to_string "ht tp://x" ≡ "error")
    × (shown to_string "https://a b/" ≡ "error")
    × (shown to_string "://x" ≡ "error")
    × (shown hostname "https://u:p%20w@h/" ≡ "h")
    × (shown hostname "https://u[x@h/" ≡ "error")
    × (shown hostname "https://u%zz@h/" ≡ "error")
    × (shown to_string "https://h/a b" ≡ "https://h/a%20b")
    × (path_escape "a/é b" ≡ "a%2F%C3%A9%20b")
unfolding parse hostname to_string path_escape
parse_examples = (refl, refl, refl, refl, refl, refl, refl, refl, refl, refl, refl)

query_examples :
    (encode (set "code" "x y&z" (parse_query "state=1&a=%2F+b").0) ≡ "a=%2F+b&code=x+y%26z&state=1")
    × ((parse_query "a=%zz&b=1").1 ≡ false)
unfolding encode set parse_query
query_examples = (refl, refl)
