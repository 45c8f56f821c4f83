-- ===== src/Fetch/Keys.antt =====
-- Which key internal/fetch/actorpublickey.go finds in an actor document.
use activitypub_core.Common.{
  ◌≡◌, refl, sym, ◌∙◌, ap, ◌⊎◌, String, true, false, not, ◌&&◌, some, List, [], ◌∷◌, ◌==◌, eq_iff,
  Bool-cases, Option-cases, inl, inr, arith,
}
use activitypub_core.Common.Exec.{ok}
use activitypub_core.Json.{Json, as_array}
use activitypub_core.Fetch.PublicKey.{
  KeyObject, key_object, key_objects, key_ids_match, matching_pem, pem_of_list, pem_for_key_id,
}

abbrev pub IsIn : KeyObject → List KeyObject → Type 0
IsIn k [] = ⊥
IsIn k (x ∷ xs) = (k ≡ x) ⊎ IsIn k xs

-- A key of the list with this id and this text, which is not empty.
abbrev pub IsKeyOf : String → String → List KeyObject → Type 0
IsKeyOf key_id pem ks =
    (k : KeyObject) × (IsIn k ks × ((k.id ≡ key_id) × ((k.pem ≡ pem) × ((pem == "") ≡ false))))

match_eq : (doc_id key_id : String) → key_ids_match doc_id key_id ≡ true → doc_id ≡ key_id
unfolding key_ids_match
match_eq doc_id key_id t = (eq_iff doc_id key_id).0 (ground (arith, t))

matching_pem-IsKeyOf :
    (key_id pem : String) (ks : List KeyObject)
    → matching_pem key_id ks ≡ some pem
    → IsKeyOf key_id pem ks
unfolding matching_pem
matching_pem-IsKeyOf key_id pem [] e = cc
matching_pem-IsKeyOf key_id pem (x ∷ xs) e =
    elim (Bool-cases (key_ids_match x.id key_id && not (x.pem == ""))) [
      | inr t ↦
          let (k, (m, rest)) = matching_pem-IsKeyOf key_id pem xs (ground (arith, e, t)) in
          (k, (inr m, rest))
      | inl t ↦
          let same : x.pem ≡ pem = ground (arith, e, t) in
          (
            x,
            (
              inl refl,
              (
                match_eq x.id key_id (ground (arith, t)),
                (same, ap (λ z. z == "") (sym same) ∙ ground (arith, t)),
              ),
            ),
          )
    ]

-- The keys of a `publicKey` member: one object, or the objects of an array.
abbrev pub IsKeysOf : Json → List KeyObject → Type 0
IsKeysOf j ks =
    ((k : KeyObject) × ((key_object j ≡ some k) × (ks ≡ k ∷ [])))
    ⊎ ((js : List Json) × ((as_array j ≡ some js) × (key_objects js ≡ some ks)))

list_case :
    (key_id pem : String) (j : Json)
    → pem_of_list key_id j ≡ ok pem
    → (ks : List KeyObject) × (IsKeysOf j ks × IsKeyOf key_id pem ks)
unfolding pem_of_list
list_case key_id pem j e = elim (Option-cases (as_array j)) [
  | inl a ↦ absurd (ground (arith, e, a))
  | inr (js, a) ↦ elim (Option-cases (key_objects js)) [
    | inl b ↦ absurd (ground (arith, e, a, b))
    | inr (ks, b) ↦ elim (Option-cases (matching_pem key_id ks)) [
      | inl c ↦ absurd (ground (arith, e, a, b, c))
      | inr (found, c) ↦
          let same : found ≡ pem = ground (arith, e, a, b, c) in
          (ks, (inr (js, (a, b)), matching_pem-IsKeyOf key_id pem ks (c ∙ ap some same)))
    ]
  ]
]

-- The text that is found for a key id is that of a key of the document whose id is that very id,
-- and is not empty: the text of another key is never returned.
pub pem_for_key_id-IsKeyOf :
    (key_id pem : String) (j : Json)
    → pem_for_key_id key_id j ≡ ok pem
    → (ks : List KeyObject) × (IsKeysOf j ks × IsKeyOf key_id pem ks)
unfolding pem_for_key_id
pem_for_key_id-IsKeyOf key_id pem j e = elim (Option-cases (key_object j)) [
  | inl a ↦ list_case key_id pem j (ground (arith, e, a))
  | inr (k, a) ↦ elim (Bool-cases (k.pem == "")) [
    | inl blank ↦ list_case key_id pem j (ground (arith, e, a, blank))
    | inr text ↦ elim (Bool-cases (key_ids_match k.id key_id)) [
      | inr other ↦ absurd (ground (arith, e, a, text, other))
      | inl match ↦
          let same : k.pem ≡ pem = ground (arith, e, a, text, match) in
          (
            k ∷ [],
            (
              inl (k, (a, refl)),
              (
                k,
                (
                  inl refl,
                  (match_eq k.id key_id match, (same, ap (λ z. z == "") (sym same) ∙ text)),
                ),
              ),
            ),
          )
    ]
  ]
]
