-- ===== src/Store/Upsert.antt =====
-- What an upsert does to a table: which rows can be found afterwards, and that both unique columns
-- stay without repetitions.
use mathlib.Core.Option
use activitypub_core.Common.{
  ◌≡◌, ◌≢◌, refl, ◌↔◌, ◌⊎◌, Bool, true, false, not, ◌&&◌, some, List, [], ◌∷◌, ◌++◌, arith, All,
  any_where, find_where, update_where, Bool-cases, inl, inr,
}
use activitypub_core.Store.Table.{
  upsert, DistinctBy, DistinctBy-concat, DistinctBy-update_where, All-of_any_where, AtMostOne,
  AtMostOne-of_DistinctBy, DistinctBy-update_where_key, free_of_test,
}

-- How the tests and the update of an upsert relate to the two columns.
pub record IsUpsert {ℓ} {A K L : Type ℓ} (key : A → K) (other : A → L) (same_key : A → Bool)
    (same_other : A → Bool) (f : A → A) (new : A) : Type ℓ where
  pub key_iff : (x : A) → (same_key x ≡ true) ↔ (key x ≡ key new)
  pub other_iff : (x : A) → (same_other x ≡ true) ↔ (other x ≡ other new)
  pub keeps_key : (x : A) → key (f x) ≡ key x
  pub sets_other : (x : A) → other (f x) ≡ other new

module _ {ℓ} {A K L : Type ℓ} (key : A → K) (other : A → L) where
  pub record IsUnique (rows : List A) : Type ℓ where
    pub by_key : DistinctBy key rows
    pub by_other : DistinctBy other rows

pub All-mono {ℓ κ μ} :
    {A : Type ℓ} (P : A → Type κ) (Q : A → Type μ) (xs : List A)
    → ((x : A) → P x → Q x)
    → All P xs
    → All Q xs
All-mono P Q [] k h = tt
All-mono P Q (x ∷ xs) k (h, hs) = (k x h, All-mono P Q xs k hs)

module _ {ℓ} {A K L : Type ℓ} (key : A → K) (other : A → L) (same_key : A → Bool)
    (same_other : A → Bool) (f : A → A) (new : A)
    (laws : IsUpsert key other same_key same_other f new) where
  no_key : (x : A) → same_key x ≡ false → key x ≢ key new
  no_key x e q = ground (arith, (laws.key_iff x).1 q)

  insert_free :
      (rows : List A)
      → any_where same_key rows ≡ false
      → any_where (λ r. not (same_key r) && same_other r) rows ≡ false
      → All (λ y. other y ≢ other new) rows
  insert_free [] e t = tt
  insert_free (x ∷ xs) e t =
      (λ q. ground (arith, (laws.other_iff x).1 q), insert_free xs (ground arith) (ground arith))

  -- An upsert that is no violation keeps both columns without repetitions.
  pub upsert-IsUnique :
      (rows after : List A)
      → IsUnique key other rows
      → upsert same_key same_other f new rows ≡ some after
      → IsUnique key other after
  upsert-IsUnique rows after u e =
      elim (Bool-cases (any_where (λ r. not (same_key r) && same_other r) rows)) [
        | inl t ↦ absurd (ground (arith, e, t))
        | inr t ↦ elim (Bool-cases (any_where same_key rows)) [
          | inl found ↦
              let eq : update_where same_key f rows ≡ after = ground (arith, e, t, found) in
              rw (← eq) (record {
                by_key =
                    DistinctBy-update_where key same_key f rows (λ x _. laws.keeps_key x) u.by_key;
                by_other =
                    DistinctBy-update_where_key other same_key f (other new) rows laws.sets_other
                      (AtMostOne-of_DistinctBy key same_key (key new) rows (λ x. (laws.key_iff x).0)
                        u.by_key)
                      (free_of_test other same_key same_other (other new) rows
                        (λ x. (laws.other_iff x).1) t)
                      u.by_other;
              })
          | inr absent ↦
              let eq : rows ++ new ∷ [] ≡ after = ground (arith, e, t, absent) in
              rw (← eq) (record {
                by_key =
                    DistinctBy-concat key rows new
                      (All-mono (λ y. same_key y ≡ false) (λ y. key y ≢ key new) rows no_key
                        (All-of_any_where same_key rows absent))
                      u.by_key;
                by_other = DistinctBy-concat other rows new (insert_free rows absent t) u.by_other;
              })
        ]
      ]

module _ {ℓ} {A : Type ℓ} (p : A → Bool) where
  pub find_where-append :
      (xs : List A) (new : A)
      → any_where p xs ≡ false
      → p new ≡ true
      → find_where p (xs ++ new ∷ []) ≡ some new
  find_where-append [] new e t = ground arith
  find_where-append (x ∷ xs) new e t = ground (arith, find_where-append xs new)

  pub find_where-update_where :
      (f : A → A) (xs : List A)
      → ((x : A) → p x ≡ true → p (f x) ≡ true)
      → find_where p (update_where p f xs) ≡ Option.map f (find_where p xs)
  find_where-update_where f [] k = refl
  find_where-update_where f (x ∷ xs) k = ground (arith, k x, find_where-update_where f xs k)

  pub find_where_of_any :
      (xs : List A) → any_where p xs ≡ true → (r : A) × (find_where p xs ≡ some r)
  find_where_of_any [] e = cc
  find_where_of_any (x ∷ xs) e = elim (Bool-cases (p x)) [
    | inl t ↦ (x, rw t refl)
    | inr t ↦ let (r, found) = find_where_of_any xs (ground arith) in (r, rw t found)
  ]

-- A test that fails wherever the other passes, and that the update does not change.
module _ {ℓ} {A : Type ℓ} (p q : A → Bool) where
  pub find_where-append_other :
      (xs : List A) (new : A) → q new ≡ false → find_where q (xs ++ new ∷ []) ≡ find_where q xs
  find_where-append_other [] new e = rw e
  find_where-append_other (x ∷ xs) new e = rw (find_where-append_other xs new e)

  pub find_where-update_where_other :
      (f : A → A) (xs : List A)
      → ((x : A) → p x ≡ true → (q x ≡ false) × (q (f x) ≡ false))
      → find_where q (update_where p f xs) ≡ find_where q xs
  find_where-update_where_other f [] k = refl
  find_where-update_where_other f (x ∷ xs) k =
      ground (arith, k x, find_where-update_where_other f xs k)

module _ {ℓ} {A : Type ℓ} (p other : A → Bool) (f : A → A) (new : A) (rows after : List A) where
  -- The two ways in which an upsert is no violation.
  pub upsert-cases :
      upsert p other f new rows ≡ some after
      → ((any_where p rows ≡ true) × (after ≡ update_where p f rows))
        ⊎ ((any_where p rows ≡ false) × (after ≡ rows ++ new ∷ []))
  upsert-cases e = elim (Bool-cases (any_where (λ r. not (p r) && other r) rows)) [
    | inl t ↦ absurd (ground (arith, e, t))
    | inr t ↦ elim (Bool-cases (any_where p rows)) [
      | inl found ↦ inl (found, ground (arith, e, t, found))
      | inr absent ↦ inr (absent, ground (arith, e, t, absent))
    ]
  ]

  -- The row that an upsert has written is the new one or the update of the first of its key.
  pub find_where-upsert :
      upsert p other f new rows ≡ some after
      → ((x : A) → p x ≡ true → p (f x) ≡ true)
      → p new ≡ true
      → (find_where p after ≡ some new)
        ⊎ ((r : A) × ((find_where p rows ≡ some r) × (find_where p after ≡ some (f r))))
  find_where-upsert e keeps t = elim (upsert-cases e) [
    | inr (absent, q) ↦ inl (rw q (find_where-append p rows new absent t))
    | inl (found, q) ↦
        let (r, h) = find_where_of_any p rows found in
        inr (r, (h, rw (q, find_where-update_where p f rows keeps, h) refl))
  ]

  pub find_where-upsert_other :
      (q : A → Bool)
      → upsert p other f new rows ≡ some after
      → q new ≡ false
      → ((x : A) → p x ≡ true → (q x ≡ false) × (q (f x) ≡ false))
      → find_where q after ≡ find_where q rows
  find_where-upsert_other q e t k = elim (upsert-cases e) [
    | inr (_, h) ↦ rw h (find_where-append_other p q rows new t)
    | inl (_, h) ↦ rw h (find_where-update_where_other p q f rows k)
  ]

-- The row that is found is the only one at which the test passes.
pub find_where-AtMostOne {ℓ} :
    {A : Type ℓ} (p : A → Bool) (rows : List A) (found : A)
    → AtMostOne p rows
    → find_where p rows ≡ some found
    → All (λ x. p x ≡ true → x ≡ found) rows
find_where-AtMostOne p [] found one e = tt
find_where-AtMostOne p (x ∷ xs) found (single, one) e = elim (Bool-cases (p x)) [
  | inl t ↦ (
    λ _. ground (arith, e, t),
    All-mono (λ y. p y ≡ false) (λ y. p y ≡ true → y ≡ found) xs (λ y f u. ground (arith, f, u))
        (single t),
  )
  | inr t ↦ (λ u. ground (arith, t, u), find_where-AtMostOne p xs found one (ground (arith, e, t)))
]
