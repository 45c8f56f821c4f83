-- ===== src/Store/Table.antt =====
-- INSERT ... ON CONFLICT (key) DO UPDATE on a table with a second unique column, and tables whose
-- rows differ in a column.
use activitypub_core.Common.{
  ◌≡◌, ◌≢◌, refl, sym, ◌∙◌, Bool, true, false, not, ◌&&◌, Option, none, some, List, [], ◌∷◌, ◌++◌,
  arith, All, All-append, All-delete_where, All-update_where, any_where, delete_where, update_where,
  if◌then◌else◌, Bool-cases, inl, inr,
}

-- `none` is a violation of the other unique column: a row of another key has the new value.
-- `same_key` finds the row in conflict, `same_other` the rows with the new value.
abbrev pub upsert {ℓ} :
    {A : Type ℓ} → (A → Bool) → (A → Bool) → (A → A) → A → List A → Option (List A)
upsert same_key same_other f new rows =
    if any_where (λ r. not (same_key r) && same_other r) rows
    then none
    else some (if any_where same_key rows then update_where same_key f rows else rows ++ new ∷ [])

module _ {ℓ κ} {A : Type ℓ} {K : Type κ} (key : A → K) where
  abbrev pub DistinctBy : List A → Type κ
  DistinctBy [] = Unit
  DistinctBy (x ∷ xs) = All (λ y. key x ≢ key y) xs × DistinctBy xs

  pub DistinctBy-delete_where :
      (p : A → Bool) (xs : List A) → DistinctBy xs → DistinctBy (delete_where p xs)
  DistinctBy-delete_where p [] d = tt
  DistinctBy-delete_where p (x ∷ xs) (h, d) =
      ground (arith, DistinctBy-delete_where p xs d, All-delete_where (λ y. key x ≢ key y) p xs h)

  pub DistinctBy-concat :
      (xs : List A) (new : A)
      → All (λ y. key y ≢ key new) xs
      → DistinctBy xs
      → DistinctBy (xs ++ new ∷ [])
  DistinctBy-concat [] new h d = (tt, tt)
  DistinctBy-concat (x ∷ xs) new (h, hs) (k, d) =
      (All-append (λ y. key x ≢ key y) xs (new ∷ []) k (h, tt), DistinctBy-concat xs new hs d)

  -- An update of columns other than the key.
  pub DistinctBy-update_where :
      (p : A → Bool) (f : A → A) (xs : List A)
      → ((x : A) → p x ≡ true → key (f x) ≡ key x)
      → DistinctBy xs
      → DistinctBy (update_where p f xs)
  DistinctBy-update_where p f [] e d = tt
  DistinctBy-update_where p f (x ∷ xs) e (h, d) =
      let rest = DistinctBy-update_where p f xs e d in
      let others = All-update_where (λ y. key x ≢ key y) p f xs (λ y t n q. n (q ∙ e y t)) h in
      elim (Bool-cases (p x)) [
        | inl t ↦ rw t (rw (e x t) others, rest)
        | inr t ↦ rw t (others, rest)
      ]

module _ {ℓ} {A : Type ℓ} (p : A → Bool) where
  pub update_where_none :
      (f : A → A) (xs : List A) → All (λ y. p y ≡ false) xs → update_where p f xs ≡ xs
  update_where_none f [] h = refl
  update_where_none f (x ∷ xs) (h, hs) = rw (h, update_where_none f xs hs)

  pub All-of_any_where : (xs : List A) → any_where p xs ≡ false → All (λ y. p y ≡ false) xs
  All-of_any_where [] e = tt
  All-of_any_where (x ∷ xs) e = (ground arith, All-of_any_where xs (ground arith))

All-both {ℓ κ μ ν} :
    {A : Type ℓ} (P : A → Type κ) (Q : A → Type μ) (R : A → Type ν) (xs : List A)
    → ((x : A) → P x → Q x → R x)
    → All P xs
    → All Q xs
    → All R xs
All-both P Q R [] k h g = tt
All-both P Q R (x ∷ xs) k (h, hs) (g, gs) = (k x h g, All-both P Q R xs k hs gs)

abbrev pub AtMostOne {ℓ} : {A : Type ℓ} → (A → Bool) → List A → Type 0
AtMostOne p [] = Unit
AtMostOne p (x ∷ xs) = (p x ≡ true → All (λ y. p y ≡ false) xs) × AtMostOne p xs

-- Of two rows with different values in a column, a test for one value passes at one at most.
fails_elsewhere {ℓ κ} :
    {A : Type ℓ} {K : Type κ} (key : A → K) (p : A → Bool) (k : K) (x y : A)
    → ((z : A) → p z ≡ true → key z ≡ k)
    → p x ≡ true
    → key x ≢ key y
    → p y ≡ false
fails_elsewhere key p k x y e t n = elim (Bool-cases (p y)) [
  | inl u ↦ absurd (n (e x t ∙ sym (e y u)))
  | inr u ↦ u
]

-- A test for one value of a column without repetitions passes at one row at most.
pub AtMostOne-of_DistinctBy {ℓ κ} :
    {A : Type ℓ} {K : Type κ} (key : A → K) (p : A → Bool) (k : K) (xs : List A)
    → ((x : A) → p x ≡ true → key x ≡ k)
    → DistinctBy key xs
    → AtMostOne p xs
AtMostOne-of_DistinctBy key p k [] e d = tt
AtMostOne-of_DistinctBy key p k (x ∷ xs) e (h, d) = (
  λ t.
      All-both (λ y. key x ≢ key y) (λ y. key x ≢ key y) (λ y. p y ≡ false) xs
        (λ y n _. fails_elsewhere key p k x y e t n) h h,
  AtMostOne-of_DistinctBy key p k xs e d,
)

module _ {ℓ κ} {A : Type ℓ} {K : Type κ} (key : A → K) (p : A → Bool) where
  -- An update that moves one row to a key that no other row has.
  pub DistinctBy-update_where_key :
      (f : A → A) (k : K) (xs : List A)
      → ((x : A) → key (f x) ≡ k)
      → AtMostOne p xs
      → All (λ y. p y ≡ false → key y ≢ k) xs
      → DistinctBy key xs
      → DistinctBy key (update_where p f xs)
  DistinctBy-update_where_key f k [] e one free d = tt
  DistinctBy-update_where_key f k (x ∷ xs) e (single, one) (ne, free) (h, d) =
      let rest = DistinctBy-update_where_key f k xs e one free d in
      elim (Bool-cases (p x)) [
        | inl t ↦
            rw (t, update_where_none p f xs (single t))
              (
                All-both (λ y. p y ≡ false) (λ y. p y ≡ false → key y ≢ k) (λ y. key (f x) ≢ key y)
                    xs (λ y u n q. n u (sym q ∙ e x)) (single t) free,
                d,
              )
        | inr t ↦
            rw t (All-update_where (λ y. key x ≢ key y) p f xs (λ y _ _ q. ne t (q ∙ e y)) h, rest)
      ]

  -- No row of another key has the value `k`: what `upsert` tests.
  pub free_of_test :
      (same : A → Bool) (k : K) (xs : List A)
      → ((x : A) → key x ≡ k → same x ≡ true)
      → any_where (λ r. not (p r) && same r) xs ≡ false
      → All (λ y. p y ≡ false → key y ≢ k) xs
  free_of_test same k [] c e = tt
  free_of_test same k (x ∷ xs) c e =
      (λ f q. ground (arith, c x q), free_of_test same k xs c (ground arith))
