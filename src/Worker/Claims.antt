-- ===== src/Worker/Claims.antt =====
-- The rows of queue/sqlqueue/sqlqueue.go that a lease is for.
use activitypub_core.Common.{
  ℕ, ◌+◌, ◌≤◌, ◌≡◌, refl, sym, Bool, true, false, some, List, [], ◌∷◌, Bool-cases, Option-cases,
  inl, inr, nat_eq, All, All-update_where, update_where, if◌then◌else◌, arith,
}
use mathlib.Core.Path.{subst}
use activitypub_core.Common.Exec.{ok}
use activitypub_core.Store.{JobRow, processing, Db, All-mono}
use activitypub_core.Queue.{Lease, has_id, next_due, dequeue, set_status}
use activitypub_core.Queue.Order.{next_due-cases}
use activitypub_core.Worker.Budget.{is_waiting}

-- No two rows have one id, the primary key.
abbrev pub HasUniqueIds : List JobRow → Type 0
HasUniqueIds [] = Unit
HasUniqueIds (x ∷ xs) = All (λ y. nat_eq y.id x.id ≡ false) xs × HasUniqueIds xs

abbrev pub rows_with : ℕ → List JobRow → ℕ
rows_with id [] = 0
rows_with id (x ∷ xs) = (if has_id id x then 1 else 0) + rows_with id xs

next_due-All :
    (P : JobRow → Type 0) (now : ℕ) (rows : List JobRow) (r : JobRow)
    → next_due now rows ≡ some r
    → All P rows
    → P r
unfolding next_due
next_due-All P now [] r e h = absurd (ground (arith, e))
next_due-All P now (x ∷ xs) r e (h, hs) = elim (next_due-cases now x xs r e) [
  | inl (same, _) ↦ subst P same h
  | inr f ↦ next_due-All P now xs r f hs
]

-- The row that is handed out is in the table.
rows_with-next_due :
    (now : ℕ) (rows : List JobRow) (r : JobRow)
    → next_due now rows ≡ some r
    → 1 ≤ rows_with r.id rows
unfolding next_due
rows_with-next_due now [] r e = absurd (ground (arith, e))
rows_with-next_due now (x ∷ xs) r e = elim (next_due-cases now x xs r e) [
  | inl (same, _) ↦ subst (λ z. 1 ≤ rows_with z.id (x ∷ xs)) same (ground arith)
  | inr f ↦ let ih = rows_with-next_due now xs r f in omega arith
]

-- What the rows of a lease have.
abbrev pub IsWaitingAt : ℕ → ℕ → JobRow → Type 0
IsWaitingAt id attempts x = nat_eq x.id id ≡ true → (is_waiting x ≡ true) × (x.attempts ≡ attempts)

next_due-IsWaitingAt :
    (now : ℕ) (rows : List JobRow) (r : JobRow)
    → next_due now rows ≡ some r
    → HasUniqueIds rows
    → All (IsWaitingAt r.id r.attempts) rows
next_due-IsWaitingAt now [] r e u = tt
next_due-IsWaitingAt now (x ∷ xs) r e (u, us) = elim (next_due-cases now x xs r e) [
  | inl (same, t) ↦
      subst (λ z. All (IsWaitingAt z.id z.attempts) (x ∷ xs)) same
        (
          λ _. (ground (arith, t), refl),
          All-mono (λ y. nat_eq y.id x.id ≡ false) (IsWaitingAt x.id x.attempts) xs
              (λ y f g. absurd (ground (arith, f, g))) u,
        )
  | inr f ↦
      let other : nat_eq r.id x.id ≡ false =
        next_due-All (λ y. nat_eq y.id x.id ≡ false) now xs r f u in
      (λ g. absurd (ground (arith, other, g)), next_due-IsWaitingAt now xs r f us)
]

-- The table as `dequeue` leaves it.
abbrev pub claimed_jobs : ℕ → List JobRow → List JobRow
claimed_jobs id rows = update_where (has_id id) (set_status processing) rows

dequeue-jobs :
    (now : ℕ) (s t : Db) (lease : Lease)
    → dequeue now s ≡ (ok (some lease), t)
    → (r : JobRow) × ((next_due now s.jobs ≡ some r)
        × ((r.id ≡ lease.id)
            × ((r.attempts ≡ lease.attempts) × (t.jobs ≡ claimed_jobs r.id s.jobs))))
unfolding dequeue
dequeue-jobs now s t lease e = elim (Option-cases (next_due now s.jobs)) [
  | inl h ↦ absurd (ground (arith, e, h))
  | inr (r, h) ↦ (r, (h, (ground (arith, e, h), (ground (arith, e, h), ground (arith, e, h)))))
]

-- What a lease tells of the table that it was taken from.
pub dequeue-IsWaitingAt :
    (now : ℕ) (s t : Db) (lease : Lease)
    → dequeue now s ≡ (ok (some lease), t)
    → HasUniqueIds s.jobs
    → All (IsWaitingAt lease.id lease.attempts) s.jobs
      × ((1 ≤ rows_with lease.id s.jobs) × (t.jobs ≡ claimed_jobs lease.id s.jobs))
dequeue-IsWaitingAt now s t lease e u =
    let (r, (h, (same_id, (same_attempts, jobs)))) = dequeue-jobs now s t lease e in
    (
      subst (λ a. All (IsWaitingAt lease.id a) s.jobs) same_attempts
          (subst (λ i. All (IsWaitingAt i r.attempts) s.jobs) same_id
            (next_due-IsWaitingAt now s.jobs r h u)),
      (
        subst (λ i. 1 ≤ rows_with i s.jobs) same_id (rows_with-next_due now s.jobs r h),
        subst (λ i. t.jobs ≡ claimed_jobs i s.jobs) same_id jobs,
      ),
    )

pub HasUniqueIds-update_where :
    (p : JobRow → Bool) (f : JobRow → JobRow) (rows : List JobRow)
    → ((x : JobRow) → (f x).id ≡ x.id)
    → HasUniqueIds rows
    → HasUniqueIds (update_where p f rows)
HasUniqueIds-update_where p f [] k u = tt
HasUniqueIds-update_where p f (x ∷ xs) k (u, us) =
    let others : (i : ℕ) → i ≡ x.id → All (λ y. nat_eq y.id i ≡ false) (update_where p f xs) =
      λ i same.
        All-update_where (λ y. nat_eq y.id i ≡ false) p f xs (λ y _ h. rw (k y) h)
          (subst (λ j. All (λ y. nat_eq y.id j ≡ false) xs) (sym same) u) in
    let rest = HasUniqueIds-update_where p f xs k us in
    elim (Bool-cases (p x)) [
      | inl t ↦ rw t (others (f x).id (k x), rest)
      | inr t ↦ rw t (others x.id refl, rest)
    ]
