-- ===== src/Queue/Order.antt =====
-- Which job queue/sqlqueue/sqlqueue.go hands out, and that it hands it out once.
use activitypub_core.Common.{
  ℕ, ◌≡◌, refl, sym, ◌⊎◌, true, false, none, some, List, [], ◌∷◌, Bool-cases, Option-cases, inl,
  inr, nat_eq, leb, ◌≤◌, ◌<◌, All, update_where, delete_where, arith,
}
use mathlib.Core.Path.{subst}
use mathlib.Core.List.{Memᴰ}
use activitypub_core.Common.Exec.{ok}
use activitypub_core.Store.{JobStatus, JobRow, pending, finished, failed, processing, Db, All-mono}
use activitypub_core.Queue.{Lease, is_due, before, next_due, dequeue, has_id, set_status}

before_refl : (a : JobRow) → before a a ≡ true
before_refl a = ground arith

before_trans : (a b c : JobRow) → before a b ≡ true → before b c ≡ true → before a c ≡ true
before_trans a b c p q = ground arith

before_total : (a b : JobRow) → before a b ≡ false → before b a ≡ true
before_total a b p = ground arith

-- Due, and no later than any other that is due, by the tests of the program.
abbrev IsNext : ℕ → JobRow → List JobRow → Type 0
IsNext now r rows = (is_due now r ≡ true) × All (λ x. is_due now x ≡ true → before r x ≡ true) rows

none_due :
    (now : ℕ) (rows : List JobRow) → next_due now rows ≡ none → All (λ x. is_due now x ≡ false) rows
unfolding next_due
none_due now [] e = tt
none_due now (x ∷ xs) e = ground (arith, e, none_due now xs)

-- What is handed out is the first row, which is then due, or what the others alone would give.
pub next_due-cases :
    (now : ℕ) (x : JobRow) (xs : List JobRow) (r : JobRow)
    → next_due now (x ∷ xs) ≡ some r
    → ((x ≡ r) × (is_due now x ≡ true)) ⊎ (next_due now xs ≡ some r)
unfolding next_due
next_due-cases now x xs r e = elim (Bool-cases (is_due now x)) [
  | inr t ↦ inr (ground (arith, e, t))
  | inl t ↦ elim (Option-cases (next_due now xs)) [
    | inl f ↦ inl (ground (arith, e, t, f), t)
    | inr (b, f) ↦ elim (Bool-cases (before x b)) [
      | inl first ↦ inl (ground (arith, e, t, f, first), t)
      | inr later ↦ inr (ground (arith, e, t, f, later))
    ]
  ]
]

next_due-Memᴰ :
    (now : ℕ) (rows : List JobRow) (r : JobRow) → next_due now rows ≡ some r → Memᴰ r rows
unfolding next_due
next_due-Memᴰ now [] r e = absurd (ground (arith, e))
next_due-Memᴰ now (x ∷ xs) r e = elim (next_due-cases now x xs r e) [
  | inl (same, _) ↦ Memᴰ.head (sym same)
  | inr rest ↦ Memᴰ.tail (next_due-Memᴰ now xs r rest)
]

next_due-IsNext :
    (now : ℕ) (rows : List JobRow) (r : JobRow) → next_due now rows ≡ some r → IsNext now r rows
unfolding next_due
next_due-IsNext now [] r e = cc
next_due-IsNext now (x ∷ xs) r e = elim (Bool-cases (is_due now x)) [
  | inr t ↦
      let (due, rest) = next_due-IsNext now xs r (ground (arith, e, t)) in
      (due, (λ u. ground (arith, t, u), rest))
  | inl t ↦ elim (Option-cases (next_due now xs)) [
    | inl f ↦
        let only : x ≡ r = ground (arith, e, t, f) in
        subst (λ z. IsNext now z (x ∷ xs)) only
          (
            t,
            (
              λ _. before_refl x,
              All-mono (λ y. is_due now y ≡ false) (λ y. is_due now y ≡ true → before x y ≡ true) xs
                  (λ y g u. ground (arith, g, u)) (none_due now xs f),
            ),
          )
    | inr (b, f) ↦
        let (due, rest) = next_due-IsNext now xs b f in
        elim (Bool-cases (before x b)) [
          | inl first ↦
              let same : x ≡ r = ground (arith, e, t, f, first) in
              subst (λ z. IsNext now z (x ∷ xs)) same
                (
                  t,
                  (
                    λ _. before_refl x,
                    All-mono (λ y. is_due now y ≡ true → before b y ≡ true)
                        (λ y. is_due now y ≡ true → before x y ≡ true) xs
                        (λ y g u. before_trans x b y first (g u)) rest,
                  ),
                )
          | inr later ↦
              let same : b ≡ r = ground (arith, e, t, f, later) in
              subst (λ z. IsNext now z (x ∷ xs)) same (due, (λ _. before_total x b later, rest))
        ]
  ]
]

-- Rows with other ids stay.
unmarked :
    (id : ℕ) (rows : List JobRow)
    → delete_where (λ x. nat_eq x.id id) (update_where (has_id id) (set_status processing) rows)
      ≡ delete_where (λ x. nat_eq x.id id) rows
unmarked id [] = refl
unmarked id (x ∷ xs) =
    let ih = unmarked id xs in
    elim (Bool-cases (nat_eq x.id id)) [ inl t ↦ rw (t, t) ih | inr t ↦ rw (t, t, ih) refl ]

-- The rows with the id are marked.
marked :
    (id : ℕ) (rows : List JobRow)
    → All
        (λ x. nat_eq x.id id ≡ true → x.status ≡ processing)
        (update_where (has_id id) (set_status processing) rows)
marked id [] = tt
marked id (x ∷ xs) = elim (Bool-cases (nat_eq x.id id)) [
  | inl t ↦ rw t (λ _. refl, marked id xs)
  | inr t ↦ rw t (λ u. absurd (ground (arith, t, u)), marked id xs)
]

-- Pending, and not to be run later than now.
abbrev pub IsDue : ℕ → JobRow → Type 0
IsDue now r = (r.status ≡ pending) × (r.run_after ≤ now)

-- Earlier in `run_after`, or not later in `id` at the same time.
abbrev pub IsBefore : JobRow → JobRow → Type 0
IsBefore r x = (r.run_after < x.run_after) ⊎ ((r.run_after ≡ x.run_after) × (r.id ≤ x.id))

-- Due, and before every row that is due.
abbrev pub IsFirstDue : ℕ → JobRow → List JobRow → Type 0
IsFirstDue now r rows = IsDue now r × All (λ x. IsDue now x → IsBefore r x) rows

due_status :
    (status : JobStatus) (n now : ℕ)
    → (elim status [ pending ↦ leb n now | _ ↦ false ]) ≡ true
    → (status ≡ pending) × (n ≤ now)
due_status pending n now e = (refl, ground (arith, e))
due_status processing n now e = absurd (ground (arith, e))
due_status finished n now e = absurd (ground (arith, e))
due_status failed n now e = absurd (ground (arith, e))

is_due-IsDue : (now : ℕ) (x : JobRow) → IsDue now x → is_due now x ≡ true
is_due-IsDue now x (waits, early) = rw waits (ground (arith, early))

before-IsBefore : (r x : JobRow) → before r x ≡ true → IsBefore r x
before-IsBefore r x e = ground (arith, e)

IsNext-IsFirstDue :
    (now : ℕ) (r : JobRow) (rows : List JobRow) → IsNext now r rows → IsFirstDue now r rows
IsNext-IsFirstDue now r rows (due, first) = (
  due_status r.status r.run_after now due,
  All-mono (λ x. is_due now x ≡ true → before r x ≡ true) (λ x. IsDue now x → IsBefore r x) rows
      (λ x k h. before-IsBefore r x (k (is_due-IsDue now x h))) first,
)

-- The lease says what the row says.
abbrev pub IsLeaseFor : JobRow → Lease → Type 0
IsLeaseFor r lease =
    (lease.id ≡ r.id)
    × (lease.job_type ≡ r.job_type)
    × (lease.payload ≡ r.payload)
    × (lease.attempts ≡ r.attempts)

-- A lease is for a row of the table, the first of those that are due in the order of `run_after` and
-- `id`, and says the row's id, type, payload and attempts. Afterwards every row with
-- that id is processing, and the rows with other ids are those of before.
pub dequeue-IsNext :
    (now : ℕ) (s t : Db) (lease : Lease)
    → dequeue now s ≡ (ok (some lease), t)
    → ((r : JobRow) × (Memᴰ r s.jobs × (IsLeaseFor r lease × IsFirstDue now r s.jobs)))
      × All (λ x. nat_eq x.id lease.id ≡ true → x.status ≡ processing) t.jobs
      × (delete_where (λ x. nat_eq x.id lease.id) t.jobs
          ≡ delete_where (λ x. nat_eq x.id lease.id) s.jobs)
unfolding dequeue
dequeue-IsNext now s t lease e = elim (Option-cases (next_due now s.jobs)) [
  | inl h ↦ absurd (ground (arith, e, h))
  | inr (r, h) ↦
      let says : IsLeaseFor r lease = ground (arith, e, h) in
      let (same, _, _, _) = says in
      let jobs : t.jobs ≡ update_where (has_id lease.id) (set_status processing) s.jobs =
        rw same (ground (arith, e, h)) in
      (
        (
          r,
          (
            next_due-Memᴰ now s.jobs r h,
            (says, IsNext-IsFirstDue now r s.jobs (next_due-IsNext now s.jobs r h)),
          ),
        ),
        rw jobs (marked lease.id s.jobs),
        rw jobs (unmarked lease.id s.jobs),
      )
]
