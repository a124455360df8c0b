-- ===== src/Delivery/Queue.antt =====
-- The tries of an e-mail are bounded, and no failed e-mail is lost.
use winmelon_card.Base.{
  ℕ, ◌+◌, ◌≤◌, ◌≡◌, inl, inr, Bool, true, false, ◌||◌, List, [], ◌∷◌, arith, leb, is_none,
  Bool-cases, ==_refl, subst, sym,
}
use winmelon_card.Base.Table.{Table, find}
use winmelon_card.Base.Result.{ok}
use winmelon_card.Schema.Store.{Store, EmailTask}
use winmelon_card.Delivery.Emails.{
  same_task, zrem, put_at, next_task, delay, postpone, retry_task, retry_tasks,
  retry_delivery_emails, due_tasks,
}

abbrev pub holds : EmailTask → Table EmailTask → Bool
holds task [] = false
holds task ((score, t) ∷ q) = same_task t task || holds task q

-- No task of the queue has had more than three tries.
abbrev pub IsBounded : Table EmailTask → Type 0
IsBounded [] = Unit
IsBounded ((score, t) ∷ q) = (t.attempt ≤ 3) × IsBounded q

zrem-IsBounded : (task : EmailTask) (q : Table EmailTask) → IsBounded q → IsBounded (zrem task q)
zrem-IsBounded task [] h = tt
zrem-IsBounded task ((score, t) ∷ q) (few, rest) = elim (Bool-cases (same_task t task)) [
  | inl e ↦ rw e (zrem-IsBounded task q rest)
  | inr e ↦ rw e (few, zrem-IsBounded task q rest)
]

put_at-IsBounded :
    (score : ℕ) (task : EmailTask) (q : Table EmailTask)
    → task.attempt ≤ 3
    → IsBounded q
    → IsBounded (put_at score task q)
put_at-IsBounded score task [] few h = (few, tt)
put_at-IsBounded score task ((s, t) ∷ q) few (less, rest) = elim (Bool-cases (leb s score)) [
  | inl e ↦ rw e (less, put_at-IsBounded score task q few rest)
  | inr e ↦ rw e (few, (less, rest))
]

postpone-IsBounded :
    (task : EmailTask) (now : ℕ) (db : Store)
    → IsBounded db.email_retry
    → IsBounded (postpone task now db).1.email_retry
unfolding postpone
postpone-IsBounded task now db h = elim (Bool-cases (leb 3 task.attempt)) [
  | inl e ↦ rw e h
  | inr e ↦ rw e (
      put_at-IsBounded (now + delay task) (next_task task) (zrem (next_task task) db.email_retry)
        (ground arith) (zrem-IsBounded (next_task task) db.email_retry h))
]

retry_task-IsBounded :
    (send : ℕ → Bool) (task : EmailTask) (now : ℕ) (db : Store)
    → IsBounded db.email_retry
    → IsBounded (retry_task send task now db).1.email_retry
unfolding retry_task
retry_task-IsBounded send task now db h =
    let rest = zrem-IsBounded task db.email_retry h in
    let taken : Store = record db { email_retry = zrem task db.email_retry } in
    elim (Bool-cases (is_none (find task.order_id db.orders))) [
      | inl e ↦ rw e rest
      | inr e ↦ elim (Bool-cases (send task.order_id)) [
        | inl f ↦ rw (e, f) rest
        | inr f ↦ rw (e, f) (postpone-IsBounded task now taken rest)
      ]
    ]

retry_task_ok :
    (send : ℕ → Bool) (task : EmailTask) (now : ℕ) (db : Store)
    → (retry_task send task now db).0 ≡ ok tt
unfolding retry_task
retry_task_ok send task now db = ground arith

retry_tasks-IsBounded :
    (send : ℕ → Bool) (tasks : List EmailTask) (now : ℕ) (db : Store)
    → IsBounded db.email_retry
    → IsBounded (retry_tasks send tasks now db).1.email_retry
unfolding retry_tasks
retry_tasks-IsBounded send [] now db h = h
retry_tasks-IsBounded send (task ∷ tasks) now db h =
    let step : retry_tasks send (task ∷ tasks) now db
        ≡ retry_tasks send tasks now (retry_task send task now db).1 =
      let good = retry_task_ok send task now db in ground arith in
    subst (λ x. IsBounded x.1.email_retry) (sym step)
      (retry_tasks-IsBounded send tasks now (retry_task send task now db).1
        (retry_task-IsBounded send task now db h))

-- The timer keeps the bound.
pub retry_delivery_emails-IsBounded :
    (send : ℕ → Bool) (now : ℕ) (db : Store)
    → IsBounded db.email_retry
    → IsBounded (retry_delivery_emails send now db).1.email_retry
unfolding retry_delivery_emails
retry_delivery_emails-IsBounded send now db h =
    retry_tasks-IsBounded send (due_tasks now db.email_retry) now db h

same_task_refl : (task : EmailTask) → same_task task task ≡ true
same_task_refl task = ground (arith, ==_refl task.order_id, ==_refl task.attempt)

holds-put_at :
    (score : ℕ) (task : EmailTask) (q : Table EmailTask) → holds task (put_at score task q) ≡ true
holds-put_at score task [] = ground (arith, same_task_refl task)
holds-put_at score task ((s, t) ∷ q) =
    ground (arith, same_task_refl task, holds-put_at score task q)

-- An e-mail that fails is tried again, or it is a dead letter after its third try.
pub retry_task-holds :
    (send : ℕ → Bool) (task : EmailTask) (now : ℕ) (db : Store)
    → is_none (find task.order_id db.orders) ≡ false
    → send task.order_id ≡ false
    → (holds (next_task task) (retry_task send task now db).1.email_retry
        || holds task (retry_task send task now db).1.email_dead)
      ≡ true
unfolding retry_task
retry_task-holds send task now db there fails =
    let again =
      holds-put_at (now + delay task) (next_task task)
        (zrem (next_task task) (zrem task db.email_retry)) in
    let dead = holds-put_at now task (zrem task db.email_dead) in
    elim (Bool-cases (leb 3 task.attempt)) [ inl e ↦ ground arith | inr e ↦ ground arith ]
