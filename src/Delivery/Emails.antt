-- ===== src/Delivery/Emails.antt =====
-- apps/api/src/modules/delivery/delivery.service.ts, `retryDeliveryEmails`: the e-mails with cards
-- that could not be sent wait in a Redis sorted set under the time of their next try, three tries at
-- most, and then go to a set of dead letters. Whether the mail server takes the e-mail of an order
-- is an argument. Of tasks with the same time the earlier added one comes first.
use winmelon_card.Base.{
  ℕ, ◌+◌, ◌*◌, Bool, ◌&&◌, List, [], ◌∷◌, leb, ◌==◌, if◌then◌else◌, is_none, take,
}
use winmelon_card.Base.Table.{Table, find, find_many}
use winmelon_card.Schema.Store.{EmailTask}
use winmelon_card.Schema.Action.{Action, ⊤, pure, gets, modify, ◌>>=◌, ◌>>◌}

abbrev pub same_task : EmailTask → EmailTask → Bool
same_task a b = a.order_id == b.order_id && a.attempt == b.attempt

-- `zrem`
abbrev pub zrem : EmailTask → Table EmailTask → Table EmailTask
zrem task [] = []
zrem task ((score, t) ∷ q) = if same_task t task then zrem task q else (score, t) ∷ zrem task q

abbrev pub put_at : ℕ → EmailTask → Table EmailTask → Table EmailTask
put_at score task [] = (score, task) ∷ []
put_at score task ((s, t) ∷ q) =
    if leb s score then (s, t) ∷ put_at score task q else (score, task) ∷ (s, t) ∷ q

-- `zadd`: a member that is there moves to its new score.
abbrev pub zadd : ℕ → EmailTask → Table EmailTask → Table EmailTask
zadd score task q = put_at score task (zrem task q)

abbrev pub tasks_of : Table EmailTask → List EmailTask
tasks_of [] = []
tasks_of ((score, t) ∷ q) = t ∷ tasks_of q

-- `zrangebyscore(key, 0, now, 'LIMIT', 0, 10)`
abbrev pub due_tasks : ℕ → Table EmailTask → List EmailTask
due_tasks now q = take 10 (tasks_of (find_many (λ score t. leb score now) q))

abbrev pub next_task : EmailTask → EmailTask
next_task task = record { order_id = task.order_id; attempt = task.attempt + 1 }

abbrev pub delay : EmailTask → ℕ
delay task = if task.attempt == 1 then 5 * 60000 else 30 * 60000

-- The handler of a failure.
unfoldable pub postpone : EmailTask → ℕ → Action ⊤
postpone task now =
    if leb 3 task.attempt
    then modify (λ db. record db { email_dead = zadd now task db.email_dead })
    else modify
        (λ db. record db { email_retry = zadd (now + delay task) (next_task task) db.email_retry })

-- One task: it leaves the set first.
unfoldable pub retry_task : (ℕ → Bool) → EmailTask → ℕ → Action ⊤
unfolding postpone
retry_task send task now = do
  modify (λ db. record db { email_retry = zrem task db.email_retry })
  missing ← gets (λ db. is_none (find task.order_id db.orders))
  if missing then pure tt else if send task.order_id then pure tt else postpone task now

unfoldable pub retry_tasks : (ℕ → Bool) → List EmailTask → ℕ → Action ⊤
unfolding retry_task
retry_tasks send [] now = pure tt
retry_tasks send (task ∷ tasks) now = do retry_task send task now; retry_tasks send tasks now

-- The timer, every minute.
unfoldable pub retry_delivery_emails : (ℕ → Bool) → ℕ → Action ⊤
unfolding retry_tasks
retry_delivery_emails send now = do
  tasks ← gets (λ db. due_tasks now db.email_retry)
  retry_tasks send tasks now
