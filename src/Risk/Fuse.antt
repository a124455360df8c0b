-- ===== src/Risk/Fuse.antt =====
-- The fuse of the risk control: what too many orders from one IP address lead to.
use winmelon_card.Base.{
  ℕ, ◌+◌, ◌*◌, ◌≡◌, ◌<◌, sym, ap, ◌∙◌, inl, inr, Bool, true, false, ◌&&◌, Option, some, List, [],
  ◌∷◌, arith, ltb, leb, ◌==◌, if◌then◌else◌, Bool-cases, Option-cases, ==_refl, ==_iff, lt→ltb,
}
use winmelon_card.Base.Table.{Table, find, delete_many, find-adjust_self, find-adjust_ne}
use winmelon_card.Base.Result.{err, forbidden, ip_pending, ip_blocked}
use winmelon_card.Schema.{Blocked}
use winmelon_card.Schema.Store.{Store}
use winmelon_card.Schema.Action.{⊤}
use winmelon_card.Risk.{
  check_order, record_pending, add_ip_blacklist, clean_expired, is_blocked, is_stale, block,
  hours_until, ip_pending_threshold, ip_count, auto_block_minutes,
}

find-block :
    (address minutes now : ℕ) (t : Table Blocked)
    → find address (block address minutes now t)
      ≡ some (record { expires_at = some (now + minutes * 60000) })
find-block address minutes now t = elim (Option-cases (find address t)) [
  | inl e ↦ ground (arith, ==_refl address)
  | inr (b, e) ↦ ground (
    arith,
    find-adjust_self address (λ x. record { expires_at = some (now + minutes * 60000) }) t b,
  )
]

find-block_other :
    (ip other minutes now : ℕ) (t : Table Blocked)
    → (ip == other) ≡ false
    → find ip (block other minutes now t) ≡ find ip t
find-block_other ip other minutes now t apart = elim (Option-cases (find other t)) [
  | inl e ↦ ground (arith, ==_iff ip other, ==_iff other ip)
  | inr (b, e) ↦
      let same =
        find-adjust_ne ip other (λ x. record { expires_at = some (now + minutes * 60000) }) t in
      ground (arith, ==_iff ip other)
]

find-delete_many-stale :
    (ip now : ℕ) (t : Table Blocked) (b : Blocked)
    → find ip t ≡ some b
    → is_stale now b ≡ false
    → find ip (delete_many (λ k v. is_stale now v) t) ≡ some b
find-delete_many-stale ip now [] b h fresh = cc
find-delete_many-stale ip now ((j, v) ∷ t) b h fresh = elim (Bool-cases (is_stale now v)) [
  | inl e ↦ ground (arith, find-delete_many-stale ip now t b)
  | inr e ↦ ground (arith, find-delete_many-stale ip now t b)
]

-- The calls of the risk control.
pub data Call : Type 0 where
  checks : (ip email now : ℕ) → Call
  records : (ip email now : ℕ) → Call
  lists_ip : (ip : ℕ) → Option ℕ → (now : ℕ) → Call
  cleans : (now : ℕ) → Call

unfoldable pub perform : Call → Store → Store
unfolding check_order record_pending add_ip_blacklist clean_expired
perform (checks ip email now) db = (check_order ip email now db).1
perform (records ip email now) db = (record_pending ip email now db).1
perform (lists_ip ip hours now) db = (add_ip_blacklist ip hours now db).1
perform (cleans now) db = (clean_expired now db).1

unfoldable pub perform_all : List Call → Store → Store
unfolding perform
perform_all [] db = db
perform_all (c ∷ cs) db = perform_all cs (perform c db)

-- Before `end`, and not an entry for `ip` by hand.
abbrev pub is_early : ℕ → ℕ → Call → Bool
is_early ip end (checks a email now) = ltb now end
is_early ip end (records a email now) = ltb now end
is_early ip end (lists_ip a hours now) = (if ip == a then false else true) && ltb now end
is_early ip end (cleans now) = ltb now end

abbrev pub AreEarly : ℕ → ℕ → List Call → Type 0
AreEarly ip end [] = ⊤
AreEarly ip end (c ∷ cs) = (is_early ip end c ≡ true) × AreEarly ip end cs

-- `ip` is blocked until `end`.
abbrev IsClosed : ℕ → ℕ → Store → Type 0
IsClosed ip end db = find ip db.ip_blacklist ≡ some (record { expires_at = some end })

check_order-IsClosed :
    (ip end a email now : ℕ) (db : Store)
    → ltb now end ≡ true
    → IsClosed ip end db
    → IsClosed ip end (check_order a email now db).1
unfolding check_order
check_order-IsClosed ip end a email now db early h = elim (Bool-cases (ip == a)) [
  | inl e ↦
      let same = (==_iff ip a).0 e in
      let there : find a db.ip_blacklist ≡ some (record { expires_at = some end }) =
        ap (λ x. find x db.ip_blacklist) (sym same) ∙ h in
      ground arith
  | inr e ↦
      let kept =
        find-block_other ip a (auto_block_minutes db.system_config) now db.ip_blacklist e in
      ground arith
]

add_ip_blacklist-IsClosed :
    (ip end a : ℕ) (hours : Option ℕ) (now : ℕ) (db : Store)
    → (ip == a) ≡ false
    → IsClosed ip end db
    → IsClosed ip end (add_ip_blacklist a hours now db).1
unfolding add_ip_blacklist
add_ip_blacklist-IsClosed ip end a hours now db apart h =
    elim (Option-cases (find a db.ip_blacklist)) [
      | inl e ↦ ground (arith, ==_iff ip a, ==_iff a ip)
      | inr (b, e) ↦
          let same =
            find-adjust_ne ip a (λ b. record { expires_at = hours_until now hours })
              db.ip_blacklist in
          ground (arith, ==_iff ip a)
    ]

clean_expired-IsClosed :
    (ip end now : ℕ) (db : Store)
    → ltb now end ≡ true
    → IsClosed ip end db
    → IsClosed ip end (clean_expired now db).1
unfolding clean_expired
clean_expired-IsClosed ip end now db early h =
    find-delete_many-stale ip now db.ip_blacklist (record { expires_at = some end }) h
      (ground arith)

perform-IsClosed :
    (ip end : ℕ) (c : Call) (db : Store)
    → is_early ip end c ≡ true
    → IsClosed ip end db
    → IsClosed ip end (perform c db)
unfolding perform record_pending
perform-IsClosed ip end (checks a email now) db early h =
    check_order-IsClosed ip end a email now db early h
perform-IsClosed ip end (records a email now) db early h = h
perform-IsClosed ip end (lists_ip a hours now) db early h =
    add_ip_blacklist-IsClosed ip end a hours now db (ground arith) h
perform-IsClosed ip end (cleans now) db early h =
    clean_expired-IsClosed ip end now db (ground arith) h

perform_all-IsClosed :
    (ip end : ℕ) (cs : List Call) (db : Store)
    → AreEarly ip end cs
    → IsClosed ip end db
    → IsClosed ip end (perform_all cs db)
unfolding perform_all
perform_all-IsClosed ip end [] db early h = h
perform_all-IsClosed ip end (c ∷ cs) db (first, rest) h =
    perform_all-IsClosed ip end cs (perform c db) rest (perform-IsClosed ip end c db first h)

closed_refused :
    (ip end email now : ℕ) (db : Store)
    → now < end
    → IsClosed ip end db
    → (check_order ip email now db).0 ≡ err (forbidden ip_blocked)
unfolding check_order
closed_refused ip end email now db early h = ground (arith, lt→ltb now end early)

tripped-IsClosed :
    (ip email now : ℕ) (db : Store)
    → is_blocked ip now db.ip_blacklist ≡ false
    → is_blocked email now db.email_blacklist ≡ false
    → leb (ip_pending_threshold db.system_config) (ip_count db ip now) ≡ true
    → ((check_order ip email now db).0 ≡ err (forbidden ip_pending))
      × IsClosed ip
          (now + auto_block_minutes db.system_config * 60000)
          (check_order ip email now db).1
unfolding check_order
tripped-IsClosed ip email now db open_ip open_email tripped =
    let closed = find-block ip (auto_block_minutes db.system_config) now db.ip_blacklist in
    (ground arith, ground arith)

-- The check that trips the fuse is refused: neither address is blocked, and the IP address has reached
-- the threshold of orders in the window. After it take any checks, records of orders, runs of the
-- clean-up and entries by hand for other IP addresses, all before the configured minutes are over. A
-- check of the IP address with any e-mail address, before the minutes are over, is then refused.
pub check_order-check_order :
    (ip email other now later : ℕ) (cs : List Call) (db : Store)
    → is_blocked ip now db.ip_blacklist ≡ false
    → is_blocked email now db.email_blacklist ≡ false
    → leb (ip_pending_threshold db.system_config) (ip_count db ip now) ≡ true
    → AreEarly ip (now + auto_block_minutes db.system_config * 60000) cs
    → later < now + auto_block_minutes db.system_config * 60000
    → ((check_order ip email now db).0 ≡ err (forbidden ip_pending))
      × ((check_order ip other later (perform_all cs (check_order ip email now db).1)).0
          ≡ err (forbidden ip_blocked))
check_order-check_order ip email other now later cs db open_ip open_email tripped calls early =
    let end = now + auto_block_minutes db.system_config * 60000 in
    let next = (check_order ip email now db).1 in
    let (refused, closed) = tripped-IsClosed ip email now db open_ip open_email tripped in
    (
      refused,
      closed_refused ip end other later (perform_all cs next) early
          (perform_all-IsClosed ip end cs next calls closed),
    )
