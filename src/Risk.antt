-- ===== src/Risk.antt =====
-- apps/api/src/modules/risk/risk-control.service.ts: blacklists of IP and e-mail addresses, and the
-- fuse that counts unpaid orders in a window of time.
pub mod Fuse
mod Tests
use winmelon_card.Base.{
  ℕ, ◌-◌, ◌+◌, ◌*◌, Bool, true, false, ◌&&◌, Option, none, some, List, [], ◌∷◌, ltb, leb, ◌==◌,
  if◌then◌else◌, or_else, is_none,
}
use winmelon_card.Base.Table.{Table, find, insert, adjust, delete_many}
use winmelon_card.Base.Result.{forbidden, ip_blocked, email_blocked, ip_pending, email_pending}
use winmelon_card.Schema.{Blocked, RiskRecord, SystemConfig}
use winmelon_card.Schema.Store.{Store}
use winmelon_card.Schema.Action.{Action, ⊤, pure, gets, throw_if, modify, ◌>>=◌, ◌>>◌}

abbrev pub ip_pending_threshold : SystemConfig → ℕ
ip_pending_threshold c = or_else c.risk_ip_pending_threshold 5

abbrev pub email_pending_threshold : SystemConfig → ℕ
email_pending_threshold c = or_else c.risk_email_pending_threshold 3

abbrev pub window_minutes : SystemConfig → ℕ
window_minutes c = or_else c.risk_window_minutes 60

abbrev pub auto_block_minutes : SystemConfig → ℕ
auto_block_minutes c = or_else c.risk_auto_block_minutes 60

-- `expiresAt: null` or later than `now`.
abbrev is_active : ℕ → Option Blocked → Bool
is_active now none = false
is_active now (some b) = elim b.expires_at [ none ↦ true | some t ↦ ltb now t ]

abbrev pub is_blocked : ℕ → ℕ → Table Blocked → Bool
is_blocked address now t = is_active now (find address t)

-- `countRecent` of the action "order.pending", by IP or by e-mail address.
abbrev pub count_recent : (RiskRecord → Bool) → ℕ → List RiskRecord → ℕ
count_recent p since [] = 0
count_recent p since (r ∷ rs) =
    (if p r && leb since r.created_at then 1 else 0) + count_recent p since rs

-- `upsert` into a blacklist, until `minutes` from now.
abbrev pub block : ℕ → ℕ → ℕ → Table Blocked → Table Blocked
block address minutes now t =
    let until = some (now + minutes * 60000) in
    if is_none (find address t)
    then insert address (record { expires_at = until }) t
    else adjust address (λ b. record { expires_at = until }) t

auto_block_ip : ℕ → ℕ → Action ⊤
auto_block_ip ip now = modify (λ db. record db {
  ip_blacklist = block ip (auto_block_minutes db.system_config) now db.ip_blacklist;
})

auto_block_email : ℕ → ℕ → Action ⊤
auto_block_email email now = modify (λ db. record db {
  email_blacklist = block email (auto_block_minutes db.system_config) now db.email_blacklist;
})

abbrev pub since : SystemConfig → ℕ → ℕ
since c now = now - window_minutes c * 60000

abbrev pub ip_count : Store → ℕ → ℕ → ℕ
ip_count db ip now = count_recent (λ r. r.ip == ip) (since db.system_config now) db.risk_records

abbrev pub email_count : Store → ℕ → ℕ → ℕ
email_count db email now =
    count_recent (λ r. r.email == email) (since db.system_config now) db.risk_records

unfoldable pub check_order : ℕ → ℕ → ℕ → Action ⊤
unfolding auto_block_ip auto_block_email
check_order ip email now = do
  throw_if (← gets (λ db. is_blocked ip now db.ip_blacklist)) (forbidden ip_blocked)
  throw_if (← gets (λ db. is_blocked email now db.email_blacklist)) (forbidden email_blocked)
  ip_fuse ← gets (λ db. leb (ip_pending_threshold db.system_config) (ip_count db ip now))
  if ip_fuse then auto_block_ip ip now else pure tt
  throw_if ip_fuse (forbidden ip_pending)
  email_fuse ←
      gets (λ db. leb (email_pending_threshold db.system_config) (email_count db email now))
  if email_fuse then auto_block_email email now else pure tt
  throw_if email_fuse (forbidden email_pending)

-- `record('order.pending', …)`; a failed write is swallowed.
unfoldable pub record_pending : ℕ → ℕ → ℕ → Action ⊤
record_pending ip email now = modify (λ db. record db {
  risk_records = record { ip = ip; email = email; created_at = now } ∷ db.risk_records;
})

abbrev pub hours_until : ℕ → Option ℕ → Option ℕ
hours_until now none = none
hours_until now (some h) = if h == 0 then none else some (now + h * 3600000)

-- `addIpBlacklist`, by hand: no number of hours means for ever.
unfoldable pub add_ip_blacklist : ℕ → Option ℕ → ℕ → Action ⊤
add_ip_blacklist ip hours now = modify (λ db. record db {
  ip_blacklist =
      if is_none (find ip db.ip_blacklist)
      then insert ip (record { expires_at = hours_until now hours }) db.ip_blacklist
      else adjust ip (λ b. record { expires_at = hours_until now hours }) db.ip_blacklist;
})

abbrev pub is_stale : ℕ → Blocked → Bool
is_stale now b = elim b.expires_at [ none ↦ false | some t ↦ ltb t now ]

unfoldable pub clean_expired : ℕ → Action ⊤
clean_expired now = modify (λ db. record db {
  ip_blacklist = delete_many (λ k b. is_stale now b) db.ip_blacklist;
  email_blacklist = delete_many (λ k b. is_stale now b) db.email_blacklist;
})
