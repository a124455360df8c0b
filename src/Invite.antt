-- ===== src/Invite.antt =====
-- apps/api/src/modules/invite/invite.service.ts: invitation codes, the settings of a merchant, and
-- the change of its inviter. A code and the identifier of its row are arguments.
pub mod Subtree
mod Tests
use winmelon_card.Base.{
  ℕ, zero, suc, Bool, true, false, ◌&&◌, ◌||◌, Option, none, some, List, [], ◌∷◌, ◌++◌, ◌==◌,
  if◌then◌else◌, is_none, is_some_of, or_else, includes, take, ltb,
}
use winmelon_card.Base.Text.{Text, is_empty}
use winmelon_card.Base.Table.{Table, find, find_first, find_many, insert, adjust, delete_many}
use winmelon_card.Base.Result.{
  not_found, bad_request, unique_violation, merchant_missing, code_exhausted, row_missing, in_use,
  own_code, cycle,
}
use winmelon_card.Schema.{Merchant, InviteCode, LeaderboardMode}
use winmelon_card.Schema.Store.{Store, invite_code_create, merchant_inviter_update}
use winmelon_card.Schema.Action.{
  Action, ⊤, pure, gets, or_throw, throw_if, modify, record_audit, update_merchant, ◌>>=◌, ◌>>◌,
}
use winmelon_card.Commission.{by_code}

-- The loop of `createCode`: the first of the candidates that no row has.
abbrev pub free_code : List ℕ → Store → Option ℕ
free_code [] db = none
free_code (c ∷ cs) db =
    let rest = free_code cs db in
    if is_none (find_first (by_code c) db.invite_codes) then some c else rest

-- `createCode`, on the codes that `generateCode` makes. The audit entry is written where the caller
-- gives a context.
unfoldable pub create_code : List ℕ → ℕ → ℕ → Bool → Action ℕ
create_code candidates id merchant_id has_ctx = do
  code ← or_throw (← gets (free_code (take 5 candidates))) (bad_request code_exhausted)
  clash ← gets (λ db. find id db.invite_codes)
  throw_if (if is_none clash then false else true) unique_violation
  modify (λ db. record db {
    invite_codes =
        insert id (record { code = code; inviter_merchant_id = merchant_id; used_count = 0 })
          db.invite_codes;
  })
  if has_ctx then record_audit invite_code_create id else pure tt
  pure code

abbrev pub own_row : ℕ → ℕ → ℕ → InviteCode → Bool
own_row merchant_id code_id id c = id == code_id && c.inviter_merchant_id == merchant_id

abbrev pub row_of : {A : Type 0} → ℕ → ℕ → A → Bool
row_of k id a = id == k

-- `deleteCode`
unfoldable pub delete_code : ℕ → ℕ → Action ⊤
delete_code merchant_id code_id = do
  row ←
      or_throw (← gets (λ db. find_first (own_row merchant_id code_id) db.invite_codes))
        (not_found row_missing)
  throw_if (ltb 0 row.1.used_count) (bad_request in_use)
  modify (λ db. record db { invite_codes = delete_many (row_of code_id) db.invite_codes })

-- `validateCode`: the inviter, where the code is valid.
abbrev pub validate_code : Option ℕ → Store → Option ℕ
validate_code none db = none
validate_code (some code) db = elim (find_first (by_code code) db.invite_codes) [
  | none ↦ none
  | some (id, c) ↦ some c.inviter_merchant_id
]

-- The fields of `updateSettings`, `none` for undefined; the name may be null.
pub record Settings : Type 0 where
  pub allow_buyer_invite_code : Option Bool
  pub leaderboard_display_mode : Option LeaderboardMode
  pub leaderboard_name : Option (Option Text)

-- `dto.leaderboardName?.slice(0, 128) || null`
abbrev pub short_name : Option Text → Option Text
short_name none = none
short_name (some t) = let s = take 128 t in if is_empty s then none else some s

abbrev pub new_name : Option (Option Text) → Option Text → Option Text
new_name none before = before
new_name (some t) before = short_name t

abbrev pub apply_settings : Settings → Merchant → Merchant
apply_settings dto m = record m {
  allow_buyer_invite_code = or_else dto.allow_buyer_invite_code m.allow_buyer_invite_code;
  leaderboard_display_mode = or_else dto.leaderboard_display_mode m.leaderboard_display_mode;
  leaderboard_name = new_name dto.leaderboard_name m.leaderboard_name;
}

-- `updateSettings`
abbrev pub update_settings : ℕ → Settings → Action ⊤
update_settings merchant_id dto = update_merchant merchant_id (apply_settings dto)

-- `where: { inviterMerchantId: pid, deletedAt: null }`
abbrev pub is_child : ℕ → ℕ → Merchant → Bool
is_child pid id m = is_some_of m.inviter_merchant_id pid && is_none m.deleted_at

abbrev pub ids_of : Table Merchant → List ℕ
ids_of [] = []
ids_of ((id, m) ∷ ms) = id ∷ ids_of ms

-- `next`: the children of a level.
abbrev pub children : List ℕ → Table Merchant → List ℕ
children [] ms = []
children (p ∷ ps) ms = ids_of (find_many (is_child p) ms) ++ children ps ms

abbrev pub is_nil : List ℕ → Bool
is_nil [] = true
is_nil (x ∷ xs) = false

-- The loop of `isInSubtree`, with the number of levels left.
abbrev pub is_below : ℕ → List ℕ → ℕ → Table Merchant → Bool
is_below zero current_level target ms = false
is_below (suc n) current_level target ms =
    let next = children current_level ms in
    let rest = is_below n next target ms in
    if includes next target then true else if is_nil next then false else rest

-- `isInSubtree`
abbrev pub is_in_subtree : ℕ → ℕ → Table Merchant → Bool
is_in_subtree root target ms = is_below 3 (root ∷ []) target ms

abbrev pub set_inviter : Option ℕ → ℕ → Merchant → Merchant
set_inviter inviter now m = record m {
  inviter_merchant_id = inviter;
  invited_at = elim inviter [ none ↦ none | some k ↦ some now ];
}

-- The checks of a new inviter.
abbrev pub check_inviter : ℕ → Option ℕ → Action ⊤
check_inviter merchant_id none = pure tt
check_inviter merchant_id (some k) = do
  throw_if (k == merchant_id) (bad_request own_code)
  inviter ← or_throw (← gets (λ db. find k db.merchants)) (not_found merchant_missing)
  below ← gets (λ db. is_in_subtree merchant_id k db.merchants)
  throw_if below (bad_request cycle)

-- `adminUpdateInviter`
unfoldable pub admin_update_inviter : ℕ → Option ℕ → ℕ → Action (Option ℕ)
admin_update_inviter merchant_id inviter now = do
  merchant ← or_throw (← gets (λ db. find merchant_id db.merchants)) (not_found merchant_missing)
  check_inviter merchant_id inviter
  update_merchant merchant_id (set_inviter inviter now)
  record_audit merchant_inviter_update merchant_id
  pure inviter
