-- ===== src/Invite/Tests.antt =====
-- Five merchants, each invited by the one before.
use winmelon_card.Base.{ℕ, ◌≡◌, refl, Bool, some, [], ◌∷◌, if◌then◌else◌}
use winmelon_card.Base.Result.{ok, err, bad_request, cycle, in_use, code_exhausted}
use winmelon_card.Schema.{Merchant}
use winmelon_card.Schema.Store.{Store}
use winmelon_card.Sample.{merchant, market}
use winmelon_card.Invite.{create_code, delete_code, validate_code, admin_update_inviter}
use winmelon_card.Invite.Subtree.{climbs, admin_update_inviter-climbs}

abbrev invited_by : ℕ → Merchant
invited_by k = record merchant { inviter_merchant_id = some k }

abbrev line : Store
line = record market {
  merchants =
      (1, merchant)
      ∷ (2, invited_by 1)
      ∷ (3, invited_by 2)
      ∷ (4, invited_by 3)
      ∷ (5, invited_by 4)
      ∷ [];
}

admin_update_inviter-4 : (admin_update_inviter 1 (some 4) 9 line).0 ≡ err (bad_request cycle)
unfolding admin_update_inviter
admin_update_inviter-4 = refl

-- The circle of five is accepted.
admin_update_inviter-5 : (admin_update_inviter 1 (some 5) 9 line).0 ≡ ok (some 5)
unfolding admin_update_inviter
admin_update_inviter-5 = refl

admin_update_inviter-climbs_example :
    (admin_update_inviter 1 (some 4) 9 line).0
    ≡ (if climbs 3 (1 ∷ []) 4 line.merchants then err (bad_request cycle) else ok (some 4))
admin_update_inviter-climbs_example =
    admin_update_inviter-climbs 1 4 9 line merchant (invited_by 3)
      (refl, (refl, (refl, (refl, (refl, tt))))) refl refl refl

create_code-second : (create_code (7 ∷ 8 ∷ []) 90 1 Bool.true line).0 ≡ ok 7
unfolding create_code
create_code-second = refl

abbrev with_code : ℕ → Store
with_code uses = record line {
  invite_codes = (90, record { code = 7; inviter_merchant_id = 1; used_count = uses }) ∷ [];
}

create_code-taken :
    (create_code (7 ∷ []) 91 1 Bool.true (with_code 0)).0 ≡ err (bad_request code_exhausted)
unfolding create_code
create_code-taken = refl

delete_code-used : (delete_code 1 90 (with_code 2)).0 ≡ err (bad_request in_use)
unfolding delete_code
delete_code-used = refl

delete_code-unused : (delete_code 1 90 (with_code 0)).1.invite_codes ≡ []
unfolding delete_code
delete_code-unused = refl

validate_code-7 : validate_code (some 7) (with_code 0) ≡ some 1
validate_code-7 = refl
