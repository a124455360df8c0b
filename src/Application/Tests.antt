-- ===== src/Application/Tests.antt =====
-- An application on the sample shop, from the code to the account.
use winmelon_card.Base.{ℕ, ◌≡◌, refl, true, none, some, List, [], ◌∷◌, arith, ◌+◌, length}
use winmelon_card.Base.Text.{Text}
use winmelon_card.Base.Table.{find, find_first}
use winmelon_card.Base.Result.{ok, err, bad_request, code_taken, bad_code}
use winmelon_card.Schema.Store.{Store}
use winmelon_card.Sample.{market}
use winmelon_card.Application.{
  ApplyMerchant, AccountKeys, apply, activate, approve, new_merchant, new_application, applied_for,
  exists,
}
use winmelon_card.Application.Email.{verify_code}
use winmelon_card.Application.Calls.{
  Call, sends, applies, activates, approves, rejects, perform_all,
}
use winmelon_card.Application.Granted.{IsGranted, perform_all-IsGranted}
use winmelon_card.Application.Taken.{apply-perform_all}
use winmelon_card.Application.Inviter.{Opening, by_admin, open_account, open_account-inviter_by}
use winmelon_card.Application.Codes
use winmelon_card.Application.Codes.{AreSingle}
use winmelon_card.Application.Spent.{verify_code-verify_code}

abbrev sha256 : ℕ → ℕ
sha256 n = n + 1

abbrev bcrypt : Text → ℕ
bcrypt s = length s

abbrev wish : ApplyMerchant
wish = record {
  contact_email = 700;
  merchant_name = 109 ∷ 110 ∷ [];
  shop_code = 200;
  verification_code = 123456;
  invite_code = some 300;
}

abbrev invited : Store
invited = record market {
  invite_codes = (40, record { code = 300; inviter_merchant_id = 1; used_count = 0 }) ∷ [];
}

abbrev keys : AccountKeys
keys = record { merchant_id = 2; shop_id = 11; user_id = 3 }

abbrev password : Text
password = 97 ∷ 98 ∷ 99 ∷ 100 ∷ 101 ∷ 102 ∷ 49 ∷ 50 ∷ []

abbrev asked : List Call
asked = sends 1 123456 700 0 ∷ applies sha256 60 9 wish 1000 ∷ []

abbrev joined : List Call
joined =
    sends 1 123456 700 0
    ∷ applies sha256 60 9 wish 1000
    ∷ activates sha256 bcrypt keys 60 9 password 2000
    ∷ approves sha256 keys 9 60 1 80 10 3000
    ∷ rejects 60 [] 9 4000
    ∷ []

invited-IsGranted : IsGranted invited
invited-IsGranted = record { keyed = tt; granted = λ id a there e. absurd (ground arith) }

perform_all-IsGranted_example : IsGranted (perform_all joined invited)
perform_all-IsGranted_example = perform_all-IsGranted joined invited invited-IsGranted

applied : find 60 (perform_all asked invited).applications ≡ some (new_application wish 10 1000)
unfolding perform_all
applied = refl

activated : (activate sha256 bcrypt keys 60 9 password 2000 (perform_all asked invited)).0 ≡ ok tt
unfolding perform_all activate
activated = refl

approved : (approve sha256 keys 9 60 1 80 9 2000 (perform_all asked invited)).0 ≡ ok tt
unfolding perform_all approve
approved = refl

-- The administrator approves it after the applicant's link has expired.
abbrev opening : Opening
opening = by_admin sha256 keys 9 60 1 80 9 9000000

opened : (open_account opening (perform_all asked invited)).0 ≡ ok tt
unfolding open_account perform_all
opened = refl

open_account-inviter_by_example :
    find 2 (open_account opening (perform_all asked invited)).1.merchants
    ≡ some (new_merchant (new_application wish 10 1000) none 9000000)
open_account-inviter_by_example =
    open_account-inviter_by opening (perform_all asked invited) (new_application wish 10 1000)
      applied opened

asked_taken : exists (find_first (applied_for 200) (perform_all asked invited).applications) ≡ true
unfolding perform_all
asked_taken = refl

abbrev refused : List Call
refused = rejects 60 [] 9 4000 ∷ sends 2 654321 700 100000 ∷ []

apply-perform_all_example :
    apply sha256 61 10 wish 2000000 (perform_all refused (perform_all asked invited))
    ≡ (err (bad_request code_taken), perform_all refused (perform_all asked invited))
apply-perform_all_example =
    apply-perform_all refused (perform_all asked invited) sha256 61 10 wish 2000000 asked_taken

abbrev mails : List Codes.Call
mails = Codes.Call.sends 1 123456 700 0 ∷ Codes.Call.sends 2 222222 700 60000 ∷ []

verified : (verify_code 700 222222 70000 (Codes.perform_all mails invited)).0 ≡ ok tt
unfolding Codes.perform_all verify_code
verified = refl

abbrev others : List Codes.Call
others = Codes.Call.verifies 700 123456 75000 ∷ Codes.Call.sends 3 333333 701 76000 ∷ []

verify_code-verify_code_example :
    (verify_code 700 222222 80000 (
      Codes.perform_all others
        (verify_code 700 222222 70000 (Codes.perform_all mails invited)).1)).0
    ≡ err (bad_request bad_code)
verify_code-verify_code_example =
    verify_code-verify_code mails others invited 700 222222 222222 70000 80000
      (record { keyed = tt; single = λ e. ground arith }) verified (refl, (refl, tt))
