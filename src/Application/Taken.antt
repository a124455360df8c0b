-- ===== src/Application/Taken.antt =====
-- Shop codes that have been applied for.
use winmelon_card.Base.{ℕ, ◌≡◌, refl, ◌∙◌, ap, true, List, [], ◌∷◌, arith}
use winmelon_card.Base.Table.{Table, find_first, adjust}
use winmelon_card.Base.Result.{err, bad_request, code_taken}
use winmelon_card.Schema.{MerchantApplication}
use winmelon_card.Schema.Store.{Store}
use winmelon_card.Application.{ApplyMerchant, apply, applied_for, set_rejected, exists}
use winmelon_card.Application.Step.{Step, skip, file, grant, refuse}
use winmelon_card.Application.Calls.{Call, perform, perform_all, perform-Step}

-- Updates of an application keep its code.
exists-adjust :
    (code id : ℕ) (f : MerchantApplication → MerchantApplication) (t : Table MerchantApplication)
    → ((b : MerchantApplication) → (f b).shop_code ≡ b.shop_code)
    → exists (find_first (applied_for code) t) ≡ true
    → exists (find_first (applied_for code) (adjust id f t)) ≡ true
exists-adjust code id f [] same h = h
exists-adjust code id f ((j, a) ∷ t) same h = ground (arith, exists-adjust code id f t same, same a)

Step-taken :
    {db db' : Store} (code : ℕ)
    → exists (find_first (applied_for code) db.applications) ≡ true
    → Step db db'
    → exists (find_first (applied_for code) db'.applications) ≡ true
Step-taken code h (skip apps ms ss) = ap (λ t. exists (find_first (applied_for code) t)) apps ∙ h
Step-taken code h (file id a new free waits apps ms ss) =
    ap (λ t. exists (find_first (applied_for code) t)) apps ∙ ground arith
Step-taken {db = db} code h (grant id keys a f m s there waits new free codes account apps ms ss) =
    ap (λ t. exists (find_first (applied_for code) t)) apps
    ∙ exists-adjust code id f db.applications codes h
Step-taken {db = db} code h (refuse id reason admin now a there waits apps ms ss) =
    ap (λ t. exists (find_first (applied_for code) t)) apps
    ∙ exists-adjust code id (set_rejected reason admin now) db.applications (λ b. refl) h

still_taken :
    (code : ℕ) (cs : List Call) (db : Store)
    → exists (find_first (applied_for code) db.applications) ≡ true
    → exists (find_first (applied_for code) (perform_all cs db).applications) ≡ true
unfolding perform_all
still_taken code [] db h = h
still_taken code (c ∷ cs) db h =
    still_taken code cs (perform c db) (Step-taken code h (perform-Step c db))

apply_taken :
    (sha256 : ℕ → ℕ) (id token : ℕ) (dto : ApplyMerchant) (now : ℕ) (db : Store)
    → exists (find_first (applied_for dto.shop_code) db.applications) ≡ true
    → apply sha256 id token dto now db ≡ (err (bad_request code_taken), db)
unfolding apply
apply_taken sha256 id token dto now db h = ground arith

-- Once there is an application for a shop code, every later application for the code is refused,
-- whatever has happened since: its link may have run out, or it may have been rejected.
pub apply-perform_all :
    (cs : List Call) (db : Store) (sha256 : ℕ → ℕ) (id token : ℕ) (dto : ApplyMerchant) (now : ℕ)
    → exists (find_first (applied_for dto.shop_code) db.applications) ≡ true
    → apply sha256 id token dto now (perform_all cs db)
      ≡ (err (bad_request code_taken), perform_all cs db)
apply-perform_all cs db sha256 id token dto now h =
    apply_taken sha256 id token dto now (perform_all cs db) (still_taken dto.shop_code cs db h)
