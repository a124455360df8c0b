-- ===== src/Application/Step.antt =====
-- What a call may do to the applications, the merchants and the shops.
use winmelon_card.Base.{
  ℕ, ◌≡◌, refl, inl, inr, Bool, true, false, Option, none, some, [], ◌∷◌, arith, Bool-cases,
  Option-cases,
}
use winmelon_card.Base.Text.{Text}
use winmelon_card.Base.Table.{Table, find, find_first, insert, adjust}
use winmelon_card.Base.Result.{Result-cases, ok}
use winmelon_card.Schema.{Merchant, Shop, MerchantApplication, ApplicationStatus}
use winmelon_card.Schema.Store.{Store, merchant_approve}
use winmelon_card.Application.{
  ApplyMerchant, AccountKeys, apply, activate, approve, reject, create_account, check_token,
  is_pending, applied_for, shop_coded, same_application, same_merchant, same_shop, new_application,
  new_merchant, new_shop, set_activated, set_approved, set_rejected, inviter_of_code,
}
use winmelon_card.Application.Email.{verify_code}
use winmelon_card.Application.Token.{generate}

abbrev pub is_approved : ApplicationStatus → Bool
is_approved ApplicationStatus.approved = true
is_approved ApplicationStatus.pending = false
is_approved ApplicationStatus.rejected = false

-- The account of an approved application.
pub record IsAccount (keys : AccountKeys) (a b : MerchantApplication) (m : Merchant) (s : Shop)
    : Type 0 where
  pub same_code : m.code ≡ a.shop_code
  pub shop_code : s.code ≡ a.shop_code
  pub owner : s.merchant_id ≡ keys.merchant_id
  pub kept_code : b.shop_code ≡ a.shop_code
  pub to_merchant : b.approved_merchant_id ≡ some keys.merchant_id
  pub approved : is_approved b.status ≡ true

pub data Step (db db' : Store) : Type 0 where
  skip :
      db'.applications ≡ db.applications
      → db'.merchants ≡ db.merchants
      → db'.shops ≡ db.shops
      → Step db db'
  file :
      (id : ℕ) (a : MerchantApplication)
      → find id db.applications ≡ none
      → find_first (applied_for a.shop_code) db.applications ≡ none
      → is_pending a.status ≡ true
      → db'.applications ≡ insert id a db.applications
      → db'.merchants ≡ db.merchants
      → db'.shops ≡ db.shops
      → Step db db'
  grant :
      (id : ℕ) (keys : AccountKeys) (a : MerchantApplication)
      (f : MerchantApplication → MerchantApplication) (m : Merchant) (s : Shop)
      → find id db.applications ≡ some a
      → is_pending a.status ≡ true
      → find keys.merchant_id db.merchants ≡ none
      → find_first (shop_coded a.shop_code) db.shops ≡ none
      → ((b : MerchantApplication) → (f b).shop_code ≡ b.shop_code)
      → IsAccount keys a (f a) m s
      → db'.applications ≡ adjust id f db.applications
      → db'.merchants ≡ insert keys.merchant_id m db.merchants
      → db'.shops ≡ insert keys.shop_id s db.shops
      → Step db db'
  refuse :
      (id : ℕ) (reason : Text) (admin now : ℕ) (a : MerchantApplication)
      → find id db.applications ≡ some a
      → is_pending a.status ≡ true
      → db'.applications ≡ adjust id (set_rejected reason admin now) db.applications
      → db'.merchants ≡ db.merchants
      → db'.shops ≡ db.shops
      → Step db db'

application_fresh :
    (id code : ℕ) (t : Table MerchantApplication)
    → find_first (same_application id code) t ≡ none
    → find id t ≡ none
application_fresh id code [] h = refl
application_fresh id code ((j, a) ∷ t) h = ground (arith, application_fresh id code t)

merchant_fresh :
    (id code : ℕ) (t : Table Merchant)
    → find_first (same_merchant id code) t ≡ none
    → find id t ≡ none
merchant_fresh id code [] h = refl
merchant_fresh id code ((j, a) ∷ t) h = ground (arith, merchant_fresh id code t)

shop_free :
    (id code : ℕ) (t : Table Shop)
    → find_first (same_shop id code) t ≡ none
    → find_first (shop_coded code) t ≡ none
shop_free id code [] h = refl
shop_free id code ((j, a) ∷ t) h = ground (arith, shop_free id code t)

verify_code-others :
    (email code now : ℕ) (db : Store)
    → ((verify_code email code now db).1.applications ≡ db.applications)
      × ((verify_code email code now db).1.merchants ≡ db.merchants)
      × ((verify_code email code now db).1.shops ≡ db.shops)
unfolding verify_code
verify_code-others email code now db = (ground arith, ground arith, ground arith)

pub apply-Step :
    (sha256 : ℕ → ℕ) (id token : ℕ) (dto : ApplyMerchant) (now : ℕ) (db : Store)
    → Step db (apply sha256 id token dto now db).1
unfolding apply
apply-Step sha256 id token dto now db =
    let (apps, ms, ss) = verify_code-others dto.contact_email dto.verification_code now db in
    elim (Option-cases (find_first (applied_for dto.shop_code) db.applications)) [
      | inr (row, e) ↦ skip (ground arith) (ground arith) (ground arith)
      | inl e ↦ elim (Option-cases dto.invite_code) [
        | inl f ↦ elim (Result-cases (apply sha256 id token dto now db).0) [
          | inr (x, bad) ↦ skip (ground arith) (ground arith) (ground arith)
          | inl (u, good) ↦
              file id (new_application dto (sha256 token) now)
                (application_fresh id dto.shop_code db.applications (ground arith)) e refl
                (ground arith) (ground arith) (ground arith)
        ]
        | inr (c, f) ↦ elim (Result-cases (apply sha256 id token dto now db).0) [
          | inr (x, bad) ↦ skip (ground arith) (ground arith) (ground arith)
          | inl (u, good) ↦
              file id (new_application dto (sha256 token) now)
                (application_fresh id dto.shop_code db.applications (ground arith)) e refl
                (ground arith) (ground arith) (ground arith)
        ]
      ]
    ]

-- What an account that has been created says of the tables before and after.
pub record IsCreated (keys : AccountKeys) (a : MerchantApplication) (inviter : Option ℕ) (now : ℕ)
    (db db' : Store) : Type 0 where
  pub new_key : find keys.merchant_id db.merchants ≡ none
  pub new_code : find_first (shop_coded a.shop_code) db.shops ≡ none
  pub same_applications : db'.applications ≡ db.applications
  pub merchants_after :
      db'.merchants ≡ insert keys.merchant_id (new_merchant a inviter now) db.merchants
  pub shops_after : db'.shops ≡ insert keys.shop_id (new_shop keys a) db.shops

pub create_account-IsCreated :
    (keys : AccountKeys) (a : MerchantApplication) (hash : ℕ) (inviter : Option ℕ) (now : ℕ)
    (db : Store)
    → (create_account keys a hash inviter now db).0 ≡ ok tt
    → IsCreated keys a inviter now db (create_account keys a hash inviter now db).1
unfolding create_account
create_account-IsCreated keys a hash inviter now db good = record {
  new_key = merchant_fresh keys.merchant_id a.shop_code db.merchants (ground arith);
  new_code = shop_free keys.shop_id a.shop_code db.shops (ground arith);
  same_applications = ground arith;
  merchants_after = ground arith;
  shops_after = ground arith;
}

pub check_token-left :
    (sha256 : ℕ → ℕ) (token : ℕ) (a : MerchantApplication) (now : ℕ) (db : Store)
    → ((check_token sha256 token a now db).1 ≡ db)
      × ((check_token sha256 token a now db).0 ≡ ok tt → is_pending a.status ≡ true)
unfolding check_token
check_token-left sha256 token a now db = (ground arith, λ good. ground arith)

pub activate-Step :
    (sha256 : ℕ → ℕ) (bcrypt : Text → ℕ) (keys : AccountKeys) (id token : ℕ) (password : Text)
    (now : ℕ) (db : Store)
    → Step db (activate sha256 bcrypt keys id token password now db).1
unfolding activate
activate-Step sha256 bcrypt keys id token password now db =
    elim (Option-cases (find id db.applications)) [
      | inl e ↦ skip (ground arith) (ground arith) (ground arith)
      | inr (a, e) ↦
          let (same, waits) = check_token-left sha256 token a now db in
          let inviter = inviter_of_code a.invite_code db.invite_codes in
          let run = create_account keys a (bcrypt password) inviter now db in
          elim (Result-cases (activate sha256 bcrypt keys id token password now db).0) [
            | inr (x, bad) ↦ skip (ground arith) (ground arith) (ground arith)
            | inl (u, good) ↦
                let made =
                  create_account-IsCreated keys a (bcrypt password) inviter now db (ground arith) in
                let apps = made.same_applications in
                let ms = made.merchants_after in
                let ss = made.shops_after in
                grant id keys a (set_activated keys now) (new_merchant a inviter now)
                  (new_shop keys a) e (waits (ground arith)) made.new_key made.new_code (λ b. refl)
                  (record {
                    same_code = refl;
                    shop_code = refl;
                    owner = refl;
                    kept_code = refl;
                    to_merchant = refl;
                    approved = refl;
                  })
                  (ground arith) (ground arith) (ground arith)
          ]
    ]

pub generate-others :
    (id hash email : ℕ) (user : Option ℕ) (now : ℕ) (db : Store)
    → ((generate id hash email user now db).1.applications ≡ db.applications)
      × ((generate id hash email user now db).1.merchants ≡ db.merchants)
      × ((generate id hash email user now db).1.shops ≡ db.shops)
unfolding generate
generate-others id hash email user now db = (ground arith, ground arith, ground arith)

pub approve-Step :
    (sha256 : ℕ → ℕ) (keys : AccountKeys) (admin id secret token_id token now : ℕ) (db : Store)
    → Step db (approve sha256 keys admin id secret token_id token now db).1
unfolding approve
approve-Step sha256 keys admin id secret token_id token now db =
    elim (Option-cases (find id db.applications)) [
      | inl e ↦ skip (ground arith) (ground arith) (ground arith)
      | inr (a, e) ↦ elim (Bool-cases (is_pending a.status)) [
        | inr f ↦ skip (ground arith) (ground arith) (ground arith)
        | inl f ↦
            let run = create_account keys a secret none now db in
            elim (Result-cases run.0) [
              | inr (x, bad) ↦ skip (ground arith) (ground arith) (ground arith)
              | inl (u, good) ↦
                  let made = create_account-IsCreated keys a secret none now db good in
                  let apps = made.same_applications in
                  let ms = made.merchants_after in
                  let ss = made.shops_after in
                  let mid : Store = record run.1 {
                    applications = adjust id (set_approved keys admin now) run.1.applications;
                    audit_logs =
                        record { action = merchant_approve; resource_id = id } ∷ run.1.audit_logs;
                  } in
                  let (apps', ms', ss') =
                    generate-others token_id (sha256 token) a.contact_email (some keys.user_id) now
                      mid in
                  grant id keys a (set_approved keys admin now) (new_merchant a none now)
                    (new_shop keys a) e f made.new_key made.new_code (λ b. refl)
                    (record {
                      same_code = refl;
                      shop_code = refl;
                      owner = refl;
                      kept_code = refl;
                      to_merchant = refl;
                      approved = refl;
                    })
                    (ground arith) (ground arith) (ground arith)
            ]
      ]
    ]

pub reject-Step :
    (id : ℕ) (reason : Text) (admin now : ℕ) (db : Store)
    → Step db (reject id reason admin now db).1
unfolding reject
reject-Step id reason admin now db = elim (Option-cases (find id db.applications)) [
  | inl e ↦ skip (ground arith) (ground arith) (ground arith)
  | inr (a, e) ↦ elim (Bool-cases (is_pending a.status)) [
    | inr f ↦ skip (ground arith) (ground arith) (ground arith)
    | inl f ↦ refuse id reason admin now a e f (ground arith) (ground arith) (ground arith)
  ]
]
