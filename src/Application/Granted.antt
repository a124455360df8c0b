-- ===== src/Application/Granted.antt =====
-- Approved applications have their accounts.
use winmelon_card.Base.{
  ℕ, ◌≡◌, sym, ◌∙◌, ap, subst, inl, inr, true, some, List, [], ◌∷◌, arith, ◌==◌, Bool-cases, ==_iff,
  ==_refl,
}
use winmelon_card.Base.Table.{find, find_first, IsKeyed, adjust-IsKeyed, find-adjust-back}
use winmelon_card.Schema.{Merchant, Shop, MerchantApplication}
use winmelon_card.Schema.Store.{Store}
use winmelon_card.Application.{shop_coded, set_rejected}
use winmelon_card.Application.Step.{Step, skip, file, grant, refuse, is_approved}
use winmelon_card.Application.Calls.{Call, perform, perform_all, perform-Step}

-- The account of an application: a merchant and a shop under its code.
pub record HasAccount (a : MerchantApplication) (db : Store) : Type 0 where
  pub k : ℕ
  pub m : Merchant
  pub row : ℕ × Shop
  pub to_merchant : a.approved_merchant_id ≡ some k
  pub merchant_there : find k db.merchants ≡ some m
  pub same_code : m.code ≡ a.shop_code
  pub shop_there : find_first (shop_coded a.shop_code) db.shops ≡ some row
  pub owner : row.1.merchant_id ≡ k

pub record IsGranted (db : Store) : Type 0 where
  pub keyed : IsKeyed db.applications
  pub granted :
      (id : ℕ) (a : MerchantApplication)
      → find id db.applications ≡ some a
      → is_approved a.status ≡ true
      → HasAccount a db

same-HasAccount :
    (a : MerchantApplication) (db db' : Store)
    → db'.merchants ≡ db.merchants
    → db'.shops ≡ db.shops
    → HasAccount a db
    → HasAccount a db'
same-HasAccount a db db' ms ss h = record {
  k = h.k;
  m = h.m;
  row = h.row;
  to_merchant = h.to_merchant;
  merchant_there = ap (find h.k) ms ∙ h.merchant_there;
  same_code = h.same_code;
  shop_there = ap (find_first (shop_coded a.shop_code)) ss ∙ h.shop_there;
  owner = h.owner;
}

Step-IsGranted : {db db' : Store} → IsGranted db → Step db db' → IsGranted db'
Step-IsGranted {db = db} {db' = db'} h (skip apps ms ss) = record {
  keyed = subst IsKeyed (sym apps) h.keyed;
  granted = λ id a there ok.
      same-HasAccount a db db' ms ss (h.granted id a (sym (ap (find id) apps) ∙ there) ok);
}
Step-IsGranted {db = db} {db' = db'} h (file id a new free waits apps ms ss) = record {
  keyed = subst IsKeyed (sym apps) (new, h.keyed);
  granted = λ j b there ok.
      let found = sym (ap (find j) apps) ∙ there in
      elim (Bool-cases (id == j)) [
        | inl same ↦ absurd (ground arith)
        | inr other ↦ same-HasAccount b db db' ms ss (h.granted j b (ground arith) ok)
      ];
}
Step-IsGranted {db = db} {db' = db'} h
      (grant id keys a f m s there waits new free codes account apps ms ss) =
    record {
      keyed = subst IsKeyed (sym apps) (adjust-IsKeyed id f db.applications h.keyed);
      granted = λ j b here ok.
          let found = sym (ap (find j) apps) ∙ here in
          let (c, before, is) = find-adjust-back j id f db.applications b found in
          elim (Bool-cases (j == id)) [
            | inl same ↦
                let one = sym (ap (λ i. find i db.applications) ((==_iff j id).0 same)) ∙ before in
                let equal : b ≡ f a = ground arith in
                let code = account.kept_code in
                let shop = account.shop_code in
                record {
                  k = keys.merchant_id;
                  m = m;
                  row = (keys.shop_id, s);
                  to_merchant = ap (λ x. x.approved_merchant_id) equal ∙ account.to_merchant;
                  merchant_there =
                      ap (find keys.merchant_id) ms ∙ ground (arith, ==_refl keys.merchant_id);
                  same_code = account.same_code ∙ sym code ∙ sym (ap (λ x. x.shop_code) equal);
                  shop_there =
                      ap (find_first (shop_coded b.shop_code)) ss
                      ∙ ground (arith, ==_refl a.shop_code);
                  owner = account.owner;
                }
            | inr other ↦
                let equal : b ≡ c = ground arith in
                let old = h.granted j c before (ap (λ x. is_approved x.status) (sym equal) ∙ ok) in
                let merchant = old.merchant_there in
                let shop = old.shop_there in
                subst (λ x. HasAccount x db') (sym equal)
                  (record {
                    k = old.k;
                    m = old.m;
                    row = old.row;
                    to_merchant = old.to_merchant;
                    merchant_there =
                        ap (find old.k) ms ∙ elim (Bool-cases (keys.merchant_id == old.k)) [
                          | inl g ↦ absurd (ground (arith, ==_iff keys.merchant_id old.k))
                          | inr g ↦ ground arith
                        ];
                    same_code = old.same_code;
                    shop_there =
                        ap (find_first (shop_coded c.shop_code)) ss
                        ∙ elim (Bool-cases (s.code == c.shop_code)) [
                          | inl g ↦
                              let code = account.shop_code in
                              absurd (ground (arith, ==_iff s.code c.shop_code))
                          | inr g ↦ ground arith
                        ];
                    owner = old.owner;
                  })
          ];
    }
Step-IsGranted {db = db} {db' = db'} h (refuse id reason admin now a there waits apps ms ss) =
    record {
      keyed =
          subst IsKeyed (sym apps)
            (adjust-IsKeyed id (set_rejected reason admin now) db.applications h.keyed);
      granted = λ j b here ok.
          let found = sym (ap (find j) apps) ∙ here in
          let (c, before, is) =
            find-adjust-back j id (set_rejected reason admin now) db.applications b found in
          elim (Bool-cases (j == id)) [
            | inl same ↦ absurd (ground arith)
            | inr other ↦
                let equal : b ≡ c = ground arith in
                subst (λ x. HasAccount x db') (sym equal)
                  (same-HasAccount c db db' ms ss
                    (h.granted j c before (ap (λ x. is_approved x.status) (sym equal) ∙ ok)))
          ];
    }

-- If every APPROVED application has its account, a merchant with the shop code of the application
-- and a shop of this merchant under that code, then this is so after any sequence of codes sent,
-- applications, activations, approvals, rejections and clean-ups, the refused ones among them.
pub perform_all-IsGranted :
    (cs : List Call) (db : Store) → IsGranted db → IsGranted (perform_all cs db)
unfolding perform_all
perform_all-IsGranted [] db h = h
perform_all-IsGranted (c ∷ cs) db h =
    perform_all-IsGranted cs (perform c db) (Step-IsGranted h (perform-Step c db))
