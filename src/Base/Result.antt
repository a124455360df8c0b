-- ===== src/Base/Result.antt =====
-- What a service call returns: a value, or the exception that it throws. `Why` says which check
-- refused; the constructors of `Error` are NestJS's exception classes, the unique-index error of
-- Prisma (P2002), and any other `Error`.
use winmelon_card.Base.{◌≡◌, ap, refl, ◌⊎◌, inl, inr, Bool, true, false}

pub data Why : Type 0 where
  row_missing bad_status min_amount account_missing bank_missing fee_too_high short_funds : Why
  reason_missing ref_missing viewed duplicate bad_amount below_floor channel_failed manual : Why
  retries_exhausted shop_missing product_missing limit_exceeded no_stock order_expired : Why
  channel_unavailable count_mismatch empty_csv too_many_rows foreign_card ip_blocked : Why
  email_blocked ip_pending email_pending bad_value code_exhausted in_use own_code cycle
        merchant_missing content_missing other_email ticket_closed code_taken email_taken bad_code
        bad_token bad_password cooling inactive :
      Why

pub data Error : Type 0 where
  bad_request not_found forbidden conflict : Why → Error
  unique_violation failure : Error

pub data Result {ℓ} (A : Type ℓ) : Type ℓ where
  ok : A → Result A
  err : Error → Result A

abbrev pub is_ok {ℓ} : {A : Type ℓ} → Result A → Bool
is_ok (ok a) = true
is_ok (err e) = false

-- To split on the result of a call and keep the equation.
pub Result-cases {ℓ} :
    {A : Type ℓ} (r : Result A) → ((a : A) × (r ≡ ok a)) ⊎ ((e : Error) × (r ≡ err e))
Result-cases (ok a) = inl (a, refl)
Result-cases (err e) = inr (e, refl)

pub ok_inj {ℓ} : {A : Type ℓ} {a b : A} → ok a ≡ ok b → a ≡ b
ok_inj {a} h = ap (λ r. elim r [ ok x ↦ x | err e ↦ a ]) h
