-- ===== src/Schema/Action.antt =====
-- A service call over the store: its result, and the store that it leaves. What was written before
-- an exception stays written, except inside `transaction`, which is `prisma.$transaction`.
use winmelon_card.Base.{ℕ, Bool, Option, none, some, ◌∷◌, if◌then◌else◌}
use winmelon_card.Base.Table.{find, adjust}
use winmelon_card.Base.Result.{Result, ok, err, Error, failure}
use winmelon_card.Schema.{Merchant}
use winmelon_card.Schema.Store.{Store, Event, AuditAction}

abbrev pub Action : Type 0 → Type 0
Action A = Store → Result A × Store

abbrev pub ⊤ : Type 0
⊤ = Unit

module _ {A : Type 0} where
  abbrev pub pure : A → Action A
  pure a db = (ok a, db)

  abbrev pub throw : Error → Action A
  throw e db = (err e, db)

  abbrev pub gets : (Store → A) → Action A
  gets f db = (ok (f db), db)

  -- `if (!x) throw e`
  abbrev pub or_throw : Option A → Error → Action A
  or_throw none e = throw e
  or_throw (some a) e = pure a

  -- The outcome of a transaction: an exception rolls the store back.
  abbrev pub commit : Store → Result A × Store → Result A × Store
  commit db (ok a, db') = (ok a, db')
  commit db (err e, db') = (err e, db)

  abbrev pub transaction : Action A → Action A
  transaction m db = commit db (m db)

  -- `try { m } catch (err) { h err }`
  abbrev pub catch : Action A → (Error → Action A) → Action A
  catch m h db = let (r, db') = m db in elim r [ ok a ↦ (ok a, db') | err e ↦ h e db' ]

infixl 5 ◌>>=◌ ◌>>◌
abbrev pub ◌>>=◌ : {A B : Type 0} → Action A → (A → Action B) → Action B
◌>>=◌ m f db = let (r, db') = m db in elim r [ ok a ↦ f a db' | err e ↦ (err e, db') ]

abbrev pub ◌>>◌ : {A B : Type 0} → Action A → Action B → Action B
m >> k = m >>= λ _. k

-- `if (c) throw e`
abbrev pub throw_if : Bool → Error → Action ⊤
throw_if c e db = (if c then err e else ok tt, db)

abbrev pub modify : (Store → Store) → Action ⊤
modify f db = (ok tt, f db)

-- `auditLog.record`, whose failures are swallowed.
abbrev pub record_audit : AuditAction → ℕ → Action ⊤
record_audit a k db =
    (ok tt, record db { audit_logs = record { action = a; resource_id = k } ∷ db.audit_logs })

-- `eventEmitter.emit`
abbrev pub emit : Event → Action ⊤
emit e db = (ok tt, record db { events = e ∷ db.events })

-- `tx.merchant.update({ where: { id } })`: Prisma throws on a missing row (P2025).
abbrev pub update_merchant : ℕ → (Merchant → Merchant) → Action ⊤
update_merchant k f db = elim (find k db.merchants) [
  | none ↦ (err failure, db)
  | some m ↦ (ok tt, record db { merchants = adjust k f db.merchants })
]
