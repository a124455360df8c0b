-- ===== src/Penalty/Calls.antt =====
-- Any sequence of calls of the penalty service.
use winmelon_card.Base.{
  ℕ, ◌≡◌, refl, sym, subst, inl, inr, Bool, true, none, some, List, [], ◌∷◌, ◌==◌, ltb, arith,
  Bool-cases, Option-cases,
}
use winmelon_card.Base.Text.{Text}
use winmelon_card.Base.Table.{Table, find, find_many, adjust}
use winmelon_card.Base.Rows.{AreRows, adjust-AreRows, find_many-AreRows}
use winmelon_card.Base.Result.{Result-cases}
use winmelon_card.Schema.{MerchantPenalty, PenaltyStatus}
use winmelon_card.Schema.Store.{Store}
use winmelon_card.Penalty.{
  PenaltyRequest, create_penalty, appeal_penalty, process_appeal, execute_penalty, dismiss_penalty,
  execute_each, execute_expired_penalties, is_open, is_pending, is_pending_penalty, is_expired,
  deadline_of, punish, close, clear_merchant,
}
use winmelon_card.Penalty.Single.{
  IsSingle, closed-IsSingle, same-IsSingle, appealed-IsSingle, created-IsSingle, shut-IsSingle,
  pending-open,
}

create_penalty-IsSingle :
    (id : ℕ) (r : PenaltyRequest) (now : ℕ) (db : Store)
    → IsSingle db
    → IsSingle (create_penalty id r now db).1
unfolding create_penalty
create_penalty-IsSingle id r now db h = elim (Option-cases (find r.merchant_id db.merchants)) [
  | inl e ↦ same-IsSingle db (create_penalty id r now db).1 h (ground arith) (ground arith)
  | inr (m, there) ↦ elim (Bool-cases (is_pending_penalty m.penalty_status)) [
    | inl f ↦ same-IsSingle db (create_penalty id r now db).1 h (ground arith) (ground arith)
    | inr f ↦ elim (Option-cases (deadline_of now)) [
      | inl g ↦ same-IsSingle db (create_penalty id r now db).1 h (ground arith) (ground arith)
      | inr (d, g) ↦ elim (Option-cases (find id db.merchant_penalties)) [
        | inr (x, k) ↦
            same-IsSingle db (create_penalty id r now db).1 h (ground arith) (ground arith)
        | inl k ↦
            created-IsSingle id r d now m db (create_penalty id r now db).1 h k there f
              (ground arith) (ground arith)
      ]
    ]
  ]
]

appeal_penalty-IsSingle :
    (id merchant_id : ℕ) (content : Text) (now : ℕ) (db : Store)
    → IsSingle db
    → IsSingle (appeal_penalty id merchant_id content now db).1
unfolding appeal_penalty
appeal_penalty-IsSingle id merchant_id content now db h =
    let left = (appeal_penalty id merchant_id content now db).1 in
    elim (Option-cases (find id db.merchant_penalties)) [
      | inl e ↦ same-IsSingle db left h (ground arith) (ground arith)
      | inr (p, here) ↦ elim (Bool-cases (p.merchant_id == merchant_id)) [
        | inr e ↦ same-IsSingle db left h (ground arith) (ground arith)
        | inl e ↦ elim (Bool-cases (is_pending p.status)) [
          | inr f ↦ same-IsSingle db left h (ground arith) (ground arith)
          | inl f ↦ elim (Bool-cases (ltb p.appeal_deadline now)) [
            | inl g ↦ same-IsSingle db left h (ground arith) (ground arith)
            | inr g ↦
                appealed-IsSingle id p content now db left h here f (ground arith) (ground arith)
          ]
        ]
      ]
    ]

execute_penalty-IsSingle :
    (id : ℕ) (p : MerchantPenalty) (now : ℕ) (db : Store)
    → IsSingle db
    → find id db.merchant_penalties ≡ some p
    → is_open p.status ≡ true
    → IsSingle (execute_penalty id p now db).1
unfolding execute_penalty
execute_penalty-IsSingle id p now db h here was_open =
    let left = (execute_penalty id p now db).1 in
    elim (Option-cases (find p.merchant_id db.merchants)) [
      | inl e ↦ same-IsSingle db left h (ground arith) (ground arith)
      | inr (m, there) ↦
          closed-IsSingle id p (close PenaltyStatus.executed now) (punish p.action now) m db left h
            here was_open refl there (ground arith) (ground arith)
    ]

dismiss_penalty-IsSingle :
    (id : ℕ) (p : MerchantPenalty) (now : ℕ) (db : Store)
    → IsSingle db
    → find id db.merchant_penalties ≡ some p
    → is_open p.status ≡ true
    → IsSingle (dismiss_penalty id p now db).1
dismiss_penalty-IsSingle id p now db h here was_open =
    let left = (dismiss_penalty id p now db).1 in
    elim (Option-cases (find p.merchant_id db.merchants)) [
      | inl e ↦
          shut-IsSingle id p (close PenaltyStatus.dismissed now) db left h here refl (ground arith)
            (ground arith)
      | inr (m, there) ↦
          closed-IsSingle id p (close PenaltyStatus.dismissed now) clear_merchant m db left h here
            was_open refl there (ground arith) (ground arith)
    ]

process_appeal-IsSingle :
    (id : ℕ) (dismissed : Bool) (now : ℕ) (db : Store)
    → IsSingle db
    → IsSingle (process_appeal id dismissed now db).1
unfolding process_appeal
process_appeal-IsSingle id dismissed now db h =
    let left = (process_appeal id dismissed now db).1 in
    elim (Option-cases (find id db.merchant_penalties)) [
      | inl e ↦ same-IsSingle db left h (ground arith) (ground arith)
      | inr (p, here) ↦ elim (Bool-cases (is_open p.status)) [
        | inr f ↦ same-IsSingle db left h (ground arith) (ground arith)
        | inl f ↦ elim (Bool-cases dismissed) [
          | inl d ↦
              let run = dismiss_penalty id p now db in
              let step = dismiss_penalty-IsSingle id p now db h here f in
              elim (Result-cases run.0) [
                | inl (u, g) ↦ same-IsSingle run.1 left step (ground arith) (ground arith)
                | inr (x, g) ↦ same-IsSingle run.1 left step (ground arith) (ground arith)
              ]
          | inr d ↦
              let run = execute_penalty id p now db in
              let step = execute_penalty-IsSingle id p now db h here f in
              elim (Result-cases run.0) [
                | inl (u, g) ↦ same-IsSingle run.1 left step (ground arith) (ground arith)
                | inr (x, g) ↦ same-IsSingle run.1 left step (ground arith) (ground arith)
              ]
        ]
      ]
    ]

execute_penalty-AreRows :
    (id : ℕ) (p : MerchantPenalty) (ps : Table MerchantPenalty) (now : ℕ) (db : Store)
    → find id db.merchant_penalties ≡ some p
    → find id ps ≡ none
    → AreRows ps db.merchant_penalties
    → AreRows ps (execute_penalty id p now db).1.merchant_penalties
unfolding execute_penalty
execute_penalty-AreRows id p ps now db here once rows =
    let left = (execute_penalty id p now db).1.merchant_penalties in
    elim (Option-cases (find p.merchant_id db.merchants)) [
      | inl e ↦
          let same : left ≡ db.merchant_penalties = ground arith in
          subst (AreRows ps) (sym same) rows
      | inr (m, there) ↦
          let f = close PenaltyStatus.executed now in
          let same : left ≡ adjust id f db.merchant_penalties = ground arith in
          subst (AreRows ps) (sym same) (adjust-AreRows id f ps db.merchant_penalties once rows)
    ]

execute_each-IsSingle :
    (ps : Table MerchantPenalty) (now : ℕ) (db : Store)
    → IsSingle db
    → AreRows ps db.merchant_penalties
    → IsSingle (execute_each ps now db).1
unfolding execute_each
execute_each-IsSingle [] now db h rows = h
execute_each-IsSingle ((id, p) ∷ ps) now db h (here, once, rows) =
    let run = execute_penalty id p now db in
    elim (Bool-cases (is_pending p.status)) [
      | inr e ↦
          let same : (execute_each ((id, p) ∷ ps) now db).1 ≡ (execute_each ps now db).1 =
            ground arith in
          subst IsSingle (sym same) (execute_each-IsSingle ps now db h rows)
      | inl e ↦
          let same : (execute_each ((id, p) ∷ ps) now db).1 ≡ (execute_each ps now run.1).1 =
            elim (Result-cases run.0) [ inl (u, g) ↦ ground arith | inr (x, g) ↦ ground arith ] in
          subst IsSingle (sym same) (
            execute_each-IsSingle ps now run.1
              (execute_penalty-IsSingle id p now db h here (pending-open p.status e))
              (execute_penalty-AreRows id p ps now db here once rows))
    ]

execute_expired_penalties-IsSingle :
    (now : ℕ) (db : Store) → IsSingle db → IsSingle (execute_expired_penalties now db).1
unfolding execute_expired_penalties
execute_expired_penalties-IsSingle now db h =
    execute_each-IsSingle (find_many (is_expired now) db.merchant_penalties) now db h
      (find_many-AreRows (is_expired now) db.merchant_penalties h.keyed)

-- The calls that change penalties.
pub data Call : Type 0 where
  create : ℕ → PenaltyRequest → ℕ → Call
  appeal : ℕ → ℕ → Text → ℕ → Call
  process : ℕ → Bool → ℕ → Call
  timer : ℕ → Call

abbrev pub perform : Call → Store → Store
perform (Call.create id r now) db = (create_penalty id r now db).1
perform (Call.appeal id merchant_id content now) db =
    (appeal_penalty id merchant_id content now db).1
perform (Call.process id dismissed now) db = (process_appeal id dismissed now db).1
perform (Call.timer now) db = (execute_expired_penalties now db).1

abbrev pub perform_all : List Call → Store → Store
perform_all [] db = db
perform_all (c ∷ cs) db = perform_all cs (perform c db)

perform-IsSingle : (c : Call) (db : Store) → IsSingle db → IsSingle (perform c db)
perform-IsSingle (Call.create id r now) db h = create_penalty-IsSingle id r now db h
perform-IsSingle (Call.appeal id merchant_id content now) db h =
    appeal_penalty-IsSingle id merchant_id content now db h
perform-IsSingle (Call.process id dismissed now) db h =
    process_appeal-IsSingle id dismissed now db h
perform-IsSingle (Call.timer now) db h = execute_expired_penalties-IsSingle now db h

-- If every merchant has one open penalty (PENDING or APPEALED) at most, and only while it is marked
-- PENDING_PENALTY, and the identifiers of penalties are distinct, this is so after any sequence of
-- created penalties, appeals, decisions and runs of the timer, the refused ones among them.
pub perform_all-IsSingle :
    (cs : List Call) (db : Store) → IsSingle db → IsSingle (perform_all cs db)
perform_all-IsSingle [] db h = h
perform_all-IsSingle (c ∷ cs) db h =
    perform_all-IsSingle cs (perform c db) (perform-IsSingle c db h)
