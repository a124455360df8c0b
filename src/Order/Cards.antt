-- ===== src/Order/Cards.antt =====
-- How many cards a purchase takes: as many as it asks for, all of them different.
use winmelon_card.Base.{
  ltb, subst, sym, ℕ, suc, zero, ap, ◌∙◌, ◌+◌, ◌≤◌, ◌≡◌, refl, inl, inr, Bool, true, ◌&&◌, ◌||◌,
  some, List, [], ◌∷◌, ◌++◌, arith, includes, length, Bool-cases, Option-cases, ==_refl,
  length-append, length-take-le,
}
use winmelon_card.Order.Keys.{query_skip, query_take}
use winmelon_card.Base.Table.{Table, find, find_many, count}
use winmelon_card.Base.Result.{ok, Result-cases, ok_inj}
use winmelon_card.Schema.{StockCard, Product, OrderItem}
use winmelon_card.Schema.Store.{Store}
use winmelon_card.Order.{
  CreateOrderItem, keys, in_stock, select_cards, lock_cards, is_available, order_row, lock_items,
}

-- The quantities of a request, added up.
abbrev pub requested : List CreateOrderItem → ℕ
requested [] = 0
requested (i ∷ is) = i.quantity + requested is

abbrev pub free_among : List ℕ → ℕ → StockCard → Bool
free_among ids id c = is_available c.status && includes ids id

includes-cons : (x : ℕ) (xs : List ℕ) (k : ℕ) → includes xs k ≡ true → includes (x ∷ xs) k ≡ true
includes-cons x xs k h = ground arith

select_many :
    (product_id n : ℕ) (ids : List ℕ) (t : Table StockCard)
    → ((k : ℕ) → includes (select_cards product_id n t) k ≡ true → includes ids k ≡ true)
    → length (select_cards product_id n t) ≤ count (free_among ids) t
select_many product_id zero ids t h = ground arith
select_many product_id (suc n) ids [] h = ground arith
select_many product_id (suc n) ids ((k, c) ∷ t) h = elim (Bool-cases (in_stock product_id k c)) [
  | inr e ↦
      let same = query_skip (in_stock product_id) (suc n) k c t e in
      let rest =
        select_many product_id (suc n) ids t (λ j g. h j (ap (λ xs. includes xs j) same ∙ g)) in
      rw same (ground (arith, rest))
  | inl e ↦
      let same = query_take (in_stock product_id) n k c t e in
      let rest = select_many product_id n ids t (λ j g.
        h j (ap (λ xs. includes xs j) same ∙ includes-cons k (select_cards product_id n t) j g)) in
      let first = h k (ap (λ xs. includes xs k) same ∙ ground (arith, ==_refl k)) in
      rw same (ground (arith, rest, first))
]

pub includes-append :
    (xs ys : List ℕ) (k : ℕ) → includes (xs ++ ys) k ≡ (includes xs k || includes ys k)
includes-append [] ys k = refl
includes-append (x ∷ xs) ys k = ground (arith, includes-append xs ys k)

-- The cards of the first item, and those of the others once the first are locked.
count-append :
    (xs ys : List ℕ) (t : Table StockCard)
    → count (free_among xs) t + count (free_among ys) (lock_cards xs t)
      ≤ count (free_among (xs ++ ys)) t
count-append xs ys [] = ground arith
count-append xs ys ((k, c) ∷ t) = ground (arith, count-append xs ys t, includes-append xs ys k)

-- The loop of the transaction: the cards taken, the rows of the order, the table afterwards.
pub data Takes (products : Table Product)
    : List CreateOrderItem
      → Table StockCard
      → List ℕ
      → List OrderItem
      → Table StockCard
      → Type 0 where
  nothing : {t : Table StockCard} → Takes products [] t [] [] t
  next :
      {i : CreateOrderItem} {is : List CreateOrderItem} {t t' : Table StockCard} {ids : List ℕ}
      {rows : List OrderItem} (p : Product)
      → find i.product_id products ≡ some p
      → i.quantity ≤ length (select_cards i.product_id i.quantity t)
      → Takes products is (lock_cards (select_cards i.product_id i.quantity t) t) ids rows t'
      → Takes products
          (i ∷ is)
          t
          (select_cards i.product_id i.quantity t ++ ids)
          (order_row i p ∷ rows)
          t'

pub lock_items-Takes :
    (is : List CreateOrderItem) (products : Table Product) (db : Store) (ids : List ℕ)
    (rows : List OrderItem)
    → (lock_items is products db).0 ≡ ok (ids, rows)
    → Takes products is db.stock_cards ids rows (lock_items is products db).1.stock_cards
unfolding lock_items
lock_items-Takes [] products db ids rows h =
    subst (λ x. Takes products [] db.stock_cards x.0 x.1 db.stock_cards) (ok_inj h) nothing
lock_items-Takes (i ∷ is) products db ids rows h =
    elim (Option-cases (find i.product_id products)) [
      | inl e ↦ absurd (ground arith)
      | inr (p, e) ↦
          let sel = select_cards i.product_id i.quantity db.stock_cards in
          let locked : Store = record db { stock_cards = lock_cards sel db.stock_cards } in
          elim (Bool-cases (ltb (length sel) i.quantity)) [
            | inl few ↦ absurd (ground arith)
            | inr enough ↦ elim (Result-cases (lock_items is products locked).0) [
              | inr (x, rest) ↦ absurd (ground arith)
              | inl (more, rest) ↦
                  let all : Takes products (i ∷ is) db.stock_cards (sel ++ more.0)
                      (order_row i p ∷ more.1) (lock_items is products locked).1.stock_cards =
                    next p e (ground arith)
                      (lock_items-Takes is products locked more.0 more.1 rest) in
                  let step : lock_items (i ∷ is) products db ≡ (
                    ok (sel ++ more.0, order_row i p ∷ more.1),
                    (lock_items is products locked).1,
                  ) =
                    ground arith in
                  subst (λ x. Takes products (i ∷ is) db.stock_cards ids rows x.1.stock_cards)
                    (sym step)
                    (subst
                      (λ x.
                        Takes products (i ∷ is) db.stock_cards x.0 x.1
                          (lock_items is products locked).1.stock_cards)
                      (ok_inj (sym (ap (λ x. x.0) step) ∙ h)) all)
            ]
          ]
    ]

take_all : (product_id n : ℕ) (t : Table StockCard) → length (select_cards product_id n t) ≤ n
take_all product_id n t = length-take-le n (keys (find_many (in_stock product_id) t))

-- The cards taken are as many as requested, and different rows of the table that were AVAILABLE.
pub Takes-length :
    (products : Table Product) {is : List CreateOrderItem} {t t' : Table StockCard} {ids : List ℕ}
    {rows : List OrderItem}
    → Takes products is t ids rows t'
    → (length ids ≤ count (free_among ids) t) × (length ids ≡ requested is)
Takes-length products nothing = (ground arith, refl)
Takes-length products {is = i ∷ is} {t = t} (next {ids = ids} p e enough rest) =
    let sel = select_cards i.product_id i.quantity t in
    let (few, same) = Takes-length products rest in
    (
      omega (
        arith,
        few,
        select_many i.product_id i.quantity sel t (λ k g. g),
        count-append sel ids t,
        length-append sel ids,
      ),
      omega (arith, same, enough, take_all i.product_id i.quantity t, length-append sel ids),
    )
