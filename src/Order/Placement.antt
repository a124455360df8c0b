-- ===== src/Order/Placement.antt =====
-- What placing an order does to the cards and the orders.
use winmelon_card.Base.{
  ℕ, ◌≤◌, ◌≡◌, refl, inl, inr, Bool, true, none, some, List, [], ◌∷◌, arith, if◌then◌else◌,
  includes, Bool-cases, ==_refl,
}
use winmelon_card.Order.Keys.{query_passes}
use winmelon_card.Base.Table.{
  Table, find, update_many, count, count-update_many, IsKeyed, update_many-IsKeyed,
  find-update_many-some, find-update_many-none,
}
use winmelon_card.Schema.{StockCard, Product, OrderItem}
use winmelon_card.Order.{
  CreateOrderItem, in_stock, select_cards, set_locked, is_available, set_order_id, belongs_to,
}
use winmelon_card.Order.Cards.{Takes, nothing, next, free_among, includes-append}

pub Takes-count :
    (q : ℕ → Bool) (products : Table Product) {is : List CreateOrderItem} {t t' : Table StockCard}
    {ids : List ℕ} {rows : List OrderItem}
    → Takes products is t ids rows t'
    → count (λ k c. q k) t' ≡ count (λ k c. q k) t
Takes-count q products nothing = refl
Takes-count q products {is = i ∷ is} {t = t} (next p e enough rest) = omega (
  arith,
  Takes-count q products rest,
  count-update_many q (λ k c. includes (select_cards i.product_id i.quantity t) k) set_locked t,
)

pub count-free_among :
    (ids : List ℕ) (t : Table StockCard)
    → count (free_among ids) t ≤ count (λ k c. includes ids k) t
count-free_among ids [] = ground arith
count-free_among ids ((k, c) ∷ t) = ground (arith, count-free_among ids t)

pub count-belongs_to :
    (ids : List ℕ) (order_id : ℕ) (t : Table StockCard)
    → count (λ k c. includes ids k) t
      ≤ count (belongs_to order_id) (update_many (λ k c. includes ids k) (set_order_id order_id) t)
count-belongs_to ids order_id [] = ground arith
count-belongs_to ids order_id ((k, c) ∷ t) =
    ground (arith, count-belongs_to ids order_id t, ==_refl order_id)

pub Takes-find :
    (products : Table Product) {is : List CreateOrderItem} {t t' : Table StockCard} {ids : List ℕ}
    {rows : List OrderItem} (k : ℕ) (c : StockCard)
    → IsKeyed t
    → Takes products is t ids rows t'
    → find k t ≡ some c
    → (find k t' ≡ some (if includes ids k then set_locked c else c))
      × (includes ids k ≡ true → is_available c.status ≡ true)
Takes-find products k c keyed nothing here = (here, λ h. absurd (ground arith))
Takes-find products {is = i ∷ is} {t = t} k c keyed (next {ids = ids} p e enough rest) here =
    let sel = select_cards i.product_id i.quantity t in
    let locked = find-update_many-some k (λ j b. includes sel j) set_locked t c here in
    let (after, free) =
      Takes-find products k (if includes sel k then set_locked c else c)
        (update_many-IsKeyed (λ j b. includes sel j) set_locked t keyed) rest locked in
    elim (Bool-cases (includes sel k)) [
      | inl e ↦
          let stocked = query_passes (in_stock i.product_id) i.quantity t k c keyed here e in
          let was : is_available c.status ≡ true = ground arith in
          (ground (arith, includes-append sel ids k), λ h. was)
      | inr e ↦ (
        ground (arith, includes-append sel ids k),
        λ h. ground (arith, includes-append sel ids k),
      )
    ]

-- The cards of the table stay the same ones.
pub Takes-IsKeyed :
    (products : Table Product) {is : List CreateOrderItem} {t t' : Table StockCard} {ids : List ℕ}
    {rows : List OrderItem}
    → IsKeyed t
    → Takes products is t ids rows t'
    → IsKeyed t'
Takes-IsKeyed products keyed nothing = keyed
Takes-IsKeyed products {is = i ∷ is} {t = t} keyed (next p e enough rest) =
    let sel = select_cards i.product_id i.quantity t in
    Takes-IsKeyed products (update_many-IsKeyed (λ j b. includes sel j) set_locked t keyed) rest

pub Takes-absent :
    (products : Table Product) {is : List CreateOrderItem} {t t' : Table StockCard} {ids : List ℕ}
    {rows : List OrderItem} (k : ℕ)
    → find k t ≡ none
    → Takes products is t ids rows t'
    → find k t' ≡ none
Takes-absent products k gone nothing = gone
Takes-absent products {is = i ∷ is} {t = t} k gone (next p e enough rest) =
    let sel = select_cards i.product_id i.quantity t in
    Takes-absent products k (find-update_many-none k (λ j b. includes sel j) set_locked t gone) rest
