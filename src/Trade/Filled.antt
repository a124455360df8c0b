-- ===== src/Trade/Filled.antt =====
-- An order that waits for its payment or its delivery holds as many LOCKED cards as it sells.
use winmelon_card.Base.{
  ℕ, ◌≤◌, ◌≡◌, ◌≢◌, refl, sym, ◌∙◌, ap, inl, inr, Bool, true, false, ◌||◌, some, List, [], ◌∷◌,
  arith, ◌==◌, if◌then◌else◌, includes, length, Bool-cases, Option-cases, ==_iff, ==_refl,
}
use winmelon_card.Base.Int.{ℤ}
use winmelon_card.Base.Table.{
  Table, find, adjust, update_many, count, IsKeyed, find-update_many-some, find-update_many-back,
  find-adjust-back,
}
use winmelon_card.Schema.{Order, OrderStatus, StockCard, Product}
use winmelon_card.Schema.Store.{Store}
use winmelon_card.Order.{
  CreateOrder, NewOrder, new_order, belongs_to, set_order_id, set_locked, keys,
}
use winmelon_card.Order.Cards.{requested, Takes-length}
use winmelon_card.Order.Placement.{Takes-find, count-free_among}
use winmelon_card.Order.Placed.{IsPlaced}
use winmelon_card.Order.Stock.{Takes-bill}
use winmelon_card.Order.Expiry.{is_pending, pending_row, set_expired, locked_for, set_free}
use winmelon_card.Delivery.{is_paid, paid_row, set_delivered, set_sold, total_quantity}
use winmelon_card.Payment.{set_paid}
use winmelon_card.Trade.Holding.{IsConsistent}
use winmelon_card.Trade.Counts.{count_alike, keys-update_many, Takes-keys}

abbrev pub is_open : OrderStatus → Bool
is_open s = is_pending s || is_paid s

abbrev pub IsFilled : Table Order → Table StockCard → Type 0
IsFilled orders cards =
    (j : ℕ) (o : Order)
    → find j orders ≡ some o
    → is_open o.status ≡ true
    → count (locked_for j) cards ≡ total_quantity o.items

pub paid-IsFilled :
    (id now : ℕ) (o : Order) (orders : Table Order) (cards : Table StockCard)
    → IsFilled orders cards
    → find id orders ≡ some o
    → is_pending o.status ≡ true
    → IsFilled (adjust id (set_paid now) orders) cards
paid-IsFilled id now o orders cards h there pending j a found waits =
    let (b, before, is) = find-adjust-back j id (set_paid now) orders a found in
    elim (Bool-cases (j == id)) [
      | inl same ↦
          let was : find j orders ≡ some o =
            ap (λ x. find x orders) ((==_iff j id).0 same) ∙ there in
          let old = h j b before (ground arith) in ground arith
      | inr other ↦ let old = h j b before (ground arith) in ground arith
    ]

-- The cards of the other orders stay LOCKED for them.
count_others :
    (id j : ℕ) (f : StockCard → StockCard) (cards : Table StockCard)
    → IsKeyed cards
    → j ≢ id
    → ((k : ℕ) (c : StockCard) → locked_for id k c ≡ true → locked_for j k (f c) ≡ false)
    → count (locked_for j) (update_many (locked_for id) f cards) ≡ count (locked_for j) cards
count_others id j f cards keyed other out =
    count_alike (locked_for j) (locked_for j) cards (update_many (locked_for id) f cards) keyed
      (keys-update_many (locked_for id) f cards)
      (λ k a b before after.
        let same = find-update_many-some k (locked_for id) f cards a before in
        elim (Bool-cases (locked_for id k a)) [
          | inl e ↦
              let gone = out k a e in
              elim (Option-cases a.order_id) [
                | inl g ↦ absurd (ground arith)
                | inr (i, g) ↦ ground (arith, ==_iff i id, ==_iff i j)
              ]
          | inr e ↦ ground arith
        ])

pub expired-IsFilled :
    (id : ℕ) (o : Order) (orders : Table Order) (cards : Table StockCard)
    → IsKeyed cards
    → IsFilled orders cards
    → find id orders ≡ some o
    → is_pending o.status ≡ true
    → IsFilled
        (update_many (pending_row id) set_expired orders)
        (update_many (locked_for id) set_free cards)
expired-IsFilled id o orders cards keyed h there pending j a found waits =
    let (b, before, is) = find-update_many-back j (pending_row id) set_expired orders a found in
    elim (Bool-cases (j == id)) [
      | inl same ↦ absurd (ground (arith, ap (λ x. find x orders) ((==_iff j id).0 same)))
      | inr other ↦
          let apart : j ≢ id = ground (arith, ==_iff j id) in
          let old = h j b before (ground arith) in
          let kept = count_others id j set_free cards keyed apart (λ k c e. refl) in ground arith
    ]

pub delivered-IsFilled :
    (id now : ℕ) (o : Order) (orders : Table Order) (cards : Table StockCard)
    → IsKeyed cards
    → IsFilled orders cards
    → find id orders ≡ some o
    → is_paid o.status ≡ true
    → IsFilled
        (update_many (paid_row id) (set_delivered now) orders)
        (update_many (locked_for id) (set_sold now) cards)
delivered-IsFilled id now o orders cards keyed h there paid j a found waits =
    let (b, before, is) =
      find-update_many-back j (paid_row id) (set_delivered now) orders a found in
    elim (Bool-cases (j == id)) [
      | inl same ↦ absurd (ground (arith, ap (λ x. find x orders) ((==_iff j id).0 same)))
      | inr other ↦
          let apart : j ≢ id = ground (arith, ==_iff j id) in
          let old = h j b before (ground arith) in
          let kept = count_others id j (set_sold now) cards keyed apart (λ k c e. ground arith) in
          ground arith
    ]

no_ids : (ids : List ℕ) (t : Table StockCard) → length ids ≡ 0 → count (λ k c. includes ids k) t ≡ 0
no_ids [] [] h = refl
no_ids [] ((k, c) ∷ t) h = ground (arith, no_ids [] t h)
no_ids (i ∷ ids) t h = absurd (ground arith)

locked-belongs_to : (j : ℕ) (t : Table StockCard) → count (locked_for j) t ≤ count (belongs_to j) t
locked-belongs_to j [] = ground arith
locked-belongs_to j ((k, c) ∷ t) = ground (arith, locked-belongs_to j t)

module _ (n : NewOrder) (dto : CreateOrder) (products : Table Product) (now : ℕ) (total : ℤ)
    (db db' : Store) (good : IsConsistent db.orders db.stock_cards)
    (done : IsPlaced n dto products now total db db') where
  placed_keys : keys db'.stock_cards ≡ keys db.stock_cards
  placed_keys =
      ap (λ t. keys t) done.cards_after
      ∙ keys-update_many (λ k c. includes done.ids k) (set_order_id n.order_id) done.locked
      ∙ Takes-keys products done.taking

  placed_card :
      (k : ℕ) (a b : StockCard)
      → find k db.stock_cards ≡ some a
      → find k db'.stock_cards ≡ some b
      → b ≡ (if includes done.ids k then set_order_id n.order_id (set_locked a) else a)
  placed_card k a b before after =
      let (there, free) = Takes-find products k a good.keyed_cards done.taking before in
      let linked =
        find-update_many-some k (λ k c. includes done.ids k) (set_order_id n.order_id) done.locked
          (if includes done.ids k then set_locked a else a) there in
      let same = sym (ap (find k) done.cards_after) ∙ after in
      elim (Bool-cases (includes done.ids k)) [ inl e ↦ ground arith | inr e ↦ ground arith ]

  -- The cards that the new order holds.
  placed_own : count (locked_for n.order_id) db'.stock_cards ≡ requested dto.items
  placed_own =
      let own =
        count_alike (λ k c. includes done.ids k) (locked_for n.order_id) db.stock_cards
          db'.stock_cards good.keyed_cards placed_keys
          (λ k a b before after.
            let is = placed_card k a b before after in
            let fit = good.fitting k a before in
            elim (Bool-cases (includes done.ids k)) [
              | inl e ↦ ground (arith, ==_refl n.order_id)
              | inr e ↦ elim (Option-cases a.order_id) [
                | inl g ↦ ground arith
                | inr (j, g) ↦ ground (arith, ==_iff j n.order_id, done.fresh)
              ]
            ]) in
      let (few, number) = Takes-length products done.taking in
      let least = count-free_among done.ids db.stock_cards in
      let most = locked-belongs_to n.order_id db'.stock_cards in
      elim (Bool-cases (length done.ids == 0)) [
        | inl e ↦ ground (arith, ==_iff (length done.ids) 0, no_ids done.ids db.stock_cards)
        | inr e ↦
            let some_ids : length done.ids ≢ 0 = ground (arith, ==_iff (length done.ids) 0) in
            let one = done.unique in omega (arith, own, few, number, least, most, some_ids, one)
      ]

  -- The cards of the other orders.
  placed_others :
      (j : ℕ)
      → j ≢ n.order_id
      → count (locked_for j) db'.stock_cards ≡ count (locked_for j) db.stock_cards
  placed_others j other =
      count_alike (locked_for j) (locked_for j) db.stock_cards db'.stock_cards good.keyed_cards
        placed_keys
        (λ k a b before after.
          let is = placed_card k a b before after in
          let fit = good.fitting k a before in
          let (there, free) = Takes-find products k a good.keyed_cards done.taking before in
          elim (Bool-cases (includes done.ids k)) [
            | inl e ↦ let unlocked = free e in ground (arith, ==_iff n.order_id j)
            | inr e ↦ ground arith
          ])

  pub placed-IsFilled : IsFilled db.orders db.stock_cards → IsFilled db'.orders db'.stock_cards
  placed-IsFilled h j a found waits =
      let o = new_order n dto done.rows now in
      let there = sym (ap (find j) done.orders_after) ∙ found in
      elim (Bool-cases (n.order_id == j)) [
        | inl same ↦
            let (billed, number) = Takes-bill products done.taking in
            let new : o ≡ a = ground arith in
            ap (λ x. count (locked_for x) db'.stock_cards) (sym ((==_iff n.order_id j).0 same))
            ∙ placed_own
            ∙ sym number
            ∙ ap (λ x. total_quantity x.items) new
        | inr other ↦
            let apart : j ≢ n.order_id = ground (arith, ==_iff n.order_id j) in
            placed_others j apart ∙ h j a (ground arith) waits
      ]
