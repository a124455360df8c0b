-- ===== src/Trade/Counts.antt =====
-- Counting the cards of an order before and after an update that changes no key.
use winmelon_card.Base.{
  ℕ, ◌≡◌, refl, ◌∙◌, ap, Bool, none, some, List, [], ◌∷◌, arith, includes, ==_iff, ==_refl,
}
use winmelon_card.Base.Table.{Table, find, update_many, count, IsKeyed}
use winmelon_card.Schema.{StockCard, Product, OrderItem}
use winmelon_card.Order.{CreateOrderItem, keys, select_cards, set_locked}
use winmelon_card.Order.Cards.{Takes, nothing, next}

module _ {A : Type 0} where
  pub keys-update_many :
      (p : ℕ → A → Bool) (f : A → A) (t : Table A) → keys (update_many p f t) ≡ keys t
  keys-update_many p f [] = refl
  keys-update_many p f ((j, a) ∷ t) = ap (λ ks. j ∷ ks) (keys-update_many p f t)

  keys_absent : (k : ℕ) (t t' : Table A) → keys t' ≡ keys t → find k t ≡ none → find k t' ≡ none
  keys_absent k [] [] same h = refl
  keys_absent k [] ((i, b) ∷ t') same h = absurd (ground arith)
  keys_absent k ((j, a) ∷ t) [] same h = refl
  keys_absent k ((j, a) ∷ t) ((i, b) ∷ t') same h =
      ground (arith, keys_absent k t t' (ground arith))

  -- Tables with the same keys, whose rows pass two tests alike.
  pub count_alike :
      (p q : ℕ → A → Bool) (t t' : Table A)
      → IsKeyed t
      → keys t' ≡ keys t
      → ((k : ℕ) (a b : A) → find k t ≡ some a → find k t' ≡ some b → q k b ≡ p k a)
      → count q t' ≡ count p t
  count_alike p q [] [] keyed same h = refl
  count_alike p q [] ((i, b) ∷ t') keyed same h = absurd (ground arith)
  count_alike p q ((j, a) ∷ t) [] keyed same h = absurd (ground arith)
  count_alike p q ((j, a) ∷ t) ((i, b) ∷ t') (fresh, keyed) same h =
      let one : i ≡ j = ground arith in
      let gone = keys_absent j t t' (ground arith) fresh in
      let here = h j a b (ground (arith, ==_refl j)) (ground (arith, ==_refl j)) in
      let rest =
        count_alike p q t t' keyed (ground arith)
          (λ k c d e f. h k c d (ground (arith, ==_iff j k)) (ground (arith, ==_iff i k))) in
      ground (arith, here, rest)

-- Taking cards changes no key.
pub Takes-keys :
    (products : Table Product) {is : List CreateOrderItem} {t t' : Table StockCard} {ids : List ℕ}
    {rows : List OrderItem}
    → Takes products is t ids rows t'
    → keys t' ≡ keys t
Takes-keys products nothing = refl
Takes-keys products {is = i ∷ is} {t = t} (next p e enough rest) =
    let sel = select_cards i.product_id i.quantity t in
    Takes-keys products rest ∙ keys-update_many (λ j b. includes sel j) set_locked t
