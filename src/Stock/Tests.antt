-- ===== src/Stock/Tests.antt =====
-- The stock of the sample shop.
use winmelon_card.Base.{ℕ, ◌≡◌, refl, ◌+◌, Bool, Option, none, some, List, [], ◌∷◌}
use winmelon_card.Base.Text.{Text, trim}
use winmelon_card.Base.Table.{find}
use winmelon_card.Base.Result.{ok, err, conflict, bad_status}
use winmelon_card.Schema.{OrderStatus, StockCard, StockCardStatus}
use winmelon_card.Schema.Store.{Store}
use winmelon_card.Sample.{ordered, market, card}
use winmelon_card.Stock.{import_csv, import_from_excel, new_card}
use winmelon_card.Stock.Cards.{batch_lock, batch_delete, delete, reveal, stats}
use winmelon_card.Stock.Removal.{Removal, remove_all, remove_all-held}
use winmelon_card.Stock.Unlock.{batch_delete-batch_lock}
use winmelon_card.Stock.Distinct.{IsDistinct}
use winmelon_card.Stock.Unique.{Import, import_all, import_all-IsDistinct}

-- A hash without collisions on texts of one character, and a cipher that fails on the empty text.
abbrev sha256 : Text → ℕ
sha256 [] = 0
sha256 (c ∷ s) = c

abbrev encrypt : Text → Option ℕ
encrypt [] = none
encrypt (c ∷ s) = some (1000 + c)

abbrev fresh : ℕ → ℕ
fresh n = 40 + n

-- `A`, an empty line, ` A ` in quotes, `B,C`, and the hash 9 that is in stock.
abbrev csv : Text
csv = 65 ∷ 10 ∷ 10 ∷ 34 ∷ 32 ∷ 65 ∷ 32 ∷ 34 ∷ 13 ∷ 10 ∷ 66 ∷ 44 ∷ 67 ∷ 10 ∷ 68 ∷ []

abbrev shelf : Store
shelf = record market {
  stock_cards = (30, card StockCardStatus.available none) ∷ (31, new_card 20 68 7) ∷ [];
}

import_csv-result :
    (import_csv sha256 encrypt Bool.false fresh (some 1) 20 csv shelf).0
    ≡ ok (record { imported = 2; duplicated = 2; failed = 0; errors = [] })
unfolding import_csv trim
import_csv-result = refl

import_csv-cards :
    (import_csv sha256 encrypt Bool.false fresh (some 1) 20 csv shelf).1.stock_cards
    ≡ (41, new_card 20 66 1066)
      ∷ (40, new_card 20 65 1065)
      ∷ (30, card StockCardStatus.available none)
      ∷ (31, new_card 20 68 7)
      ∷ []
unfolding import_csv trim
import_csv-cards = refl

abbrev sheet : Option (List (ℕ × Text))
sheet = some ((1, 67 ∷ []) ∷ (2, 68 ∷ []) ∷ (3, 69 ∷ []) ∷ (4, 69 ∷ []) ∷ [])

import_from_excel-result :
    (import_from_excel sha256 encrypt Bool.false fresh none 20 sheet shelf).0
    ≡ ok (record { imported = 1; duplicated = 2; failed = 0; errors = [] })
unfolding import_from_excel trim
import_from_excel-result = refl

abbrev imports : List Import
imports =
    Import.from_csv Bool.false fresh (some 1) 20 csv
    ∷ Import.from_csv Bool.true (λ n. 50 + n) none 20 csv
    ∷ Import.from_excel Bool.false (λ n. 60 + n) none 20 sheet
    ∷ []

import_all-IsDistinct_example : IsDistinct (import_all sha256 encrypt imports shelf).stock_cards
import_all-IsDistinct_example =
    import_all-IsDistinct sha256 encrypt imports shelf (refl, (refl, tt))

abbrev sold : Store
sold = ordered OrderStatus.delivered StockCardStatus.sold

abbrev sold_card : StockCard
sold_card = card StockCardStatus.sold (some 50)

delete-sold : (delete (some 1) 30 sold).0 ≡ err (conflict bad_status)
unfolding delete
delete-sold = refl

batch_delete-both : (batch_delete (some 1) (30 ∷ 31 ∷ []) sold).0 ≡ ok 1
unfolding batch_delete
batch_delete-both = refl

abbrev removals : List Removal
removals = Removal.many (some 1) (30 ∷ 31 ∷ []) ∷ Removal.one none 30 ∷ []

remove_all-held_example : find 30 (remove_all removals sold).stock_cards ≡ some sold_card
remove_all-held_example = remove_all-held removals 30 sold sold_card refl refl

batch_lock-30 : (batch_lock (some 1) (30 ∷ []) Bool.false sold).0 ≡ ok 1
unfolding batch_lock
batch_lock-30 = refl

batch_delete-batch_lock_example :
    find 30
      (batch_delete none (30 ∷ []) (batch_lock (some 1) (30 ∷ []) Bool.false sold).1).1.stock_cards
    ≡ none
batch_delete-batch_lock_example =
    batch_delete-batch_lock (some 1) (30 ∷ []) 30 1 sold sold_card batch_lock-30 refl refl

reveal-sold : (reveal (λ z. some (z ∷ [])) (some 1) 30 sold).0 ≡ err (conflict bad_status)
unfolding reveal
reveal-sold = refl

stats-sold :
    (stats (some 1) 20 sold).0
    ≡ ok (record { available = 1; locked = 0; sold = 1; disabled = 0; all = 2 })
unfolding stats
stats-sold = refl
