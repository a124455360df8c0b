-- ===== src/Csv/Tests.antt =====
-- CSV texts.
use winmelon_card.Base.{◌≡◌, refl, List, [], ◌∷◌}
use winmelon_card.Base.Text.{Text, trim}
use winmelon_card.Csv.{parse_csv, parse_csv_line}
use winmelon_card.Csv.Lines.{AreContents, csv_of, parse_csv-csv_of}

-- `A,"b""c",`
parse_csv_line-three :
    parse_csv_line (65 ∷ 44 ∷ 34 ∷ 98 ∷ 34 ∷ 34 ∷ 99 ∷ 34 ∷ 44 ∷ [])
    ≡ (65 ∷ []) ∷ (98 ∷ 34 ∷ 99 ∷ []) ∷ [] ∷ []
parse_csv_line-three = refl

-- A line feed inside quotes ends the line all the same.
parse_csv-break :
    parse_csv (34 ∷ 65 ∷ 13 ∷ 10 ∷ 66 ∷ 34 ∷ 44 ∷ 67 ∷ 13 ∷ 32 ∷ [])
    ≡ (65 ∷ []) ∷ (66 ∷ 34 ∷ []) ∷ []
unfolding trim
parse_csv-break = refl

-- ` ",` and `a`
abbrev contents : List Text
contents = (32 ∷ 34 ∷ 44 ∷ []) ∷ (97 ∷ []) ∷ []

contents-AreContents : AreContents contents
unfolding trim
contents-AreContents = (
  record { feed = refl; return = refl; visible = refl },
  (record { feed = refl; return = refl; visible = refl }, tt),
)

parse_csv-csv_of_example : parse_csv (csv_of contents) ≡ contents
parse_csv-csv_of_example = parse_csv-csv_of contents contents-AreContents
