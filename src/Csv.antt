-- ===== src/Csv.antt =====
-- apps/api/src/modules/stock/stock.service.ts, `parseCsv` and `parseCsvLine`: the first column of a
-- CSV text. Texts are lists of UTF-16 code units.
pub mod Quoted
pub mod Lines
mod Tests
use winmelon_card.Base.{ℕ, Bool, true, false, ◌&&◌, List, [], ◌∷◌, ◌++◌, ◌==◌, if◌then◌else◌}
use winmelon_card.Base.Text.{Text, trim, is_empty}

abbrev pub quote : ℕ
quote = 34

abbrev pub comma : ℕ
comma = 44

abbrev pub line_feed : ℕ
line_feed = 10

abbrev pub carriage_return : ℕ
carriage_return = 13

-- `replace(/\r\n/g, '\n')`
abbrev pub replace_crlf : Text → Text
replace_crlf [] = []
replace_crlf (c ∷ []) = c ∷ []
replace_crlf (c ∷ d ∷ s) = elim (c == carriage_return && d == line_feed) [
  | true ↦ line_feed ∷ replace_crlf s
  | false ↦ c ∷ replace_crlf (d ∷ s)
]

-- `replace(/\r/g, '\n')`
abbrev pub replace_cr : Text → Text
replace_cr [] = []
replace_cr (c ∷ s) = (if c == carriage_return then line_feed else c) ∷ replace_cr s

-- `split('\n')`, with the line that was begun.
abbrev pub split_lines : Text → Text → List Text
split_lines line [] = line ∷ []
split_lines line (c ∷ s) = elim (c == line_feed) [
  | true ↦ line ∷ split_lines [] s
  | false ↦ split_lines (line ++ c ∷ []) s
]

-- The loop of `parseCsvLine`: `current`, `inQuotes`, and the rest of the line.
abbrev pub parse_fields : Text → Bool → Text → List Text
parse_fields current in_quotes [] = current ∷ []
parse_fields current true (c ∷ []) = elim (c == quote) [
  | true ↦ current ∷ []
  | false ↦ (current ++ c ∷ []) ∷ []
]
parse_fields current true (c ∷ d ∷ s) = elim (c == quote) [
  | true ↦ elim (d == quote) [
    | true ↦ parse_fields (current ++ quote ∷ []) true s
    | false ↦ parse_fields current false (d ∷ s)
  ]
  | false ↦ parse_fields (current ++ c ∷ []) true (d ∷ s)
]
parse_fields current false (c ∷ s) = elim (c == comma) [
  | true ↦ current ∷ parse_fields [] false s
  | false ↦ elim (c == quote && is_empty current) [
    | true ↦ parse_fields current true s
    | false ↦ parse_fields (current ++ c ∷ []) false s
  ]
]

-- `parseCsvLine`
abbrev pub parse_csv_line : Text → List Text
parse_csv_line line = parse_fields [] false line

-- `parsed[0]`, '' where there is none.
abbrev pub first_field : List Text → Text
first_field [] = []
first_field (f ∷ fs) = f

-- The loop over the lines.
abbrev pub first_fields : List Text → List Text
first_fields [] = []
first_fields (line ∷ ls) =
    let rest = first_fields ls in
    let first = first_field (parse_csv_line line) in
    if is_empty (trim line) then rest else if is_empty (trim first) then rest else first ∷ rest

-- `parseCsv`
abbrev pub parse_csv : Text → List Text
parse_csv text = first_fields (split_lines [] (replace_cr (replace_crlf text)))
