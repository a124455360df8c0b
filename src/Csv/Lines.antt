-- ===== src/Csv/Lines.antt =====
-- CSV texts of one column.
use winmelon_card.Base.{
  ℕ, ◌≡◌, refl, sym, ◌∙◌, ap, inl, inr, false, List, [], ◌∷◌, ◌++◌, ◌==◌, arith, Bool-cases,
  includes,
}
use mathlib.Core.List.{reverse, reverse-cons, reverse-append}
use winmelon_card.Base.Text.{Text, trim, trim_start, is_empty, is_space}
use winmelon_card.Csv.{
  quote, line_feed, carriage_return, replace_crlf, replace_cr, split_lines, parse_csv_line,
  first_field, first_fields, parse_csv,
}
use winmelon_card.Csv.Quoted.{double_quotes, quoted, assoc, none_after, first_field-quoted}

double_quotes-includes :
    (a : ℕ) (t : Text)
    → (quote == a) ≡ false
    → includes t a ≡ false
    → includes (double_quotes t) a ≡ false
double_quotes-includes a [] q h = refl
double_quotes-includes a (c ∷ t) q h = elim (Bool-cases (c == quote)) [
  | inl e ↦ ground (arith, double_quotes-includes a t q)
  | inr e ↦ ground (arith, double_quotes-includes a t q)
]

includes-append :
    (a : ℕ) (s t : Text) → includes s a ≡ false → includes t a ≡ false → includes (s ++ t) a ≡ false
includes-append a [] t h k = k
includes-append a (c ∷ s) t h k = ground (arith, includes-append a s t)

replace_crlf_none : (s : Text) → includes s carriage_return ≡ false → replace_crlf s ≡ s
replace_crlf_none [] h = refl
replace_crlf_none (c ∷ []) h = refl
replace_crlf_none (c ∷ d ∷ s) h = ground (arith, replace_crlf_none (d ∷ s))

replace_cr_none : (s : Text) → includes s carriage_return ≡ false → replace_cr s ≡ s
replace_cr_none [] h = refl
replace_cr_none (c ∷ s) h = ground (arith, replace_cr_none s)

split_lines-line :
    (line s rest : Text)
    → includes s line_feed ≡ false
    → split_lines line (s ++ line_feed ∷ rest) ≡ (line ++ s) ∷ split_lines [] rest
split_lines-line line [] rest h = ap (λ x. x ∷ split_lines [] rest) (sym (none_after line))
split_lines-line line (c ∷ s) rest h =
    let ih = split_lines-line (line ++ c ∷ []) s rest (ground arith) in
    let here : split_lines line (c ∷ s ++ line_feed ∷ rest)
        ≡ split_lines (line ++ c ∷ []) (s ++ line_feed ∷ rest) =
      ground arith in
    here ∙ ih ∙ ap (λ x. x ∷ split_lines [] rest) (assoc line c s)

-- A text that starts in a character that is not a space is not blank.
trim_start-snoc :
    (s : Text) (c : ℕ) → is_space c ≡ false → (t : Text) × (trim_start (s ++ c ∷ []) ≡ t ++ c ∷ [])
unfolding trim_start
trim_start-snoc [] c h = ([], ground arith)
trim_start-snoc (d ∷ s) c h = elim (Bool-cases (is_space d)) [
  | inl e ↦ let (t, same) = trim_start-snoc s c h in (t, ground arith)
  | inr e ↦ (d ∷ s, ground arith)
]

trim-cons : (c : ℕ) (s : Text) → is_space c ≡ false → is_empty (trim (c ∷ s)) ≡ false
unfolding trim trim_start
trim-cons c s h =
    let (t, same) = trim_start-snoc (reverse s) c h in
    let first : trim_start (c ∷ s) ≡ c ∷ s = ground arith in
    let back : trim (c ∷ s) ≡ c ∷ reverse t =
      ap (λ x. reverse (trim_start (reverse x))) first
      ∙ ap (λ x. reverse (trim_start x)) (reverse-cons c s)
      ∙ ap reverse same
      ∙ reverse-append t (c ∷ []) in
    ap is_empty back

-- What a line can hold: no line break, and not white space alone.
pub record IsContent (t : Text) : Type 0 where
  pub feed : includes t line_feed ≡ false
  pub return : includes t carriage_return ≡ false
  pub visible : is_empty (trim t) ≡ false

abbrev pub AreContents : List Text → Type 0
AreContents [] = Unit
AreContents (t ∷ ts) = IsContent t × AreContents ts

-- A CSV text of one column.
abbrev pub csv_of : List Text → Text
csv_of [] = []
csv_of (t ∷ ts) = quoted t ++ line_feed ∷ csv_of ts

quoted-includes :
    (a : ℕ) (t : Text) → (quote == a) ≡ false → includes t a ≡ false → includes (quoted t) a ≡ false
quoted-includes a t q h =
    let inside =
      includes-append a (double_quotes t) (quote ∷ []) (double_quotes-includes a t q h)
        (ground arith) in
    ground arith

csv_of-includes : (ts : List Text) → AreContents ts → includes (csv_of ts) carriage_return ≡ false
csv_of-includes [] h = refl
csv_of-includes (t ∷ ts) (h, hs) =
    includes-append carriage_return (quoted t) (line_feed ∷ csv_of ts)
      (quoted-includes carriage_return t refl h.return) (ground (arith, csv_of-includes ts hs))

first_fields-cons :
    (line : Text) (ls : List Text)
    → is_empty (trim line) ≡ false
    → is_empty (trim (first_field (parse_csv_line line))) ≡ false
    → first_fields (line ∷ ls) ≡ first_field (parse_csv_line line) ∷ first_fields ls
first_fields-cons line ls h k = ground arith

-- The line after the last line break is empty.
first_fields-end : first_fields ([] ∷ []) ≡ []
unfolding trim
first_fields-end = refl

first_fields-csv_of :
    (ts : List Text) → AreContents ts → first_fields (split_lines [] (csv_of ts)) ≡ ts
first_fields-csv_of [] h = first_fields-end
first_fields-csv_of (t ∷ ts) (h, hs) =
    let ls = split_lines [] (csv_of ts) in
    let field = first_field-quoted t in
    let line = trim-cons quote (double_quotes t ++ quote ∷ []) refl in
    ap first_fields
      (split_lines-line [] (quoted t) (csv_of ts) (quoted-includes line_feed t refl h.feed))
    ∙ first_fields-cons (quoted t) ls line (ap (λ x. is_empty (trim x)) field ∙ h.visible)
    ∙ ap (λ x. x ∷ first_fields ls) field
    ∙ ap (λ x. t ∷ x) (first_fields-csv_of ts hs)

-- Any texts that are not blank and hold no line break are read back, in order, from the CSV text
-- that has each of them on a line of its own in quotes, its own quotes doubled: commas, quotes and
-- spaces at the ends survive.
pub parse_csv-csv_of : (ts : List Text) → AreContents ts → parse_csv (csv_of ts) ≡ ts
parse_csv-csv_of ts h =
    let text = csv_of ts in
    let no_return = csv_of-includes ts h in
    ap (λ x. first_fields (split_lines [] (replace_cr x))) (replace_crlf_none text no_return)
    ∙ ap (λ x. first_fields (split_lines [] x)) (replace_cr_none text no_return)
    ∙ first_fields-csv_of ts h
