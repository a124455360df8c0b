-- ===== src/Csv/Quoted.antt =====
-- Fields in quotes.
use winmelon_card.Base.{
  ℕ, ◌≡◌, refl, sym, ◌∙◌, ap, inl, inr, Bool, true, false, [], ◌∷◌, ◌++◌, ◌==◌, ==_iff, arith,
  Bool-cases,
}
use winmelon_card.Base.Text.{Text}
use winmelon_card.Csv.{quote, comma, parse_fields, parse_csv_line, first_field}

abbrev pub double_quotes : Text → Text
double_quotes [] = []
double_quotes (c ∷ s) = elim (c == quote) [
  | true ↦ quote ∷ quote ∷ double_quotes s
  | false ↦ c ∷ double_quotes s
]

-- `"${t.replace(/"/g, '""')}"`
abbrev pub quoted : Text → Text
quoted t = quote ∷ double_quotes t ++ quote ∷ []

-- What may follow a field in quotes.
abbrev pub ends_field : Text → Bool
ends_field [] = true
ends_field (c ∷ s) = c == comma

pub assoc : (a : Text) (c : ℕ) (b : Text) → (a ++ c ∷ []) ++ b ≡ a ++ c ∷ b
assoc [] c b = refl
assoc (x ∷ a) c b = ap (λ y. x ∷ y) (assoc a c b)

pub none_after : (a : Text) → a ++ [] ≡ a
none_after [] = refl
none_after (x ∷ a) = ap (λ y. x ∷ y) (none_after a)

parse_fields_closed :
    (current rest : Text)
    → ends_field rest ≡ true
    → parse_fields current true (quote ∷ rest) ≡ parse_fields current false rest
parse_fields_closed current [] h = refl
parse_fields_closed current (c ∷ s) h = ground (arith, ==_iff c comma, ==_iff c quote)

parse_fields_plain :
    (current : Text) (c : ℕ) (s : Text)
    → (c == quote) ≡ false
    → parse_fields current true (c ∷ s) ≡ parse_fields (current ++ c ∷ []) true s
parse_fields_plain current c [] h = ground arith
parse_fields_plain current c (d ∷ s) h = ground arith

parse_fields_inside :
    (current t rest : Text)
    → ends_field rest ≡ true
    → parse_fields current true (double_quotes t ++ quote ∷ rest)
      ≡ parse_fields (current ++ t) false rest
parse_fields_inside current [] rest h =
    parse_fields_closed current rest h
    ∙ ap (λ x. parse_fields x false rest) (sym (none_after current))
parse_fields_inside current (c ∷ t) rest h =
    let behind = double_quotes t ++ quote ∷ rest in
    let ih = parse_fields_inside (current ++ c ∷ []) t rest h in
    let shift = ap (λ x. parse_fields x false rest) (assoc current c t) in
    elim (Bool-cases (c == quote)) [
      | inl e ↦
          let is : c ≡ quote = (==_iff c quote).0 e in
          let here : parse_fields current true (double_quotes (c ∷ t) ++ quote ∷ rest)
              ≡ parse_fields (current ++ c ∷ []) true behind =
            ground arith in
          here ∙ ih ∙ shift
      | inr e ↦
          let same : double_quotes (c ∷ t) ++ quote ∷ rest ≡ c ∷ behind = ground arith in
          ap (parse_fields current true) same ∙ parse_fields_plain current c behind e ∙ ih ∙ shift
    ]

-- A field in quotes is read back, whatever follows its comma.
parse_csv_line-quoted :
    (t rest : Text)
    → ends_field rest ≡ true
    → parse_fields [] false (quote ∷ double_quotes t ++ quote ∷ rest) ≡ parse_fields t false rest
parse_csv_line-quoted t rest h = parse_fields_inside [] t rest h

pub first_field-quoted : (t : Text) → first_field (parse_csv_line (quoted t)) ≡ t
first_field-quoted t = ap first_field (parse_csv_line-quoted t [] refl)
