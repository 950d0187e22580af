-- ===== src/Handlers/Audit/Csv.antt =====
-- src/handlers/audit.rs: the export as a reader of CSV (RFC 4180) takes it apart. Outside quotes a
-- line ends at CR LF, at LF, or at a CR.
use matrix_identity_admin.Prelude.{
  ℕ, List, [], ◌∷◌, ◌++◌, append_assoc, map, Bool, true, false, not, ◌||◌, all, All, any, ◌==◌,
  if◌then◌else◌, Bool-cases, inl, inr, ◌≡◌, refl, ap, ◌∙◌, arith,
}
use matrix_identity_admin.Models.Audit.{AuditLog}
use matrix_identity_admin.Text.{Text, codes, join}
use matrix_identity_admin.Handlers.Audit.{
  double_quotes, csv_escape, csv_fields, csv_line, csv_lines, csv_header, csv_of,
}

-- Where in a field the reader is: before it, in one without or with quotes, or after a quote in it, or
-- after the CR of a line end.
pub data Place : Type 0 where
  start plain quoted quote carriage : Place

pub data Token : Type 0 where
  char : ℕ → Token
  comma newline : Token

abbrev pub lex : Place → Text → List Token
lex place [] = []
lex Place.start (c ∷ cs) =
    let line_end = lex Place.carriage cs in
    let after_quote = lex Place.quoted cs in
    let fresh = lex Place.start cs in
    let more = lex Place.plain cs in
    if c == 34
    then after_quote
    else if c == 44
    then Token.comma ∷ fresh
    else if c == 10
    then Token.newline ∷ fresh
    else if c == 13
    then Token.newline ∷ line_end
    else Token.char c ∷ more
lex Place.plain (c ∷ cs) =
    let line_end = lex Place.carriage cs in
    let fresh = lex Place.start cs in
    let more = lex Place.plain cs in
    if c == 44
    then Token.comma ∷ fresh
    else if c == 10
    then Token.newline ∷ fresh
    else if c == 13
    then Token.newline ∷ line_end
    else Token.char c ∷ more
lex Place.quoted (c ∷ cs) =
    let after = lex Place.quote cs in
    let more = lex Place.quoted cs in if c == 34 then after else Token.char c ∷ more
lex Place.quote (c ∷ cs) =
    let line_end = lex Place.carriage cs in
    let again = lex Place.quoted cs in
    let fresh = lex Place.start cs in
    let more = lex Place.plain cs in
    if c == 34
    then Token.char c ∷ again
    else if c == 44
    then Token.comma ∷ fresh
    else if c == 10
    then Token.newline ∷ fresh
    else if c == 13
    then Token.newline ∷ line_end
    else Token.char c ∷ more
lex Place.carriage (c ∷ cs) =
    let line_end = lex Place.carriage cs in
    let after_quote = lex Place.quoted cs in
    let fresh = lex Place.start cs in
    let more = lex Place.plain cs in
    if c == 10
    then fresh
    else if c == 34
    then after_quote
    else if c == 44
    then Token.comma ∷ fresh
    else if c == 13
    then Token.newline ∷ line_end
    else Token.char c ∷ more

abbrev new_field : List (List Text) → List (List Text)
new_field [] = ([] ∷ []) ∷ []
new_field (fields ∷ rest) = ([] ∷ fields) ∷ rest

abbrev extend_field : ℕ → List (List Text) → List (List Text)
extend_field c [] = ((c ∷ []) ∷ []) ∷ []
extend_field c ([] ∷ rest) = ((c ∷ []) ∷ []) ∷ rest
extend_field c ((field ∷ fields) ∷ rest) = ((c ∷ field) ∷ fields) ∷ rest

-- The records that the tokens make, the fields of each in order.
abbrev pub records : List Token → List (List Text)
records [] = []
records (Token.char c ∷ ts) = extend_field c (records ts)
records (Token.comma ∷ ts) = new_field (records ts)
records (Token.newline ∷ ts) = ([] ∷ []) ∷ records ts

abbrev pub read_csv : Text → List (List Text)
read_csv t = records (lex Place.start t)

-- `csv_escape` quotes a field with a comma, a quote or a LF, and not one that has just a CR: this
-- is a field that the quotes protect, or that needs none.
abbrev pub is_quoted : Text → Bool
is_quoted s = any (λ c. c == 44) s || (any (λ c. c == 34) s || any (λ c. c == 10) s)

abbrev pub is_readable : Text → Bool
is_readable s = is_quoted s || not (any (λ c. c == 13) s)

-- A field ends with a comma or the end of the line.
data Ends : ℕ → Token → Type 0 where
  at_comma : Ends 44 Token.comma
  at_newline : Ends 10 Token.newline

lex_plain :
    (s rest : Text) (e : ℕ) (t : Token)
    → Ends e t
    → (any (λ c. c == 44) s || any (λ c. c == 10) s) ≡ false
    → any (λ c. c == 13) s ≡ false
    → lex Place.plain (s ++ e ∷ rest) ≡ map Token.char s ++ t ∷ lex Place.start rest
lex_plain [] rest _ _ Ends.at_comma h k = refl
lex_plain [] rest _ _ Ends.at_newline h k = refl
lex_plain (c ∷ cs) rest e t ends h k = ground (arith, h, k, lex_plain cs rest e t ends)

lex_quoted :
    (s rest : Text) (e : ℕ) (t : Token)
    → Ends e t
    → lex Place.quoted (double_quotes s ++ 34 ∷ e ∷ rest)
      ≡ map Token.char s ++ t ∷ lex Place.start rest
unfolding double_quotes
lex_quoted [] rest _ _ Ends.at_comma = refl
lex_quoted [] rest _ _ Ends.at_newline = refl
lex_quoted (c ∷ cs) rest e t ends = ground (arith, lex_quoted cs rest e t ends)

lex_start :
    (s rest : Text) (e : ℕ) (t : Token)
    → Ends e t
    → is_quoted s ≡ false
    → any (λ c. c == 13) s ≡ false
    → lex Place.start (s ++ e ∷ rest) ≡ map Token.char s ++ t ∷ lex Place.start rest
lex_start [] rest _ _ Ends.at_comma h k = refl
lex_start [] rest _ _ Ends.at_newline h k = refl
lex_start (c ∷ cs) rest e t ends h k = ground (arith, h, k, lex_plain cs rest e t ends)

lex-csv_escape :
    (s rest : Text) (e : ℕ) (t : Token)
    → Ends e t
    → is_readable s ≡ true
    → lex Place.start (csv_escape s ++ e ∷ rest) ≡ map Token.char s ++ t ∷ lex Place.start rest
unfolding csv_escape
lex-csv_escape s rest e t ends readable = elim (Bool-cases (is_quoted s)) [
  | inl a ↦ rw a (
      ap (λ r. lex Place.quoted r) (append_assoc (double_quotes s) (34 ∷ []) (e ∷ rest))
      ∙ lex_quoted s rest e t ends)
  | inr a ↦ rw a (lex_start s rest e t ends a (ground (arith, a, readable)))
]

records-chars :
    (s : Text) (ts : List Token) (fs : List Text) (rest : List (List Text))
    → records ts ≡ ([] ∷ fs) ∷ rest
    → records (map Token.char s ++ ts) ≡ (s ∷ fs) ∷ rest
records-chars [] ts fs rest h = h
records-chars (c ∷ cs) ts fs rest h = ap (extend_field c) (records-chars cs ts fs rest h)

read_csv-line :
    (f : Text) (fs : List Text) (rest : Text)
    → all is_readable (f ∷ fs) ≡ true
    → read_csv (join (44 ∷ []) (map csv_escape (f ∷ fs)) ++ 10 ∷ rest) ≡ (f ∷ fs) ∷ read_csv rest
unfolding join
read_csv-line f [] rest h =
    ap records (lex-csv_escape f rest 10 Token.newline Ends.at_newline (ground (arith, h)))
    ∙ records-chars f (Token.newline ∷ lex Place.start rest) [] (read_csv rest) refl
read_csv-line f (g ∷ gs) rest h =
    let more = join (44 ∷ []) (map csv_escape (g ∷ gs)) in
    ap read_csv (append_assoc (csv_escape f) (44 ∷ more) (10 ∷ rest))
    ∙ ap records
        (lex-csv_escape f (more ++ 10 ∷ rest) 44 Token.comma Ends.at_comma (ground (arith, h)))
    ∙ records-chars f (Token.comma ∷ lex Place.start (more ++ 10 ∷ rest)) (g ∷ gs) (read_csv rest)
        (ap new_field (read_csv-line g gs rest (ground (arith, h))))

abbrev pub HasReadableFields : AuditLog → Type 0
HasReadableFields log = all is_readable (csv_fields log) ≡ true

read_csv-csv_lines :
    (logs : List AuditLog)
    → All HasReadableFields logs
    → read_csv (csv_lines logs) ≡ map csv_fields logs
unfolding csv_line
read_csv-csv_lines [] h = refl
read_csv-csv_lines (log ∷ logs) (h, hs) =
    ap read_csv
      (append_assoc (join (44 ∷ []) (map csv_escape (csv_fields log))) (10 ∷ []) (csv_lines logs))
    ∙ read_csv-line log.timestamp _ (csv_lines logs) h
    ∙ ap (λ r. csv_fields log ∷ r) (read_csv-csv_lines logs hs)

abbrev pub column_names : List Text
column_names =
    codes "timestamp"
    ∷ codes "admin_username"
    ∷ codes "action"
    ∷ codes "result"
    ∷ codes "target_keycloak_user_id"
    ∷ codes "target_matrix_user_id"
    ∷ []

header_columns : csv_header ≡ join (44 ∷ []) (map csv_escape column_names) ++ 10 ∷ []
unfolding codes csv_escape join
header_columns = refl

readable_columns : all is_readable column_names ≡ true
unfolding codes
readable_columns = refl

-- If each field of the rows that has a CR also has a comma, a quote or a LF, then a reader of CSV,
-- for which a quoted field ends at a quote that no other quote follows, and a line outside quotes
-- ends at CR LF, LF or CR, reads the export as one record with the six column names and then one
-- record for each row, with the six fields as they are stored (a missing id is empty).
pub read_csv-csv_of :
    (logs : List AuditLog)
    → All HasReadableFields logs
    → read_csv (csv_of logs) ≡ column_names ∷ map csv_fields logs
unfolding csv_of
read_csv-csv_of logs h =
    ap (λ t. read_csv (t ++ csv_lines logs)) header_columns
    ∙ ap read_csv
        (append_assoc (join (44 ∷ []) (map csv_escape column_names)) (10 ∷ []) (csv_lines logs))
    ∙ read_csv-line (codes "timestamp") _ (csv_lines logs) readable_columns
    ∙ ap (λ r. column_names ∷ r) (read_csv-csv_lines logs h)
