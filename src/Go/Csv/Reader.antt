-- ===== src/Go/Csv/Reader.antt =====
-- A reader of CSV as RFC 4180 describes it, one byte at a time, and the lines that it reads back.
use go_udap.Prelude.{
  ℕ, ◌≡◌, refl, ap, ◌∙◌, false, ◌||◌, List, [], ◌∷◌, ◌++◌, ◌==◌, if◌then◌else◌, Bool-cases, inl,
  inr, arith, append_assoc,
}
use go_udap.Prelude.Bytes.{Bytes}
use go_udap.Go.Csv.{
  is_special, any_special, field_needs_quotes, double_quotes, csv_field, more_fields, csv_line,
}

-- Where the reader stands: in front of a field, inside one, inside quotes, or behind a quote there.
pub data Mode : Type 0 where
  start plain quoted closing : Mode

-- What a byte does: it belongs to the field, it is syntax, or it ends a field or a row.
pub data Action : Type 0 where
  keep skip next_field next_row : Action

abbrev separator : ℕ → Action
separator c = if c == b',' then next_field else if c == b'\n' then next_row else keep

unfoldable pub action : Mode → ℕ → Action
action start c = if c == b'"' then skip else separator c
action plain c = separator c
action quoted c = if c == b'"' then skip else keep
action closing c = if c == b'"' then keep else separator c

abbrev after_separator : ℕ → Mode
after_separator c = if (c == b',') || (c == b'\n') then start else plain

unfoldable pub next_mode : Mode → ℕ → Mode
next_mode start c = if c == b'"' then quoted else after_separator c
next_mode plain c = after_separator c
next_mode quoted c = if c == b'"' then closing else quoted
next_mode closing c = if c == b'"' then quoted else after_separator c

abbrev pub Table : Type 0
Table = List (List Bytes)

abbrev onto_field : ℕ → List Bytes → List Bytes
onto_field c [] = (c ∷ []) ∷ []
onto_field c (f ∷ fs) = (c ∷ f) ∷ fs

-- A byte in front of what is read behind it; the first field of the first row is the current one.
unfoldable pub keep_byte : ℕ → Table → Table
keep_byte c [] = ((c ∷ []) ∷ []) ∷ []
keep_byte c (row ∷ rows) = onto_field c row ∷ rows

unfoldable pub new_field : Table → Table
new_field [] = ([] ∷ [] ∷ []) ∷ []
new_field (row ∷ rows) = ([] ∷ row) ∷ rows

unfoldable pub new_row : Table → Table
new_row rows = ([] ∷ []) ∷ rows

unfoldable pub perform : Action → ℕ → Table → Table
unfolding keep_byte new_field new_row
perform keep c t = keep_byte c t
perform skip c t = t
perform next_field c t = new_field t
perform next_row c t = new_row t

unfoldable pub read_from : Mode → Bytes → Table
unfolding action next_mode perform
read_from m [] = []
read_from m (c ∷ s) = perform (action m c) c (read_from (next_mode m c) s)

unfoldable pub read_csv : Bytes → Table
unfolding read_from
read_csv s = read_from start s

-- Bytes in front of the current field.
abbrev keep_all : Bytes → Table → Table
keep_all [] t = t
keep_all (c ∷ s) t = keep_byte c (keep_all s t)

keep_all-new_field :
    (f : Bytes) (row : List Bytes) (rows : Table)
    → keep_all f (new_field (row ∷ rows)) ≡ (f ∷ row) ∷ rows
unfolding keep_byte new_field
keep_all-new_field [] row rows = refl
keep_all-new_field (c ∷ f) row rows = rw (keep_all-new_field f row rows)

keep_all-new_row : (f : Bytes) (rows : Table) → keep_all f (new_row rows) ≡ (f ∷ []) ∷ rows
unfolding keep_byte new_row
keep_all-new_row [] rows = refl
keep_all-new_row (c ∷ f) rows = rw (keep_all-new_row f rows)

-- Bytes that are not special belong to a field without quotes.
plain_byte : (c : ℕ) → is_special c ≡ false → (action plain c ≡ keep) × (next_mode plain c ≡ plain)
unfolding is_special action next_mode
plain_byte c h = (ground arith, ground arith)

start_byte : (c : ℕ) → is_special c ≡ false → (action start c ≡ keep) × (next_mode start c ≡ plain)
unfolding is_special action next_mode
start_byte c h = (ground arith, ground arith)

read_plain :
    (s rest : Bytes)
    → any_special s ≡ false
    → read_from plain (s ++ rest) ≡ keep_all s (read_from plain rest)
unfolding any_special read_from
read_plain [] rest h = refl
read_plain (c ∷ s) rest h =
    let (k, m) = plain_byte c (ground arith) in
    rw (k, m, read_plain s rest (ground arith)) (unfold perform in refl)

-- Inside quotes every byte belongs to the field, a doubled quote as one.
read_quoted :
    (s rest : Bytes)
    → read_from quoted (double_quotes s ++ b'"' ∷ rest) ≡ keep_all s (read_from closing rest)
unfolding double_quotes read_from
read_quoted [] rest = refl
read_quoted (c ∷ s) rest = elim (Bool-cases (c == b'"')) [
  | inl q ↦ rw q (unfold perform in ground (arith, read_quoted s rest))
  | inr q ↦ rw (q, q) (unfold perform in ground (arith, read_quoted s rest))
]

-- What stands behind a field is read the same way at its start, behind it, and behind its quotes.
read_more-plain :
    (fs : List Bytes) (rest : Bytes)
    → read_from start (more_fields fs ++ rest) ≡ read_from plain (more_fields fs ++ rest)
unfolding more_fields read_from action next_mode
read_more-plain [] rest = refl
read_more-plain (f ∷ fs) rest = refl

read_more-closing :
    (fs : List Bytes) (rest : Bytes)
    → read_from closing (more_fields fs ++ rest) ≡ read_from plain (more_fields fs ++ rest)
unfolding more_fields read_from action next_mode
read_more-closing [] rest = refl
read_more-closing (f ∷ fs) rest = refl

read_start-plain :
    (s : Bytes) (fs : List Bytes) (rest : Bytes)
    → any_special s ≡ false
    → read_from start (s ++ (more_fields fs ++ rest))
      ≡ keep_all s (read_from plain (more_fields fs ++ rest))
unfolding any_special
read_start-plain [] fs rest h = read_more-plain fs rest
read_start-plain (c ∷ s) fs rest h =
    let (k, m) = start_byte c (ground arith) in
    unfold read_from perform in rw (k, m, read_plain s (more_fields fs ++ rest) (ground arith)) refl

read_start-quoted :
    (f rest : Bytes)
    → read_from start ((b'"' ∷ (double_quotes f ++ b'"' ∷ [])) ++ rest)
      ≡ keep_all f (read_from closing rest)
unfolding read_from action next_mode perform
read_start-quoted f rest = rw (append_assoc (double_quotes f) (b'"' ∷ []) rest) (read_quoted f rest)

-- A field, with or without quotes.
read_field :
    (f : Bytes) (fs : List Bytes) (rest : Bytes)
    → read_from start (csv_field f ++ (more_fields fs ++ rest))
      ≡ keep_all f (read_from plain (more_fields fs ++ rest))
unfolding csv_field
read_field f fs rest = elim (Bool-cases (field_needs_quotes f)) [
  | inl q ↦
      rw q
        (read_start-quoted f (more_fields fs ++ rest) ∙ ap (keep_all f) (read_more-closing fs rest))
  | inr q ↦ rw q (read_start-plain f fs rest (unfold field_needs_quotes in ground arith))
]

plain-last : (rest : Bytes) → read_from plain (b'\n' ∷ rest) ≡ new_row (read_from start rest)
unfolding read_from action next_mode perform
plain-last rest = refl

plain-more : (rest : Bytes) → read_from plain (b',' ∷ rest) ≡ new_field (read_from start rest)
unfolding read_from action next_mode perform
plain-more rest = refl

read_fields :
    (f : Bytes) (fs : List Bytes) (rest : Bytes)
    → read_from start (csv_field f ++ (more_fields fs ++ rest)) ≡ (f ∷ fs) ∷ read_from start rest
unfolding more_fields
read_fields f [] rest =
    read_field f [] rest
    ∙ ap (keep_all f) (plain-last rest)
    ∙ keep_all-new_row f (read_from start rest)
read_fields f (g ∷ fs) rest =
    read_field f (g ∷ fs) rest
    ∙ rw (append_assoc (csv_field g) (more_fields fs) rest) (
        ap (keep_all f) (plain-more _ ∙ ap new_field (read_fields g fs rest))
        ∙ keep_all-new_field f (g ∷ fs) (read_from start rest))

-- A line that is written is read back, and then what stands behind it.
pub read_from-csv_line :
    (f : Bytes) (fs : List Bytes) (rest : Bytes)
    → read_from start (csv_line (f ∷ fs) ++ rest) ≡ (f ∷ fs) ∷ read_from start rest
unfolding csv_line
read_from-csv_line f fs rest =
    rw (append_assoc (csv_field f) (more_fields fs) rest) (read_fields f fs rest)
