-- ===== src/Go/Csv.antt =====
-- `encoding/csv`: `Writer.Write` with the comma as separator and a line feed at the end.
pub mod Reader
use go_udap.Prelude.{
  ℕ, Bool, true, false, ◌||◌, List, [], ◌∷◌, ◌++◌, ◌==◌, ◌≡◌, refl, if◌then◌else◌,
}
use go_udap.Prelude.Bytes.{Bytes, bytes_eq, codes}
use go_udap.Go.Utf8.{decode_rune}
use go_udap.Go.Space.{is_space}

-- A byte that cannot stand in a field without quotes.
unfoldable pub is_special : ℕ → Bool
is_special c = (c == b'\n') || (c == b'\r') || (c == b'"') || (c == b',')

unfoldable pub any_special : Bytes → Bool
unfolding is_special
any_special [] = false
any_special (c ∷ s) = is_special c || any_special s

abbrev starts_with_space : Bytes → Bool
starts_with_space [] = false
starts_with_space (c ∷ s) = is_space (decode_rune c s).0

-- `fieldNeedsQuotes`; an empty field needs none.
unfoldable pub field_needs_quotes : Bytes → Bool
unfolding any_special
field_needs_quotes s = bytes_eq s (codes "\\.") || any_special s || starts_with_space s

-- The contents of a quoted field: a quote is doubled.
unfoldable pub double_quotes : Bytes → Bytes
double_quotes [] = []
double_quotes (c ∷ s) =
    let rest = double_quotes s in if c == b'"' then b'"' ∷ b'"' ∷ rest else c ∷ rest

unfoldable pub csv_field : Bytes → Bytes
unfolding field_needs_quotes double_quotes
csv_field s = if field_needs_quotes s then b'"' ∷ (double_quotes s ++ b'"' ∷ []) else s

-- The fields behind the first one, with the end of the line.
unfoldable pub more_fields : List Bytes → Bytes
more_fields [] = b'\n' ∷ []
more_fields (f ∷ fs) = b',' ∷ (csv_field f ++ more_fields fs)

-- `Write` of a record; one without fields is an empty line.
unfoldable pub csv_line : List Bytes → Bytes
unfolding more_fields
csv_line [] = b'\n' ∷ []
csv_line (f ∷ fs) = csv_field f ++ more_fields fs

csv_test :
    csv_line (codes "a" ∷ codes "x,y" ∷ [] ∷ codes " \"b" ∷ []) ≡ codes "a,\"x,y\",,\" \"\"b\"\n"
unfolding csv_line csv_field bytes_eq decode_rune is_space
csv_test = refl
