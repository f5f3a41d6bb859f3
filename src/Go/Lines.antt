-- ===== src/Go/Lines.antt =====
-- `bufio.Scanner` over the lines of a reader.
use go_udap.Prelude.{
  ℕ, ◌≡◌, refl, List, [], ◌∷◌, Option, none, some, ltb, ◌==◌, if◌then◌else◌, length,
}
use go_udap.Prelude.Bytes.{Bytes, codes}

pub data ScanError : Type 0 where
  token_too_long : ScanError
  read_failed : ℕ → ScanError

-- A reader: the bytes that it delivers, and the error that it ends with unless that is `io.EOF`.
pub record Reader : Type 0 where
  pub content : Bytes
  pub failure : Option ScanError

abbrev pub max_scan_token_size : ℕ
max_scan_token_size = 65536

abbrev pub onto_first : ℕ → List Bytes → List Bytes
onto_first c [] = (c ∷ []) ∷ []
onto_first c (line ∷ lines) = (c ∷ line) ∷ lines

-- The lines without their line feeds; there is no line behind the last line feed.
unfoldable pub split_lines : Bytes → List Bytes
split_lines [] = []
split_lines (c ∷ s) = if c == b'\n' then [] ∷ split_lines s else onto_first c (split_lines s)

-- `dropCR`
unfoldable pub drop_cr : Bytes → Bytes
drop_cr [] = []
drop_cr (c ∷ []) = if c == b'\r' then [] else c ∷ []
drop_cr (c ∷ d ∷ s) = c ∷ drop_cr (d ∷ s)

-- The tokens in front of the first line that does not fit the buffer, and how the scan ends.
unfoldable pub fitting : List Bytes → Option ScanError → List Bytes × Option ScanError
fitting [] end = ([], end)
fitting (line ∷ lines) end =
    let (tokens, e) = fitting lines end in
    if ltb (length line) max_scan_token_size
    then (drop_cr line ∷ tokens, e)
    else ([], some token_too_long)

unfoldable pub scan_lines : Reader → List Bytes × Option ScanError
scan_lines r = fitting (split_lines r.content) r.failure

scan_tests :
    scan_lines (record { content = codes "a\r\n\nb"; failure = none })
    ≡ (codes "a" ∷ [] ∷ codes "b" ∷ [], none)
unfolding scan_lines split_lines fitting drop_cr
scan_tests = refl
