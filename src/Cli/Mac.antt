-- ===== src/Cli/Mac.antt =====
-- cli/find.go: `normalizeMAC`.
use go_udap.Prelude.{
  ℕ, ◌≡◌, refl, Bool, true, false, ◌&&◌, ◌||◌, [], ◌∷◌, map, Option, none, some, ◌==◌, leb,
  if◌then◌else◌, length,
}
use go_udap.Prelude.Bytes.{Bytes, codes}
use go_udap.Go.Strings.{to_lower}

unfoldable pub is_lower_hex_byte : ℕ → Bool
is_lower_hex_byte c = (leb b'0' c && leb c b'9') || (leb b'a' c && leb c b'f')

-- The characters from one digit pair on: the digits and the colons between them.
unfoldable pub is_colon_form : Bytes → Bool
is_colon_form (h ∷ l ∷ []) = is_lower_hex_byte h && is_lower_hex_byte l
is_colon_form (h ∷ l ∷ c ∷ s) =
    is_lower_hex_byte h && is_lower_hex_byte l && (c == b':') && is_colon_form s
is_colon_form s = false

-- `isLowerColonMAC`
unfoldable pub is_lower_colon_mac : Bytes → Bool
unfolding is_colon_form is_lower_hex_byte
is_lower_colon_mac s = (length s == 17) && is_colon_form s

unfoldable pub all_hex : Bytes → Bool
all_hex [] = true
all_hex (c ∷ s) = is_lower_hex_byte c && all_hex s

-- `isLowerHex12`
unfoldable pub is_lower_hex_12 : Bytes → Bool
unfolding all_hex is_lower_hex_byte
is_lower_hex_12 s = (length s == 12) && all_hex s

-- `strings.ReplaceAll(s, "-", ":")`
unfoldable pub with_colons : Bytes → Bytes
with_colons s = map (λ c. if c == b'-' then b':' else c) s

-- Without the characters `:` and `-`.
unfoldable pub without_separators : Bytes → Bytes
without_separators [] = []
without_separators (c ∷ s) =
    if (c == b':') || (c == b'-') then without_separators s else c ∷ without_separators s

-- The loop that writes a colon in front of every pair but the first.
unfoldable pub join_pairs : Bytes → Bytes
join_pairs (h ∷ l ∷ []) = h ∷ l ∷ []
join_pairs (h ∷ l ∷ s) = h ∷ l ∷ b':' ∷ join_pairs s
join_pairs s = []

-- `normalizeMAC`; `none` is the error. Lower-casing beyond ASCII never gives a hexadecimal digit.
unfoldable pub normalize_mac : Bytes → Option Bytes
normalize_mac [] = none
normalize_mac (c ∷ s) =
    let lower = to_lower (c ∷ s) in
    if is_lower_colon_mac (with_colons lower)
    then some (with_colons lower)
    else if is_lower_hex_12 (without_separators lower)
    then some (join_pairs (without_separators lower))
    else none

normalize_tests :
    (normalize_mac (codes "00-04-20-16-05-8F") ≡ some (codes "00:04:20:16:05:8f"))
    × (normalize_mac (codes "00042016058f") ≡ some (codes "00:04:20:16:05:8f"))
    × (normalize_mac (codes "00:04:20:16:05") ≡ none)
unfolding normalize_mac with_colons is_lower_colon_mac is_lower_hex_12 without_separators join_pairs
    to_lower
normalize_tests = (refl, refl, refl)
