-- ===== src/Cli/Config/Lines.antt =====
-- How the lines of a written parameter list are cut and trimmed again.
use mathlib.Core.List.{reverse, reverse-append, reverse-reverse}
use go_udap.Prelude.{
  ℕ, zero, suc, ◌<◌, ◌≡◌, refl, sym, ◌∙◌, ap, Bool-cases, inl, inr, [], ◌∷◌, ◌++◌, some, false,
  ◌==◌, length, All, arith,
}
use go_udap.Prelude.Bytes.{Bytes}
use go_udap.Go.Utf8.{decode_rune}
use go_udap.Go.Strings.{cut_at}
use go_udap.Go.Space.{is_space, last_rune, trim_left, trim_right, trim_space}
use go_udap.Go.Lines.{split_lines, drop_cr}

-- A visible ASCII character.
abbrev pub IsVisible : ℕ → Type 0
IsVisible c = (32 < c) × (c < 127)

-- A text that begins and ends with a visible ASCII character.
pub record IsEdged (s : Bytes) : Type 0 where
  pub first : ℕ
  pub behind : Bytes
  pub before : Bytes
  pub last : ℕ
  pub from_first : s ≡ first ∷ behind
  pub to_last : s ≡ before ++ last ∷ []
  pub first_visible : IsVisible first
  pub last_visible : IsVisible last

decode_ascii : (c : ℕ) (s : Bytes) → c < 127 → decode_rune c s ≡ (c, 1)
unfolding decode_rune
decode_ascii c [] h = ground arith
decode_ascii c (b ∷ []) h = ground arith
decode_ascii c (b ∷ d ∷ []) h = ground arith
decode_ascii c (b ∷ d ∷ e ∷ s) h = ground arith

visible : (c : ℕ) → IsVisible c → is_space c ≡ false
unfolding is_space
visible c h = ground arith

-- A text whose first and last runes are no white space.
pub record IsTrimmed (s : Bytes) : Type 0 where
  pub first : ℕ
  pub behind : Bytes
  pub before : Bytes
  pub last : ℕ
  pub from_first : s ≡ first ∷ behind
  pub to_last : s ≡ before ++ last ∷ []
  pub starts : is_space (decode_rune first behind).0 ≡ false
  pub ends : is_space (last_rune (last ∷ reverse before)).0 ≡ false

pub starts-visible : (c : ℕ) (s : Bytes) → IsVisible c → is_space (decode_rune c s).0 ≡ false
starts-visible c s h = rw (decode_ascii c s h.1) (visible c h)

pub ends-visible : (c : ℕ) (rev : Bytes) → IsVisible c → is_space (last_rune (c ∷ rev)).0 ≡ false
unfolding last_rune
ends-visible c rev h = ground (arith, visible c h)

pub IsEdged-IsTrimmed : (s : Bytes) → IsEdged s → IsTrimmed s
IsEdged-IsTrimmed s e = record {
  first = e.first;
  behind = e.behind;
  before = e.before;
  last = e.last;
  from_first = e.from_first;
  to_last = e.to_last;
  starts = starts-visible e.first e.behind e.first_visible;
  ends = ends-visible e.last (reverse e.before) e.last_visible;
}

trim_left-kept :
    (n c : ℕ) (s : Bytes) → is_space (decode_rune c s).0 ≡ false → trim_left n (c ∷ s) ≡ c ∷ s
unfolding trim_left
trim_left-kept zero c s h = refl
trim_left-kept (suc n) c s h = rw h refl

trim_right-kept :
    (n c : ℕ) (s : Bytes) → is_space (last_rune (c ∷ s)).0 ≡ false → trim_right n (c ∷ s) ≡ c ∷ s
unfolding trim_right
trim_right-kept zero c s h = refl
trim_right-kept (suc n) c s h = rw h refl

pub reverse_last : (s : Bytes) (c : ℕ) → reverse (s ++ c ∷ []) ≡ c ∷ reverse s
reverse_last s c = reverse-append s (c ∷ [])

pub trim_space-IsTrimmed : (s : Bytes) → IsTrimmed s → trim_space s ≡ s
unfolding trim_space
trim_space-IsTrimmed s e =
    let left : trim_left (length s) s ≡ s =
      ap (trim_left (length s)) e.from_first
      ∙ trim_left-kept (length s) e.first e.behind e.starts
      ∙ sym e.from_first in
    let turned : reverse s ≡ e.last ∷ reverse e.before =
      ap reverse e.to_last ∙ reverse_last e.before e.last in
    let right : trim_right (length s) (reverse s) ≡ reverse s =
      ap (trim_right (length s)) turned
      ∙ trim_right-kept (length s) e.last (reverse e.before) e.ends
      ∙ sym turned in
    ap (λ (l : Bytes). reverse (trim_right (length l) (reverse l))) left
    ∙ ap reverse right
    ∙ reverse-reverse s

pub trim_space-nil : trim_space [] ≡ []
unfolding trim_space trim_left trim_right
trim_space-nil = refl

pub cut_at_lem :
    (sep : ℕ) (k v : Bytes)
    → All (λ c. (c == sep) ≡ false) k
    → cut_at sep (k ++ sep ∷ v) ≡ some (k, v)
unfolding cut_at
cut_at_lem sep [] v h = ground (arith)
cut_at_lem sep (c ∷ k) v (n, h) = ground (arith, cut_at_lem sep k v h)

-- No line feed.
abbrev pub IsLine : Bytes → Type 0
IsLine s = All (λ c. (c == b'\n') ≡ false) s

pub split_lines_lem :
    (line rest : Bytes) → IsLine line → split_lines (line ++ b'\n' ∷ rest) ≡ line ∷ split_lines rest
unfolding split_lines
split_lines_lem [] rest h = refl
split_lines_lem (c ∷ line) rest (n, h) = rw (n, split_lines_lem line rest h) refl

drop_cr_last : (s : Bytes) (c : ℕ) → (c == 13) ≡ false → drop_cr (s ++ c ∷ []) ≡ s ++ c ∷ []
unfolding drop_cr
drop_cr_last [] c h = ground arith
drop_cr_last (a ∷ []) c h = ap (λ t. a ∷ t) (drop_cr_last [] c h)
drop_cr_last (a ∷ b ∷ s) c h = ap (λ t. a ∷ t) (drop_cr_last (b ∷ s) c h)

-- A carriage return is white space.
no_cr : (c : ℕ) (rev : Bytes) → is_space (last_rune (c ∷ rev)).0 ≡ false → (c == 13) ≡ false
unfolding last_rune is_space
no_cr c rev h = elim (Bool-cases (c == 13)) [
  | inl cr ↦ absurd (ground (arith, cr, h))
  | inr other ↦ other
]

pub drop_cr-IsTrimmed : (s : Bytes) → IsTrimmed s → drop_cr s ≡ s
drop_cr-IsTrimmed s e =
    ap drop_cr e.to_last
    ∙ drop_cr_last e.before e.last (no_cr e.last (reverse e.before) e.ends)
    ∙ sym e.to_last
