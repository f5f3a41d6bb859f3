-- ===== src/Cli/Config/Names.antt =====
-- The names of the parameters on the lines that `ParseINI` reads.
use go_udap.Prelude.{
  ℕ, ◌≡◌, refl, ap, [], ◌∷◌, ◌++◌, Bool, true, false, ◌&&◌, ◌||◌, ◌==◌, ltb, All, arith,
}
use go_udap.Prelude.Bytes.{Bytes}
use go_udap.Udap.Parameters.Table.{Parameter, parameters}
use go_udap.Cli.Config.Lines.{IsVisible, IsEdged, IsLine}

-- The characters of a parameter's name.
abbrev is_name_char : ℕ → Bool
is_name_char c = (ltb 47 c && ltb c 58) || (ltb 64 c && ltb c 127)

is_plain : Bytes → Bool
is_plain [] = true
is_plain (c ∷ s) = is_name_char c && is_plain s

unfoldable pub is_plain_name : Bytes → Bool
unfolding is_plain
is_plain_name [] = false
is_plain_name (c ∷ s) = is_name_char c && is_plain s

unfoldable pub is_plain_entry : Parameter → Bool
unfolding is_plain_name
is_plain_entry p = is_plain_name p.name

pub All-is_plain : All (λ p. is_plain_entry p ≡ true) parameters
unfolding parameters is_plain_entry
All-is_plain = search depth 40

name_IsLine : (s : Bytes) → is_plain s ≡ true → All (λ c. (c == b'=') ≡ false) s × IsLine s
unfolding is_plain
name_IsLine [] h = (tt, tt)
name_IsLine (c ∷ s) h =
    let (e, l) = name_IsLine s (ground arith) in ((ground arith, e), (ground arith, l))

-- What is needed of a plain name.
pub record IsName (s : Bytes) : Type 0 where
  pub edged : IsEdged s
  pub unequal : All (λ c. (c == b'=') ≡ false) s
  pub line : IsLine s
  pub uncommented : ((edged.first == b'#') ≡ false) × ((edged.first == b';') ≡ false)

plain_last :
    (c : ℕ) (s : Bytes)
    → is_name_char c ≡ true
    → is_plain s ≡ true
    → (r : Bytes) × (d : ℕ) × (c ∷ s ≡ r ++ d ∷ []) × IsVisible d
unfolding is_plain
plain_last c [] h k = ([], c, refl, ground arith)
plain_last c (b ∷ s) h k =
    let (r, d, e, v) = plain_last b s (ground arith) (ground arith) in
    (c ∷ r, d, ap (λ t. c ∷ t) e, v)

pub plain-IsName : (s : Bytes) → is_plain_name s ≡ true → IsName s
unfolding is_plain_name
plain-IsName [] h = absurd (ground arith)
plain-IsName (c ∷ s) h =
    let (r, d, e, v) = plain_last c s (ground arith) (ground arith) in
    let (u, l) = name_IsLine (c ∷ s) (unfold is_plain in ground arith) in
    record {
      edged = record {
        first = c;
        behind = s;
        before = r;
        last = d;
        from_first = refl;
        to_last = e;
        first_visible = ground arith;
        last_visible = v;
      };
      unequal = u;
      line = l;
      uncommented = (ground arith, ground arith);
    }
