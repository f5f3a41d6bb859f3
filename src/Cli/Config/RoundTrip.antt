-- ===== src/Cli/Config/RoundTrip.antt =====
-- A written parameter list is read back by `ParseINI`.
use mathlib.Core.Path.{subst}
use mathlib.Core.List.{reverse, reverse-append}
use go_udap.Prelude.{
  ℕ, suc, ◌<◌, ◌≡◌, refl, sym, ◌∙◌, ap, List, [], ◌∷◌, ◌++◌, append_assoc, append-nil, map, none,
  some, true, false, ◌==◌, length, All, All-append, arith, ◌⊎◌, inl, inr, ok,
}
use go_udap.Prelude.Bytes.{Bytes, bytes_eq}
use go_udap.Prelude.Dict.{Dict, get, put, get-put, put_fresh}
use go_udap.Go.Strings.{has_prefix, cut_at}
use go_udap.Go.Space.{is_space, last_rune, trim_space}
use go_udap.Go.Space.Ends.{last_rune-append}
use go_udap.Go.Lines.{split_lines, fitting, scan_lines, max_scan_token_size}
use go_udap.Udap.Parameters.Table.{Parameter, parameter_by_name}
use go_udap.Udap.Parameters.Lookup.{parameter_by_name-All}
use go_udap.Udap.Validation.{validate_parameter}
use go_udap.Cli.Config.{Parsed, clashes, parse_entry, parse_line, parse_lines, parse_ini}
use go_udap.Cli.Config.Lines.{
  IsTrimmed, IsLine, IsEdged-IsTrimmed, starts-visible, ends-visible, trim_space-IsTrimmed,
  trim_space-nil, cut_at_lem, split_lines_lem, drop_cr-IsTrimmed,
}
use go_udap.Cli.Output.{IsDistinct, as_pair, ParamValue, param_line, write_text}
use go_udap.Cli.Config.Names.{is_plain_name, is_plain_entry, All-is_plain, IsName, plain-IsName}

-- A pair that `set` takes: its name is the canonical one of a parameter, its value passes the
-- validation, stands on one line, and has no white space at its ends; the line fits the scanner's
-- buffer.
pub record IsSettable (p : ParamValue) : Type 0 where
  pub parameter : Parameter
  pub known : parameter_by_name p.name ≡ some parameter
  pub canonical : parameter.name ≡ p.name
  pub valid : validate_parameter p.name p.value ≡ ok tt
  pub trimmed : (p.value ≡ []) ⊎ IsTrimmed p.value
  pub one_line : IsLine p.value
  pub short : length (param_line p) < max_scan_token_size

settable-IsName : (p : ParamValue) → IsSettable p → IsName p.name
unfolding is_plain_entry
settable-IsName p v = plain-IsName p.name (
    subst (λ s. is_plain_name s ≡ true) v.canonical
      (parameter_by_name-All (λ q. is_plain_entry q ≡ true) p.name v.parameter All-is_plain
        v.known))

-- The line backwards.
reverse-line :
    (name before : Bytes) → reverse (name ++ b'=' ∷ before) ≡ reverse before ++ b'=' ∷ reverse name
reverse-line name before =
    reverse-append name (b'=' ∷ before)
    ∙ ap (λ t. t ++ reverse name) (reverse-append (b'=' ∷ []) before)
    ∙ append_assoc (reverse before) (b'=' ∷ []) (reverse name)

-- The last rune of a value is that of its line.
ends-line :
    (name before : Bytes) (last : ℕ)
    → is_space (last_rune (last ∷ reverse before)).0 ≡ false
    → is_space (last_rune (last ∷ reverse (name ++ b'=' ∷ before))).0 ≡ false
ends-line name before last h =
    ap (λ r. is_space (last_rune (last ∷ r)).0) (reverse-line name before)
    ∙ ap (λ x. is_space x.0) (last_rune-append last (reverse before) (reverse name))
    ∙ h

param_line-IsTrimmed :
    (p : ParamValue) → IsName p.name → (p.value ≡ []) ⊎ IsTrimmed p.value → IsTrimmed (param_line p)
param_line-IsTrimmed p n (inl e) = record {
  first = n.edged.first;
  behind = n.edged.behind ++ b'=' ∷ p.value;
  before = p.name;
  last = b'=';
  from_first = ap (λ t. t ++ b'=' ∷ p.value) n.edged.from_first;
  to_last = ap (λ t. p.name ++ b'=' ∷ t) e;
  starts = starts-visible _ _ n.edged.first_visible;
  ends = ends-visible _ _ (omega arith);
}
param_line-IsTrimmed p n (inr v) = record {
  first = n.edged.first;
  behind = n.edged.behind ++ b'=' ∷ p.value;
  before = p.name ++ b'=' ∷ v.before;
  last = v.last;
  from_first = ap (λ t. t ++ b'=' ∷ p.value) n.edged.from_first;
  to_last =
      ap (λ t. p.name ++ b'=' ∷ t) v.to_last
      ∙ sym (append_assoc p.name (b'=' ∷ v.before) (v.last ∷ []));
  starts = starts-visible _ _ n.edged.first_visible;
  ends = ends-line p.name v.before v.last v.ends;
}

trim_value : (v : Bytes) → (v ≡ []) ⊎ IsTrimmed v → trim_space v ≡ v
trim_value v (inl e) = ap trim_space e ∙ trim_space-nil ∙ sym e
trim_value v (inr e) = trim_space-IsTrimmed v e

parse_entry_new :
    (n : ℕ) (key value : Bytes) (q : Parameter) (seen out : Dict Bytes)
    → parameter_by_name key ≡ some q
    → validate_parameter key value ≡ ok tt
    → get q.name seen ≡ none
    → parse_entry n key value (seen, out) ≡ ok (put q.name key seen, put key value out)
unfolding parse_entry clashes
parse_entry_new n key value q seen out known valid free = ground (arith)

parse_entry-settable :
    (n : ℕ) (p : ParamValue) (seen out : Dict Bytes)
    → IsSettable p
    → get p.name seen ≡ none
    → parse_entry n p.name p.value (seen, out) ≡ ok (put p.name p.name seen, put p.name p.value out)
parse_entry-settable n p seen out v new =
    let free : get v.parameter.name seen ≡ none = ap (λ k. get k seen) v.canonical ∙ new in
    parse_entry_new n p.name p.value v.parameter seen out v.known v.valid free
    ∙ ap (λ k. ok (put k p.name seen, put p.name p.value out)) v.canonical

-- A line behind the trim: not blank, no comment, cut at its first `=`.
unfold_line :
    (n : ℕ) (line k v : Bytes) (c : ℕ) (s : Bytes) (st : Parsed)
    → trim_space line ≡ line
    → line ≡ c ∷ s
    → (c == b'#') ≡ false
    → (c == b';') ≡ false
    → cut_at b'=' line ≡ some (k, v)
    → trim_space k ≡ k
    → trim_space v ≡ v
    → parse_line n line st ≡ parse_entry n k v st
unfolding parse_line has_prefix
unfold_line n line k v c s st t e h1 h2 cut tk tv = rw (t, cut, e, h1, h2, tk, tv) (ground arith)

parse_line-settable :
    (n : ℕ) (p : ParamValue) (seen out : Dict Bytes)
    → IsSettable p
    → get p.name seen ≡ none
    → parse_line n (param_line p) (seen, out) ≡ ok (put p.name p.name seen, put p.name p.value out)
parse_line-settable n p seen out v new =
    let name = settable-IsName p v in
    let line = param_line-IsTrimmed p name v.trimmed in
    unfold_line n (param_line p) p.name p.value name.edged.first
      (name.edged.behind ++ b'=' ∷ p.value) (seen, out) (trim_space-IsTrimmed (param_line p) line)
      (ap (λ t. t ++ b'=' ∷ p.value) name.edged.from_first) name.uncommented.0 name.uncommented.1
      (cut_at_lem b'=' p.name p.value name.unequal)
      (trim_space-IsTrimmed p.name (IsEdged-IsTrimmed p.name name.edged))
      (trim_value p.value v.trimmed)
    ∙ parse_entry-settable n p seen out v new

-- Names that a map does not have.
abbrev IsFresh : Dict Bytes → List ParamValue → Type 0
IsFresh m ps = All (λ p. get p.name m ≡ none) ps

IsFresh-nil : (ps : List ParamValue) → IsFresh [] ps
unfolding get
IsFresh-nil [] = tt
IsFresh-nil (p ∷ ps) = (refl, IsFresh-nil ps)

IsFresh-put :
    (k v : Bytes) (m : Dict Bytes) (ps : List ParamValue)
    → All (λ q. bytes_eq k q.name ≡ false) ps
    → IsFresh m ps
    → IsFresh (put k v m) ps
IsFresh-put k v m [] h f = tt
IsFresh-put k v m (p ∷ ps) (n, h) (g, f) =
    (ground (arith, get-put k p.name v m), IsFresh-put k v m ps h f)

-- The loop over the written lines adds the pairs, in their order.
parse_lines-settable :
    (n : ℕ) (ps : List ParamValue) (seen out : Dict Bytes)
    → All IsSettable ps
    → IsDistinct ps
    → IsFresh seen ps
    → IsFresh out ps
    → (seen' : Dict Bytes) × (parse_lines n (map param_line ps) (seen, out)
        ≡ ok (seen', out ++ map as_pair ps))
unfolding parse_lines
parse_lines-settable n [] seen out v d fs fo =
    (seen, ap (λ (o : Dict Bytes). ok (seen, o)) (sym (append-nil out)))
parse_lines-settable n (p ∷ ps) seen out (v, vs) (d, ds) (gs, fs) (go, fo) =
    let (seen', e) =
      parse_lines-settable (suc n) ps (put p.name p.name seen) (put p.name p.value out) vs ds
        (IsFresh-put p.name p.name seen ps d fs) (IsFresh-put p.name p.value out ps d fo) in
    let step = parse_line-settable n p seen out v gs in
    let ends : put p.name p.value out ++ map as_pair ps ≡ out ++ map as_pair (p ∷ ps) =
      ap (λ m. m ++ map as_pair ps) (put_fresh p.name p.value out go)
      ∙ append_assoc out (as_pair p ∷ []) (map as_pair ps) in
    (seen', ground (arith, step, e, ends))

split-write_text :
    (ps : List ParamValue) → All IsSettable ps → split_lines (write_text ps) ≡ map param_line ps
unfolding write_text split_lines
split-write_text [] h = refl
split-write_text (p ∷ ps) (v, h) =
    let line : IsLine (param_line p) =
      All-append _ p.name (b'=' ∷ p.value) (settable-IsName p v).line (refl, v.one_line) in
    split_lines_lem (param_line p) (write_text ps) line
    ∙ ap (λ ls. param_line p ∷ ls) (split-write_text ps h)

fitting-settable :
    (ps : List ParamValue)
    → All IsSettable ps
    → fitting (map param_line ps) none ≡ (map param_line ps, none)
unfolding fitting
fitting-settable [] h = refl
fitting-settable (p ∷ ps) (v, h) =
    let same =
      drop_cr-IsTrimmed (param_line p) (param_line-IsTrimmed p (settable-IsName p v) v.trimmed) in
    ground (arith, v.short, same, fitting-settable ps h)

-- A written list of settable parameters with different names is read back as the same pairs.
pub parse_ini-write_text :
    (ps : List ParamValue)
    → All IsSettable ps
    → IsDistinct ps
    → parse_ini (record { content = write_text ps; failure = none }) ≡ ok (map as_pair ps)
unfolding parse_ini
parse_ini-write_text ps v d =
    let (seen, e) = parse_lines-settable 1 ps [] [] v d (IsFresh-nil ps) (IsFresh-nil ps) in
    let tokens : scan_lines (record { content = write_text ps; failure = none })
        ≡ (map param_line ps, none) =
      unfold scan_lines in
      (ap (λ ls. fitting ls none) (split-write_text ps v) ∙ fitting-settable ps v) in
    ground (arith, tokens, e)
