-- ===== src/Cli/Source/Restore.antt =====
-- Setting what `read` wrote, with flags on top.
use go_udap.Prelude.{
  ◌≡◌, refl, ◌∙◌, ap, Bool, false, ◌||◌, Bool-cases, List, [], ◌∷◌, map, Option, none, some,
  if◌then◌else◌, ok, inl, inr, All, arith,
}
use go_udap.Prelude.Bytes.{Bytes, bytes_eq, bytes_eq_iff}
use go_udap.Prelude.Dict.{Dict, get, copy, or_else, get-copy}
use go_udap.Prelude.Sort.Texts.{insert, sorted}
use go_udap.Go.Strings.{text_lt}
use go_udap.Go.Lines.{Reader}
use go_udap.Cli.Output.{
  as_pair, read_or_empty, is_dropped, filter_read_output, sorted_params, write_text,
}
use go_udap.Cli.Output.Sorted.{keys, as_param, AreDistinct}
use go_udap.Cli.Config.{parse_ini}
use go_udap.Cli.Config.RoundTrip.{IsSettable}
use go_udap.Cli.Config.Backup.{parse_ini-read}
use go_udap.Cli.Source.{SourceInputs, base_layer, merge_sources, some_parameters}

lists : Bytes → List Bytes → Bool
lists k [] = false
lists k (j ∷ js) = bytes_eq j k || lists k js

lists-insert :
    (k x : Bytes) (xs : List Bytes) → lists k (insert text_lt x xs) ≡ (bytes_eq x k || lists k xs)
unfolding lists insert
lists-insert k x [] = refl
lists-insert k x (y ∷ ys) = ground (arith, lists-insert k x ys)

lists-sorted : (k : Bytes) (xs : List Bytes) → lists k (sorted text_lt xs) ≡ lists k xs
unfolding lists sorted
lists-sorted k [] = refl
lists-sorted k (x ∷ xs) = ground (arith, lists-insert k x (sorted text_lt xs), lists-sorted k xs)

-- A list of entries that a function makes of keys.
get-entries :
    (k : Bytes) (f : Bytes → Bytes) (ks : List Bytes)
    → get k (map as_pair (map (λ j. as_param (j, f j)) ks))
      ≡ (if lists k ks then some (f k) else none)
unfolding get lists
get-entries k f [] = refl
get-entries k f (j ∷ ks) = elim (Bool-cases (bytes_eq j k)) [
  | inl same ↦ rw same (ap (λ (i : Bytes). some (f i)) ((bytes_eq_iff j k).0 same))
  | inr other ↦ rw other (get-entries k f ks)
]

lists-keys :
    (k : Bytes) (m : Dict Bytes)
    → (if lists k (keys m) then some (read_or_empty k m) else none) ≡ get k m
unfolding lists get read_or_empty
lists-keys k [] = refl
lists-keys k ((j, v) ∷ m) = ground (arith, lists-keys k m)

-- The sorted list has what the map has.
get-sorted_params : (k : Bytes) (m : Dict Bytes) → get k (map as_pair (sorted_params m)) ≡ get k m
unfolding sorted_params
get-sorted_params k m =
    get-entries k (λ j. read_or_empty j m) (sorted text_lt (keys m))
    ∙ ap (λ (b : Bool). if b then some (read_or_empty k m) else none) (lists-sorted k (keys m))
    ∙ lists-keys k m

merge_sources-file :
    (i : SourceInputs) (file : Reader) (base : Dict Bytes)
    → i.file_content ≡ some file
    → parse_ini file ≡ ok base
    → (merge_sources i).0 ≡ some_parameters (copy (copy [] base) i.flags)
unfolding merge_sources base_layer
merge_sources-file i file base given parsed = ground (arith, given, parsed)

or_else-none : (o : Option Bytes) → or_else o none ≡ o
or_else-none none = refl
or_else-none (some v) = refl

get-copy_empty : (k : Bytes) (m : Dict Bytes) → get k (copy [] m) ≡ get k m
unfolding get
get-copy_empty k m = get-copy k [] m ∙ or_else-none (get k m)

-- What `read` writes.
abbrev pub backup : Dict Bytes → Reader
backup m = record { content = write_text (sorted_params (filter_read_output m)); failure = none }

-- If `set` is given the file that `read` wrote for a device, and flags, then it sets some parameters,
-- or fails for want of any: under every name the flag's value, else the one of the device that the
-- filter keeps. The parameters of the device have different names, and every one that is kept has a
-- canonical name and a value that passes the validation, stands on one line that fits the scanner, and
-- has no white space at its ends.
pub merge_sources-read :
    (m : Dict Bytes) (i : SourceInputs)
    → AreDistinct (keys m)
    → All (λ e. is_dropped e.0 e.1 ≡ false → IsSettable (as_param e)) m
    → i.file_content ≡ some (backup m)
    → (merged : Dict Bytes) × ((merge_sources i).0 ≡ some_parameters merged)
      × ((k : Bytes) → get k merged ≡ or_else (get k i.flags) (get k (filter_read_output m)))
merge_sources-read m i d h given =
    let base = map as_pair (sorted_params (filter_read_output m)) in
    (
      copy (copy [] base) i.flags,
      merge_sources-file i (backup m) base given (parse_ini-read m d h),
      λ k.
          get-copy k (copy [] base) i.flags
          ∙ ap (or_else (get k i.flags))
              (get-copy_empty k base ∙ get-sorted_params k (filter_read_output m)),
    )
