-- ===== src/Go/NetIp/Range.antt =====
-- What the IP parsers return: bytes, and four of them from `To4`.
use mathlib.Core.Path.{subst}
use mathlib.Core.Option.{some-injective}
use go_udap.Prelude.{
  ℕ, zero, suc, ◌+◌, ◌-◌, ◌*◌, ◌/◌, ◌%◌, ◌≡◌, Bool, true, false, [], ◌∷◌, ◌++◌, Option, none, some,
  ltb, ◌==◌, if◌then◌else◌, length, take, drop, replicate, length-drop, arith, All-append, All-take,
  All-drop, inl, inr, ◌⊎◌, ap,
}
use go_udap.Prelude.Bytes.{Bytes, IsByte, AreBytes}
use go_udap.Go.NetIp.{
  v4_fields, hex_group, v6_finish, v6_after, v6_embedded, starts_with_dot, v6_round, v6_loop,
  parse_ipv6, has_zone, v4_address, v6_address, parse_by_first, parse_ip, to4, mapped,
}

-- Every value that an optional result holds consists of bytes.
abbrev Yields : Option Bytes → Type 0
Yields none = Unit
Yields (some s) = AreBytes s

IsByte-cast : (n : ℕ) → IsByte (n % 256)
IsByte-cast n = omega arith

Yields-if : (b : Bool) (x y : Option Bytes) → Yields x → Yields y → Yields (if b then x else y)
Yields-if true x y hx hy = hx
Yields-if false x y hx hy = hy

Yields-none : Yields none
Yields-none = tt

AreBytes-snoc : (s : Bytes) (n : ℕ) → AreBytes s → AreBytes (s ++ (n % 256) ∷ [])
AreBytes-snoc s n h = All-append IsByte s _ h (IsByte-cast n, tt)

v4_fields-Yields :
    (s : Bytes) (val dig : ℕ) (fields : Bytes)
    → AreBytes fields
    → Yields (v4_fields s val dig fields)
unfolding v4_fields
v4_fields-Yields [] val dig fields h =
    Yields-if (length fields == 3) _ none (AreBytes-snoc fields val h) tt
v4_fields-Yields (c ∷ s) val dig fields h =
    let digit = v4_fields-Yields s (val * 10 + (c - b'0')) (dig + 1) fields h in
    let field = v4_fields-Yields s 0 0 (fields ++ (val % 256) ∷ []) (AreBytes-snoc fields val h) in
    search (Yields-if, Yields-none, digit, field) depth 8

replicate_zero : (n : ℕ) → AreBytes (replicate n 0)
replicate_zero zero = tt
replicate_zero (suc n) = (omega arith, replicate_zero n)

ellipsis_bytes :
    (e n : ℕ) (ip : Bytes) → AreBytes ip → AreBytes (take e ip ++ (replicate n 0 ++ drop e ip))
ellipsis_bytes e n ip h =
    All-append IsByte (take e ip) _ (All-take IsByte e ip h)
      (All-append IsByte (replicate n 0) _ (replicate_zero n) (All-drop IsByte e ip h))

v6_finish-Yields : (s ip : Bytes) (e : Option ℕ) → AreBytes ip → Yields (v6_finish s ip e)
unfolding v6_finish
v6_finish-Yields (c ∷ s) ip e h = tt
v6_finish-Yields [] ip none h = Yields-if (ltb (length ip) 16) none (some ip) tt h
v6_finish-Yields [] ip (some e) h =
    Yields-if (ltb (length ip) 16) _ none (ellipsis_bytes e (16 - length ip) ip h) tt

-- What the rest of the loop has to do.
abbrev Continues : (Bytes → Bytes → Option ℕ → Option Bytes) → Type 0
Continues again = (s ip : Bytes) (e : Option ℕ) → AreBytes ip → Yields (again s ip e)

module _ (again : Bytes → Bytes → Option ℕ → Option Bytes) (continues : Continues again) where
  v6_after-Yields : (s ip : Bytes) (e : Option ℕ) → AreBytes ip → Yields (v6_after again s ip e)
  unfolding v6_after
  v6_after-Yields [] ip e h = v6_finish-Yields [] ip e h
  v6_after-Yields (c ∷ []) ip e h = tt
  v6_after-Yields (c ∷ d ∷ []) ip e h =
      let onward = continues (d ∷ []) ip e h in
      let finish = v6_finish-Yields [] ip (some (length ip)) h in
      search (Yields-if, Yields-none, onward, finish) depth 8
  v6_after-Yields (c ∷ d ∷ x ∷ s) ip e h =
      let onward = continues (d ∷ x ∷ s) ip e h in
      let skip = continues (x ∷ s) ip (some (length ip)) h in
      search (Yields-if, Yields-none, onward, skip) depth 8

  v6_tail-Yields :
      (o : Option Bytes) (ip : Bytes) (e : Option ℕ)
      → Yields o
      → AreBytes ip
      → Yields (elim o [ none ↦ none | some v ↦ v6_finish [] (ip ++ v) e ])
  v6_tail-Yields none ip e ho h = tt
  v6_tail-Yields (some v) ip e ho h = v6_finish-Yields [] (ip ++ v) e (All-append IsByte ip v h ho)

  v6_embedded-Yields : (s ip : Bytes) (e : Option ℕ) → AreBytes ip → Yields (v6_embedded s ip e)
  unfolding v6_embedded
  v6_embedded-Yields s ip e h =
      let last = v6_tail-Yields (v4_fields s 0 0 []) ip e (v4_fields-Yields s 0 0 [] tt) h in
      search (Yields-if, Yields-none, last) depth 8

  v6_group-Yields :
      (g : Option (ℕ × ℕ × Bytes)) (s ip : Bytes) (e : Option ℕ)
      → AreBytes ip
      → Yields (elim g [
        | none ↦ none
        | some (acc, off, rest) ↦
            if off == 0
            then none
            else if starts_with_dot rest
            then v6_embedded s ip e
            else v6_after again rest (ip ++ (acc / 256 % 256 ∷ acc % 256 ∷ [])) e
      ])
  v6_group-Yields none s ip e h = tt
  v6_group-Yields (some (acc, off, rest)) s ip e h =
      let quad = v6_embedded-Yields s ip e h in
      let onward =
        v6_after-Yields rest (ip ++ (acc / 256 % 256 ∷ acc % 256 ∷ [])) e
          (All-append IsByte ip _ h (IsByte-cast (acc / 256), (IsByte-cast acc, tt))) in
      search (Yields-if, Yields-none, quad, onward) depth 8

  v6_round-Yields : (s ip : Bytes) (e : Option ℕ) → AreBytes ip → Yields (v6_round again s ip e)
  unfolding v6_round
  v6_round-Yields s ip e h = v6_group-Yields (hex_group s 0 0) s ip e h

v6_loop-Yields : (f : ℕ) → Continues (v6_loop f)
unfolding v6_loop
v6_loop-Yields zero s ip e h = v6_finish-Yields s ip e h
v6_loop-Yields (suc f) s ip e h = v6_round-Yields (v6_loop f) (v6_loop-Yields f) s ip e h

parse_ipv6-Yields : (s : Bytes) → Yields (parse_ipv6 s)
unfolding parse_ipv6
parse_ipv6-Yields (c ∷ d ∷ []) =
    Yields-if _ (some (replicate 16 0)) _ (replicate_zero 16)
      (v6_loop-Yields 8 (c ∷ d ∷ []) [] none tt)
parse_ipv6-Yields (c ∷ d ∷ e ∷ s) =
    Yields-if _ _ _ (v6_loop-Yields 8 (e ∷ s) [] (some 0) tt)
      (v6_loop-Yields 8 (c ∷ d ∷ e ∷ s) [] none tt)
parse_ipv6-Yields s = v6_loop-Yields 8 s [] none tt

v4_mapped-Yields :
    (o : Option Bytes) → Yields o → Yields (elim o [ none ↦ none | some v ↦ some (mapped ++ v) ])
v4_mapped-Yields none h = tt
v4_mapped-Yields (some v) h = All-append IsByte mapped v (omega arith) h

parse_by_first-Yields : (s t : Bytes) → Yields (parse_by_first s t)
unfolding parse_by_first v4_address v6_address
parse_by_first-Yields s [] = tt
parse_by_first-Yields s (c ∷ t) =
    let quad = v4_mapped-Yields (v4_fields s 0 0 []) (v4_fields-Yields s 0 0 [] tt) in
    let six = Yields-if (has_zone s) none (parse_ipv6 s) tt (parse_ipv6-Yields s) in
    let more = parse_by_first-Yields s t in search (Yields-if, Yields-none, quad, six, more) depth 8

Yields-some : (o : Option Bytes) (s : Bytes) → Yields o → o ≡ some s → AreBytes s
Yields-some none s h e = cc
Yields-some (some t) s h e = subst AreBytes (some-injective _ _ e) h

pub parse_ip-AreBytes : (s ip : Bytes) → parse_ip s ≡ some ip → AreBytes ip
unfolding parse_ip
parse_ip-AreBytes s ip e = Yields-some (parse_by_first s s) ip (parse_by_first-Yields s s) e

to4_cases :
    (ip q : Bytes)
    → to4 ip ≡ some q
    → ((ip ≡ q) × (length ip ≡ 4)) ⊎ ((drop 12 ip ≡ q) × (length ip ≡ 16))
unfolding to4
to4_cases ip q e = ground arith

-- The result of `To4` is four of the address's bytes.
pub to4-length : (ip q : Bytes) → AreBytes ip → to4 ip ≡ some q → (length q ≡ 4) × AreBytes q
to4-length ip q h e = elim (to4_cases ip q e) [
  | inl (same, len) ↦ (rw same at len, subst AreBytes same h)
  | inr (cut, len) ↦ (
    omega (arith, ap length cut, length-drop 12 ip),
    subst AreBytes cut (All-drop IsByte 12 ip h),
  )
]
