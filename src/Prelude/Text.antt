-- ===== src/Prelude/Text.antt =====
-- What the program uses of Go's `strings` package, over texts as sequences of code points.
use mathlib.Core.List.{List, [], ◌∷◌}
use Prim.Native.Nat.{ℕ, zero, suc, ◌+◌, ◌/◌, ◌%◌}
use Prim.Native.Char.{Char, code}
use Prim.Native.String.{String, ◌++◌}
use mathlib.Core.Bool.{Bool, true, false, ◌&&◌, ◌||◌}
use mathlib.Core.Logic.{inl, inr}
use mathlib.Core.Option.{Option, none, some, some-injective}
use mathlib.Core.Path.{◌≡◌, refl, ap}
use text.Mathlib.TextEquality.{Char-path}
use text.Mathlib.TextLemmas.{nil-append, cons-append}
use market_data_backend.Prelude.Tests.{leb, ltb, nat_eq, nat_eq_iff, if◌then◌else◌, Bool-cases}

-- `unicode.IsSpace`.
unfoldable pub is_space : ℕ → Bool
is_space c =
    (leb 9 c && leb c 13)
    || nat_eq c 32
    || nat_eq c 0x85
    || nat_eq c 0xa0
    || nat_eq c 0x1680
    || (leb 0x2000 c && leb c 0x200a)
    || nat_eq c 0x2028
    || nat_eq c 0x2029
    || nat_eq c 0x202f
    || nat_eq c 0x205f
    || nat_eq c 0x3000

unfoldable pub trim_left : String → String
trim_left String.[] = String.[]
trim_left (String.◌∷◌ c s) =
    let rest = trim_left s in if is_space (code c) then rest else String.◌∷◌ c s

abbrev pub is_empty : String → Bool
is_empty String.[] = true
is_empty (String.◌∷◌ c s) = false

unfoldable pub trim_right : String → String
trim_right String.[] = String.[]
trim_right (String.◌∷◌ c s) =
    let rest = trim_right s in
    if is_empty rest && is_space (code c) then String.[] else String.◌∷◌ c rest

-- `strings.TrimSpace`.
unfoldable pub trim_space : String → String
unfolding is_space trim_left trim_right
trim_space s = trim_right (trim_left s)

-- The order of `sort.Strings`. Go compares bytes; UTF-8 keeps the order of code points.
unfoldable pub str_leb : String → String → Bool
str_leb String.[] t = true
str_leb (String.◌∷◌ c s) String.[] = false
str_leb (String.◌∷◌ c s) (String.◌∷◌ d t) =
    ltb (code c) (code d) || (nat_eq (code c) (code d) && str_leb s t)

-- `strings.HasPrefix` and `strings.TrimPrefix` in one: the text behind a prefix.
unfoldable pub strip_prefix : String → String → Option String
strip_prefix String.[] s = some s
strip_prefix (String.◌∷◌ c p) String.[] = none
strip_prefix (String.◌∷◌ c p) (String.◌∷◌ d s) =
    if nat_eq (code c) (code d) then strip_prefix p s else none

pub strip_prefix-append : (p s : String) → strip_prefix p (p ++ s) ≡ some s
unfolding strip_prefix
strip_prefix-append String.[] s = rw nil-append
strip_prefix-append (String.◌∷◌ c p) s =
    let same = (nat_eq_iff (code c) (code c)).1 refl in
    rw cons-append (rw (same, strip_prefix) (strip_prefix-append p s))

pub append-strip_prefix : (p s t : String) → strip_prefix p s ≡ some t → s ≡ p ++ t
unfolding strip_prefix
append-strip_prefix String.[] s t h = rw nil-append (some-injective s t h)
append-strip_prefix (String.◌∷◌ c p) String.[] t h = cc
append-strip_prefix (String.◌∷◌ c p) (String.◌∷◌ d s) t h =
    elim (Bool-cases (nat_eq (code c) (code d))) [
      | inl same ↦
          let e : c ≡ d = Char-path c d ((nat_eq_iff (code c) (code d)).0 same) in
          rw (cons-append, e) (ap (String.◌∷◌ d) (append-strip_prefix p s t (rw same at h)))
      | inr differ ↦ absurd (cc (rw differ at h))
    ]

-- `%q` of a text with nothing to escape.
abbrev pub quoted : String → String
quoted s = "\"" ++ (s ++ "\"")

-- `%d` of an index.
abbrev pick : ℕ → List String → String
pick n [] = ""
pick zero (s ∷ texts) = s
pick (suc n) (s ∷ texts) = pick n texts

abbrev digit : ℕ → String
digit n = pick n ("0" ∷ "1" ∷ "2" ∷ "3" ∷ "4" ∷ "5" ∷ "6" ∷ "7" ∷ "8" ∷ "9" ∷ [])

-- A number has fewer digits than its value plus one, the fuel.
unfoldable pub show_from : ℕ → ℕ → String
show_from zero n = ""
show_from (suc fuel) n =
    let front = show_from fuel (n / 10) in if ltb n 10 then digit n else front ++ digit (n % 10)

abbrev pub show_nat : ℕ → String
show_nat n = show_from (n + 1) n

-- `unicode.ToLower` where the lower case is an ASCII letter; a text that differs in other letters
-- is no ASCII text before or after.
abbrev lower : ℕ → ℕ
lower c =
    if leb 65 c && leb c 90
    then c + 32
    else if nat_eq c 0x212a
    then 107
    else if nat_eq c 0x130
    then 105
    else c

-- `strings.ToLower(s) == t` for an ASCII text `t`.
unfoldable pub lowers_to : String → String → Bool
lowers_to String.[] String.[] = true
lowers_to String.[] (String.◌∷◌ d t) = false
lowers_to (String.◌∷◌ c s) String.[] = false
lowers_to (String.◌∷◌ c s) (String.◌∷◌ d t) = nat_eq (lower (code c)) (code d) && lowers_to s t

abbrev pub into_first : Char → List String → List String
into_first d [] = String.◌∷◌ d String.[] ∷ []
into_first d (part ∷ more) = String.◌∷◌ d part ∷ more

-- `strings.Split(s, ",")`.
unfoldable pub split_commas : String → List String
split_commas String.[] = String.[] ∷ []
split_commas (String.◌∷◌ c s) =
    let parts = split_commas s in
    if nat_eq (code c) 44 then String.[] ∷ parts else into_first c parts

-- `strings.Join(texts, ",")`.
unfoldable pub join_commas : List String → String
join_commas [] = ""
join_commas (s ∷ []) = s
join_commas (s ∷ t ∷ texts) = s ++ ("," ++ join_commas (t ∷ texts))

-- `prefix + s`.
abbrev pub prefixed : String → String → String
prefixed prefix s = prefix ++ s
