-- ===== src/Config/Yaml/Settings.antt =====
-- What a setting of the file is read as.
use market_data_backend.Prelude.{
  String, Bool, true, false, List, [], ◌∷◌, Option, none, some, ◌==◌, String_eq, if◌then◌else◌, ◌≡◌,
  refl, ◌∙◌, arith, Option-cases, contains, eq_test_iff, ok,
}
use market_data_backend.Prelude.Map
use market_data_backend.Prelude.Text.{trim_space, trim_left, trim_right, is_empty}
use market_data_backend.Prelude.Int.{ℤ}
use market_data_backend.Config.{Lookup, ConfigError, is_blank, set_value, string_env, parsed_env}
use market_data_backend.Config.Yaml.{put, put_entry, put_all, combined}

-- The value that the calls give to a key that no two of them name.
abbrev pub first_set : String → List (String × Option String) → Option String
first_set key [] = none
first_set key ((own, value) ∷ more) = if own == key then value else first_set key more

abbrev pub distinct_keys : List (String × Option String) → Bool
distinct_keys [] = true
distinct_keys ((key, value) ∷ more) =
    if contains key (Map.keys more) then false else distinct_keys more

first_set_missing :
    (key : String) (es : List (String × Option String))
    → contains key (Map.keys es) ≡ false
    → first_set key es ≡ none
first_set_missing key [] h = refl
first_set_missing key ((own, value) ∷ more) h = ground (arith, first_set_missing key more)

lookup-put_entry :
    (key own : String) (value : Option String) (out : List (String × String))
    → Map.lookup key (put_entry own value out) ≡ (
        if own == key
        then elim value [ none ↦ Map.lookup key out | some v ↦ some v ]
        else Map.lookup key out)
lookup-put_entry key own none out = ground arith
lookup-put_entry key own (some v) out = Map.lookup-insert key own v out

pub lookup-put_all :
    (key : String) (es : List (String × Option String)) (out : List (String × String))
    → distinct_keys es ≡ true
    → Map.lookup key (put_all es out)
      ≡ elim (first_set key es) [ none ↦ Map.lookup key out | some v ↦ some v ]
unfolding put_all
lookup-put_all key [] out d = refl
lookup-put_all key ((own, value) ∷ more) out d =
    lookup-put_all key more (put_entry own value out) (ground arith)
    ∙ ground (
      arith,
      lookup-put_entry key own value out,
      first_set_missing key more,
      eq_test_iff own key,
      Option-cases value,
    )

blank_empty : (v : String) → is_blank v ≡ false → is_empty v ≡ false
unfolding trim_space trim_left trim_right
blank_empty String.[] h = absurd (cc h)
blank_empty (String.◌∷◌ c s) h = refl

set_value_there :
    (lookup : Lookup) (key v : String)
    → lookup key ≡ some v
    → is_blank v ≡ false
    → set_value lookup key ≡ some v
unfolding set_value
set_value_there lookup key v h b = ground arith

set_value_missing :
    (lookup : Lookup) (key : String) → lookup key ≡ none → set_value lookup key ≡ none
unfolding set_value
set_value_missing lookup key h = ground arith

-- The file answers where the environment sets nothing.
combined_file :
    (env : Lookup) (es : List (String × Option String)) (key : String)
    → set_value env key ≡ none
    → distinct_keys es ≡ true
    → combined env (put_all es []) key ≡ first_set key es
unfolding combined Map.lookup
combined_file env es key unset d =
    rw (unset, combined)
      (lookup-put_all key es [] d ∙ ground (arith, Option-cases (first_set key es)))

pub put_filled : (v : String) → is_blank v ≡ false → put v ≡ some v
put_filled v b = rw (blank_empty v b) refl

-- With no setting in the environment, a text of the file that is not blank is read.
pub file_setting :
    (env : Lookup) (es : List (String × Option String)) (key v : String)
    → ((k : String) → set_value env k ≡ none)
    → distinct_keys es ≡ true
    → first_set key es ≡ some v
    → is_blank v ≡ false
    → set_value (combined env (put_all es [])) key ≡ some v
file_setting env es key v unset d f b =
    set_value_there (combined env (put_all es [])) key v
      (combined_file env es key (unset key) d ∙ f) b

-- What the file leaves out is not set.
pub missing_setting :
    (env : Lookup) (es : List (String × Option String)) (key : String)
    → ((k : String) → set_value env k ≡ none)
    → distinct_keys es ≡ true
    → first_set key es ≡ none
    → set_value (combined env (put_all es [])) key ≡ none
missing_setting env es key unset d f =
    set_value_missing (combined env (put_all es [])) key
      (combined_file env es key (unset key) d ∙ f)

-- A printed number is read back.
pub record IsReadBack (parse : String → Option ℤ) (print : ℤ → String) (n : ℤ) : Type 0 where
  pub parsed : parse (trim_space (print n)) ≡ some n
  pub filled : is_blank (print n) ≡ false

pub parsed_setting :
    (lookup : Lookup) (parse : String → Option ℤ) (print : ℤ → String) (error : ConfigError)
    (key : String) (n default_value : ℤ)
    → IsReadBack parse print n
    → set_value lookup key ≡ some (print n)
    → parsed_env parse error lookup key default_value ≡ ok n
unfolding parsed_env
parsed_setting lookup parse print error key n default_value r s = rw (s, parsed_env, r.parsed) refl

pub string_setting :
    (lookup : Lookup) (key v default_value : String)
    → set_value lookup key ≡ some v
    → string_env lookup key default_value ≡ v
unfolding string_env
string_setting lookup key v default_value s = rw (s, string_env) refl
