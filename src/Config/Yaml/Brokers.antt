-- ===== src/Config/Yaml/Brokers.antt =====
-- The brokers in one text, with commas between them.
use Prim.Native.Char.{code}
use Prim.Native.String.{◌++◌}
use text.Mathlib.TextLemmas.{nil-append, cons-append}
use market_data_backend.Prelude.{
  String, Bool, true, false, not, List, [], ◌∷◌, map, nat_eq, ◌&&◌, ◌≡◌, refl, sym, ap, ◌∙◌, arith,
  All,
}
use market_data_backend.Prelude.Text.{
  is_space, trim_left, trim_right, trim_space, is_empty, split_commas, join_commas,
}
use market_data_backend.Config.{is_blank}

all_spaces : String → Bool
unfolding is_space
all_spaces String.[] = true
all_spaces (String.◌∷◌ c s) = is_space (code c) && all_spaces s

is_empty-trim_right : (s : String) → is_empty (trim_right s) ≡ all_spaces s
unfolding trim_right all_spaces
is_empty-trim_right String.[] = refl
is_empty-trim_right (String.◌∷◌ c s) = ground (arith, is_empty-trim_right s)

all_spaces-trim_left : (s : String) → all_spaces (trim_left s) ≡ all_spaces s
unfolding trim_left all_spaces
all_spaces-trim_left String.[] = refl
all_spaces-trim_left (String.◌∷◌ c s) = ground (arith, all_spaces-trim_left s)

is_blank_lem : (s : String) → is_blank s ≡ all_spaces s
unfolding trim_space
is_blank_lem s = is_empty-trim_right (trim_left s) ∙ all_spaces-trim_left s

all_spaces-append : (s t : String) → all_spaces (s ++ t) ≡ (all_spaces s && all_spaces t)
unfolding all_spaces
all_spaces-append String.[] t = rw nil-append refl
all_spaces-append (String.◌∷◌ c s) t =
    rw (cons-append, all_spaces) (ground (arith, all_spaces-append s t))

-- A text without a comma.
abbrev pub has_no_comma : String → Bool
has_no_comma String.[] = true
has_no_comma (String.◌∷◌ c s) = not (nat_eq (code c) 44) && has_no_comma s

-- A broker as it stands in a list: without commas, not blank, with no spaces around it.
pub record IsBroker (s : String) : Type 0 where
  pub whole : has_no_comma s ≡ true
  pub trimmed : trim_space s ≡ s
  pub filled : is_blank s ≡ false

pub is_blank-join_commas :
    (broker : String) (brokers : List String)
    → is_blank broker ≡ false
    → is_blank (join_commas (broker ∷ brokers)) ≡ false
unfolding join_commas
is_blank-join_commas broker [] h = h
is_blank-join_commas broker (next ∷ brokers) h =
    is_blank_lem (broker ++ ("," ++ join_commas (next ∷ brokers)))
    ∙ all_spaces-append broker ("," ++ join_commas (next ∷ brokers))
    ∙ ap (λ b. b && all_spaces ("," ++ join_commas (next ∷ brokers)))
        (sym (is_blank_lem broker) ∙ h)

split_last : (s : String) → has_no_comma s ≡ true → split_commas s ≡ s ∷ []
unfolding split_commas
split_last String.[] h = refl
split_last (String.◌∷◌ c s) h = ground (arith, split_last s)

is_comma : String → Bool
is_comma (String.◌∷◌ c String.[]) = nat_eq (code c) 44
is_comma _ = false

split_at_comma :
    (sep rest : String) → is_comma sep ≡ true → split_commas (sep ++ rest) ≡ "" ∷ split_commas rest
unfolding split_commas is_comma
split_at_comma String.[] rest h = absurd (cc h)
split_at_comma (String.◌∷◌ c String.[]) rest h = rw (cons-append, nil-append, split_commas, h) refl
split_at_comma (String.◌∷◌ c (String.◌∷◌ d s)) rest h = absurd (cc h)

comma_append : (rest : String) → split_commas ("," ++ rest) ≡ "" ∷ split_commas rest
unfolding is_comma
comma_append rest = split_at_comma "," rest refl

split_next :
    (s rest : String)
    → has_no_comma s ≡ true
    → split_commas (s ++ ("," ++ rest)) ≡ s ∷ split_commas rest
unfolding split_commas
split_next String.[] rest h = rw nil-append (comma_append rest)
split_next (String.◌∷◌ c s) rest h =
    rw (cons-append, split_commas) (ground (arith, split_next s rest))

pub split_commas-join_commas :
    (broker : String) (brokers : List String)
    → All IsBroker (broker ∷ brokers)
    → split_commas (join_commas (broker ∷ brokers)) ≡ broker ∷ brokers
unfolding join_commas
split_commas-join_commas broker [] b = split_last broker b.0.whole
split_commas-join_commas broker (next ∷ brokers) b =
    split_next broker (join_commas (next ∷ brokers)) b.0.whole
    ∙ ap (λ bs. broker ∷ bs) (split_commas-join_commas next brokers b.1)

pub map-trim_space :
    (brokers : List String) → All IsBroker brokers → map trim_space brokers ≡ brokers
map-trim_space [] b = refl
map-trim_space (broker ∷ brokers) b = rw (b.0.trimmed, map-trim_space brokers b.1) refl
