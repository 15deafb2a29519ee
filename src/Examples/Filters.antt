-- ===== src/Examples/Filters.antt =====
-- Filters over the metadata of one document.
use mathlib.Core.List.{Perm}
use mathlib.Core.List.Perm
use amoxtli.Common.{◌≡◌, refl, true, ℕ, none, some, List, [], ◌∷◌, ◌==◌, if◌then◌else◌}
use amoxtli.Filter.Value.{null, num, str, time, strings, to_conditions, to_values, value_list}
use amoxtli.Filter.Norm.{Host, Metadata, elements, metadata, equal, compare_values}
use amoxtli.Filter.Match.{Cond, Filter, matches, matches_condition}
use amoxtli.Filter.Build.{eq, gt, in_any, has_any, either, exists}
use amoxtli.Filter.Metadata.{matches-metadata}
use amoxtli.Filter.Validate.{validate, valid_key, keys, Explains, invalid_key, validate-Explains}
use amoxtli.Filter.Canonical.{Printer, canonical, canonical_bytes, canonical_of_perm}
use amoxtli.Examples.Scores.{halves}

-- one moment in time, with two spellings
abbrev pub host : Host
host = record {
  floats = halves;
  Number = ℕ;
  to_float = λ n. n;
  Time = Unit {0};
  parse_time = λ s. if s == "noon" then some tt else if s == "12:00" then some tt else none;
  format_time = λ t. "12:00";
  reparse = λ t. (tt, refl, refl);
  Other = Unit {0};
  reflect_elements = λ o. none;
}

abbrev pub stored : Metadata host
stored = some (
    ("author", str "ada")
    ∷ ("pages", num 12)
    ∷ ("tags", strings ("go" ∷ "noon" ∷ []))
    ∷ ("at", time tt)
    ∷ [])

-- written by hand: an author, more than ten pages, and a tag that is a date
abbrev pub wanted : List (Cond host)
wanted = eq "author" (str "ada") ∷ gt "pages" (num 10) ∷ has_any "tags" (str "12:00" ∷ []) ∷ []

found : matches host (to_conditions wanted) stored ≡ true
unfolding matches matches_condition equal compare_values elements eq gt has_any to_conditions
    to_values value_list
found = refl

matches-metadata_example :
    matches host (to_conditions wanted) (metadata host stored)
    ≡ matches host (to_conditions wanted) stored
matches-metadata_example = matches-metadata host (to_conditions wanted) stored

abbrev two : List (Cond host)
two = exists "author" ∷ exists "pages" ∷ []

abbrev swapped : List (Cond host)
swapped = exists "pages" ∷ exists "author" ∷ []

two_swapped : Perm two swapped
two_swapped = Perm.swap (exists "pages") (exists "author") []

-- a key with a space, inside a disjunction
abbrev spaced : Filter host
spaced = to_conditions (either (exists "a b" ∷ []) ∷ [])

validate-Explains_example : Explains (validate spaced) (keys spaced)
validate-Explains_example = validate-Explains spaced

refuses_space : validate spaced ≡ some (invalid_key "a b")
unfolding validate either exists to_conditions valid_key
refuses_space = refl

abbrev pub printer : Printer host
printer = record { quote = λ s. s; format_float = λ x. "1"; show = λ v. "v" }

canonical_of_perm_example :
    (canonical_bytes host printer (to_conditions two)
      ≡ canonical_bytes host printer (to_conditions swapped))
    × (canonical host printer (either two) ≡ canonical host printer (either swapped))
    × (canonical host printer (in_any "author" (null ∷ str "a" ∷ []))
        ≡ canonical host printer (in_any "author" (str "a" ∷ null ∷ [])))
    × (canonical host printer (has_any "author" (null ∷ str "a" ∷ []))
        ≡ canonical host printer (has_any "author" (str "a" ∷ null ∷ [])))
canonical_of_perm_example =
    canonical_of_perm host printer "author" two_swapped (Perm.swap (str "a") null [])
