-- ===== src/Filter/Norm.antt =====
-- internal/filternorm: the normal form of a value, and the comparisons of filters. Go's numeric
-- conversions, the package time and the package reflect are the parameter `Host`.
use amoxtli.Common.{
  ◌≡◌, Bool, true, false, String, Option, none, some, List, [], ◌∷◌, map, ◌==◌, if◌then◌else◌,
  Ordering,
}
use Prim.Native.String.{compare as compare_text}
use amoxtli.Common.Keyed.{Keyed}
use amoxtli.Floats.{Floats}
use amoxtli.Filter.Value.{
  Value, bool, num, str, time, strings, slice, conditions, single, other, value_list, to_values,
  condition_list,
}

pub record Host : Type 1 where
  pub floats : Floats
  -- `float64(n)`
  pub Number : Type 0
  pub to_float : Number → floats.Float
  -- time.Parse with the layout RFC 3339, and Format in UTC with the canonical layout
  pub Time : Type 0
  pub parse_time : String → Option Time
  pub format_time : Time → String
  -- a canonical text parses, to a time that it is the canonical text of
  pub reparse :
      (t : Time)
      → (u : Time) × (parse_time (format_time t) ≡ some u) × (format_time u ≡ format_time t)
  -- values of other types; reflect gives the elements of typed slices and arrays
  pub Other : Type 0
  pub reflect_elements : Other → Option (List (Value Number Time Other))

-- `==` on bool
unfoldable pub same_bool : Bool → Bool → Bool
same_bool true b = b
same_bool false b = if b then false else true

module _ (h : Host) where
  abbrev pub Any : Type 0
  Any = Value h.Number h.Time h.Other

  -- a metadata map; `none` is the nil map
  abbrev pub Metadata : Type 0
  Metadata = Option (Keyed Any)

  unfoldable pub value : Any → Any
  value (time t) = str (h.format_time t)
  value (str s) = str (elim (h.parse_time s) [ none ↦ s | some t ↦ h.format_time t ])
  value v = v

  unfoldable pub elements : Any → Option (List Any)
  elements (slice vs) = some (value_list vs)
  elements (strings ss) = some (map str ss)
  elements (conditions cs) = some (map single (condition_list cs))
  elements (other o) = h.reflect_elements o
  elements v = none

  unfoldable pub normal_entry : Any → Any
  unfolding elements value
  normal_entry v = elim (elements v) [ some es ↦ slice (to_values (map value es)) | none ↦ value v ]

  unfoldable pub normal_entries : Keyed Any → Keyed Any
  unfolding normal_entry
  normal_entries [] = []
  normal_entries ((k, v) ∷ rest) = (k, normal_entry v) ∷ normal_entries rest

  -- Metadata
  unfoldable pub metadata : Metadata → Metadata
  unfolding normal_entries
  metadata none = none
  metadata (some m) = some (normal_entries m)

  -- Float
  unfoldable pub float : Any → Option h.floats.Float
  float (num n) = some (h.to_float n)
  float v = none

  -- Equal, on normal values
  unfoldable pub equal_normal : Any → Any → Bool
  unfolding float same_bool
  equal_normal (num a) b = elim (float b) [
    | some fb ↦ h.floats.same (h.to_float a) fb
    | none ↦ false
  ]
  equal_normal (str s) (str t) = s == t
  equal_normal (bool a) (bool b) = same_bool a b
  equal_normal a b = false

  unfoldable pub equal : Any → Any → Bool
  unfolding equal_normal value
  equal a b = equal_normal (value a) (value b)

  -- Compare, on normal values: none where the pair is not ordered
  unfoldable pub compare_normal : Any → Any → Option Ordering
  unfolding float
  compare_normal (num a) b = elim (float b) [
    | some fb ↦ some (h.floats.cmp (h.to_float a) fb)
    | none ↦ none
  ]
  compare_normal (str s) (str t) = some (compare_text s t)
  compare_normal a b = none

  unfoldable pub compare_values : Any → Any → Option Ordering
  unfolding compare_normal value
  compare_values a b = compare_normal (value a) (value b)
