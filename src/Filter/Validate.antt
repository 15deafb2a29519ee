-- ===== src/Filter/Validate.antt =====
-- index/filter.go: Validate, and the keys that it accepts, `^[A-Za-z0-9_-]{1,128}$`.
use Prim.Native.Char.{code}
use amoxtli.Common.{
  ◌≡◌, inl, inr, Bool, true, false, ◌&&◌, ◌||◌, String, ℕ, Option, none, some, List, [], ◌∷◌, ◌++◌,
  if◌then◌else◌, leb, ◌=?◌, eq_iff, arith, Bool-cases,
}
use amoxtli.Common.Lists.{length, All, All-append}
use amoxtli.Common.Keyed.{contains, contains-append}
use amoxtli.Filter.Value.{
  op_or, Condition, Conditions, conditions, condition, no_conditions, add_condition,
}

abbrev pub codes : String → List ℕ
codes String.[] = []
codes (String.◌∷◌ c s) = code c ∷ codes s

-- the class [A-Za-z0-9_-]
unfoldable pub key_char : ℕ → Bool
key_char c =
    (leb b'A' c && leb c b'Z')
    || ((leb b'a' c && leb c b'z') || ((leb b'0' c && leb c b'9') || (c =? b'_' || c =? b'-')))

unfoldable pub all_key_chars : List ℕ → Bool
unfolding key_char
all_key_chars [] = true
all_key_chars (c ∷ cs) = key_char c && all_key_chars cs

-- KeyPattern.MatchString
unfoldable pub valid_key : String → Bool
unfolding all_key_chars
valid_key key =
    leb 1 (length (codes key)) && (leb (length (codes key)) 128 && all_key_chars (codes key))

pub data FilterError : Type 0 where
  -- ErrInvalidFilterKey, about this key
  invalid_key : String → FilterError
  -- ErrInvalidFilterKey, about an OpOr whose operand is no []Condition
  not_conditions : FilterError

-- ValidateKey: none where it returns nil
unfoldable pub validate_key : String → Option FilterError
validate_key key = if valid_key key then none else some (invalid_key key)

-- the first error of two
abbrev pub or_error : Option FilterError → Option FilterError → Option FilterError
or_error none next = next
or_error (some e) next = some e

-- What an outcome of Validate says of the keys that it is about.
abbrev pub Explains : Option FilterError → List String → Type 0
Explains none ks = All (λ k. valid_key k ≡ true) ks
Explains (some (invalid_key k)) ks = (contains ks k ≡ true) × (valid_key k ≡ false)
Explains (some not_conditions) ks = Unit

or_error-Explains :
    (e f : Option FilterError) (ks ls : List String)
    → Explains e ks
    → Explains f ls
    → Explains (or_error e f) (ks ++ ls)
or_error-Explains none none ks ls p q = All-append (λ k. valid_key k ≡ true) ks ls p q
or_error-Explains none (some (invalid_key k)) ks ls p q =
    (ground (arith, contains-append ks ls k, q.0), q.1)
or_error-Explains none (some not_conditions) ks ls p q = tt
or_error-Explains (some (invalid_key k)) f ks ls p q =
    (ground (arith, contains-append ks ls k, p.0), p.1)
or_error-Explains (some not_conditions) f ks ls p q = tt

validate_key-Explains : (key : String) → Explains (validate_key key) (key ∷ [])
unfolding validate_key
validate_key-Explains key = elim (Bool-cases (valid_key key)) [
  | inl e ↦ rw (e, validate_key) (e, tt)
  | inr e ↦ rw (e, validate_key) (ground (arith, eq_iff key key), e)
]

module _ {N T O : Type 0} where
  unfoldable mutual
    unfolding validate_key

    -- the method `validate` of Condition
    pub validate_condition : Condition N T O → Option FilterError
    validate_condition (condition key op_or (conditions cs)) = validate cs
    validate_condition (condition key op_or operand) = some not_conditions
    validate_condition (condition key op operand) = validate_key key

    -- Validate
    pub validate : Conditions N T O → Option FilterError
    validate no_conditions = none
    validate (add_condition c cs) = or_error (validate_condition c) (validate cs)

  unfoldable mutual
    -- The keys of a filter, at any depth of its disjunctions.
    pub keys_of : Condition N T O → List String
    keys_of (condition key op_or (conditions cs)) = keys cs
    keys_of (condition key op_or operand) = []
    keys_of (condition key op operand) = key ∷ []

    pub keys : Conditions N T O → List String
    keys no_conditions = []
    keys (add_condition c cs) = keys_of c ++ keys cs

module _ {N T O : Type 0} where
  mutual
    unfolding validate_condition keys_of

    validate_condition-Explains :
        (c : Condition N T O) → Explains (validate_condition c) (keys_of c)
    validate_condition-Explains (condition key op_or (conditions cs)) = validate-Explains_all cs
    validate_condition-Explains (condition key op_or operand) = tt
    validate_condition-Explains (condition key op operand) = validate_key-Explains key

    validate-Explains_all : (f : Conditions N T O) → Explains (validate f) (keys f)
    validate-Explains_all no_conditions = tt
    validate-Explains_all (add_condition c cs) =
        or_error-Explains (validate_condition c) (validate cs) (keys_of c) (keys cs)
          (validate_condition-Explains c) (validate-Explains_all cs)

  -- Where Validate accepts a filter, every key in it, at any depth of its disjunctions, matches the
  -- key pattern; where it reports an invalid key, that key stands in the filter and does
  -- not match the pattern.
  pub validate-Explains : (f : Conditions N T O) → Explains (validate f) (keys f)
  validate-Explains f = validate-Explains_all f
