-- ===== src/Sql/Params.antt =====
-- sql_params.go: the bound values of a statement, capped. What strconv makes of a float64, the
-- RFC 3339 text of a time and what encoding/json makes of any other value stand for these values.
use go_collector.Base.{
  ℕ, zero, suc, ◌≤◌, min, Bool, true, false, List, [], ◌∷◌, ◌≡◌, Option, none, some, arith, length,
  take, ltb, All, if◌then◌else◌, Bool-cases, inl, inr, length-take,
}
use go_collector.Base.Bytes.{Bytes, codes}
use go_collector.Base.Decimal.{itoa}
use go_collector.Base.Int.{ℤ, pos, negsuc}

abbrev pub max_parameters : ℕ
max_parameters = 32

abbrev pub max_parameter_length : ℕ
max_parameter_length = 64

pub data Value : Type 0 where
  null : Value
  text blob : Bytes → Value
  boolean : Bool → Value
  int64 : ℤ → Value
  float64 time : Bytes → Value
  other : Option Bytes → Value

-- A nil slice is `none`.
pub record ParamList : Type 0 where
  pub named : Option (List Value)
  pub values : List Value

abbrev pub items_of : ParamList → List Value
items_of p = elim p.named [ some named ↦ named | none ↦ p.values ]

abbrev pub named_params : Option (List Value) → ParamList
named_params args = record { named = args; values = [] }

abbrev pub value_params : List Value → ParamList
value_params args = record { named = none; values = args }

abbrev pub format_int : ℤ → Bytes
format_int (pos n) = itoa n
format_int (negsuc n) = b'-' ∷ itoa (suc n)

abbrev pub stringify_parameter : Value → Bytes
stringify_parameter null = []
stringify_parameter (text v) = v
stringify_parameter (blob v) = v
stringify_parameter (boolean true) = codes "true"
stringify_parameter (boolean false) = codes "false"
stringify_parameter (int64 n) = format_int n
stringify_parameter (float64 v) = v
stringify_parameter (time v) = v
stringify_parameter (other none) = []
stringify_parameter (other (some v)) = v

abbrev pub cap_parameter : Bytes → Bytes
cap_parameter value =
    if ltb max_parameter_length (length value) then take max_parameter_length value else value

-- The loop over the first `count` values.
unfoldable pub capped : ℕ → List Value → List Bytes
capped zero values = []
capped (suc count) [] = []
capped (suc count) (v ∷ values) = cap_parameter (stringify_parameter v) ∷ capped count values

abbrev pub capped_count : ℕ → ℕ
capped_count count = if ltb max_parameters count then max_parameters else count

-- json.Marshal of a list of texts is a parameter.
unfoldable pub bounded_parameters_json : (List Bytes → Option Bytes) → ParamList → Bytes
bounded_parameters_json marshal p =
    let items = items_of p in
    if ltb 0 (length items)
    then elim (marshal (capped (capped_count (length items)) items)) [
      | none ↦ []
      | some encoded ↦ encoded
    ]
    else []

cap_parameter-length : (v : Bytes) → length (cap_parameter v) ≤ 64
cap_parameter-length v = elim (Bool-cases (ltb 64 (length v))) [
  | inl long ↦ rw long (omega (arith, length-take {0} 64 v))
  | inr short ↦ rw short (ground arith)
]

capped-All : (n : ℕ) (values : List Value) → All (λ v. length v ≤ 64) (capped n values)
unfolding capped
capped-All zero values = tt
capped-All (suc n) [] = tt
capped-All (suc n) (v ∷ values) =
    (cap_parameter-length (stringify_parameter v), capped-All n values)

capped-length : (n : ℕ) (values : List Value) → length (capped n values) ≡ min n (length values)
unfolding capped
capped-length zero values = omega arith
capped-length (suc n) [] = omega arith
capped-length (suc n) (v ∷ values) = omega (arith, capped-length n values)

-- However many values are bound and however long they are, the list that is rendered has one text for
-- each of the first 32 of them, and no text of more than 64 bytes.
pub capped_bounds :
    (values : List Value)
    → (length (capped (capped_count (length values)) values) ≡ min 32 (length values))
      × All (λ v. length v ≤ 64) (capped (capped_count (length values)) values)
capped_bounds values = (
  ground (arith, capped-length (capped_count (length values)) values),
  capped-All (capped_count (length values)) values,
)
