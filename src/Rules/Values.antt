-- ===== src/Rules/Values.antt =====
-- The data of pkg/rules, and what it asks of the standard library. A float64 is its 64 bits; a value of
-- JSON that is an array or an object is the text that %v makes of it.
use emqx_go.Base.{ℕ, Bool, true, false, Option, Text, ltb}
use emqx_go.Base.Map.{Map}

pub data ℤ : Type 0 where
  pos : ℕ → ℤ
  negsuc : ℕ → ℤ

-- x < y
abbrev pub int_ltb : ℤ → ℤ → Bool
int_ltb (pos x) (pos y) = ltb x y
int_ltb (pos x) (negsuc y) = false
int_ltb (negsuc x) (pos y) = true
int_ltb (negsuc x) (negsuc y) = ltb y x

pub data Value : Type 0 where
  null : Value
  string : Text → Value
  int : ℤ → Value
  float : ℕ → Value
  bool : Bool → Value
  json_text : Text → Value

-- Payload, Headers and Metadata as the maps that they are; `seconds` is Timestamp.Unix() and `rfc3339` the text of the timestamp.
pub record RuleContext : Type 0 where
  pub topic : Text
  pub qos : ℤ
  pub payload : Text
  pub headers : Map Text Text
  pub client_id : Text
  pub username : Text
  pub seconds : ℤ
  pub rfc3339 : Text
  pub metadata : Map Text Value

-- A decoded payload: an object, or anything else.
pub data Json : Type 0 where
  object : Map Text Value → Json
  other : Json

-- strings.TrimSpace, strings.ReplaceAll, strings.ToUpper, the comparison regexp of parseComparison with its three groups,
-- strconv, the order and the conversions of floats, fmt.Sprintf("%v"), the order of strings,
-- regexp.MatchString and json.Unmarshal.
pub record Libraries : Type 0 where
  pub trim_space : Text → Text
  pub to_upper : Text → Text
  pub match_comparison : Text → Option (Text × (Text × Text))
  pub parse_int : Text → Option ℤ
  pub parse_float : Text → Option ℕ
  pub float_of_int : ℤ → ℕ
  pub int_of_float : ℕ → ℤ
  pub float_ltb : ℕ → ℕ → Bool
  pub format : Value → Text
  pub text_ltb : Text → Text → Bool
  pub replace_all : Text → Text → Text → Text
  pub match_string : Text → Text → Option Bool
  pub unmarshal : Text → Option Json

pub data EvaluationError : Type 0 where
  unknown_field unsupported_operator invalid_json invalid_regexp : EvaluationError

-- What a comparison compares with: a value, or another field.
pub data Operand : Type 0 where
  value : Value → Operand
  field_reference : Text → Operand

mutual
  pub data SqlCondition : Type 0 where
    true_condition : SqlCondition
    and_condition : Conditions → SqlCondition
    or_condition : Conditions → SqlCondition
    not_condition : SqlCondition → SqlCondition
    comparison : Text → Text → Operand → SqlCondition

  pub data Conditions : Type 0 where
    end : Conditions
    next : SqlCondition → Conditions → Conditions
