-- ===== src/Rules/Parse.antt =====
-- The parser of WHERE clauses of pkg/rules/sql.go. Bytes are numbers below 256. The comparison regexp
-- is the library's.
use emqx_go.Base.{
  ℕ, zero, suc, ◌+◌, ◌-◌, ◌/◌, ◌%◌, Bool, true, false, not, ◌&&◌, ◌||◌, List, [], ◌∷◌, ◌++◌, Option,
  none, some, map, if◌then◌else◌, ltb, leb, ◌==◌, length, take, drop, Text, codes, text_eq,
  is_empty, has_prefix, has_suffix, Outcome, ok, err, panic, ◌>>=◌,
}
use mathlib.Core.Option
use emqx_go.Rules.Values.{
  ℤ, pos, negsuc, null, string, int, float, bool, Libraries, Operand, value, field_reference,
  SqlCondition, true_condition, and_condition, or_condition, not_condition, comparison, Conditions,
  end, next,
}

pub data ParseError : Type 0 where
  invalid_comparison out_of_fuel : ParseError

abbrev pub Parsed : Type 0
Parsed = Outcome ParseError SqlCondition

-- strings.ToUpper on a byte of ASCII; no other letter has one of these as its upper case where it is
-- used, in OR, AND and NOT.
abbrev pub upper : ℕ → ℕ
upper c = if leb 97 c && leb c 122 then c - 32 else c

unfoldable pub is_alpha_numeric : ℕ → Bool
is_alpha_numeric c =
    (leb 97 c && leb c 122) || ((leb 65 c && leb c 90) || ((leb 48 c && leb c 57) || (c == 95)))

-- string(c), a byte taken for a code point.
abbrev pub string_of_byte : ℕ → Text
string_of_byte c = if ltb c 128 then c ∷ [] else (192 + c / 64) ∷ (128 + c % 64) ∷ []

abbrev pub increase : ℤ → ℤ
increase (pos n) = pos (n + 1)
increase (negsuc zero) = pos 0
increase (negsuc (suc n)) = negsuc n

abbrev pub decrease : ℤ → ℤ
decrease (pos zero) = negsuc 0
decrease (pos (suc n)) = pos n
decrease (negsuc n) = negsuc (n + 1)

abbrev pub is_zero : ℤ → Bool
is_zero (pos zero) = true
is_zero _ = false

-- The level of the parentheses after a byte.
abbrev pub level_after : ℕ → ℤ → ℤ
level_after c level = if c == 40 then increase level else if c == 41 then decrease level else level

abbrev pub starts_word : Text → Bool
starts_word [] = false
starts_word (c ∷ s) = is_alpha_numeric c

-- The operator stands here as a whole word, unless a word ends right before.
unfoldable pub is_operator : Text → Text → Bool
unfolding is_alpha_numeric has_prefix
is_operator operator s =
    has_prefix (map upper s) operator && not (starts_word (drop (length operator) s))

-- The loop of splitByOperator from index i: `skip` counts the bytes of an operator that are passed
-- over, `in_word` tells whether the byte before is alphanumeric.
unfoldable pub split_loop : Libraries → Text → ℕ → Bool → ℤ → Text → Text → List Text
unfolding is_operator
split_loop lib operator skip in_word level current [] =
    if is_empty current then [] else lib.trim_space current ∷ []
split_loop lib operator (suc k) in_word level current (c ∷ s) =
    split_loop lib operator k (is_alpha_numeric c) level current s
split_loop lib operator zero in_word level current (c ∷ s) =
    let found =
      split_loop lib operator (length operator - 1) (is_alpha_numeric c) (level_after c level) []
        s in
    let more =
      split_loop lib operator 0 (is_alpha_numeric c) (level_after c level)
        (current ++ string_of_byte c) s in
    if is_zero (level_after c level) && (is_operator operator (c ∷ s) && not in_word)
    then lib.trim_space current ∷ found
    else more

unfoldable pub split_by_operator : Libraries → Text → Text → List Text
unfolding split_loop
split_by_operator lib s operator =
    let parts = split_loop lib operator 0 false (pos 0) [] s in
    if leb (length parts) 1 then s ∷ [] else parts

-- value[1 : len(value)-1], which panics on a text of one byte.
abbrev pub inner : Text → Outcome ParseError Operand
inner s = if length s == 1 then panic else ok (value (string (take (length s - 2) (drop 1 s))))

abbrev pub or_field : Text → Operand
or_field s =
    if text_eq s (codes "true") || text_eq s (codes "TRUE")
    then value (bool true)
    else if text_eq s (codes "false") || text_eq s (codes "FALSE")
    then value (bool false)
    else field_reference s

abbrev pub or_float : Text → Option ℕ → Operand
or_float s (some x) = value (float x)
or_float s none = or_field s

abbrev pub or_int : Libraries → Text → Option ℤ → Operand
or_int lib s (some n) = value (int n)
or_int lib s none = or_float s (lib.parse_float s)

abbrev pub is_quoted : Text → Text → Bool
is_quoted quote s = has_prefix s quote && has_suffix s quote

unfoldable pub parse_value : Libraries → Text → Outcome ParseError Operand
unfolding has_prefix has_suffix
parse_value lib text =
    let s = lib.trim_space text in
    if is_quoted (39 ∷ []) s || is_quoted (34 ∷ []) s
    then inner s
    else ok (or_int lib s (lib.parse_int s))

abbrev pub with_operand : Text → Text → Outcome ParseError Operand → Parsed
with_operand field operator r = do operand ← r; ok (comparison field operator operand)

abbrev pub of_match : Libraries → Option (Text × (Text × Text)) → Parsed
of_match lib none = err invalid_comparison
of_match lib (some (f, (o, v))) =
    let field = lib.trim_space f in
    let operator = lib.to_upper (lib.trim_space o) in
    if text_eq operator (codes "IS NULL") || text_eq operator (codes "IS NOT NULL")
    then ok (comparison field operator (value null))
    else with_operand field operator (parse_value lib (lib.trim_space v))

unfoldable pub parse_comparison : Libraries → Text → Parsed
unfolding parse_value
parse_comparison lib s = of_match lib (lib.match_comparison (lib.trim_space s))

-- What parseExpression finds an expression to be.
pub data Shape : Type 0 where
  disjunction conjunction : List Text → Shape
  parenthesised negation other_expression : Text → Shape

unfoldable pub shape : Libraries → Text → Shape
unfolding split_by_operator has_prefix has_suffix
shape lib s =
    let ors = split_by_operator lib s (codes "OR") in
    let ands = split_by_operator lib s (codes "AND") in
    if ltb 1 (length ors)
    then disjunction ors
    else if ltb 1 (length ands)
    then conjunction ands
    else if has_prefix s (codes "(") && has_suffix s (codes ")")
    then parenthesised (take (length s - 2) (drop 1 s))
    else if has_prefix (map upper s) (codes "NOT ")
    then negation (drop 4 s)
    else other_expression s

-- The loop over the parts, which ends at the first that fails.
abbrev pub parse_parts : (Text → Parsed) → List Text → Outcome ParseError Conditions
parse_parts parse [] = ok end
parse_parts parse (s ∷ ss) = do c ← parse s; cs ← parse_parts parse ss; ok (next c cs)

abbrev pub joined : (Conditions → SqlCondition) → Outcome ParseError Conditions → Parsed
joined f r = do cs ← r; ok (f cs)

abbrev pub negate : Parsed → Parsed
negate r = do c ← r; ok (not_condition c)

abbrev pub parse_shape : Libraries → (Text → Parsed) → Shape → Parsed
parse_shape lib parse (disjunction parts) = joined or_condition (parse_parts parse parts)
parse_shape lib parse (conjunction parts) = joined and_condition (parse_parts parse parts)
parse_shape lib parse (parenthesised s) = parse s
parse_shape lib parse (negation s) = negate (parse s)
parse_shape lib parse (other_expression s) = parse_comparison lib s

unfoldable pub parse_expression : Libraries → ℕ → Text → Parsed
unfolding shape parse_comparison
parse_expression lib zero s = err out_of_fuel
parse_expression lib (suc n) s =
    parse_shape lib (λ e. parse_expression lib n e) (shape lib (lib.trim_space s))

-- strings.Index(s, p)
unfoldable pub index : Text → Text → Option ℕ
unfolding has_prefix
index [] p = if is_empty p then some 0 else none
index (c ∷ s) p =
    let rest = index s p in if has_prefix (c ∷ s) p then some 0 else Option.map suc rest

abbrev pub parse_where : Libraries → Text → Parsed
parse_where lib s = if is_empty s then ok true_condition else parse_expression lib (length s + 1) s

-- What follows WHERE, which is looked for in the upper case of the text.
abbrev pub after_where : Libraries → Text → Option ℕ → Parsed
after_where lib s none = ok true_condition
after_where lib s (some i) =
    if ltb (length s) (i + 5) then panic else parse_where lib (lib.trim_space (drop (i + 5) s))

unfoldable pub parse : Libraries → Text → Parsed
unfolding parse_expression index
parse lib sql =
    let s = lib.trim_space sql in
    if has_prefix (lib.to_upper s) (codes "SELECT")
    then after_where lib s (index (lib.to_upper s) (codes "WHERE"))
    else parse_where lib s
