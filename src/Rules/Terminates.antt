-- ===== src/Rules/Terminates.antt =====
-- The parser of pkg/rules/sql.go ends.
use emqx_go.Base.{
  ℕ, zero, suc, ◌+◌, ◌-◌, ◌<◌, ◌≡◌, ◌≢◌, inl, inr, true, ◌&&◌, ◌||◌, List, [], ◌∷◌, Option, none,
  some, arith, map, Bool-cases, ltb, ◌==◌, length, drop, Text, codes, is_empty, has_prefix,
  has_suffix, >>=-ne-err, text_eq, err,
}
use emqx_go.Rules.Values.{Libraries}
use emqx_go.Rules.Parse.{
  is_quoted, out_of_fuel, Parsed, upper, split_by_operator, shape, Shape, disjunction, conjunction,
  parenthesised, negation, other_expression, parse_parts, parse_shape, parse_expression,
  parse_comparison, parse, index, parse_value, of_match, inner, parse_where, after_where,
}
use emqx_go.Rules.Splitting.{
  weight, IsTrim, AreBelow, weight-le-length, weight-trim, weight-take, weight-drop,
  split_by_operator-smaller,
}

after_paren-smaller : (s : Text) → has_prefix s (codes "(") ≡ true → weight (drop 1 s) < weight s
unfolding has_prefix
after_paren-smaller [] h = absurd cc
after_paren-smaller (c ∷ s) h = ground arith

after_not-smaller :
    (s : Text) → has_prefix (map upper s) (codes "NOT ") ≡ true → weight (drop 4 s) < weight s
unfolding has_prefix
after_not-smaller [] h = absurd cc
after_not-smaller (c ∷ s) h = let ascii : c < 128 = ground arith in ground (arith, weight-drop 3 s)

abbrev IsSmaller : ℕ → Shape → Type 0
IsSmaller n (disjunction parts) = AreBelow n parts
IsSmaller n (conjunction parts) = AreBelow n parts
IsSmaller n (parenthesised s) = weight s < n
IsSmaller n (negation s) = weight s < n
IsSmaller n (other_expression s) = Unit

shape-IsSmaller : (lib : Libraries) → IsTrim lib → (s : Text) → IsSmaller (weight s) (shape lib s)
unfolding shape
shape-IsSmaller lib trim s =
    elim (Bool-cases (ltb 1 (length (split_by_operator lib s (codes "OR"))))) [
      | inl ors ↦ rw ors (split_by_operator-smaller lib trim 79 (codes "R") (omega arith) s ors)
      | inr no_ors ↦ elim (Bool-cases (ltb 1 (length (split_by_operator lib s (codes "AND"))))) [
        | inl ands ↦
            rw (no_ors, ands)
              (split_by_operator-smaller lib trim 65 (codes "ND") (omega arith) s ands)
        | inr no_ands ↦ elim (Bool-cases (has_prefix s (codes "(") && has_suffix s (codes ")"))) [
          | inl paren ↦
              rw (no_ors, no_ands, paren)
                (omega (
                  arith,
                  weight-take (length s - 2) (drop 1 s),
                  after_paren-smaller s (ground arith),
                ))
          | inr no_paren ↦ elim (Bool-cases (has_prefix (map upper s) (codes "NOT "))) [
            | inl negated ↦ rw (no_ors, no_ands, no_paren, negated) (after_not-smaller s negated)
            | inr not_negated ↦ rw (no_ors, no_ands, no_paren, not_negated) tt
          ]
        ]
      ]
    ]

inner-ne : (s : Text) → inner s ≢ err out_of_fuel
inner-ne s = elim (Bool-cases (length s == 1)) [ inl e ↦ rw e (λ h. cc) | inr e ↦ rw e (λ h. cc) ]

parse_value-ne : (lib : Libraries) (s : Text) → parse_value lib s ≢ err out_of_fuel
unfolding parse_value
parse_value-ne lib s =
    elim (Bool-cases
      (is_quoted (39 ∷ []) (lib.trim_space s) || is_quoted (34 ∷ []) (lib.trim_space s))) [
        | inl e ↦ rw e (inner-ne (lib.trim_space s))
        | inr e ↦ rw e (λ h. cc)
      ]

of_match-ne :
    (lib : Libraries) (m : Option (Text × (Text × Text))) → of_match lib m ≢ err out_of_fuel
of_match-ne lib none = λ h. cc
of_match-ne lib (some (f, (o, v))) =
    let operator = lib.to_upper (lib.trim_space o) in
    elim (Bool-cases
      (text_eq operator (codes "IS NULL") || text_eq operator (codes "IS NOT NULL"))) [
        | inl e ↦ rw e (λ h. cc)
        | inr e ↦ rw e (
            >>=-ne-err out_of_fuel (parse_value lib (lib.trim_space v)) _
              (parse_value-ne lib (lib.trim_space v)) (λ a h k. cc))
      ]

parse_parts-ne :
    (parser : Text → Parsed) (n : ℕ) (parts : List Text)
    → ((s : Text) → weight s < n → parser s ≢ err out_of_fuel)
    → AreBelow n parts
    → parse_parts parser parts ≢ err out_of_fuel
parse_parts-ne parser n [] ne below = λ h. cc
parse_parts-ne parser n (s ∷ ss) ne below =
    >>=-ne-err out_of_fuel (parser s) _ (ne s below.0) (λ c h.
      >>=-ne-err out_of_fuel (parse_parts parser ss) _ (parse_parts-ne parser n ss ne below.1)
        (λ cs h' k. cc))

parse_shape-ne :
    (lib : Libraries) (parser : Text → Parsed) (n : ℕ) (sh : Shape)
    → ((s : Text) → weight s < n → parser s ≢ err out_of_fuel)
    → IsSmaller n sh
    → parse_shape lib parser sh ≢ err out_of_fuel
unfolding parse_comparison
parse_shape-ne lib parser n (disjunction parts) ne small =
    >>=-ne-err out_of_fuel (parse_parts parser parts) _ (parse_parts-ne parser n parts ne small)
      (λ cs h k. cc)
parse_shape-ne lib parser n (conjunction parts) ne small =
    >>=-ne-err out_of_fuel (parse_parts parser parts) _ (parse_parts-ne parser n parts ne small)
      (λ cs h k. cc)
parse_shape-ne lib parser n (parenthesised s) ne small = ne s small
parse_shape-ne lib parser n (negation s) ne small =
    >>=-ne-err out_of_fuel (parser s) _ (ne s small) (λ c h k. cc)
parse_shape-ne lib parser n (other_expression s) ne small =
    of_match-ne lib (lib.match_comparison (lib.trim_space s))

parse_expression-ne :
    (lib : Libraries)
    → IsTrim lib
    → (n : ℕ) (s : Text) → weight s < n
    → parse_expression lib n s ≢ err out_of_fuel
unfolding parse_expression
parse_expression-ne lib trim zero s fuel = absurd (omega arith)
parse_expression-ne lib trim (suc n) s fuel =
    parse_shape-ne lib (λ e. parse_expression lib n e) (weight (lib.trim_space s))
      (shape lib (lib.trim_space s))
      (λ e below. parse_expression-ne lib trim n e (omega (arith, weight-trim lib trim s)))
      (shape-IsSmaller lib trim (lib.trim_space s))

parse_where-ne : (lib : Libraries) → IsTrim lib → (s : Text) → parse_where lib s ≢ err out_of_fuel
parse_where-ne lib trim s = elim (Bool-cases (is_empty s)) [
  | inl e ↦ rw e (λ h. cc)
  | inr e ↦ rw e (parse_expression-ne lib trim (length s + 1) s (omega (arith, weight-le-length s)))
]

after_where-ne :
    (lib : Libraries)
    → IsTrim lib
    → (s : Text) (i : Option ℕ) → after_where lib s i ≢ err out_of_fuel
after_where-ne lib trim s none = λ h. cc
after_where-ne lib trim s (some i) = elim (Bool-cases (ltb (length s) (i + 5))) [
  | inl e ↦ rw e (λ h. cc)
  | inr e ↦ rw e (parse_where-ne lib trim (lib.trim_space (drop (i + 5) s)))
]

-- Parsing any text ends within its fuel, one more than the length of the WHERE clause, if TrimSpace
-- returns a piece of the text.
pub parse-ne-out_of_fuel : (lib : Libraries) (s : Text) → IsTrim lib → parse lib s ≢ err out_of_fuel
unfolding parse
parse-ne-out_of_fuel lib sql trim =
    elim (Bool-cases (has_prefix (lib.to_upper (lib.trim_space sql)) (codes "SELECT"))) [
      | inl e ↦ rw e (
          after_where-ne lib trim (lib.trim_space sql)
            (index (lib.to_upper (lib.trim_space sql)) (codes "WHERE")))
      | inr e ↦ rw e (parse_where-ne lib trim (lib.trim_space sql))
    ]
