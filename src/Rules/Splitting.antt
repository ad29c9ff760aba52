-- ===== src/Rules/Splitting.antt =====
-- splitByOperator of pkg/rules/sql.go: each part has fewer bytes of ASCII than the whole. (The number of
-- bytes may grow, since other bytes are read as code points.)
use mathlib.Core.Path.{subst}
use emqx_go.Base.{
  ℕ, zero, suc, ◌+◌, ◌-◌, ◌≤◌, ◌<◌, ◌≡◌, inl, inr, refl, ap, Bool, true, false, not, ◌&&◌, List, [],
  ◌∷◌, ◌++◌, arith, if◌then◌else◌, Bool-cases, ltb, leb, length, take, drop, All, Text, is_empty,
  has_prefix,
}
use emqx_go.Rules.Values.{ℤ, pos, Libraries}
use emqx_go.Rules.Parse.{
  is_alpha_numeric, string_of_byte, level_after, is_zero, is_operator, split_loop,
  split_by_operator,
}

-- How many bytes of ASCII a text has.
abbrev pub weight : Text → ℕ
weight [] = 0
weight (c ∷ s) = if ltb c 128 then weight s + 1 else weight s

-- strings.TrimSpace returns a piece of the text.
abbrev pub IsTrim : Libraries → Type 0
IsTrim lib =
    (s : Text) → (before : Text) × (after : Text) × (s ≡ before ++ (lib.trim_space s ++ after))

weight-append : (s t : Text) → weight (s ++ t) ≡ weight s + weight t
weight-append [] t = omega arith
weight-append (c ∷ s) t = ground (arith, weight-append s t)

pub weight-le-length : (s : Text) → weight s ≤ length s
weight-le-length [] = omega arith
weight-le-length (c ∷ s) = ground (arith, weight-le-length s)

pub weight-trim : (lib : Libraries) → IsTrim lib → (s : Text) → weight (lib.trim_space s) ≤ weight s
weight-trim lib trim s =
    let (before, after, same) = trim s in
    omega (
      arith,
      ap weight same,
      weight-append before (lib.trim_space s ++ after),
      weight-append (lib.trim_space s) after,
    )

pub weight-take : (n : ℕ) (s : Text) → weight (take n s) ≤ weight s
weight-take zero s = omega arith
weight-take (suc n) [] = omega arith
weight-take (suc n) (c ∷ s) = ground (arith, weight-take n s)

pub weight-drop : (n : ℕ) (s : Text) → weight (drop n s) ≤ weight s
weight-drop zero s = omega arith
weight-drop (suc n) [] = omega arith
weight-drop (suc n) (c ∷ s) = ground (arith, weight-drop n s)

weight-string_of_byte : (c : ℕ) → weight (string_of_byte c) ≡ (if ltb c 128 then 1 else 0)
weight-string_of_byte c = ground arith

is_operator-ascii :
    (c : ℕ) (s : Text) (o : ℕ) (rest : Text)
    → o < 128
    → is_operator (o ∷ rest) (c ∷ s) ≡ true
    → c < 128
unfolding is_operator has_prefix
is_operator-ascii c s o rest small h = ground arith

abbrev pub AreBelow : ℕ → List Text → Type 0
AreBelow n = All (λ p. weight p < n)

AreBelow-mono : (n m : ℕ) (ps : List Text) → n ≤ m → AreBelow n ps → AreBelow m ps
AreBelow-mono n m [] le h = tt
AreBelow-mono n m (p ∷ ps) le h = (omega (arith, h.0), AreBelow-mono n m ps le h.1)

module _ (lib : Libraries) (trim : IsTrim lib) (o : ℕ) (operator : Text) (small : o < 128) where
  -- Every part is within what has been collected and what is left.
  split_loop-AreBelow :
      (s current : Text) (skip : ℕ) (in_word : Bool) (level : ℤ)
      → AreBelow
          (weight current + weight s + 1)
          (split_loop lib (o ∷ operator) skip in_word level current s)
  unfolding split_loop
  split_loop-AreBelow [] current skip in_word level = elim (Bool-cases (is_empty current)) [
    | inl e ↦ rw e tt
    | inr e ↦ rw e (omega (arith, weight-trim lib trim current), tt)
  ]
  split_loop-AreBelow (c ∷ s) current (suc k) in_word level =
      AreBelow-mono (weight current + weight s + 1) (weight current + weight (c ∷ s) + 1)
        (split_loop lib (o ∷ operator) k (is_alpha_numeric c) level current s) (ground arith)
        (split_loop-AreBelow s current k (is_alpha_numeric c) level)
  split_loop-AreBelow (c ∷ s) current zero in_word level =
      elim (Bool-cases
        (is_zero (level_after c level) && (is_operator (o ∷ operator) (c ∷ s) && not in_word))) [
          | inl e ↦ rw e (
            omega (arith, weight-trim lib trim current),
            AreBelow-mono (weight [] + weight s + 1) (weight current + weight (c ∷ s) + 1)
                (split_loop lib (o ∷ operator) (length (o ∷ operator) - 1) (is_alpha_numeric c)
                  (level_after c level) [] s)
                (ground arith)
                (split_loop-AreBelow s [] (length (o ∷ operator) - 1) (is_alpha_numeric c)
                  (level_after c level)),
          )
          | inr e ↦ rw e (
              AreBelow-mono (weight (current ++ string_of_byte c) + weight s + 1)
                (weight current + weight (c ∷ s) + 1)
                (split_loop lib (o ∷ operator) 0 (is_alpha_numeric c) (level_after c level)
                  (current ++ string_of_byte c) s)
                (ground (arith, weight-append current (string_of_byte c), weight-string_of_byte c))
                (split_loop-AreBelow s (current ++ string_of_byte c) 0 (is_alpha_numeric c)
                  (level_after c level)))
        ]

  -- Where there are two parts, an operator stands between them.
  split_loop-smaller :
      (s current : Text) (skip : ℕ) (in_word : Bool) (level : ℤ)
      → 2 ≤ length (split_loop lib (o ∷ operator) skip in_word level current s)
      → AreBelow
          (weight current + weight s)
          (split_loop lib (o ∷ operator) skip in_word level current s)
  unfolding split_loop
  split_loop-smaller [] current skip in_word level two = absurd (ground arith)
  split_loop-smaller (c ∷ s) current (suc k) in_word level two =
      AreBelow-mono (weight current + weight s) (weight current + weight (c ∷ s))
        (split_loop lib (o ∷ operator) k (is_alpha_numeric c) level current s) (ground arith)
        (split_loop-smaller s current k (is_alpha_numeric c) level two)
  split_loop-smaller (c ∷ s) current zero in_word level two =
      elim (Bool-cases
        (is_zero (level_after c level) && (is_operator (o ∷ operator) (c ∷ s) && not in_word))) [
          | inl e ↦
              let stands : is_operator (o ∷ operator) (c ∷ s) ≡ true = ground arith in
              let ascii : c < 128 = is_operator-ascii c s o operator small stands in
              rw e (
                ground (arith, weight-trim lib trim current),
                AreBelow-mono (weight [] + weight s + 1) (weight current + weight (c ∷ s))
                    (split_loop lib (o ∷ operator) (length (o ∷ operator) - 1) (is_alpha_numeric c)
                      (level_after c level) [] s)
                    (ground arith)
                    (split_loop-AreBelow s [] (length (o ∷ operator) - 1) (is_alpha_numeric c)
                      (level_after c level)),
              )
          | inr e ↦ rw e (
              AreBelow-mono (weight (current ++ string_of_byte c) + weight s)
                (weight current + weight (c ∷ s))
                (split_loop lib (o ∷ operator) 0 (is_alpha_numeric c) (level_after c level)
                  (current ++ string_of_byte c) s)
                (ground (arith, weight-append current (string_of_byte c), weight-string_of_byte c))
                (split_loop-smaller s (current ++ string_of_byte c) 0 (is_alpha_numeric c)
                  (level_after c level)
                  (let q : split_loop lib (o ∷ operator) zero in_word level current (c ∷ s)
                        ≡ split_loop lib (o ∷ operator) 0 (is_alpha_numeric c) (level_after c level)
                            (current ++ string_of_byte c) s =
                      rw e refl in
                    subst (λ l. 2 ≤ length l) q two)))
        ]

  pub split_by_operator-smaller :
      (s : Text)
      → ltb 1 (length (split_by_operator lib s (o ∷ operator))) ≡ true
      → AreBelow (weight s) (split_by_operator lib s (o ∷ operator))
  unfolding split_by_operator
  split_by_operator-smaller s two =
      elim (Bool-cases (leb (length (split_loop lib (o ∷ operator) 0 false (pos 0) [] s)) 1)) [
        | inl e ↦ absurd (
            let q : split_by_operator lib s (o ∷ operator) ≡ s ∷ [] = rw e refl in
            let k : ltb 1 1 ≡ true = subst (λ l. ltb 1 (length l) ≡ true) q two in ground arith)
        | inr e ↦ rw e (
            AreBelow-mono (weight [] + weight s) (weight s)
              (split_loop lib (o ∷ operator) 0 false (pos 0) [] s) (omega arith)
              (split_loop-smaller s [] 0 false (pos 0) (ground arith)))
      ]
