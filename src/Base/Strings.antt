-- ===== src/Base/Strings.antt =====
-- Go strings as lists of bytes, with the operations of package strings that the sources call.
use Prim.Native.Nat.{ℕ, zero, suc, ◌≤◌}
use Prim.Native.Char.{code}
use Prim.Native.String.{String}
use mathlib.Core.Path.{◌≡◌, refl}
use mathlib.Core.Logic.{◌≢◌, ◌↔◌}
use mathlib.Core.Bool.{Bool, true, false, ◌&&◌, ◌||◌}
use mathlib.Core.List.{List, [], ◌∷◌, ◌++◌}
use native.Mathlib.Omega.{arith}
use emqx_go.Base.Tests.{◌==◌, if◌then◌else◌}
use emqx_go.Base.Lists.{length}

abbrev pub Text : Type 0
Text = List ℕ

-- The bytes of an ASCII literal.
abbrev pub codes : String → Text
codes String.[] = []
codes (String.◌∷◌ c s) = code c ∷ codes s

abbrev pub text_eq : Text → Text → Bool
text_eq [] [] = true
text_eq [] (y ∷ ys) = false
text_eq (x ∷ xs) [] = false
text_eq (x ∷ xs) (y ∷ ys) = (x == y) && text_eq xs ys

pub text_eq_iff : (s t : Text) → (text_eq s t ≡ true) ↔ (s ≡ t)
text_eq_iff [] [] = ground arith
text_eq_iff [] (y ∷ ys) = ground arith
text_eq_iff (x ∷ xs) [] = ground arith
text_eq_iff (x ∷ xs) (y ∷ ys) = ground (arith, text_eq_iff xs ys)

pub text_eq_refl : (s : Text) → text_eq s s ≡ true
text_eq_refl s = (text_eq_iff s s).1 refl

pub text_eq-false : (s t : Text) → s ≢ t → text_eq s t ≡ false
text_eq-false s t h = ground (arith, text_eq_iff s t)

abbrev push : ℕ → List Text → List Text
push x [] = (x ∷ []) ∷ []
push x (w ∷ ws) = (x ∷ w) ∷ ws

-- strings.Split(s, string(c))
unfoldable pub split : ℕ → Text → List Text
split c [] = [] ∷ []
split c (x ∷ s) = let rest = split c s in if x == c then [] ∷ rest else push x rest

-- strings.Join(words, string(c))
unfoldable pub join : ℕ → List Text → Text
join c [] = []
join c (w ∷ []) = w
join c (w ∷ v ∷ ws) = w ++ c ∷ join c (v ∷ ws)

-- strings.SplitN(s, string(c), n) for n > 0
unfoldable pub split_n : ℕ → ℕ → Text → List Text
split_n c zero s = []
split_n c (suc zero) s = s ∷ []
split_n c (suc (suc n)) [] = [] ∷ []
split_n c (suc (suc n)) (x ∷ s) =
    let here = split_n c (suc n) s in
    let rest = split_n c (suc (suc n)) s in if x == c then [] ∷ here else push x rest

-- strings.HasPrefix(s, p)
unfoldable pub has_prefix : Text → Text → Bool
has_prefix s [] = true
has_prefix [] (p ∷ ps) = false
has_prefix (x ∷ s) (p ∷ ps) = (x == p) && has_prefix s ps

-- strings.Contains(s, p)
unfoldable pub contains : Text → Text → Bool
unfolding has_prefix
contains [] p = has_prefix [] p
contains (x ∷ s) p = has_prefix (x ∷ s) p || contains s p

-- strings.HasSuffix(s, p)
unfoldable pub has_suffix : Text → Text → Bool
has_suffix [] p = text_eq [] p
has_suffix (x ∷ s) p = text_eq (x ∷ s) p || has_suffix s p

-- strings.ContainsAny(s, chars)
unfoldable pub contains_any : Text → (ℕ → Bool) → Bool
contains_any [] chars = false
contains_any (x ∷ s) chars = chars x || contains_any s chars

pub split-ne-nil : (c : ℕ) (s : Text) → split c s ≢ []
unfolding split
split-ne-nil c [] = λ e. cc
split-ne-nil c (x ∷ s) = ground (arith, split-ne-nil c s)

join-push : (c x : ℕ) (ws : List Text) → ws ≢ [] → join c (push x ws) ≡ x ∷ join c ws
unfolding join
join-push c x [] h = absurd (h refl)
join-push c x (w ∷ []) h = refl
join-push c x (w ∷ v ∷ ws) h = refl

join-nil : (c : ℕ) (ws : List Text) → ws ≢ [] → join c ([] ∷ ws) ≡ c ∷ join c ws
unfolding join
join-nil c [] h = absurd (h refl)
join-nil c (w ∷ ws) h = refl

-- Splitting loses nothing.
pub join-split : (c : ℕ) (s : Text) → join c (split c s) ≡ s
unfolding split
join-split c [] = unfold join in refl
join-split c (x ∷ s) =
    ground
      (arith, join-split c s, join-push c x (split c s), join-nil c (split c s), split-ne-nil c s)

length-push-le : (x n : ℕ) (ws : List Text) → length ws ≤ suc n → length (push x ws) ≤ suc n
length-push-le x n [] h = omega arith
length-push-le x n (w ∷ ws) h = h

-- SplitN yields at most n parts.
pub length-split_n : (c n : ℕ) (s : Text) → length (split_n c n s) ≤ n
unfolding split_n
length-split_n c zero s = omega arith
length-split_n c (suc zero) s = omega arith
length-split_n c (suc (suc n)) [] = omega arith
length-split_n c (suc (suc n)) (x ∷ s) = ground (
  arith,
  length-split_n c (suc n) s,
  length-push-le x (suc n) (split_n c (suc (suc n)) s) (length-split_n c (suc (suc n)) s),
)

abbrev pub is_empty : Text → Bool
is_empty [] = true
is_empty (x ∷ s) = false
