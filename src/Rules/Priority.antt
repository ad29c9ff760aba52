-- ===== src/Rules/Priority.antt =====
-- The sort of ProcessMessage in pkg/rules/engine.go.
use emqx_go.Base.{
  ℕ, zero, suc, ◌+◌, ◌-◌, ◌≤◌, ◌≡◌, inl, inr, refl, sym, ◌∙◌, true, false, List, [], ◌∷◌, arith,
  Bool-cases, All,
}
use mathlib.Core.Path.{subst}
use mathlib.Core.List.{Perm}
use mathlib.Core.List.Perm
use emqx_go.Rules.Values.{ℤ, pos, negsuc, int_ltb}
use emqx_go.Rules.Engine.{Entry, is_lower, exchange, sort_loop, count_of, sort_by_priority}

int_ltb_trans : (x y z : ℤ) → int_ltb x y ≡ false → int_ltb y z ≡ false → int_ltb x z ≡ false
int_ltb_trans (pos x) (pos y) (pos z) p q = ground arith
int_ltb_trans (pos x) (pos y) (negsuc z) p q = ground arith
int_ltb_trans (pos x) (negsuc y) (pos z) p q = ground arith
int_ltb_trans (pos x) (negsuc y) (negsuc z) p q = ground arith
int_ltb_trans (negsuc x) (pos y) z p q = absurd cc
int_ltb_trans (negsuc x) (negsuc y) (pos z) p q = absurd cc
int_ltb_trans (negsuc x) (negsuc y) (negsuc z) p q = ground arith

int_ltb_asymm : (x y : ℤ) → int_ltb x y ≡ true → int_ltb y x ≡ false
int_ltb_asymm (pos x) (pos y) p = ground arith
int_ltb_asymm (pos x) (negsuc y) p = absurd cc
int_ltb_asymm (negsuc x) (pos y) p = ground arith
int_ltb_asymm (negsuc x) (negsuc y) p = ground arith

int_irrefl : (x : ℤ) → int_ltb x x ≡ false
int_irrefl (pos x) = ground arith
int_irrefl (negsuc x) = ground arith

-- x stands before y, or could.
abbrev pub IsBefore : Entry → Entry → Type 0
IsBefore x y = is_lower x y ≡ false

-- One list is the other with neighbours swapped.
pub data Rearranged : List Entry → List Entry → Type 0 where
  same : (xs : List Entry) → Rearranged xs xs
  under : (x : Entry) {xs ys : List Entry} → Rearranged xs ys → Rearranged (x ∷ xs) (x ∷ ys)
  swap : (x y : Entry) (xs : List Entry) → Rearranged (x ∷ y ∷ xs) (y ∷ x ∷ xs)
  both : {xs ys zs : List Entry} → Rearranged xs ys → Rearranged ys zs → Rearranged xs zs

Rearranged-Perm : {xs ys : List Entry} → Rearranged xs ys → Perm xs ys
Rearranged-Perm (same xs) = Perm.rfl
Rearranged-Perm (under x r) = Perm.cons x (Rearranged-Perm r)
Rearranged-Perm (swap x y xs) = Perm.swap y x xs
Rearranged-Perm (both r r') = Perm.trans (Rearranged-Perm r) (Rearranged-Perm r')

pub All-Rearranged :
    (P : Entry → Type 0) {xs ys : List Entry} → Rearranged xs ys → All P ys → All P xs
All-Rearranged P (same xs) h = h
All-Rearranged P (under x r) h = (h.0, All-Rearranged P r h.1)
All-Rearranged P (swap x y xs) h = (h.1.0, (h.0, h.1.1))
All-Rearranged P (both r r') h = All-Rearranged P r (All-Rearranged P r' h)

count-Rearranged : {xs ys : List Entry} → Rearranged xs ys → count_of xs ≡ count_of ys
count-Rearranged (same xs) = refl
count-Rearranged (under x r) = omega (arith, count-Rearranged r)
count-Rearranged (swap x y xs) = refl
count-Rearranged (both r r') = count-Rearranged r ∙ count-Rearranged r'

exchange-Rearranged :
    (x : Entry) (ys : List Entry) → Rearranged ((exchange x ys).0 ∷ (exchange x ys).1) (x ∷ ys)
unfolding exchange
exchange-Rearranged x [] = Rearranged.same (x ∷ [])
exchange-Rearranged x (y ∷ ys) = elim (Bool-cases (is_lower x y)) [
  | inl lower ↦ rw lower (
      Rearranged.both (Rearranged.swap (exchange y ys).0 x (exchange y ys).1)
        (Rearranged.under x (exchange-Rearranged y ys)))
  | inr not_lower ↦ rw not_lower (
      Rearranged.both (Rearranged.swap (exchange x ys).0 y (exchange x ys).1)
        (Rearranged.both (Rearranged.under y (exchange-Rearranged x ys)) (Rearranged.swap y x ys)))
]

-- What the inner loop leaves at the front comes before all that it went through.
exchange-IsBefore :
    (x : Entry) (ys : List Entry)
    → IsBefore (exchange x ys).0 x × All (IsBefore (exchange x ys).0) ys
unfolding exchange
exchange-IsBefore x [] = (int_irrefl x.1.priority, tt)
exchange-IsBefore x (y ∷ ys) = elim (Bool-cases (is_lower x y)) [
  | inl lower ↦
      let (above, rest) = exchange-IsBefore y ys in
      let below =
        int_ltb_trans (exchange y ys).0.1.priority y.1.priority x.1.priority above
          (int_ltb_asymm x.1.priority y.1.priority lower) in
      let q : (exchange x (y ∷ ys)).0 ≡ (exchange y ys).0 = rw lower refl in
      subst (λ f. IsBefore f x × All (IsBefore f) (y ∷ ys)) (sym q) (below, (above, rest))
  | inr not_lower ↦
      let (above, rest) = exchange-IsBefore x ys in
      let beside =
        int_ltb_trans (exchange x ys).0.1.priority x.1.priority y.1.priority above not_lower in
      let q : (exchange x (y ∷ ys)).0 ≡ (exchange x ys).0 = rw not_lower refl in
      subst (λ f. IsBefore f x × All (IsBefore f) (y ∷ ys)) (sym q) (above, (beside, rest))
]

abbrev pub IsOrdered : List Entry → Type 0
IsOrdered [] = Unit
IsOrdered (x ∷ xs) = All (IsBefore x) xs × IsOrdered xs

sort_loop-Rearranged : (n : ℕ) (rules : List Entry) → Rearranged (sort_loop n rules) rules
unfolding sort_loop
sort_loop-Rearranged zero rules = Rearranged.same rules
sort_loop-Rearranged (suc n) [] = Rearranged.same []
sort_loop-Rearranged (suc n) (x ∷ rules) =
    Rearranged.both
      (Rearranged.under (exchange x rules).0 (sort_loop-Rearranged n (exchange x rules).1))
      (exchange-Rearranged x rules)

single-IsOrdered : (rules : List Entry) → count_of rules ≤ 1 → IsOrdered rules
single-IsOrdered [] small = tt
single-IsOrdered (x ∷ []) small = (tt, tt)
single-IsOrdered (x ∷ y ∷ rules) small = absurd (omega arith)

sort_loop-IsOrdered :
    (n : ℕ) (rules : List Entry) → count_of rules ≤ n + 1 → IsOrdered (sort_loop n rules)
unfolding sort_loop
sort_loop-IsOrdered zero rules small = single-IsOrdered rules (omega arith)
sort_loop-IsOrdered (suc n) [] small = tt
sort_loop-IsOrdered (suc n) (x ∷ rules) small =
    let first = (exchange x rules).0 in
    let rest = (exchange x rules).1 in
    let moved = exchange-Rearranged x rules in
    let all_before : All (IsBefore first) rest =
      (All-Rearranged (IsBefore first) moved (exchange-IsBefore x rules)).1 in
    (
      All-Rearranged (IsBefore first) (sort_loop-Rearranged n rest) all_before,
      sort_loop-IsOrdered n rest (omega (arith, count-Rearranged moved)),
    )

pub sort_by_priority-Rearranged : (rules : List Entry) → Rearranged (sort_by_priority rules) rules
unfolding sort_by_priority
sort_by_priority-Rearranged rules = sort_loop-Rearranged (count_of rules - 1) rules

-- The sort of ProcessMessage returns the rules that it is given, each as often, so that no rule stands
-- before one of a higher priority.
pub sort_by_priority-IsOrdered :
    (rules : List Entry) → IsOrdered (sort_by_priority rules) × Perm (sort_by_priority rules) rules
unfolding sort_by_priority
sort_by_priority-IsOrdered rules = (
  sort_loop-IsOrdered (count_of rules - 1) rules (omega arith),
  Rearranged-Perm (sort_by_priority-Rearranged rules),
)
