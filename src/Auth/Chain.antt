-- ===== src/Auth/Chain.antt =====
-- Which answer of the chain of authenticators counts, in pkg/auth/auth.go.
use mathlib.Core.Path.{subst}
use emqx_go.Base.{
  sym, ◌≡◌, refl, ◌⊎◌, ◌↔◌, inl, inr, true, false, ◌&&◌, List, [], ◌∷◌, Text, is_empty, Bool-cases,
}
use emqx_go.Auth.{
  AuthResult, success, failure, error, ignore, Authenticator, decide, try_each, run_chain,
}

-- The first enabled authenticator that answers success or failure answers this; when there is none,
-- empty credentials succeed and others fail.
pub data Answers (username password : Text) : List Authenticator → AuthResult → Type 0 where
  anonymous : (is_empty username && is_empty password) ≡ true → Answers username password [] success
  rejected : (is_empty username && is_empty password) ≡ false → Answers username password [] failure
  succeeds :
      (a : Authenticator) (as_ : List Authenticator)
      → a.is_enabled ≡ true
      → a.check username password ≡ success
      → Answers username password (a ∷ as_) success
  fails :
      (a : Authenticator) (as_ : List Authenticator)
      → a.is_enabled ≡ true
      → a.check username password ≡ failure
      → Answers username password (a ∷ as_) failure
  passes :
      (a : Authenticator) (as_ : List Authenticator) (res : AuthResult)
      → a.is_enabled ≡ true
      → (a.check username password ≡ error) ⊎ (a.check username password ≡ ignore)
      → Answers username password as_ res
      → Answers username password (a ∷ as_) res
  disabled :
      (a : Authenticator) (as_ : List Authenticator) (res : AuthResult)
      → a.is_enabled ≡ false
      → Answers username password as_ res
      → Answers username password (a ∷ as_) res

Answers-try_each :
    {username password : Text} {as_ : List Authenticator} {res : AuthResult}
    → Answers username password as_ res
    → try_each username password as_ ≡ res
unfolding try_each
Answers-try_each (anonymous e) = rw e refl
Answers-try_each (rejected e) = rw e refl
Answers-try_each (succeeds a as_ on e) = rw (on, e) refl
Answers-try_each (fails a as_ on e) = rw (on, e) refl
Answers-try_each (passes a as_ res on (inl e) d) = rw (on, e) (Answers-try_each d)
Answers-try_each (passes a as_ res on (inr e) d) = rw (on, e) (Answers-try_each d)
Answers-try_each (disabled a as_ res off d) = rw off (Answers-try_each d)

answer_of :
    (username password : Text) (a : Authenticator) (as_ : List Authenticator) (r : AuthResult)
    → a.is_enabled ≡ true
    → a.check username password ≡ r
    → Answers username password as_ (try_each username password as_)
    → Answers username password (a ∷ as_) (decide r (try_each username password as_))
answer_of username password a as_ success on e d = succeeds a as_ on e
answer_of username password a as_ failure on e d = fails a as_ on e
answer_of username password a as_ error on e d = passes a as_ _ on (inl e) d
answer_of username password a as_ ignore on e d = passes a as_ _ on (inr e) d

try_each-Answers :
    (username password : Text) (as_ : List Authenticator)
    → Answers username password as_ (try_each username password as_)
unfolding try_each
try_each-Answers username password [] = elim (Bool-cases (is_empty username && is_empty password)) [
  | inl e ↦ rw e (anonymous e)
  | inr e ↦ rw e (rejected e)
]
try_each-Answers username password (a ∷ as_) = elim (Bool-cases a.is_enabled) [
  | inl on ↦
      let step : try_each username password (a ∷ as_)
          ≡ decide (a.check username password) (try_each username password as_) =
        rw (try_each, on) refl in
      let d =
        answer_of username password a as_ (a.check username password) on refl
          (try_each-Answers username password as_) in
      subst (Answers username password (a ∷ as_)) (sym step) d
  | inr off ↦
      let step : try_each username password (a ∷ as_) ≡ try_each username password as_ =
        rw (try_each, off) refl in
      subst (Answers username password (a ∷ as_)) (sym step)
        (disabled a as_ _ off (try_each-Answers username password as_))
]

-- An enabled chain that has an authenticator answers a result exactly if the relation `Answers` gives
-- it: disabled authenticators and those with an error or no opinion are passed over, the first
-- success or failure decides, and otherwise only empty credentials succeed.
pub run_chain_iff :
    (username password : Text) (a : Authenticator) (as_ : List Authenticator) (res : AuthResult)
    → (run_chain username password (record { authenticators = a ∷ as_; enabled = true }) ≡ res)
      ↔ Answers username password (a ∷ as_) res
unfolding run_chain
run_chain_iff username password a as_ res = (
  λ e. subst (Answers username password (a ∷ as_)) e (try_each-Answers username password (a ∷ as_)),
  λ d. Answers-try_each d,
)
