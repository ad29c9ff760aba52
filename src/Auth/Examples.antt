-- ===== src/Auth/Examples.antt =====
-- The theorems on pkg/auth at one user and two authenticators. The hash functions stand for any that
-- verify what they hash.
use emqx_go.Base.{
  ◌≢◌, ◌↔◌, ◌≡◌, refl, true, false, [], ◌∷◌, some, Text, text_eq, text_eq_refl, codes, ok,
}
use emqx_go.Base.Map.{insert, text_has_eq}
use emqx_go.Auth.{
  bcrypt, success, failure, error, Hashes, MemoryAuthenticator, Authenticator, add_user,
  remove_user, set_user_enabled, authenticate, memory_authenticator, run_chain,
}
use emqx_go.Auth.Users.{IsVerifying, add_user-authenticate}
use emqx_go.Auth.Chain.{Answers, run_chain_iff}

abbrev tail : Text → Text
tail [] = []
tail (x ∷ s) = s

abbrev reversible : Hashes
reversible = record {
  sha256_hex = λ s. 0 ∷ s;
  generate = λ r s. some (r ∷ s);
  compare = λ hash s. text_eq (tail hash) s;
}

reversible-IsVerifying : IsVerifying reversible
unfolding IsVerifying
reversible-IsVerifying r password hash h =
    let same : r ∷ password ≡ hash = cc in rw⁻¹ same (text_eq_refl password)

abbrev nobody : MemoryAuthenticator
nobody = record { users = []; enabled = true }

abbrev with_alice : MemoryAuthenticator
with_alice = record {
  users =
      (
        codes "alice",
        record {
          username = codes "alice";
          password_hash = 5 ∷ codes "secret";
          algorithm = bcrypt;
          salt = [];
          enabled = true;
        },
      )
      ∷ [];
  enabled = true;
}

added : add_user reversible 5 (codes "alice") (codes "secret") bcrypt nobody ≡ ok with_alice
unfolding add_user insert
added = refl

add_user-authenticate_example :
    (authenticate reversible (codes "alice") (codes "secret") with_alice ≡ success)
    × ((off : MemoryAuthenticator) × (set_user_enabled (codes "alice") false with_alice ≡ ok off)
        × ((p : Text) → authenticate reversible (codes "alice") p off ≡ failure))
    × ((left : MemoryAuthenticator) × (remove_user (codes "alice") with_alice ≡ ok left)
        × ((p : Text) → authenticate reversible (codes "alice") p left ≡ failure))
    × ((name p : Text)
        → name ≢ codes "alice"
        → authenticate reversible name p with_alice ≡ authenticate reversible name p nobody)
add_user-authenticate_example =
    add_user-authenticate reversible 5 (codes "alice") (codes "secret") bcrypt nobody with_alice
      reversible-IsVerifying refl added

abbrev broken : Authenticator
broken = record { is_enabled = true; check = λ username password. error }

run_chain_iff_example :
    (run_chain (codes "alice") (codes "secret") (record {
      authenticators = broken ∷ memory_authenticator reversible with_alice ∷ [];
      enabled = true;
    })
      ≡ success)
    ↔ Answers
        (codes "alice")
        (codes "secret")
        (broken ∷ memory_authenticator reversible with_alice ∷ [])
        success
run_chain_iff_example =
    run_chain_iff (codes "alice") (codes "secret") broken
      (memory_authenticator reversible with_alice ∷ []) success
