-- ===== src/Auth.antt =====
-- pkg/auth: the authenticator with its users in memory (memory.go) and the chain of authenticators
-- (auth.go). A map is an association list; the hash functions are an interface.
use emqx_go.Base.{
  ℕ, Bool, true, false, ◌&&◌, ◌∷◌, ◌++◌, List, [], Option, none, some, if◌then◌else◌, length, map,
  Text, is_empty, text_eq, Outcome, ok, err, panic,
}
use emqx_go.Base.Map.{Map, lookup, insert, delete, text_has_eq}
pub mod Users
pub mod Chain
mod Examples

pub data HashAlgorithm : Type 0 where
  plain sha256 bcrypt : HashAlgorithm
  other : Text → HashAlgorithm

pub record User : Type 0 where
  pub username : Text
  pub password_hash : Text
  pub algorithm : HashAlgorithm
  pub salt : Text
  pub enabled : Bool

pub data AuthResult : Type 0 where
  success failure error ignore : AuthResult

-- crypto/sha256 in hexadecimal, and golang.org/x/crypto/bcrypt: a hash of a password with the random
-- number that it draws, or an error, and the comparison of a hash with a password.
pub record Hashes : Type 0 where
  pub sha256_hex : Text → Text
  pub generate : ℕ → Text → Option Text
  pub compare : Text → Text → Bool

pub record MemoryAuthenticator : Type 0 where
  pub users : Map Text User
  pub enabled : Bool

pub data AuthError : Type 0 where
  empty_username not_found hash_failed unsupported : AuthError

abbrev pub or_failed : Option Text → Outcome AuthError Text
or_failed none = err hash_failed
or_failed (some h) = ok h

unfoldable pub hash_password : Hashes → ℕ → Text → Text → HashAlgorithm → Outcome AuthError Text
hash_password hs r password salt plain = ok password
hash_password hs r password salt sha256 = ok (hs.sha256_hex (salt ++ password))
hash_password hs r password salt bcrypt = or_failed (hs.generate r password)
hash_password hs r password salt (other name) = err unsupported

unfoldable pub verify_password : Hashes → Text → Text → Text → HashAlgorithm → Bool
verify_password hs password hash salt plain = text_eq password hash
verify_password hs password hash salt sha256 = text_eq (hs.sha256_hex (salt ++ password)) hash
verify_password hs password hash salt bcrypt = hs.compare hash password
verify_password hs password hash salt (other name) = false

unfoldable pub new_memory_authenticator : MemoryAuthenticator
new_memory_authenticator = record { users = []; enabled = true }

-- The salt of SHA-256 is the user's name.
abbrev pub salt_for : Text → HashAlgorithm → Text
salt_for username sha256 = username
salt_for username plain = []
salt_for username bcrypt = []
salt_for username (other name) = []

abbrev pub put_user : Text → User → MemoryAuthenticator → MemoryAuthenticator
put_user username u ma = record ma { users = insert username u ma.users }

abbrev pub put_hashed :
    Text
    → HashAlgorithm
    → MemoryAuthenticator
    → Outcome AuthError Text
    → Outcome AuthError MemoryAuthenticator
put_hashed username algorithm ma (err e) = err e
put_hashed username algorithm ma panic = panic
put_hashed username algorithm ma (ok hash) = ok (
    put_user username
      (record {
        username = username;
        password_hash = hash;
        algorithm = algorithm;
        salt = salt_for username algorithm;
        enabled = true;
      })
      ma)

unfoldable pub add_user :
    Hashes
    → ℕ
    → Text
    → Text
    → HashAlgorithm
    → MemoryAuthenticator
    → Outcome AuthError MemoryAuthenticator
unfolding hash_password
add_user hs r username password algorithm ma =
    if is_empty username
    then err empty_username
    else put_hashed username algorithm ma
        (hash_password hs r password (salt_for username algorithm) algorithm)

unfoldable pub remove_user : Text → MemoryAuthenticator → Outcome AuthError MemoryAuthenticator
remove_user username ma = elim (lookup username ma.users) [
  | none ↦ err not_found
  | some u ↦ ok (record ma { users = delete username ma.users })
]

abbrev pub update_hashed :
    Text
    → HashAlgorithm
    → User
    → MemoryAuthenticator
    → Outcome AuthError Text
    → Outcome AuthError MemoryAuthenticator
update_hashed username algorithm u ma (err e) = err e
update_hashed username algorithm u ma panic = panic
update_hashed username algorithm u ma (ok hash) = ok (
    put_user username
      (record u { password_hash = hash; algorithm = algorithm; salt = salt_for username algorithm })
      ma)

unfoldable pub update_user :
    Hashes
    → ℕ
    → Text
    → Text
    → HashAlgorithm
    → MemoryAuthenticator
    → Outcome AuthError MemoryAuthenticator
unfolding hash_password
update_user hs r username password algorithm ma = elim (lookup username ma.users) [
  | none ↦ err not_found
  | some u ↦
      update_hashed username algorithm u ma
        (hash_password hs r password (salt_for username algorithm) algorithm)
]

-- A copy without the hash.
unfoldable pub get_user : Text → MemoryAuthenticator → Outcome AuthError User
get_user username ma = elim (lookup username ma.users) [
  | none ↦ err not_found
  | some u ↦ ok (record {
    username = u.username;
    password_hash = [];
    algorithm = u.algorithm;
    salt = [];
    enabled = u.enabled;
  })
]

unfoldable pub list_users : MemoryAuthenticator → List Text
list_users ma = map (λ entry. entry.0) ma.users

unfoldable pub set_user_enabled :
    Text → Bool → MemoryAuthenticator → Outcome AuthError MemoryAuthenticator
set_user_enabled username enabled ma = elim (lookup username ma.users) [
  | none ↦ err not_found
  | some u ↦ ok (put_user username (record u { enabled = enabled }) ma)
]

unfoldable pub set_authenticator_enabled : Bool → MemoryAuthenticator → MemoryAuthenticator
set_authenticator_enabled enabled ma = record ma { enabled = enabled }

unfoldable pub clear_users : MemoryAuthenticator → MemoryAuthenticator
clear_users ma = record ma { users = [] }

unfoldable pub count_users : MemoryAuthenticator → ℕ
count_users ma = length ma.users

abbrev pub check_user : Hashes → Text → Option User → AuthResult
check_user hs password none = failure
check_user hs password (some u) =
    if u.enabled && verify_password hs password u.password_hash u.salt u.algorithm
    then success
    else failure

unfoldable pub authenticate : Hashes → Text → Text → MemoryAuthenticator → AuthResult
unfolding verify_password
authenticate hs username password ma =
    if ma.enabled
    then (if is_empty username
        then (if is_empty password then ignore else failure)
        else check_user hs password (lookup username ma.users))
    else ignore

-- An Authenticator as the chain sees it.
pub record Authenticator : Type 0 where
  pub is_enabled : Bool
  pub check : Text → Text → AuthResult

unfoldable pub memory_authenticator : Hashes → MemoryAuthenticator → Authenticator
unfolding authenticate
memory_authenticator hs ma = record {
  is_enabled = ma.enabled;
  check = λ username password. authenticate hs username password ma;
}

pub record AuthChain : Type 0 where
  pub authenticators : List Authenticator
  pub enabled : Bool

unfoldable pub new_auth_chain : AuthChain
new_auth_chain = record { authenticators = []; enabled = true }

unfoldable pub add_authenticator : Authenticator → AuthChain → AuthChain
add_authenticator a ac = record ac { authenticators = ac.authenticators ++ a ∷ [] }

unfoldable pub set_chain_enabled : Bool → AuthChain → AuthChain
set_chain_enabled enabled ac = record ac { enabled = enabled }

unfoldable pub clear_chain : AuthChain → AuthChain
clear_chain ac = record ac { authenticators = [] }

unfoldable pub count_authenticators : AuthChain → ℕ
count_authenticators ac = length ac.authenticators

abbrev pub decide : AuthResult → AuthResult → AuthResult
decide success rest = success
decide failure rest = failure
decide error rest = rest
decide ignore rest = rest

-- The loop over the authenticators, and what follows it.
unfoldable pub try_each : Text → Text → List Authenticator → AuthResult
try_each username password [] = if is_empty username && is_empty password then success else failure
try_each username password (a ∷ as_) =
    let rest = try_each username password as_ in
    if a.is_enabled then decide (a.check username password) rest else rest

abbrev pub try_some : Text → Text → List Authenticator → AuthResult
try_some username password [] = success
try_some username password (a ∷ as_) = try_each username password (a ∷ as_)

unfoldable pub run_chain : Text → Text → AuthChain → AuthResult
unfolding try_each
run_chain username password ac =
    if ac.enabled then try_some username password ac.authenticators else ignore
