-- ===== src/Auth/Users.antt =====
-- The users of the memory authenticator, pkg/auth/memory.go.
use mathlib.Core.Path.{subst}
use emqx_go.Base.{
  ◌++◌, ◌≢◌, ℕ, ◌≡◌, refl, sym, ◌∙◌, true, false, Option, none, some, Text, is_empty, text_eq_refl,
  Outcome, ok, err, panic, Bool-cases, inl, inr, text_eq-false,
}
use emqx_go.Base.Map.{
  lookup, insert, delete, text_has_eq, lookup-insert_self, lookup-delete_self, lookup-insert,
}
use emqx_go.Auth.{
  HashAlgorithm, plain, sha256, bcrypt, other, User, success, failure, Hashes, MemoryAuthenticator,
  AuthError, empty_username, hash_password, verify_password, or_failed, put_user, put_hashed,
  salt_for, add_user, remove_user, set_user_enabled, check_user, authenticate,
}

-- bcrypt accepts a password against the hash that it made of it.
unfoldable pub IsVerifying : Hashes → Type 0
IsVerifying hs =
    (r : ℕ) (password hash : Text)
    → hs.generate r password ≡ some hash
    → hs.compare hash password ≡ true

generated : (o : Option Text) (hash : Text) → or_failed o ≡ ok hash → o ≡ some hash
generated none hash h = cc
generated (some x) hash h = cc

module _ (hs : Hashes) (good : IsVerifying hs) (r : ℕ) (password : Text) where
  hash_password-verify_password :
      (salt hash : Text) (algorithm : HashAlgorithm)
      → hash_password hs r password salt algorithm ≡ ok hash
      → verify_password hs password hash salt algorithm ≡ true
  unfolding hash_password verify_password IsVerifying
  hash_password-verify_password salt hash plain h =
      let same : password ≡ hash = cc in rw⁻¹ same (text_eq_refl password)
  hash_password-verify_password salt hash sha256 h =
      let same : hs.sha256_hex (salt ++ password) ≡ hash = cc in
      rw⁻¹ same (text_eq_refl (hs.sha256_hex (salt ++ password)))
  hash_password-verify_password salt hash bcrypt h =
      good r password hash (generated (hs.generate r password) hash h)
  hash_password-verify_password salt hash (other name) h = absurd cc

abbrev pub added : Text → HashAlgorithm → Text → User
added username algorithm hash = record {
  username = username;
  password_hash = hash;
  algorithm = algorithm;
  salt = salt_for username algorithm;
  enabled = true;
}

put_hashed-ok :
    (username : Text) (algorithm : HashAlgorithm) (ma ma' : MemoryAuthenticator)
    (o : Outcome AuthError Text)
    → put_hashed username algorithm ma o ≡ ok ma'
    → (hash : Text) × (o ≡ ok hash) × (put_user username (added username algorithm hash) ma ≡ ma')
put_hashed-ok username algorithm ma ma' (ok hash) h = (hash, refl, cc)
put_hashed-ok username algorithm ma ma' (err e) h = absurd cc
put_hashed-ok username algorithm ma ma' panic h = absurd cc

module _ (hs : Hashes) (r : ℕ) (username password : Text) (algorithm : HashAlgorithm)
    (ma ma' : MemoryAuthenticator) where
  add_user-ok :
      add_user hs r username password algorithm ma ≡ ok ma'
      → (is_empty username ≡ false)
        × ((hash : Text) × (hash_password hs r password (salt_for username algorithm) algorithm
              ≡ ok hash)
            × (put_user username (added username algorithm hash) ma ≡ ma'))
  unfolding add_user
  add_user-ok h = elim (Bool-cases (is_empty username)) [
    | inl e ↦ absurd (
        let bad : add_user hs r username password algorithm ma ≡ err empty_username =
          rw (add_user, e) refl in
        cc)
    | inr e ↦
        let o = hash_password hs r password (salt_for username algorithm) algorithm in
        let put : add_user hs r username password algorithm ma
            ≡ put_hashed username algorithm ma o =
          rw (add_user, e) refl in
        (e, put_hashed-ok username algorithm ma ma' o (sym put ∙ h))
  ]

authenticate-found :
    (hs : Hashes) (username password : Text) (u : User) (ma : MemoryAuthenticator)
    → ma.enabled ≡ true
    → is_empty username ≡ false
    → lookup username ma.users ≡ some u
    → authenticate hs username password ma ≡ check_user hs password (some u)
unfolding authenticate
authenticate-found hs username password u ma on named found =
    rw (authenticate, on, named, found) refl

authenticate-put_user :
    (hs : Hashes) (username other_name password : Text) (u : User) (ma : MemoryAuthenticator)
    → other_name ≢ username
    → authenticate hs other_name password (put_user username u ma)
      ≡ authenticate hs other_name password ma
unfolding authenticate
authenticate-put_user hs username other_name password u ma apart =
    let same : lookup other_name (insert username u ma.users) ≡ lookup other_name ma.users =
      rw (lookup-insert, text_eq-false username other_name (λ e. apart (sym e))) refl in
    rw same refl

abbrev IsAdded : Hashes → Text → Text → MemoryAuthenticator → MemoryAuthenticator → Type 0
IsAdded hs username password ma ma' =
    (authenticate hs username password ma' ≡ success)
    × ((off : MemoryAuthenticator) × (set_user_enabled username false ma' ≡ ok off)
        × ((p : Text) → authenticate hs username p off ≡ failure))
    × ((left : MemoryAuthenticator) × (remove_user username ma' ≡ ok left)
        × ((p : Text) → authenticate hs username p left ≡ failure))
    × ((name p : Text) → name ≢ username → authenticate hs name p ma' ≡ authenticate hs name p ma)

authenticate-missing :
    (hs : Hashes) (username password : Text) (ma : MemoryAuthenticator)
    → ma.enabled ≡ true
    → is_empty username ≡ false
    → lookup username ma.users ≡ none
    → authenticate hs username password ma ≡ failure
unfolding authenticate
authenticate-missing hs username password ma on named found =
    rw (authenticate, on, named, found) refl

added-IsAdded :
    (hs : Hashes) (username password hash : Text) (algorithm : HashAlgorithm)
    (ma : MemoryAuthenticator)
    → ma.enabled ≡ true
    → is_empty username ≡ false
    → verify_password hs password hash (salt_for username algorithm) algorithm ≡ true
    → IsAdded hs username password ma (put_user username (added username algorithm hash) ma)
unfolding set_user_enabled remove_user
added-IsAdded hs username password hash algorithm ma on named verified =
    let u = added username algorithm hash in
    let users = insert username u ma.users in
    let found = lookup-insert_self username u ma.users in
    let disabled = record u { enabled = false } in
    (
      rw
          (
            authenticate-found hs username password u (put_user username u ma) on named found,
            verified,
          )
          refl,
      (
        put_user username disabled (put_user username u ma),
        rw (set_user_enabled, found) refl,
        λ p.
            authenticate-found hs username p disabled
              (put_user username disabled (put_user username u ma)) on named
              (lookup-insert_self username disabled users),
      ),
      (
        record ma { users = delete username users },
        rw (remove_user, found) refl,
        λ p.
            authenticate-missing hs username p (record ma { users = delete username users }) on
              named (lookup-delete_self username users),
      ),
      λ name p apart. authenticate-put_user hs username name p u ma apart,
    )

-- A user that an enabled authenticator has added is accepted with the password it was added with,
-- whatever the hash algorithm; it is rejected with every password once it is disabled or removed; and
-- the answer for every other name stays as it was. bcrypt is taken to accept a password against its
-- own hash.
pub add_user-authenticate :
    (hs : Hashes) (r : ℕ) (username password : Text) (algorithm : HashAlgorithm)
    (ma ma' : MemoryAuthenticator)
    → IsVerifying hs
    → ma.enabled ≡ true
    → add_user hs r username password algorithm ma ≡ ok ma'
    → (authenticate hs username password ma' ≡ success)
      × ((off : MemoryAuthenticator) × (set_user_enabled username false ma' ≡ ok off)
          × ((p : Text) → authenticate hs username p off ≡ failure))
      × ((left : MemoryAuthenticator) × (remove_user username ma' ≡ ok left)
          × ((p : Text) → authenticate hs username p left ≡ failure))
      × ((name p : Text) → name ≢ username → authenticate hs name p ma' ≡ authenticate hs name p ma)
add_user-authenticate hs r username password algorithm ma ma' good on h =
    let (named, (hash, hashed, put)) = add_user-ok hs r username password algorithm ma ma' h in
    let verified =
      hash_password-verify_password hs good r password (salt_for username algorithm) hash algorithm
        hashed in
    subst (IsAdded hs username password ma) put
      (added-IsAdded hs username password hash algorithm ma on named verified)
