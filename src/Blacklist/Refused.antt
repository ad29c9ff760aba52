-- ===== src/Blacklist/Refused.antt =====
-- The blacklist of pkg/blacklist in front of the CONNECT of pkg/broker/broker.go.
use mathlib.Core.Path.{subst}
use emqx_go.Base.{
  ok_inj, ℕ, ◌≡◌, ◌≢◌, inl, inr, refl, sym, ap, ◌∙◌, Bool, true, ◌&&◌, List, [], ◌∷◌, Option, none,
  some, Bool-cases, Text, codes, is_empty, ok, err, text_eq, text_eq_iff,
}
use emqx_go.Base.Map.{text_has_eq}
use emqx_go.Blacklist.Entries.{
  BlacklistType, Submitted, BlacklistEntry, BlacklistManager, BlacklistBlock, BlacklistError,
  ClientInfo, client_id, type_eq, type_eq_iff, type_of_name,
}
use emqx_go.Blacklist.Match.{Libraries}
use emqx_go.Blacklist.Manager.{
  new_blacklist_manager, add_entry, created, validate_entry, validate_rest, is_action,
}
use emqx_go.Blacklist.Check.{
  record_block, or_next, check_direct, check_type, check_client_id, check_client_connection,
  match_pattern, is_in_force, is_before,
}
use emqx_go.Blacklist.Indexed.{IsIndexed}
use emqx_go.Blacklist.Blocking.{answer_with, check_patterns-same}
use emqx_go.Blacklist.Calls.{Call, block, step, calls, calls-IsIndexed}
use emqx_go.Blacklist.Added.{add_entry-check_type}
use emqx_go.Blacklist.Middleware.{
  BlacklistMiddleware, checks_clients, connection_block, verdict, info_of, access_control,
}
use emqx_go.Auth.{AuthChain}
use emqx_go.Broker.State.{Broker}
use emqx_go.Broker.Connection.{AccessControl, allowed, denied, Reply, Task}
use emqx_go.Broker.Connect.{
  ConnectIn, Client, Connecting, connected, refused, id_of, username_of, handle_connect,
}
use emqx_go.Broker.Connected.{Admitted, is_admitted, handle_connect-Admitted}

validate_rest-type :
    (s : Submitted) (o : Option BlacklistType) (t : BlacklistType)
    → validate_rest s o ≡ ok t
    → o ≡ some t
validate_rest-type s none t h = absurd cc
validate_rest-type s (some u) t h = elim (Bool-cases (is_action s.action)) [
  | inr no_ ↦
      absurd
        (let q : validate_rest s (some u) ≡ err BlacklistError.invalid_action = rw no_ refl in cc)
  | inl yes_ ↦ elim (Bool-cases (is_empty s.value && is_empty s.pattern)) [
    | inl blank ↦ absurd (
        let q : validate_rest s (some u) ≡ err BlacklistError.value_required =
          rw (yes_, blank) refl in
        cc)
    | inr filled ↦
        (let q : validate_rest s (some u) ≡ ok u = rw (yes_, filled) refl in
          ap some (ok_inj (sym q ∙ h)))
  ]
]

validate_entry-type :
    (s : Submitted) (t : BlacklistType)
    → validate_entry s ≡ ok t
    → type_of_name s.type_name ≡ some t
unfolding validate_entry
validate_entry-type s t h = elim (Bool-cases (is_empty s.id)) [
  | inl blank ↦
      absurd (let q : validate_entry s ≡ err BlacklistError.id_required = rw blank refl in cc)
  | inr filled ↦
      let q : validate_entry s ≡ validate_rest s (type_of_name s.type_name) = rw filled refl in
      validate_rest-type s (type_of_name s.type_name) t (sym q ∙ h)
]

clientid-type :
    (s : Submitted) (t : BlacklistType)
    → s.type_name ≡ codes "clientid"
    → validate_entry s ≡ ok t
    → t ≡ client_id
unfolding type_of_name
clientid-type s t named valid =
    let q : type_of_name (codes "clientid") ≡ some t =
      subst (λ n. type_of_name n ≡ some t) named (validate_entry-type s t valid) in
    let k : some client_id ≡ some t = q in cc

connection_block-client_id :
    (lib : Libraries) (now : ℕ) (info : ClientInfo) (mw : BlacklistMiddleware)
    (bm : BlacklistManager) (e : BlacklistEntry)
    → mw.manager ≡ some bm
    → checks_clients mw.config ≡ true
    → check_client_id now info.client_id bm ≡ some e
    → verdict (connection_block lib now info mw) ≡ denied
unfolding connection_block check_client_connection
connection_block-client_id lib now info mw bm e has checks found = rw (has, checks, found) refl

exact_answer :
    (now : ℕ) (v : Text) (e : BlacklistEntry) (bm : BlacklistManager)
    → type_eq e.type client_id ≡ true
    → is_empty e.pattern ≡ true
    → text_eq e.value v ≡ true
    → is_in_force now e ≡ true
    → answer_with match_pattern now client_id v e bm ≡ some e
exact_answer now v e bm same none_given here live = rw (same, none_given, here, live) refl

added-found :
    (lib : Libraries) (added now : ℕ) (s : Submitted) (bm bm' : BlacklistManager)
    → IsIndexed bm
    → add_entry lib added s bm ≡ ok bm'
    → s.type_name ≡ codes "clientid"
    → s.pattern ≡ []
    → s.enabled ≡ true
    → is_before now s.expires_at ≡ true
    → (e : BlacklistEntry) × (check_client_id now s.value bm' ≡ some e)
unfolding check_client_id
added-found lib added now s bm bm' ix h named none_given on live =
    let (t, c, valid, compiled, unknown, answers) = add_entry-check_type lib added s bm bm' ix h in
    let e = created added s t c in
    let same : type_eq t client_id ≡ true =
      (type_eq_iff t client_id).1 (clientid-type s t named valid) in
    let here : text_eq s.value s.value ≡ true = (text_eq_iff s.value s.value).1 refl in
    (
      e,
      answers match_pattern now client_id s.value
          ∙ exact_answer now s.value e bm same (rw none_given refl) here (rw (on, live) refl),
    )

abbrev block_all : List (ℕ × BlacklistBlock) → List Call
block_all [] = []
block_all ((now, b) ∷ bs) = block now b ∷ block_all bs

-- The record of a block leaves the checks of client ids.
check_client_id-record_block :
    (recorded now : ℕ) (b : BlacklistBlock) (v : Text) (bm : BlacklistManager)
    → check_client_id now v (record_block recorded b bm) ≡ check_client_id now v bm
unfolding check_client_id check_type check_direct record_block
check_client_id-record_block recorded now b v bm = ap (or_next (check_direct now client_id v bm)) (
    check_patterns-same match_pattern now v (bm.pattern_entries client_id) bm
      (record_block recorded b bm) (λ x k. refl))

check_client_id-blocks :
    (lib : Libraries) (bs : List (ℕ × BlacklistBlock)) (now : ℕ) (v : Text) (bm : BlacklistManager)
    → check_client_id now v (calls lib (block_all bs) bm) ≡ check_client_id now v bm
unfolding calls step
check_client_id-blocks lib [] now v bm = refl
check_client_id-blocks lib ((recorded, b) ∷ bs) now v bm =
    check_client_id-blocks lib bs now v (record_block recorded b bm)
    ∙ check_client_id-record_block recorded now b v bm

Admitted-allowed :
    (ac : AccessControl) (chain : AuthChain) (ip id : Text) (c : ConnectIn)
    → Admitted ac chain ip id c
    → ac.client_connection id (username_of c) ip ≡ allowed
Admitted-allowed ac chain ip id c (is_admitted valid let_in auth) = let_in

refused_unless_connected :
    (r : Connecting)
    → ((client : Client) (b : Broker) (written : List Reply) (tasks : List Task)
        → r ≢ connected client b written tasks)
    → (written : List Reply) × (r ≡ refused written)
refused_unless_connected (refused written) never = (written, refl)
refused_unless_connected (connected client b written tasks) never =
    absurd (never client b written tasks refl)

-- In the manager that any calls leave, AddEntry with an enabled entry of the type clientid without a
-- pattern returns a manager in which, also after blocks are recorded, a client whose id is the value of
-- the entry is refused while the entry has not expired and the middleware checks clients, whatever the
-- authenticators say.
pub add_entry-refused :
    (lib : Libraries) (created added now : ℕ) (cs : List Call) (bs : List (ℕ × BlacklistBlock))
    (s : Submitted) (bm' : BlacklistManager) (mw : BlacklistMiddleware) (chain : AuthChain)
    (ip generated : Text) (up : Bool) (c : ConnectIn) (b : Broker)
    → add_entry lib added s (calls lib cs (new_blacklist_manager created)) ≡ ok bm'
    → s.type_name ≡ codes "clientid"
    → s.pattern ≡ []
    → s.enabled ≡ true
    → is_before now s.expires_at ≡ true
    → s.value ≡ id_of generated c
    → mw.manager ≡ some (calls lib (block_all bs) bm')
    → checks_clients mw.config ≡ true
    → (written : List Reply) × (handle_connect
          (access_control lib now mw)
          chain
          ip
          generated
          now
          up
          c
          b
        ≡ refused written)
unfolding access_control
add_entry-refused lib created added now cs bs s bm' mw chain ip generated up c b h named none_given
      on live same has checks =
    let ac = access_control lib now mw in
    let later = calls lib (block_all bs) bm' in
    let (e, found) =
      added-found lib added now s (calls lib cs (new_blacklist_manager created)) bm'
        (calls-IsIndexed lib created cs) h named none_given on live in
    let found' =
      subst (λ x. check_client_id now x later ≡ some e) same
        (check_client_id-blocks lib bs now s.value bm' ∙ found) in
    let info = info_of (id_of generated c) (username_of c) ip (codes "mqtt") in
    let denies = connection_block-client_id lib now info mw later e has checks found' in
    refused_unless_connected (handle_connect ac chain ip generated now up c b)
      (λ client b' written tasks went.
        let let_in =
          Admitted-allowed ac chain ip (id_of generated c) c
            (handle_connect-Admitted ac chain ip generated now up c b client b' written tasks
              went).0 in
        absurd (let q : allowed ≡ denied = sym let_in ∙ denies in cc))
