-- ===== src/Rules/Accepted.antt =====
-- What the validation of an action in pkg/rules/actions.go promises of its execution.
use mathlib.Core.Path.{subst}
use emqx_go.Base.{
  ℕ, ◌≡◌, ◌≢◌, ◌⊎◌, inl, inr, refl, sym, ap, ◌∙◌, Bool, true, [], ◌∷◌, Option, none, some, arith,
  Bool-cases, In, Text, codes, leb, text_eq, All,
}
use emqx_go.Base.Map.{Map, lookup, text_has_eq}
use emqx_go.Rules.Values.{
  ℤ, Value, RuleContext, Libraries, null, string, int, float, bool, json_text,
}
use emqx_go.Rules.Engine.{ActionExecutor, new_rule_engine}
use emqx_go.Rules.Actions.{
  execute_console, validate_console, execute_discard, validate_discard, Params, republished,
  ActionError, url_required, connector_id_required, topic_required, Environment, parameter,
  answered, request, execute_http, validate_http, send, execute_connector, validate_connector,
  is_given, qos_of, call_back, is_qos, valid_qos, republish_to, execute_republish,
  validate_republish,
}

-- The error does not say that a parameter is missing.
abbrev pub IsComplete : Option ActionError → Type 0
IsComplete e =
    (e ≢ some url_required) × (e ≢ some connector_id_required) × (e ≢ some topic_required)

answered-IsComplete : (code : Option ℕ) → IsComplete (answered code)
answered-IsComplete none = ((λ h. cc), (λ h. cc), (λ h. cc))
answered-IsComplete (some code) = elim (Bool-cases (leb 400 code)) [
  | inl e ↦ rw e ((λ h. cc), (λ h. cc), (λ h. cc))
  | inr e ↦ rw e ((λ h. cc), (λ h. cc), (λ h. cc))
]

request-IsComplete :
    (env : Environment) (method url body : Text) → IsComplete (request env method url body).0
request-IsComplete env method url body = elim (Bool-cases (env.new_request method url)) [
  | inl e ↦ rw e (answered-IsComplete (env.do_request method url body))
  | inr e ↦ rw e ((λ h. cc), (λ h. cc), (λ h. cc))
]

send-IsComplete :
    (id topic payload : Text) (c : Option (Text → Text → Bool))
    → IsComplete (send id topic payload c).0
send-IsComplete id topic payload none = ((λ h. cc), (λ h. cc), (λ h. cc))
send-IsComplete id topic payload (some takes) = elim (Bool-cases (takes topic payload)) [
  | inl e ↦ rw e ((λ h. cc), (λ h. cc), (λ h. cc))
  | inr e ↦ rw e ((λ h. cc), (λ h. cc), (λ h. cc))
]

call_back-IsComplete :
    (f : Option (Text → ℤ → Text → Bool)) (topic : Text) (qos : ℤ) (payload : Text)
    → IsComplete (call_back f topic qos payload).0
call_back-IsComplete none topic qos payload = ((λ h. cc), (λ h. cc), (λ h. cc))
call_back-IsComplete (some f) topic qos payload = elim (Bool-cases (f topic qos payload)) [
  | inl e ↦ rw e ((λ h. cc), (λ h. cc), (λ h. cc))
  | inr e ↦ rw e ((λ h. cc), (λ h. cc), (λ h. cc))
]

given-some : (o : Option Text) → is_given o ≡ true → (s : Text) × (o ≡ some s)
given-some none h = absurd cc
given-some (some s) h = (s, refl)

qos_of-cases :
    (lib : Libraries) (old : ℤ) (q : Option Value)
    → valid_qos lib q ≡ true
    → (is_qos (qos_of lib old q) ≡ true) ⊎ (qos_of lib old q ≡ old)
qos_of-cases lib old none h = inr refl
qos_of-cases lib old (some (int n)) h = inl h
qos_of-cases lib old (some (float x)) h = inl h
qos_of-cases lib old (some null) h = inr refl
qos_of-cases lib old (some (string s)) h = inr refl
qos_of-cases lib old (some (bool b)) h = inr refl
qos_of-cases lib old (some (json_text s)) h = inr refl

abbrev KeepsPromise : RuleContext → Params → ActionExecutor → Type 0
KeepsPromise ctx params x = x.validate params ≡ true → IsComplete (x.execute ctx params).0

http-KeepsPromise :
    (lib : Libraries) (env : Environment) (ctx : RuleContext) (params : Params)
    → validate_http lib params ≡ true
    → IsComplete (execute_http lib env ctx params).0
unfolding validate_http execute_http
http-KeepsPromise lib env ctx params h =
    let (url, e) = given-some (parameter (codes "url") params) (ground arith) in
    rw e (request-IsComplete env _ url _)

connector-KeepsPromise :
    (lib : Libraries) (env : Environment) (ctx : RuleContext) (params : Params)
    → validate_connector params ≡ true
    → IsComplete (execute_connector lib env ctx params).0
unfolding validate_connector execute_connector
connector-KeepsPromise lib env ctx params h =
    let (id, e) = given-some (parameter (codes "connector_id") params) h in
    rw e (send-IsComplete id _ _ (env.get_connector id))

republish-KeepsPromise :
    (lib : Libraries) (env : Environment) (ctx : RuleContext) (params : Params)
    → validate_republish lib params ≡ true
    → IsComplete (execute_republish lib env ctx params).0
unfolding validate_republish execute_republish
republish-KeepsPromise lib env ctx params h =
    let (topic, e) = given-some (parameter (codes "topic") params) (ground arith) in
    rw e (call_back-IsComplete env.republish_callback _ _ _)

none-IsComplete : IsComplete none
none-IsComplete = ((λ h. cc), (λ h. cc), (λ h. cc))

console-KeepsPromise :
    (lib : Libraries) (ctx : RuleContext) (params : Params)
    → validate_console params ≡ true
    → IsComplete (execute_console lib ctx params).0
unfolding execute_console
console-KeepsPromise lib ctx params h = none-IsComplete

discard-KeepsPromise :
    (ctx : RuleContext) (params : Params)
    → validate_discard params ≡ true
    → IsComplete (execute_discard ctx params).0
unfolding execute_discard
discard-KeepsPromise ctx params h = none-IsComplete

registered-KeepsPromise :
    (ctx : RuleContext) (params : Params) (name : Text) (x : ActionExecutor)
    (m : Map Text ActionExecutor)
    → All (λ (entry : Text × ActionExecutor). KeepsPromise ctx params entry.1) m
    → lookup name m ≡ some x
    → KeepsPromise ctx params x
unfolding lookup
registered-KeepsPromise ctx params name x [] hs h = absurd cc
registered-KeepsPromise ctx params name x ((n, y) ∷ m) hs h = elim (Bool-cases (text_eq n name)) [
  | inl e ↦
      let q : some y ≡ some x = sym (rw e refl) ∙ h in
      let k : y ≡ x = cc in subst (KeepsPromise ctx params) k hs.0
  | inr e ↦ registered-KeepsPromise ctx params name x m hs.1 (sym (rw e refl) ∙ h)
]

-- An action of a new engine whose parameters its executor accepts does not fail for a missing
-- parameter when it is executed, on any message.
pub validate-IsComplete :
    (lib : Libraries) (env : Environment) (ctx : RuleContext) (params : Params) (name : Text)
    (x : ActionExecutor)
    → lookup name (new_rule_engine lib env).actions ≡ some x
    → x.validate params ≡ true
    → IsComplete (x.execute ctx params).0
unfolding new_rule_engine
validate-IsComplete lib env ctx params name x h valid =
    registered-KeepsPromise ctx params name x (new_rule_engine lib env).actions
      (
        console-KeepsPromise lib ctx params,
        (
          http-KeepsPromise lib env ctx params,
          (
            connector-KeepsPromise lib env ctx params,
            (republish-KeepsPromise lib env ctx params, (discard-KeepsPromise ctx params, tt)),
          ),
        ),
      )
      h valid

call_back-In :
    (f : Option (Text → ℤ → Text → Bool)) (topic topic' : Text) (qos qos' : ℤ)
    (payload payload' : Text)
    → In (republished topic qos payload) (call_back f topic' qos' payload').1
    → qos ≡ qos'
call_back-In none topic topic' qos qos' payload payload' h = absurd h
call_back-In (some f) topic topic' qos qos' payload payload' (inl h) = cc
call_back-In (some f) topic topic' qos qos' payload payload' (inr h) = absurd h

-- An accepted republish action republishes with a QoS of 0, 1 or 2, or with that of the message.
validate_republish-qos :
    (lib : Libraries) (env : Environment) (ctx : RuleContext) (params : Params) (topic : Text)
    (qos : ℤ) (payload : Text)
    → validate_republish lib params ≡ true
    → In (republished topic qos payload) (execute_republish lib env ctx params).1
    → (is_qos qos ≡ true) ⊎ (qos ≡ ctx.qos)
unfolding validate_republish execute_republish
validate_republish-qos lib env ctx params topic qos payload h there =
    let (target, e) = given-some (parameter (codes "topic") params) (ground arith) in
    let there' =
      subst (λ o. In (republished topic qos payload) (republish_to lib env ctx params o).1) e
        there in
    let q =
      call_back-In env.republish_callback topic _ qos
        (qos_of lib ctx.qos (lookup (codes "qos") params)) payload _ there' in
    let valid : valid_qos lib (lookup (codes "qos") params) ≡ true = ground arith in
    elim (qos_of-cases lib ctx.qos (lookup (codes "qos") params) valid) [
      | inl in_range ↦ inl (ap is_qos q ∙ in_range)
      | inr unset ↦ inr (q ∙ unset)
    ]
