-- ===== src/Rules/Actions.antt =====
-- The action executors of pkg/rules/actions.go. What the network, a connector and the callback of a
-- republish answer is an environment; that the callback of the broker calls the engine again is
-- left to Rules/Engine, where a processing ends as called_back. The headers of a request, the outputs and
-- GetSchema are left out.
use emqx_go.Base.{
  ℕ, Bool, true, false, not, ◌&&◌, ◌||◌, List, [], ◌∷◌, ◌++◌, Option, none, some, if◌then◌else◌,
  leb, Text, codes, text_eq,
}
use emqx_go.Base.Map.{Map, lookup, text_has_eq}
use emqx_go.Rules.Values.{ℤ, pos, int_ltb, Value, string, int, float, RuleContext, Libraries}

abbrev pub Params : Type 0
Params = Map Text Value

-- What an action does to the outside.
pub data Effect : Type 0 where
  printed : Text → Effect
  requested : Text → Text → Text → Effect
  sent : Text → Text → Text → Effect
  republished : Text → ℤ → Text → Effect

pub data ActionError : Type 0 where
  url_required request_failed connector_id_required connector_not_found send_failed : ActionError
  topic_required republish_failed : ActionError
  status : ℕ → ActionError

abbrev pub Executed : Type 0
Executed = Option ActionError × List Effect

-- Whether a request can be made of a method and an address, the status of the answer or none, whether
-- a connector of the id is there and takes the message, and the callback.
pub record Environment : Type 0 where
  pub new_request : Text → Text → Bool
  pub do_request : Text → Text → Text → Option ℕ
  pub get_connector : Text → Option (Text → Text → Bool)
  pub republish_callback : Option (Text → ℤ → Text → Bool)

-- params[name].(string)
abbrev pub as_string : Option Value → Option Text
as_string (some (string s)) = some s
as_string _ = none

abbrev pub or_default : Text → Option Text → Text
or_default s none = s
or_default s (some t) = t

unfoldable pub parameter : Text → Params → Option Text
unfolding lookup
parameter name params = as_string (lookup name params)

unfoldable pub replace_variables : Libraries → Text → RuleContext → Text
replace_variables lib template ctx =
    let s1 = lib.replace_all template (codes "${topic}") ctx.topic in
    let s2 = lib.replace_all s1 (codes "${payload}") ctx.payload in
    let s3 = lib.replace_all s2 (codes "${clientid}") ctx.client_id in
    let s4 = lib.replace_all s3 (codes "${username}") ctx.username in
    let s5 = lib.replace_all s4 (codes "${qos}") (lib.format (int ctx.qos)) in
    lib.replace_all s5 (codes "${timestamp}") ctx.rfc3339

unfoldable pub execute_console : Libraries → RuleContext → Params → Executed
unfolding parameter replace_variables
execute_console lib ctx params =
    let level = or_default (codes "info") (parameter (codes "level") params) in
    let template =
      or_default (codes "${topic}: ${payload}") (parameter (codes "template") params) in
    (
      none,
      printed (
            codes "[" ++ (lib.to_upper level ++ (codes "] " ++ replace_variables lib template ctx)))
          ∷ [],
    )

abbrev pub is_level : Text → Bool
is_level s =
    text_eq s (codes "debug")
    || (text_eq s (codes "info") || (text_eq s (codes "warn") || text_eq s (codes "error")))

abbrev pub valid_level : Option Value → Bool
valid_level none = true
valid_level (some (string s)) = is_level s
valid_level _ = false

unfoldable pub validate_console : Params → Bool
unfolding lookup
validate_console params = valid_level (lookup (codes "level") params)

abbrev pub answered : Option ℕ → Option ActionError
answered none = some request_failed
answered (some code) = if leb 400 code then some (status code) else none

abbrev pub request : Environment → Text → Text → Text → Executed
request env method url body =
    if env.new_request method url
    then (answered (env.do_request method url body), requested method url body ∷ [])
    else (some request_failed, [])

abbrev pub method_of : Libraries → Option Text → Text
method_of lib none = codes "POST"
method_of lib (some m) = lib.to_upper m

abbrev pub request_to : Libraries → Environment → RuleContext → Params → Option Text → Executed
request_to lib env ctx params none = (some url_required, [])
request_to lib env ctx params (some url) =
    let body = or_default (codes "${payload}") (parameter (codes "body") params) in
    request env (method_of lib (parameter (codes "method") params)) url
      (replace_variables lib body ctx)

unfoldable pub execute_http : Libraries → Environment → RuleContext → Params → Executed
unfolding parameter replace_variables
execute_http lib env ctx params = request_to lib env ctx params (parameter (codes "url") params)

abbrev pub is_method : Text → Bool
is_method s =
    text_eq s (codes "GET")
    || (text_eq s (codes "POST")
        || (text_eq s (codes "PUT") || (text_eq s (codes "DELETE") || text_eq s (codes "PATCH"))))

abbrev pub valid_method : Libraries → Option Value → Bool
valid_method lib none = true
valid_method lib (some (string s)) = is_method (lib.to_upper s)
valid_method lib _ = false

abbrev pub is_given : Option Text → Bool
is_given none = false
is_given (some s) = true

unfoldable pub validate_http : Libraries → Params → Bool
unfolding parameter lookup
validate_http lib params =
    is_given (parameter (codes "url") params) && valid_method lib (lookup (codes "method") params)

abbrev pub or_rendered : Libraries → RuleContext → Text → Option Text → Text
or_rendered lib ctx s none = s
or_rendered lib ctx s (some template) = replace_variables lib template ctx

abbrev pub send : Text → Text → Text → Option (Text → Text → Bool) → Executed
send id topic payload none = (some connector_not_found, [])
send id topic payload (some takes) =
    (if takes topic payload then none else some send_failed, sent id topic payload ∷ [])

abbrev pub send_to : Libraries → Environment → RuleContext → Params → Option Text → Executed
send_to lib env ctx params none = (some connector_id_required, [])
send_to lib env ctx params (some id) =
    send id (or_rendered lib ctx ctx.topic (parameter (codes "topic") params))
      (or_rendered lib ctx ctx.payload (parameter (codes "payload_template") params))
      (env.get_connector id)

unfoldable pub execute_connector : Libraries → Environment → RuleContext → Params → Executed
unfolding parameter replace_variables
execute_connector lib env ctx params =
    send_to lib env ctx params (parameter (codes "connector_id") params)

unfoldable pub validate_connector : Params → Bool
unfolding parameter
validate_connector params = is_given (parameter (codes "connector_id") params)

abbrev pub qos_of : Libraries → ℤ → Option Value → ℤ
qos_of lib old (some (float x)) = lib.int_of_float x
qos_of lib old (some (int n)) = n
qos_of lib old _ = old

-- Without a callback nothing is republished, and the action succeeds.
abbrev pub call_back : Option (Text → ℤ → Text → Bool) → Text → ℤ → Text → Executed
call_back none topic qos payload = (none, [])
call_back (some callback) topic qos payload = (
  if callback topic qos payload then none else some republish_failed,
  republished topic qos payload ∷ [],
)

abbrev pub republish_to : Libraries → Environment → RuleContext → Params → Option Text → Executed
republish_to lib env ctx params none = (some topic_required, [])
republish_to lib env ctx params (some topic) =
    call_back env.republish_callback (replace_variables lib topic ctx)
      (qos_of lib ctx.qos (lookup (codes "qos") params))
      (or_rendered lib ctx ctx.payload (parameter (codes "payload_template") params))

-- The callback is called in the place of the effect `republished`; what it does before it answers, such
-- as a call of the engine, is not part of the effect.
unfoldable pub execute_republish : Libraries → Environment → RuleContext → Params → Executed
unfolding parameter replace_variables lookup
execute_republish lib env ctx params =
    republish_to lib env ctx params (parameter (codes "topic") params)

abbrev pub is_qos : ℤ → Bool
is_qos n = not (int_ltb n (pos 0) || int_ltb (pos 2) n)

abbrev pub valid_qos : Libraries → Option Value → Bool
valid_qos lib none = true
valid_qos lib (some (int n)) = is_qos n
valid_qos lib (some (float x)) = is_qos (lib.int_of_float x)
valid_qos lib _ = false

unfoldable pub validate_republish : Libraries → Params → Bool
unfolding parameter lookup
validate_republish lib params =
    is_given (parameter (codes "topic") params) && valid_qos lib (lookup (codes "qos") params)

-- DiscardActionExecutor: it reports success and stops nothing.
unfoldable pub execute_discard : RuleContext → Params → Executed
execute_discard ctx params = (none, [])

unfoldable pub validate_discard : Params → Bool
validate_discard params = true
