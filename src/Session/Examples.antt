-- ===== src/Session/Examples.antt =====
-- The theorems on pkg/session/session.go at concrete messages.
use emqx_go.Base.{
  ◌≡◌, true, false, List, [], ◌∷◌, suc, take, ltb, length, if◌then◌else◌, codes, arith,
}
use emqx_go.Base.Map.{lookup, nat_has_eq}
use emqx_go.Session.Actor.{Publish, Message, publish, stop, unknown, write_failed, start}
use emqx_go.Session.Alias.{Aliases, IsValid}
use emqx_go.Session.Order.{accepted, end_of, pending, start-pending}

abbrev message : Publish
message = record {
  topic = codes "a/b";
  payload = codes "hi";
  qos = 1;
  retain = false;
  user_properties = (codes "k", codes "v") ∷ [];
  topic_alias = 3;
  response_topic = codes "r";
  correlation_data = [];
}

abbrev mailbox : List Message
mailbox = publish message ∷ unknown ∷ publish message ∷ stop ∷ publish message ∷ []

start-pending_example :
    ((start 4 (true ∷ false ∷ []) mailbox).0
      ≡ take (suc (accepted (true ∷ false ∷ []))) (pending 4 mailbox))
    × ((start 4 (true ∷ false ∷ []) mailbox).1 ≡ (
        if ltb (accepted (true ∷ false ∷ [])) (length (pending 4 mailbox))
        then write_failed
        else end_of mailbox))
start-pending_example = start-pending 4 (true ∷ false ∷ []) mailbox

abbrev few : Aliases
few = record { aliases = []; next_alias = 1; alias_maximum = 10 }

few-IsValid : IsValid few
unfolding lookup
few-IsValid = record {
  positive = omega arith;
  fits = omega arith;
  below = λ alias t h. ground arith;
}

abbrev last_one : Aliases
last_one = record { aliases = (65534, codes "x") ∷ []; next_alias = 65535; alias_maximum = 65535 }
