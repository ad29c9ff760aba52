-- ===== src/Broker/Admitted.antt =====
-- Which publications pkg/broker/broker.go processes.
use emqx_go.Base.{
  ℕ, ◌<◌, ◌≤◌, ◌≡◌, refl, ◌≢◌, ◌⊎◌, inl, inr, Bool, true, false, ◌&&◌, List, [], ◌∷◌, Option, none,
  some, arith, ltb, ◌==◌, Bool-cases, length, Text, codes, contains, In, Outcome, ok, err, panic,
}
use emqx_go.Base.Map.{lookup, text_has_eq}
use emqx_go.Broker.State.{Broker}
use emqx_go.Broker.Alias.{ClientTopicAliasManager, AliasError, Resolved, resolve_topic_alias}
use emqx_go.Broker.Connection.{
  Reply, Task, post_ack, Handled, Verdict, allowed, denied, failed, AccessControl,
}
use emqx_go.Broker.Publish.{
  PublishIn, max_message_size, is_malicious, violation, resolve_with, resolve_topic, resolved_in,
  routed_of, process_unless, if_sent, acknowledge, admit, after_resolve, after_check,
  unless_violation, handle_publish, check_duplicate,
}

-- What MQTT and the broker ask of a publication.
pub record IsPublishable (pk : PublishIn) : Type 0 where
  pub has_topic : pk.topic_name ≢ []
  pub level : pk.qos ≤ 2
  pub identified : (pk.qos ≡ 0) ⊎ (0 < pk.packet_id)
  pub no_hash : contains pk.topic_name (codes "#") ≡ false
  pub no_plus : contains pk.topic_name (codes "+") ≡ false
  pub harmless : is_malicious pk.topic_name ≡ false
  pub small : length pk.payload ≤ max_message_size

identified_of : (qos id : ℕ) → ltb 0 qos && id == 0 ≡ false → (qos ≡ 0) ⊎ (0 < id)
identified_of qos id h = elim (Bool-cases (id == 0)) [
  | inl zero_id ↦ inl (ground arith)
  | inr some_id ↦ inr (ground arith)
]

violation-none : (pk : PublishIn) → violation pk ≡ none → IsPublishable pk
unfolding violation
violation-none pk h = record {
  has_topic = λ e. ground arith;
  level = ground arith;
  identified = identified_of pk.qos pk.packet_id (ground arith);
  no_hash = ground arith;
  no_plus = ground arith;
  harmless = ground arith;
  small = ground arith;
}

-- The one task of a publication, under its own topic name.
abbrev pub task_of : Text → PublishIn → Task
task_of client pk = post_ack client (routed_of pk pk.topic_name) pk.retain

only_task :
    (client : Text) (pk : PublishIn) (duplicate : Bool) (t : Task)
    → In t (process_unless duplicate client pk pk.topic_name)
    → t ≡ task_of client pk
only_task client pk true t h = absurd h
only_task client pk false t (inl e) = e
only_task client pk false t (inr h) = absurd h

if_sent-tasks :
    (b : Broker) (tasks : List Task) (w : Bool × List Reply) (t : Task)
    → In t (if_sent b tasks w).tasks
    → In t tasks
if_sent-tasks b tasks (true, written) t h = h
if_sent-tasks b tasks (false, written) t h = absurd h

acknowledge-tasks :
    (up : Bool) (client : Text) (pk : PublishIn) (duplicate : Bool) (b : Broker) (t : Task)
    → In t (acknowledge up client pk pk.topic_name duplicate b).tasks
    → t ≡ task_of client pk
unfolding acknowledge
acknowledge-tasks up client pk duplicate b t h = elim (Bool-cases (pk.qos == 0)) [
  | inl none_asked ↦ only_task client pk duplicate t (rw none_asked at h)
  | inr asked ↦ only_task client pk duplicate t (if_sent-tasks b _ _ t (rw asked at h))
]

admit-tasks :
    (v : Verdict) (up : Bool) (client : Text) (pk : PublishIn) (duplicate : Bool) (b : Broker)
    (t : Task)
    → In t (admit v up client pk pk.topic_name duplicate b).tasks
    → (t ≡ task_of client pk) × (v ≢ denied)
unfolding admit
admit-tasks allowed up client pk duplicate b t h =
    (acknowledge-tasks up client pk duplicate b t h, λ e. cc)
admit-tasks failed up client pk duplicate b t h =
    (acknowledge-tasks up client pk duplicate b t h, λ e. cc)
admit-tasks denied up client pk duplicate b t h = absurd h

-- With a topic name, an alias does not change it.
resolve_topic_alias-name :
    (name : Text) (alias : ℕ) (tam tam' : ClientTopicAliasManager) (topic : Text)
    → name ≢ []
    → resolve_topic_alias name alias tam ≡ ok (topic, tam')
    → topic ≡ name
unfolding resolve_topic_alias
resolve_topic_alias-name [] alias tam tam' topic has_topic h = absurd (has_topic refl)
resolve_topic_alias-name (c ∷ name) alias tam tam' topic has_topic h = ground arith

resolved_in-ok :
    (client : Text) (b b' : Broker) (r : Resolved) (topic : Text)
    → resolved_in client b r ≡ ok (topic, b')
    → (tam : ClientTopicAliasManager) × (r ≡ ok (topic, tam))
resolved_in-ok client b b' (ok (t, tam)) topic h = (tam, ground arith)
resolved_in-ok client b b' (err e) topic h = absurd cc
resolved_in-ok client b b' panic topic h = absurd cc

module _ (client : Text) (pk : PublishIn) (b b' : Broker) (topic : Text)
    (has_topic : pk.topic_name ≢ []) where
  resolve_with-name :
      (o : Option ClientTopicAliasManager)
      → resolve_with client pk b o ≡ ok (topic, b')
      → topic ≡ pk.topic_name
  resolve_with-name none h = ground arith
  resolve_with-name (some tam) h =
      let (tam', e) =
        resolved_in-ok client b b' (resolve_topic_alias pk.topic_name pk.topic_alias tam) topic h in
      resolve_topic_alias-name pk.topic_name pk.topic_alias tam tam' topic has_topic e

  resolve_topic-name : resolve_topic client pk b ≡ ok (topic, b') → topic ≡ pk.topic_name
  unfolding resolve_topic
  resolve_topic-name h = elim (Bool-cases (pk.topic_alias_flag && ltb 0 pk.topic_alias)) [
    | inl aliased ↦ resolve_with-name (lookup client b.topic_alias_managers) (rw aliased at h)
    | inr bare ↦ ground arith
  ]

module _ (ac : AccessControl) (ip : Text) (up : Bool) (client : Text) (pk : PublishIn)
    (t : Task) where
  after_resolve-tasks :
      (duplicate : Bool) (b : Broker) (r : Outcome AliasError (Text × Broker))
      → ((topic : Text) (b' : Broker) → r ≡ ok (topic, b') → topic ≡ pk.topic_name)
      → In t (after_resolve ac ip up client pk duplicate b r).tasks
      → (t ≡ task_of client pk) × (ac.publish_access client [] ip pk.topic_name ≢ denied)
  after_resolve-tasks duplicate b (ok (topic, b')) name h =
      let e : topic ≡ pk.topic_name = name topic b' refl in
      admit-tasks (ac.publish_access client [] ip pk.topic_name) up client pk duplicate b' t
        (rw e at h)
  after_resolve-tasks duplicate b (err e) name h = absurd h
  after_resolve-tasks duplicate b panic name h = absurd h

  after_check-tasks :
      (checked : Bool × Broker)
      → pk.topic_name ≢ []
      → In t (after_check ac ip up client pk checked).tasks
      → (t ≡ task_of client pk) × (ac.publish_access client [] ip pk.topic_name ≢ denied)
  after_check-tasks (duplicate, b) has_topic h =
      after_resolve-tasks duplicate b (resolve_topic client pk b)
        (λ topic b' e. resolve_topic-name client pk b b' topic has_topic e) h

  unless_violation-tasks :
      (o : Option (Option Reply)) (b : Broker) (h : Handled)
      → In t (unless_violation o up b h).tasks
      → (o ≡ none) × In t h.tasks
  unless_violation-tasks none b h i = (refl, i)
  unless_violation-tasks (some r) b h i = absurd i

-- Whatever a PUBLISH packet starts, it starts the processing of that packet under its own topic name,
-- and only if the packet is publishable and the blacklist does not deny the topic. A topic alias never
-- gives the topic: a packet with an empty name starts nothing.
pub handle_publish-tasks :
    (ac : AccessControl) (ip : Text) (now : ℕ) (up : Bool) (client : Text) (pk : PublishIn)
    (b : Broker) (t : Task)
    → In t (handle_publish ac ip now up client pk b).tasks
    → (t ≡ post_ack client (routed_of pk pk.topic_name) pk.retain)
      × IsPublishable pk
      × (ac.publish_access client [] ip pk.topic_name ≢ denied)
unfolding handle_publish
handle_publish-tasks ac ip now up client pk b t h =
    let (passed, i) =
      unless_violation-tasks ac ip up client pk t (violation pk) b
        (after_check ac ip up client pk (check_duplicate now client pk b)) h in
    let good = violation-none pk passed in
    let (e, not_denied) =
      after_check-tasks ac ip up client pk t (check_duplicate now client pk b) good.has_topic i in
    (e, good, not_denied)
