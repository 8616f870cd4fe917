-- ===== src/Kafka/Topics.antt =====
-- pkg/kafka/kafka.go: EnsureTopics, with the client library as a record of calls.
use ticketbus.Base.{
  ℕ, zero, suc, Bool, if◌then◌else◌, String, Option, none, some, List, [], ◌∷◌, ltb,
}

pub record TopicConfig : Type 0 where
  pub topic : String
  pub num_partitions : ℕ
  pub replication_factor : ℕ

-- What the cluster answers to `CreateTopics`.
pub data Created : Type 0 where
  created already_exists failed : Created

-- The calls of the client library: `Dial`, `Brokers` (how many there are), `Controller`, a second
-- `Dial`, and `CreateTopics`.
pub record Cluster : Type 0 where
  pub dials : Bool
  pub brokers : Option ℕ
  pub controller : Bool
  pub dials_controller : Bool
  pub create_topics : TopicConfig → Created

pub data TopicsError : Type 0 where
  no_dial no_broker_list no_live_brokers no_controller no_controller_dial : TopicsError
  not_created : String → TopicsError

abbrev pub clamp : ℕ → ℕ → ℕ
clamp replicas live = if ltb live replicas then live else replicas

abbrev pub topic_config : String → ℕ → ℕ → TopicConfig
topic_config topic partitions replicas = record {
  topic = topic;
  num_partitions = partitions;
  replication_factor = replicas;
}

abbrev pub unless_failed : Created → String → Option TopicsError → Option TopicsError
unless_failed created topic rest = rest
unless_failed already_exists topic rest = rest
unless_failed failed topic rest = some (not_created topic)

-- The loop over the topics; `none` is a nil error.
unfoldable pub create_each : Cluster → ℕ → ℕ → List String → Option TopicsError
create_each c partitions replicas [] = none
create_each c partitions replicas (t ∷ ts) =
    let rest = create_each c partitions replicas ts in
    unless_failed (c.create_topics (topic_config t partitions replicas)) t rest

abbrev pub with_brokers : Cluster → List String → ℕ → ℕ → Option ℕ → Option TopicsError
with_brokers c topics partitions replicas none = some no_broker_list
with_brokers c topics partitions replicas (some zero) = some no_live_brokers
with_brokers c topics partitions replicas (some (suc live)) =
    if c.controller
    then (if c.dials_controller
        then create_each c partitions (clamp replicas (suc live)) topics
        else some no_controller_dial)
    else some no_controller

unfoldable pub ensure_topics : Cluster → List String → ℕ → ℕ → Option TopicsError
ensure_topics c topics partitions replicas =
    if c.dials then with_brokers c topics partitions replicas c.brokers else some no_dial
