-- ===== src/Kafka/Creating.antt =====
-- What a nil error of `EnsureTopics` says about the cluster.
use ticketbus.Base.{ℕ, ◌≡◌, String}
use ticketbus.Kafka.Topics.{Cluster, failed, topic_config}

abbrev pub Accepts : Cluster → ℕ → ℕ → String → Type 0
Accepts c p r t = ¬ (c.create_topics (topic_config t p r) ≡ failed)
