-- ===== src/Producer.antt =====
-- c_src/exrdkafka_producer.cc: the messages of a producer.
--
-- A native function takes the producer that `enif_get_resource` finds, if any, and its other
-- arguments as terms; it returns its result and the producer as it leaves it.
pub mod Request
pub mod Described
pub mod Outcomes
pub mod Batch
pub mod Headers
pub mod Reading
pub mod TopicNew
pub mod Create
pub mod Life
pub mod Quiet
pub mod Keeps
pub mod KeepsTopic
pub mod Delivery
pub mod Metadata
mod Tests
use exrdkafka.Base.{ℕ, List, [], ◌∷◌, Bool, true, false, Option, none, some, if◌then◌else◌}
use exrdkafka.Base.Int.{ℤ, is_zero}
use exrdkafka.Erl.{
  Bytes, Term, ErlNif, ok_term, int, nil, cell, atom, binary, tuple, map, resource, opaque, raw,
  get_tuple3,
}
use exrdkafka.Erl.Utils.{get_string, c_str, make_badarg, make_error, make_error_text}
use exrdkafka.Base.Text.{codes}
use exrdkafka.Rd.{Kafka, Handle, Log, Io, Outgoing, pure, tell, ask, ◌>>=◌, ◌>>◌, Call}
use exrdkafka.Topics.{TopicManager, get_or_create_topic}
use Request.{Arguments, Wanted, Exit, returns, goes_on, parse_request}

-- `struct enif_producer`, once `enif_producer_new` has filled it. `closing` says that
-- `closed_future` is set; no process is the process 0.
pub record Producer : Type 0 where
  pub kf : Handle
  pub topics : TopicManager
  pub owner_pid : ℕ
  pub closing : Bool

-- What other threads add to the topic manager in the rounds of `GetOrCreateTopic`.
abbrev pub Others : Type 0
Others = ℕ → List (Bytes × Option Handle)

-- The end of the scope of headers that the function still owns.
unfoldable pub drop_headers : Option Handle → Io (Unit {0})
drop_headers none = pure tt
drop_headers (some h) = tell (Call.headers_destroy h)

module _ (k : Kafka) (others : Others) where
  -- `GetOrCreateTopic`, for which two rounds are enough: the first case does not occur.
  unfoldable pub topic_for : TopicManager → Bytes → Io (TopicManager × Option Handle)
  topic_for tm name l = elim (get_or_create_topic k others 2 name tm l) [
    | none ↦ ((tm, none), l)
    | some r ↦ r
  ]

  -- `rd_kafka_produce` on a topic handle; if it fails, `rd_kafka_last_error` says why.
  unfoldable pub produce_to : Option Handle → Outgoing → Io (Option Term)
  produce_to none m l = (some (make_error_text (codes "failed to create topic object")), l)
  produce_to (some topic) m l =
      let answer = k.produce_answer l topic m in
      let l' = Call.produce topic m answer ∷ l in
      (if is_zero answer then none else some (make_error (int (k.last_error_answer l'))), l')

  -- The branch without headers and timestamp: `none` where the function goes on.
  unfoldable pub produce_plain : Producer → Wanted → Io (Option Term × Producer)
  unfolding produce_to
  produce_plain p w = do
    r ← topic_for p.topics w.topic_name
    result ← produce_to r.1 w.message
    pure (result, record p { topics = r.0 })

  -- The branch with headers or a timestamp. The headers are librdkafka's once it takes the message;
  -- otherwise the scope ends by destroying them.
  unfoldable pub produce_full : Producer → Wanted → Io (Option Term)
  unfolding drop_headers
  produce_full p w l =
      let name = c_str w.topic_name in
      let answer = k.producev_answer l p.kf name w.message w.headers (some w.timestamp) in
      let l' = Call.producev p.kf name w.message w.headers (some w.timestamp) answer ∷ l in
      if is_zero answer
      then (none, l')
      else (some (make_error (int answer)), (drop_headers w.headers l').1)

  -- `!headers.get() && timestamp == 0`
  unfoldable pub is_plain : Wanted → Bool
  is_plain w = elim w.headers [ none ↦ is_zero w.timestamp | some h ↦ false ]

  -- What `enif_produce` and `enif_produce_sync` do with a request.
  unfoldable pub produce_wanted : Producer → Wanted → Io (Option Term × Producer)
  unfolding is_plain
  produce_wanted p w l = elim (is_plain w) [
    | true ↦ produce_plain p w l
    | false ↦ let r = produce_full p w l in ((r.0, p), r.1)
  ]

  module _ (nif : ErlNif) where
    unfoldable pub produce_parsed : Producer → Exit Wanted → Io (Option Term × Producer)
    produce_parsed p (returns t) l = ((some t, p), l)
    produce_parsed p (goes_on w) l = produce_wanted p w l

    -- `return ATOMS.atomOk;` unless the function has returned before.
    unfoldable pub answer : Option Term × Producer → Io (Term × Option Producer)
    answer (some t, p) l = ((t, some p), l)
    answer (none, p) l = ((ok_term, some p), l)

    unfoldable pub enif_produce : Option Producer → Arguments → Io (Term × Option Producer)
    unfolding produce_parsed answer
    enif_produce none args l = ((make_badarg, none), l)
    enif_produce (some p) args l =
        let q = parse_request nif k args l in let r = produce_parsed p q.0 q.1 in answer r.0 r.1

    -- `rd_kafka_flush(producer->kf, 1)` unless the function has returned before.
    unfoldable pub flush_answer : Option Term × Producer → Io (Term × Option Producer)
    flush_answer (some t, p) l = ((t, some p), l)
    flush_answer (none, p) l =
        let flush_result = k.flush_answer l p.kf 1 in
        (
          (if is_zero flush_result then ok_term else make_error (int flush_result), some p),
          Call.flush p.kf 1 ∷ l,
        )

    unfoldable pub enif_produce_sync : Option Producer → Arguments → Io (Term × Option Producer)
    unfolding produce_parsed flush_answer
    enif_produce_sync none args l = ((make_badarg, none), l)
    enif_produce_sync (some p) args l =
        let q = parse_request nif k args l in
        let r = produce_parsed p q.0 q.1 in flush_answer r.0 r.1

    -- One entry of a batch: `false` where the function returns badarg. What `rd_kafka_producev`
    -- answers is not looked at.
    unfoldable pub produce_entry : Producer → Bytes → Term → Io Bool
    produce_entry p topic_name head l = elim (get_tuple3 head) [
      | none ↦ (false, l)
      | some (a, b, c) ↦ elim (get_string nif a) [
        | none ↦ (false, l)
        | some key ↦ elim (get_string nif b) [
          | none ↦ (false, l)
          | some value ↦ elim (nif.get_int c) [
            | none ↦ (false, l)
            | some partition ↦
                let m : Outgoing = record {
                  partition = partition;
                  key = some key;
                  value = some value;
                } in
                let name = c_str topic_name in
                let answer = k.producev_answer l p.kf name m none none in
                (true, Call.producev p.kf name m none none answer ∷ l)
          ]
        ]
      ]
    ]

    unfoldable pub produce_entries : Producer → Bytes → Term → Io Term
    produce_entries p topic_name (cell head list) l =
        let r = produce_entry p topic_name head l in
        elim r.0 [ true ↦ produce_entries p topic_name list r.1 | false ↦ (make_badarg, r.1) ]
    produce_entries p topic_name _ l = (ok_term, l)

    unfoldable pub enif_produce_batch : Option Producer → Term → Term → Io Term
    enif_produce_batch none topic_term list l = (make_badarg, l)
    enif_produce_batch (some p) topic_term list l = elim (get_string nif topic_term) [
      | none ↦ (make_badarg, l)
      | some topic_name ↦ produce_entries p topic_name list l
    ]
