-- ===== src/Rd/Books.antt =====
-- What the log creates and gives up, for the kinds of object that make up a client.
use exrdkafka.Base.{ℕ, ◌+◌, ◌≡◌, [], ◌∷◌, arith, ◌==◌, some}
use exrdkafka.Rd.{Handle, Log, Call, made}
use exrdkafka.Rd.Ledger.{tally}

-- Configurations of clients and of topics, clients, references to the resource of a client, lists of
-- topics and metadata; and how often a consumer is closed.
pub data Kind : Type 0 where
  confs topic_confs clients resources partition_lists metadata closings : Kind

-- How many objects at `h` a call creates.
abbrev pub creates : Kind → Handle → Call → ℕ
creates Kind.confs h (Call.conf_new j) = tally (j == h) 0
creates Kind.topic_confs h (Call.topic_conf_new j) = tally (j == h) 0
creates Kind.clients h (Call.client_new is_consumer conf (made j)) = tally (j == h) 0
creates Kind.resources h (Call.alloc_resource j) = tally (j == h) 0
creates Kind.resources h (Call.make_resource j) = tally (j == h) 0
creates Kind.resources h (Call.keep_resource j) = tally (j == h) 0
creates Kind.partition_lists h (Call.partition_list_new n j) = tally (j == h) 0
creates Kind.metadata h (Call.get_metadata rk topic (some m)) = tally (m.address == h) 0
creates kd h _ = 0

-- How many objects at `h` a call destroys or hands over: a configuration belongs to the client that
-- is made with it, and that of the topics to the configuration that it is the default of.
abbrev pub gives_up : Kind → Handle → Call → ℕ
gives_up Kind.confs h (Call.conf_destroy j) = tally (j == h) 0
gives_up Kind.confs h (Call.client_new is_consumer j (made rk)) = tally (j == h) 0
gives_up Kind.topic_confs h (Call.topic_conf_destroy j) = tally (j == h) 0
gives_up Kind.topic_confs h (Call.topic_new rk name (some j) topic) = tally (j == h) 0
gives_up Kind.topic_confs h (Call.conf_set_default_topic_conf conf j) = tally (j == h) 0
gives_up Kind.clients h (Call.client_destroy j) = tally (j == h) 0
gives_up Kind.resources h (Call.release_resource j) = tally (j == h) 0
gives_up Kind.partition_lists h (Call.partition_list_destroy j) = tally (j == h) 0
gives_up Kind.metadata h (Call.metadata_destroy j) = tally (j == h) 0
gives_up Kind.closings h (Call.consumer_close j) = tally (j == h) 0
gives_up kd h _ = 0

unfoldable pub opened : Kind → Handle → Log → ℕ
opened kd h [] = 0
opened kd h (c ∷ l) = creates kd h c + opened kd h l

unfoldable pub closed : Kind → Handle → Log → ℕ
closed kd h [] = 0
closed kd h (c ∷ l) = gives_up kd h c + closed kd h l

-- From `l` to `l'` the code comes to own `owned` more objects at `h` than before.
abbrev pub Owns : Kind → Handle → Log → ℕ → Log → Type 0
Owns kd h l owned l' = opened kd h l' + closed kd h l ≡ opened kd h l + closed kd h l' + owned

pub Owns-trans :
    (kd : Kind) (h : Handle) (a b c : Log) (m n : ℕ)
    → Owns kd h a m b
    → Owns kd h b n c
    → Owns kd h a (m + n) c
Owns-trans kd h a b c m n p q = omega arith

-- A call that the books do not enter.
abbrev pub Quiet : Kind → Handle → Call → Type 0
Quiet kd h c = (creates kd h c ≡ 0) × (gives_up kd h c ≡ 0)

-- A reading of the log that both columns of the books agree with.
abbrev pub balance : Kind → Handle → Log → ℕ × ℕ
balance kd h l = (opened kd h l, closed kd h l)

pub balance-Quiet :
    (kd : Kind) (h : Handle) (c : Call) (l : Log)
    → Quiet kd h c
    → balance kd h (c ∷ l) ≡ balance kd h l
unfolding opened closed
balance-Quiet kd h c l q = ground (arith, q)
