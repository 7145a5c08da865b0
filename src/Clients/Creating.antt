-- ===== src/Clients/Creating.antt =====
-- c_src/exrdkafka_producer.cc and c_src/exrdkafka_consumer.cc: a client that is made is watched.
use exrdkafka.Base.{ℕ, ◌+◌, ◌≡◌, ◌≢◌, refl, sym, ◌∙◌, Option, none, some, arith, ℕ_discrete}
use std.Path.{subst}
use exrdkafka.Base.Assoc.{Fresh, put-Fresh, find-put_ne}
use exrdkafka.Erl.{Bytes, Term, ErlNif}
use exrdkafka.Rd.{Kafka, Handle, Log}
use exrdkafka.Rd.Books.{Kind, opened, closed}
use exrdkafka.Rd.Owned.{at, nothing}
use exrdkafka.Dispatcher.{Dispatcher, Item}
use exrdkafka.Dispatcher.Watched.{Unwatched}
use exrdkafka.Dispatcher.Fresh.{watching}
use exrdkafka.Producer.Create.{Created as ProducerCreated, enif_producer_new}
use exrdkafka.Producer.Create.Ownership.{Settles as ProducerSettles, enif_producer_new-Settles}
use exrdkafka.Consumer.Create.{Arguments, Created as ConsumerCreated, enif_consumer_new}
use exrdkafka.Consumer.Create.Starting.{Settles as ConsumerSettles}
use exrdkafka.Consumer.Create.Ownership.{enif_consumer_new-Settles}
use exrdkafka.Clients.{Resource, of_producer, of_consumer, gone}
use exrdkafka.Clients.Standing.{Creates, client_of, open_client, IsIdle}
use exrdkafka.Clients.Watching.{
  ProducerWatched, ConsumerWatched, enif_producer_new-Watched, enif_consumer_new-Watched,
}

-- A client that is watched from now on.
watched-Creates :
    (h kf : Handle) (it : Item) (x : Resource) (d : Dispatcher) (l l' : Log)
    → client_of x ≡ some kf
    → open_client x ≡ some kf
    → IsIdle x
    → opened Kind.clients h l' + closed Kind.clients h l + 0
      ≡ opened Kind.clients h l + closed Kind.clients h l' + at h (some kf)
    → Creates h d l x (watching kf it d) l'
watched-Creates h kf it x d l l' e f idle books = record {
  fresh = put-Fresh ℕ_discrete kf it d.objects;
  watched = λ not_it u.
      let other : kf ≢ h = (λ p. ground (arith, p, f, not_it)) in
      find-put_ne ℕ_discrete kf h it d.objects other ∙ u;
  books = ground (arith, e, books);
  idle = idle;
}

-- What a call that makes a producer does to the rest; nothing is said if the process has ended.
abbrev pub ProducerCreates : Handle → Dispatcher → Log → ProducerCreated → Type 0
ProducerCreates h d l (none, l') = Unit {0}
ProducerCreates h d l (some (t, none, d'), l') = Creates h d l gone d' l'
ProducerCreates h d l (some (t, some (self, p), d'), l') = Creates h d l (of_producer p 0) d' l'

abbrev pub ConsumerCreates : Handle → Dispatcher → Log → ConsumerCreated → Type 0
ConsumerCreates h d l (none, l') = Unit {0}
ConsumerCreates h d l (some (t, none, d'), l') = Creates h d l gone d' l'
ConsumerCreates h d l (some (t, some c, d'), l') = Creates h d l (of_consumer c 0) d' l'

made_none :
    (h : Handle) (d d' : Dispatcher) (l l' : Log)
    → d' ≡ d
    → opened Kind.clients h l' + closed Kind.clients h l + 0
      ≡ opened Kind.clients h l + closed Kind.clients h l' + 0
    → Creates h d l gone d' l'
made_none h d d' l l' same books = record {
  fresh = λ u. subst (λ z. Fresh ℕ_discrete z.objects) (sym same) u;
  watched = λ no u. subst (λ z. Unwatched h z.objects) (sym same) u;
  books = omega (arith, books);
  idle = tt;
}

producer-Creates :
    (h : Handle) (d : Dispatcher) (l : Log) (r : ProducerCreated)
    → ProducerWatched d r
    → ProducerSettles Kind.clients h nothing l r
    → ProducerCreates h d l r
producer-Creates h d l (none, l') w s = tt
producer-Creates h d l (some (t, none, d'), l') w s = made_none h d d' l l' w s
producer-Creates h d l (some (t, some (self, p), d'), l') (opened_now, it, same) s =
    subst (λ z. Creates h d l (of_producer p 0) z l') (sym same)
      (watched-Creates h p.kf it (of_producer p 0) d l l' refl (ground (arith, opened_now)) tt s)

consumer-Creates :
    (h : Handle) (d : Dispatcher) (l : Log) (r : ConsumerCreated)
    → ConsumerWatched d r
    → ConsumerSettles Kind.clients h nothing l r
    → ConsumerCreates h d l r
consumer-Creates h d l (none, l') w s = tt
consumer-Creates h d l (some (t, none, d'), l') w s = made_none h d d' l l' w s
consumer-Creates h d l (some (t, some c, d'), l') (opened_now, kf, has, it, same) s =
    subst (λ z. Creates h d l (of_consumer c 0) z l') (sym same)
      (watched-Creates h kf it (of_consumer c 0) d l l' has (ground (arith, opened_now, has))
        ((λ f. refl), (λ f z. ground (arith, opened_now, f))) (ground (arith, has, s)))

module _ (k : Kafka) (nif : ErlNif) (sigio : Option Bytes) (h : Handle) where
  pub new_producer-Creates :
      (has_dr options : Term) (now : ℕ) (d : Dispatcher) (l : Log)
      → ProducerCreates h d l (enif_producer_new k nif sigio has_dr options now d l)
  new_producer-Creates has_dr options now d l =
      producer-Creates h d l (enif_producer_new k nif sigio has_dr options now d l)
        (enif_producer_new-Watched k nif sigio has_dr options now d l)
        (enif_producer_new-Settles k nif sigio Kind.clients h has_dr options now d l)

  pub new_consumer-Creates :
      (args : Arguments) (now : ℕ) (d : Dispatcher) (l : Log)
      → ConsumerCreates h d l (enif_consumer_new nif k sigio args now d l)
  new_consumer-Creates args now d l =
      consumer-Creates h d l (enif_consumer_new nif k sigio args now d l)
        (enif_consumer_new-Watched nif k sigio args now d l)
        (enif_consumer_new-Settles nif k sigio Kind.clients h args now d l)
