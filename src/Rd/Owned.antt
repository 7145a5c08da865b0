-- ===== src/Rd/Owned.antt =====
-- What a function that makes a client owns at some point of it.
use exrdkafka.Base.{◌≡◌, refl, ◌⊎◌, inl, inr, ℕ, Option, none, some, ◌==◌}
use exrdkafka.Erl.{Bytes}
use exrdkafka.Rd.{Handle, Made, made, refused}
use exrdkafka.Rd.Ledger.{tally}
use exrdkafka.Rd.Books.{Kind}

-- What a part of the function owns, or a whole function leaves behind.
pub record Owned : Type 0 where
  pub conf : Option Handle
  pub topic_conf : Option Handle
  pub client : Option Handle
  pub self : Option Handle
  pub list : Option Handle

abbrev pub nothing : Owned
nothing = record { conf = none; topic_conf = none; client = none; self = none; list = none }

abbrev pub both : Handle → Handle → Owned
both conf topic_conf = record nothing { conf = some conf; topic_conf = some topic_conf }

-- One for the handle that stands there.
abbrev pub at : Handle → Option Handle → ℕ
at h none = 0
at h (some j) = tally (j == h) 0

abbrev pub owned : Kind → Handle → Owned → ℕ
owned Kind.confs h o = at h o.conf
owned Kind.topic_confs h o = at h o.topic_conf
owned Kind.clients h o = at h o.client
owned Kind.resources h o = at h o.self
owned Kind.partition_lists h o = at h o.list
owned Kind.metadata h o = 0
owned Kind.closings h o = 0

pub Made-cases :
    (m : Made) → ((errstr : Bytes) × (m ≡ refused errstr)) ⊎ ((rk : Handle) × (m ≡ made rk))
Made-cases (refused errstr) = inl (errstr, refl)
Made-cases (made rk) = inr (rk, refl)
