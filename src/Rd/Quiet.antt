-- ===== src/Rd/Quiet.antt =====
-- Which calls leave the books of the clients alone.
use exrdkafka.Base.{refl}
use exrdkafka.Erl.{Bytes}
use exrdkafka.Rd.{Handle, Call}
use exrdkafka.Rd.Books.{Kind, Quiet}

pub conf_set-Quiet :
    (kd : Kind) (h conf : Handle) (name value : Bytes) → Quiet kd h (Call.conf_set conf name value)
conf_set-Quiet Kind.confs h conf name value = (refl, refl)
conf_set-Quiet _ h conf name value = (refl, refl)

pub topic_conf_set-Quiet :
    (kd : Kind) (h conf : Handle) (name value : Bytes)
    → Quiet kd h (Call.topic_conf_set conf name value)
topic_conf_set-Quiet Kind.confs h conf name value = (refl, refl)
topic_conf_set-Quiet _ h conf name value = (refl, refl)

pub partition_list_add-Quiet :
    (kd : Kind) (h out : Handle) (name : Bytes) → Quiet kd h (Call.partition_list_add out name)
partition_list_add-Quiet Kind.confs h out name = (refl, refl)
partition_list_add-Quiet _ h out name = (refl, refl)
