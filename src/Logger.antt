-- ===== src/Logger.antt =====
-- c_src/exrdkafka_logger.cc: the messages for the process that logs.
--
-- `log_pid` is a variable of the module: no process is the process 0.
use exrdkafka.Base.{ℕ, zero, suc, [], true, false, none, some}
use exrdkafka.Base.Int.{ℤ}
use exrdkafka.Erl.{Bytes, Term, ErlNif, Atom, atom, int, tuple, item, end, ok_term, is_undefined}
use exrdkafka.Erl.Utils.{c_str, make_binary, make_badarg}
use exrdkafka.Rd.{Kafka, Handle, Io, pure, tell, Call}

module _ (k : Kafka) where
  unfoldable pub logger_callback : ℕ → Handle → ℤ → Bytes → Bytes → Io (Unit {0})
  logger_callback zero rk level fac buf = pure tt
  logger_callback (suc n) rk level fac buf =
      let text = item (make_binary (c_str fac)) (item (make_binary (c_str buf)) end) in
      let name = make_binary (c_str (k.name_of rk)) in
      tell
        (Call.send (suc n) (tuple (item (atom Atom.log_event) (item (int level) (item name text)))))

  unfoldable pub log_message : ℕ → Handle → ℤ → Bytes → Io (Unit {0})
  unfolding logger_callback
  log_message log_pid rk level msg = logger_callback log_pid rk level [] (c_str msg)

-- The answer, and `log_pid` afterwards.
unfoldable pub nif_set_logger_pid : ErlNif → Term → ℕ → Term × ℕ
nif_set_logger_pid nif t log_pid = elim (is_undefined t) [
  | true ↦ (ok_term, 0)
  | false ↦ elim (nif.get_local_pid t) [ none ↦ (make_badarg, log_pid) | some pid ↦ (ok_term, pid) ]
]
