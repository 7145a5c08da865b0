-- ===== src/Consumer/Partitions/Branches.antt =====
-- c_src/exrdkafka_consumer.cc: the branches of `assign_partitions`.
use exrdkafka.Base.{
  ℕ, ◌≡◌, refl, List, [], ◌∷◌, ◌++◌, true, false, Option, none, inl, inr, Bool-cases, if◌then◌else◌,
}
use exrdkafka.Base.Int.{pos, is_zero}
use exrdkafka.Base.Text.{codes}
use exrdkafka.Erl.{Atom, atom, tuple2}
use exrdkafka.Erl.Utils.{c_str}
use exrdkafka.Rd.{Kafka, Handle, Log, Call, Partition}
use exrdkafka.Logger.{log_message}
use exrdkafka.Consumer.Partitions.{Consumer, assigned_list, assign_partitions}

module _ (k : Kafka) where
  -- The log when the queues are made: after the call of `rd_kafka_assign` and its message, if any.
  abbrev pub after_assign : ℕ → Handle → Option (List Partition) → Log → Log
  after_assign log_pid rk partitions l =
      let response = k.assign_answer l rk partitions in
      let l₁ = Call.assign rk partitions ∷ l in
      if is_zero response
      then l₁
      else (log_message k log_pid rk (pos 3)
          (codes "failed to assign the new partitions" ++ c_str (k.err2str response)) l₁).1

  -- What a running consumer does.
  pub assign_lem :
      (log_pid : ℕ) (rk : Handle) (c : Consumer) (partitions : Option (List Partition)) (l : Log)
      → c.running ≡ true
      → let r = assigned_list k c rk partitions (after_assign log_pid rk partitions l) in
        assign_partitions k log_pid c rk partitions l
        ≡ ((r.0.0, r.0.2), Call.send c.owner (tuple2 (atom Atom.assign_partition) r.0.1) ∷ r.1)
  unfolding assign_partitions
  assign_lem log_pid rk c partitions l on =
      elim (Bool-cases (is_zero (k.assign_answer l rk partitions))) [
        | inl e ↦ rw (on, e, assign_partitions) refl
        | inr e ↦ rw (on, e, assign_partitions) refl
      ]

  pub assign_stopped :
      (log_pid : ℕ) (rk : Handle) (c : Consumer) (partitions : Option (List Partition)) (l : Log)
      → c.running ≡ false
      → assign_partitions k log_pid c rk partitions l ≡ ((c, []), Call.assign rk none ∷ l)
  unfolding assign_partitions
  assign_stopped log_pid rk c partitions l off = rw (off, assign_partitions) refl
