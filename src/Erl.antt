-- ===== src/Erl.antt =====
-- c_src/nif_utils.cc and the `atoms` of c_src/exrdkafka_nif.h: the Erlang terms that the native
-- functions take and return.
--
-- Erlang's values are one data type. What `erl_nif` computes from them (text from an I/O list, the
-- range test of an integer, a process identifier) is a parameter, `ErlNif`.
pub mod Utils
use exrdkafka.Base.{ℕ, List, [], ◌∷◌, Bool, true, false, Option, none, some, ℕ_discrete}
use exrdkafka.Base.Int.{ℤ}

-- A run of bytes: an Erlang binary or a `std::string`.
abbrev pub Bytes : Type 0
Bytes = List ℕ

-- The members of `struct atoms`, and any other atom.
pub data Atom : Type 0 where
  ok undefined error true_ false_ badarg options message brokers topics partitions : Atom
  id host port name leader replicas isrs delivery_report log_event assign_partition : Atom
  revoke_partition stats client_stopped not_available create_time log_append_time : Atom
  named : Bytes → Atom

-- A list is made of cells, so that it may end in any term. `raw` is a machine word that C++ handed
-- on as a term without making a term of it. `opaque` is any other value (a float, a function).
mutual
  pub data Term : Type 0 where
    atom : Atom → Term
    int : ℤ → Term
    binary : Bytes → Term
    nil : Term
    cell : Term → Term → Term
    tuple : Terms → Term
    map : Fields → Term
    resource : ℕ → Term
    opaque : ℕ → Term
    raw : ℤ → Term

  pub data Terms : Type 0 where
    end : Terms
    item : Term → Terms → Terms

  pub data Fields : Type 0 where
    no_field : Fields
    field : Atom → Term → Fields → Fields

-- What the code asks `erl_nif` to compute.
pub record ErlNif : Type 0 where
  pub inspect_iolist_as_binary : Term → Option Bytes
  pub get_int : Term → Option ℤ
  pub get_int64 : Term → Option ℤ
  pub get_uint : Term → Option ℕ
  pub get_local_pid : Term → Option ℕ

abbrev pub tuple2 : Term → Term → Term
tuple2 a b = tuple (item a (item b end))

abbrev pub tuple3 : Term → Term → Term → Term
tuple3 a b c = tuple (item a (item b (item c end)))

abbrev pub ok_term : Term
ok_term = atom ok

-- `enif_make_list_from_array`
unfoldable pub list_from_array : List Term → Term
list_from_array [] = nil
list_from_array (t ∷ ts) = cell t (list_from_array ts)

-- `enif_is_identical(term, ATOMS.atomUndefined)`
unfoldable pub is_undefined : Term → Bool
is_undefined (atom undefined) = true
is_undefined _ = false

-- `enif_get_tuple` with `arity == 2`, and with `arity == 3`.
unfoldable pub get_tuple2 : Term → Option (Term × Term)
get_tuple2 (tuple (item a (item b end))) = some (a, b)
get_tuple2 _ = none

unfoldable pub get_tuple3 : Term → Option (Term × Term × Term)
get_tuple3 (tuple (item a (item b (item c end)))) = some (a, b, c)
get_tuple3 _ = none

-- `enif_is_list`: the empty list or a cell.
unfoldable pub is_list : Term → Bool
is_list nil = true
is_list (cell h t) = true
is_list _ = false

-- `enif_get_list_length`: a list that does not end in the empty list has no length.
unfoldable pub get_list_length : Term → Option ℕ
get_list_length nil = some 0
get_list_length (cell h t) = elim (get_list_length t) [ none ↦ none | some n ↦ some (ℕ.suc n) ]
get_list_length _ = none

unfoldable pub Bytes-discrete : Discrete Bytes
unfolding ℕ_discrete
Bytes-discrete = hlevel ℕ_discrete
