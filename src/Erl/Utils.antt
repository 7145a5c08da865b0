-- ===== src/Erl/Utils.antt =====
-- c_src/nif_utils.cc.
use exrdkafka.Base.{
  ◌≡◌, refl, [], ◌∷◌, Bool, true, false, Option, none, some, inl, inr, ◌==◌, if◌then◌else◌,
  Bool-cases,
}
use exrdkafka.Erl.{Bytes, Term, ErlNif, atom, binary, tuple2, error, options, badarg, ok, Atom}

-- What a C function reads of a text that is handed over by `c_str`: up to the first zero byte.
unfoldable pub c_str : Bytes → Bytes
c_str [] = []
c_str (b ∷ bs) = let rest = c_str bs in if b == 0 then [] else b ∷ rest

pub c_str-c_str : (bs : Bytes) → c_str (c_str bs) ≡ c_str bs
unfolding c_str
c_str-c_str [] = refl
c_str-c_str (b ∷ bs) = elim (Bool-cases (b == 0)) [
  | inl e ↦ rw (e, c_str) refl
  | inr e ↦ rw (e, c_str) (rw (e, c_str-c_str bs) refl)
]

abbrev pub make_binary : Bytes → Term
make_binary = binary

abbrev pub make_error : Term → Term
make_error t = tuple2 (atom error) t

-- The overload that takes a text.
abbrev pub make_error_text : Bytes → Term
make_error_text t = make_error (make_binary (c_str t))

abbrev pub make_bad_options : Term → Term
make_bad_options t = make_error (tuple2 (atom options) t)

abbrev pub make_badarg : Term
make_badarg = tuple2 (atom error) (atom badarg)

abbrev pub make_ok_result : Term → Term
make_ok_result t = tuple2 (atom ok) t

module _ (nif : ErlNif) where
  unfoldable pub get_binary : Term → Option Bytes
  get_binary (binary b) = some b
  get_binary t = nif.inspect_iolist_as_binary t

  unfoldable pub get_string : Term → Option Bytes
  get_string t = get_binary t

unfoldable pub get_boolean : Term → Option Bool
get_boolean (atom Atom.true_) = some true
get_boolean (atom Atom.false_) = some false
get_boolean _ = none
