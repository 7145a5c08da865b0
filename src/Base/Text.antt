-- ===== src/Base/Text.antt =====
-- Text literals as bytes, and decimal numbers.
use Prim.Native.Nat.{ℕ, ◌+◌, ◌-◌, ◌*◌, ◌%◌, ◌^◌}
use Prim.Native.Char.{code}
use Prim.Native.String.{String}
use mathlib.Core.List.{List, [], ◌∷◌}
use mathlib.Core.Bool.{Bool, ◌&&◌, ◌||◌}
use mathlib.Core.Option.{Option, none, some}
use exrdkafka.Base.Tests.{leb, ltb, ◌==◌, if◌then◌else◌}

-- The code points of a literal: its bytes, since all of them are ASCII.
abbrev pub codes : String → List ℕ
codes String.[] = []
codes (String.◌∷◌ c s) = code c ∷ codes s

abbrev pub is_digit : ℕ → Bool
is_digit c = leb b'0' c && leb c b'9'

abbrev pub is_space : ℕ → Bool
is_space c = c == 32 || (leb 9 c && leb c 13)

-- The value of the digits that `bs` begins with, after digits of the value `acc`.
unfoldable pub digits_value : ℕ → List ℕ → ℕ
digits_value acc [] = acc
digits_value acc (c ∷ bs) =
    let rest = digits_value (acc * 10 + (c - b'0')) bs in if is_digit c then rest else acc

-- `std::stoull` past the white space and the sign: `none` where it throws.
unfoldable pub digits_number : List ℕ → Option ℕ
unfolding digits_value
digits_number [] = none
digits_number (c ∷ bs) =
    if is_digit c && ltb (digits_value 0 (c ∷ bs)) (2 ^ 64)
    then some (digits_value 0 (c ∷ bs))
    else none

unfoldable pub signed_number : List ℕ → Option ℕ
unfolding digits_number
signed_number [] = none
signed_number (c ∷ bs) =
    if c == b'+'
    then digits_number bs
    else if c == b'-'
    then elim (digits_number bs) [ none ↦ none | some n ↦ some ((2 ^ 64 - n) % 2 ^ 64) ]
    else digits_number (c ∷ bs)

-- `std::stoull`
unfoldable pub stoull : List ℕ → Option ℕ
unfolding signed_number
stoull [] = none
stoull (c ∷ bs) = let rest = stoull bs in if is_space c then rest else signed_number (c ∷ bs)
