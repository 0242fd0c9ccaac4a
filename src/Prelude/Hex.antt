-- ===== src/Prelude/Hex.antt =====
-- Hexadecimal texts: `encoding/hex`, `fmt.Sprintf("%x")`, and what the node does with such texts.
use waychain_consensus.Prelude.{
  ℕ, zero, suc, ◌+◌, ◌*◌, ◌-◌, ◌/◌, ◌%◌, ◌<◌, ◌≡◌, Bool, true, false, ◌&&◌, [], ◌∷◌, ◌++◌, Option,
  none, some, arith, Bytes, hex_digit, hex2, ltb, leb, ◌==◌, if◌then◌else◌,
}

-- `hex.EncodeToString(bs)` and `fmt.Sprintf("%x", bs)`
unfoldable pub hex : Bytes → Bytes
hex [] = []
hex (b ∷ bs) = hex2 b ++ hex bs

-- The value of a digit.
unfoldable pub from_hex_char : ℕ → Option ℕ
from_hex_char c =
    if leb 48 c && leb c 57
    then some (c - 48)
    else if leb 97 c && leb c 102
    then some (c - 87)
    else if leb 65 c && leb c 70
    then some (c - 55)
    else none

-- `hex.DecodeString`: the bytes before the first fault, and whether there is none.
unfoldable pub decode_string : Bytes → Bytes × Bool
unfolding from_hex_char
decode_string [] = ([], true)
decode_string (c ∷ []) = ([], false)
decode_string (c ∷ (d ∷ cs)) =
    let rest = decode_string cs in
    elim (from_hex_char c) [
      | none ↦ ([], false)
      | some x ↦ elim (from_hex_char d) [
        | none ↦ ([], false)
        | some y ↦ ((x * 16 + y) ∷ rest.0, rest.1)
      ]
    ]

-- `strings.TrimPrefix(s, "0x")`
unfoldable pub trim_0x : Bytes → Bytes
trim_0x [] = []
trim_0x (c ∷ []) = c ∷ []
trim_0x (c ∷ (d ∷ cs)) = if (c == 48) && (d == 120) then cs else c ∷ (d ∷ cs)

-- `strings.ToLower`, on the bytes of ASCII letters
unfoldable pub to_lower : Bytes → Bytes
to_lower [] = []
to_lower (c ∷ cs) = (if leb 65 c && leb c 90 then c + 32 else c) ∷ to_lower cs

-- The digits of a number, most significant first; `n + 1` rounds are enough.
hex_digits : ℕ → ℕ → Bytes → Bytes
hex_digits zero n acc = acc
hex_digits (suc fuel) n acc =
    let rest = hex_digits fuel (n / 16) (hex_digit (n % 16) ∷ acc) in
    if ltb n 16 then hex_digit n ∷ acc else rest

-- `fmt.Sprintf("%x", n)`
unfoldable pub hex_number : ℕ → Bytes
unfolding hex_digits
hex_number n = hex_digits (suc n) n []

-- More fuel changes nothing.
hex_digits-enough :
    (fuel more n : ℕ) (acc : Bytes)
    → n < fuel
    → n < more
    → hex_digits fuel n acc ≡ hex_digits more n acc
unfolding hex_digits
hex_digits-enough zero more n acc h k = elim h [ ]
hex_digits-enough (suc fuel) zero n acc h k = elim k [ ]
hex_digits-enough (suc fuel) (suc more) n acc h k =
    ground (arith, hex_digits-enough fuel more (n / 16) (hex_digit (n % 16) ∷ acc))

-- The value of a text of digits: `SetString(s, 16)` without a sign, `none` where a character is no digit.
unfoldable pub number_from : ℕ → Bytes → Option ℕ
unfolding from_hex_char
number_from acc [] = some acc
number_from acc (c ∷ cs) = elim (from_hex_char c) [
  | none ↦ none
  | some x ↦ number_from (acc * 16 + x) cs
]
