-- ===== src/Export/BasinId.antt =====
-- Basin identifiers (crates/core/src/export/identity.rs). A `String` is the list of its bytes.
pub mod Default
use package.watershed_delineation.Prelude.{
  ℕ, zero, suc, ◌+◌, ◌-◌, ◌/◌, ◌%◌, Bool, true, false, not, ◌&&◌, ◌||◌, Option, none, some, List,
  [], ◌∷◌, ◌++◌, map, length, Result, ok, err, ltb, leb, ◌==◌, if◌then◌else◌,
}
use package.watershed_delineation.Prelude.Int.{ℤ, pos, negsuc}

-- `MAX_BASIN_ID_BYTES`.
abbrev pub max_basin_id_bytes : ℕ
max_basin_id_bytes = 128

-- The reasons of `validate_basin_id`, in the order of its tests.
pub data InvalidReason : Type 0 where
  empty too_long dots trailing_dot trailing_space device_name bad_byte : InvalidReason

-- The variants of `ExportError` that an identifier can give.
pub data BasinIdError : Type 0 where
  invalid_basin_id : List ℕ → InvalidReason → BasinIdError
  negative_default_basin_id : ℤ → BasinIdError

-- Equality of two strings.
unfoldable pub same_bytes : List ℕ → List ℕ → Bool
same_bytes [] [] = true
same_bytes (a ∷ as_) (b ∷ bs) = a == b && same_bytes as_ bs
same_bytes xs ys = false

-- `strip_prefix`.
unfoldable pub strip_prefix : List ℕ → List ℕ → Option (List ℕ)
strip_prefix [] xs = some xs
strip_prefix (p ∷ ps) [] = none
strip_prefix (p ∷ ps) (x ∷ xs) = if x == p then strip_prefix ps xs else none

unfoldable pub ends_with : ℕ → List ℕ → Bool
ends_with c [] = false
ends_with c (x ∷ []) = x == c
ends_with c (x ∷ y ∷ xs) = ends_with c (y ∷ xs)

-- `to_ascii_uppercase` of one byte.
abbrev pub to_upper : ℕ → ℕ
to_upper b = if leb b'a' b && leb b b'z' then b - 32 else b

abbrev pub is_digit_1_to_9 : List ℕ → Bool
is_digit_1_to_9 [] = false
is_digit_1_to_9 (b ∷ []) = leb b'1' b && leb b b'9'
is_digit_1_to_9 (b ∷ c ∷ bs) = false

-- `strip_prefix(prefix).and_then(single_ascii_digit_1_to_9).is_some()`.
unfoldable pub numbered : List ℕ → List ℕ → Bool
numbered prefix upper = elim (strip_prefix prefix upper) [
  | none ↦ false
  | some rest ↦ is_digit_1_to_9 rest
]

unfoldable pub is_windows_device_name : List ℕ → Bool
is_windows_device_name value =
    let upper = map to_upper value in
    same_bytes upper (b'C' ∷ b'O' ∷ b'N' ∷ [])
    || same_bytes upper (b'P' ∷ b'R' ∷ b'N' ∷ [])
    || same_bytes upper (b'A' ∷ b'U' ∷ b'X' ∷ [])
    || same_bytes upper (b'N' ∷ b'U' ∷ b'L' ∷ [])
    || numbered (b'C' ∷ b'O' ∷ b'M' ∷ []) upper
    || numbered (b'L' ∷ b'P' ∷ b'T' ∷ []) upper

abbrev pub is_ascii_alphanumeric : ℕ → Bool
is_ascii_alphanumeric b =
    leb b'0' b && leb b b'9' || leb b'A' b && leb b b'Z' || leb b'a' b && leb b b'z'

abbrev pub is_allowed : ℕ → Bool
is_allowed b = is_ascii_alphanumeric b || b == b'.' || b == b'_' || b == b'-'

unfoldable pub all_allowed : List ℕ → Bool
all_allowed [] = true
all_allowed (b ∷ bs) = is_allowed b && all_allowed bs

unfoldable pub invalid_reason : List ℕ → Option InvalidReason
invalid_reason value =
    if length value == 0
    then some empty
    else if ltb max_basin_id_bytes (length value)
    then some too_long
    else if same_bytes value (b'.' ∷ []) || same_bytes value (b'.' ∷ b'.' ∷ [])
    then some dots
    else if ends_with b'.' value
    then some trailing_dot
    else if ends_with b' ' value
    then some trailing_space
    else if is_windows_device_name value
    then some device_name
    else if not (all_allowed value)
    then some bad_byte
    else none

-- `BasinId::parse`, with `validate_basin_id`.
unfoldable pub parse : List ℕ → Result (List ℕ) BasinIdError
parse value = elim (invalid_reason value) [
  | some reason ↦ err (invalid_basin_id value reason)
  | none ↦ ok value
]

-- `to_string` of a non-negative `i64`: the decimal digits, of which there are at most nineteen.
unfoldable pub decimal : ℕ → ℕ → List ℕ
decimal zero n = []
decimal (suc places) n =
    let rest = decimal places (n / 10) ++ (b'0' + n % 10) ∷ [] in
    if ltb n 10 then (b'0' + n) ∷ [] else rest

unfoldable pub from_terminal_unit_id_raw : ℤ → Result (List ℕ) BasinIdError
from_terminal_unit_id_raw (negsuc n) = err (negative_default_basin_id (negsuc n))
from_terminal_unit_id_raw (pos n) = parse (decimal 19 n)
