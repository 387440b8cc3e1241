-- ===== src/Export/BasinId/Default.antt =====
-- The default identifier of a terminal unit: always accepted, and different for different units.
use package.watershed_delineation.Prelude.{
  ℕ, zero, suc, ◌+◌, ◌-◌, ◌*◌, ◌/◌, ◌%◌, ◌^◌, ◌≤◌, ◌<◌, ◌≡◌, refl, sym, ap, ◌∙◌, true, false, List,
  [], ◌∷◌, ◌++◌, length, length-append, ok, ◌↔◌, ltb, Bool-cases, ltb→lt, lt→ltb, arith, inl, inr,
}
use native.Mathlib.Omega.{pow_step}
use package.watershed_delineation.Prelude.Int.{ℤ, pos, negsuc}
use package.watershed_delineation.Export.BasinId.{
  same_bytes, strip_prefix, ends_with, numbered, is_windows_device_name, all_allowed,
  invalid_reason, parse, decimal, from_terminal_unit_id_raw,
}

abbrev AreDigits : List ℕ → Type 0
AreDigits [] = Unit
AreDigits (b ∷ bs) = (b'0' ≤ b) × (b ≤ b'9') × AreDigits bs

all_allowed-AreDigits : (bs : List ℕ) → AreDigits bs → all_allowed bs ≡ true
unfolding all_allowed
all_allowed-AreDigits [] h = refl
all_allowed-AreDigits (b ∷ bs) h = ground (arith, h, all_allowed-AreDigits bs)

ends_with-AreDigits : (c : ℕ) (bs : List ℕ) → c < b'0' → AreDigits bs → ends_with c bs ≡ false
unfolding ends_with
ends_with-AreDigits c [] hc h = refl
ends_with-AreDigits c (b ∷ []) hc h = ground (arith, h)
ends_with-AreDigits c (b ∷ b' ∷ bs) hc h = ends_with-AreDigits c (b' ∷ bs) hc h.2

-- A string that starts with a digit is no device name.
digit_first : (b : ℕ) (bs : List ℕ) → b'0' ≤ b → b ≤ b'9' → is_windows_device_name (b ∷ bs) ≡ false
unfolding is_windows_device_name same_bytes numbered strip_prefix
digit_first b bs lo hi = ground arith

parse-AreDigits :
    (b : ℕ) (bs : List ℕ) → AreDigits (b ∷ bs) → length bs < 128 → parse (b ∷ bs) ≡ ok (b ∷ bs)
unfolding parse invalid_reason same_bytes
parse-AreDigits b bs h short = ground (
  arith,
  all_allowed-AreDigits (b ∷ bs) h,
  ends_with-AreDigits b'.' (b ∷ bs) (omega arith) h,
  ends_with-AreDigits b' ' (b ∷ bs) (omega arith) h,
  digit_first b bs h.0 h.1,
)

AreDigits-append : (xs ys : List ℕ) → AreDigits xs → AreDigits ys → AreDigits (xs ++ ys)
AreDigits-append [] ys hx hy = hy
AreDigits-append (x ∷ xs) ys hx hy = (hx.0, hx.1, AreDigits-append xs ys hx.2 hy)

-- The number that a string of digits stands for.
value_from : ℕ → List ℕ → ℕ
value_from acc [] = acc
value_from acc (b ∷ bs) = value_from (acc * 10 + (b - b'0')) bs

value_from-append :
    (acc : ℕ) (xs : List ℕ) (b : ℕ)
    → value_from acc (xs ++ b ∷ []) ≡ value_from acc xs * 10 + (b - b'0')
unfolding value_from
value_from-append acc [] b = refl
value_from-append acc (x ∷ xs) b = value_from-append (acc * 10 + (x - b'0')) xs b

record IsDecimal (places n : ℕ) (bs : List ℕ) : Type 0 where
  digits : AreDigits bs
  some_digit : 0 < length bs
  few : length bs ≤ places
  value : value_from 0 bs ≡ n

append_digit :
    (places n d m : ℕ) (bs : List ℕ)
    → d < 10
    → m ≡ n * 10 + d
    → IsDecimal places n bs
    → IsDecimal (suc places) m (bs ++ (b'0' + d) ∷ [])
append_digit places n d m bs hd hm h = record {
  digits = AreDigits-append bs ((b'0' + d) ∷ []) h.digits (omega arith, omega arith, tt);
  some_digit = omega (arith, length-append bs ((b'0' + d) ∷ []));
  few = omega (arith, length-append bs ((b'0' + d) ∷ []), h.few);
  value = omega (arith, value_from-append 0 bs (b'0' + d), h.value);
}

one_digit : (places n : ℕ) → n < 10 → IsDecimal (suc places) n ((b'0' + n) ∷ [])
unfolding value_from
one_digit places n h = record {
  digits = (omega arith, omega arith, tt);
  some_digit = omega arith;
  few = omega arith;
  value = omega arith;
}

decimal-IsDecimal :
    (places n : ℕ) → n < 10 ^ suc places → IsDecimal (suc places) n (decimal (suc places) n)
unfolding decimal
decimal-IsDecimal zero n h =
    rw (lt→ltb n 10 (omega (arith, h, pow_step 10 0)))
      (one_digit 0 n (omega (arith, h, pow_step 10 0)))
decimal-IsDecimal (suc places) n h = elim (Bool-cases (ltb n 10)) [
  | inl one ↦ rw one (one_digit (suc places) n (ltb→lt n 10 one))
  | inr more ↦
      let step =
        append_digit (suc places) (n / 10) (n % 10) n (decimal (suc places) (n / 10)) (omega arith)
          (omega arith)
          (decimal-IsDecimal places (n / 10) (omega (arith, h, pow_step 10 (suc places)))) in
      rw more step
]

abbrev pub IsI64 : ℤ → Type 0
IsI64 (pos n) = n < 2 ^ 63
IsI64 (negsuc n) = n < 2 ^ 63

parse-decimal : (bs : List ℕ) → AreDigits bs → 0 < length bs → length bs < 128 → parse bs ≡ ok bs
parse-decimal [] h nonempty short = absurd (omega arith)
parse-decimal (b ∷ bs) h nonempty short = parse-AreDigits b bs h (omega arith)

from_terminal_unit_id_raw-decimal :
    (n : ℕ) → n < 2 ^ 63 → from_terminal_unit_id_raw (pos n) ≡ ok (decimal 19 n)
unfolding from_terminal_unit_id_raw
from_terminal_unit_id_raw-decimal n h =
    let d = decimal-IsDecimal 18 n (omega arith) in
    parse-decimal (decimal 19 n) d.digits d.some_digit (omega (arith, d.few))

decimal_inj : (n m : ℕ) → n < 2 ^ 63 → m < 2 ^ 63 → decimal 19 n ≡ decimal 19 m → n ≡ m
decimal_inj n m hn hm e =
    sym (decimal-IsDecimal 18 n (omega arith)).value
    ∙ ap (value_from 0) e
    ∙ (decimal-IsDecimal 18 m (omega arith)).value

from_terminal_unit_id_raw-inj :
    (n : ℕ) (b : ℤ)
    → n < 2 ^ 63
    → IsI64 b
    → from_terminal_unit_id_raw b ≡ ok (decimal 19 n)
    → b ≡ pos n
unfolding from_terminal_unit_id_raw
from_terminal_unit_id_raw-inj n (pos m) hn hm e =
    ap pos (decimal_inj m n hm hn (cc (from_terminal_unit_id_raw-decimal m hm, e)))
from_terminal_unit_id_raw-inj n (negsuc m) hn hm e = cc

-- The non-negative `i64` identifier `n` of a unit has a default basin identifier, and any `i64`
-- with the same default identifier is `n`.
pub from_terminal_unit_id_raw_unique :
    (n : ℕ) (b : ℤ)
    → n < 2 ^ 63
    → IsI64 b
    → (id : List ℕ) × (from_terminal_unit_id_raw (pos n) ≡ ok id)
      × ((from_terminal_unit_id_raw b ≡ ok id) ↔ (b ≡ pos n))
from_terminal_unit_id_raw_unique n b hn hb =
    let accepted = from_terminal_unit_id_raw-decimal n hn in
    (
      decimal 19 n,
      accepted,
      (from_terminal_unit_id_raw-inj n b hn hb, λ e. ap from_terminal_unit_id_raw e ∙ accepted),
    )
