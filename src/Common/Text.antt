-- ===== src/Common/Text.antt =====
-- What the program uses of JavaScript's text functions: decimal numbers, `toISOString` and
-- `encodeURIComponent`. Dates are from 1970 to 9999; a text holds no lone surrogate.
use Prim.Native.Nat.{ℕ, zero, suc, ◌+◌, ◌-◌, ◌*◌, ◌/◌, ◌%◌}
use Prim.Native.Char.{code}
use Prim.Native.String
use Prim.Native.String.{String}
use mathlib.Core.Path.{◌≡◌, refl}
use mathlib.Core.Bool.{Bool, ◌&&◌, ◌||◌}
use mathlib.Core.List.{List, [], ◌∷◌}
use vcalm_status_service.Common.Tests.{ltb, leb, if◌then◌else◌}
use vcalm_status_service.Common.Equality.{nat_eq}
use vcalm_status_service.Common.Lists.{contains}

infixr 66 ◌⧺◌
-- `a + b` of texts
abbrev pub ◌⧺◌ : String → String → String
a ⧺ b = String.◌++◌ a b

abbrev pub nth : ℕ → List String → String
nth n [] = ""
nth zero (s ∷ _) = s
nth (suc n) (_ ∷ rest) = nth n rest

-- The character of a digit, up to 15.
unfoldable pub digit : ℕ → String
digit n = nth n (
    "0" ∷ "1" ∷ "2" ∷ "3" ∷ "4" ∷ "5" ∷ "6" ∷ "7" ∷ "8" ∷ "9" ∷ "A" ∷ "B" ∷ "C" ∷ "D" ∷ "E" ∷ "F"
    ∷ [])

-- `String(n)`: the digits of n, on fuel that is more than their number.
unfoldable pub decimal_from : ℕ → ℕ → String
decimal_from zero n = ""
decimal_from (suc f) n =
    let front = decimal_from f (n / 10) in if ltb n 10 then digit n else front ⧺ digit (n % 10)

unfoldable pub decimal : ℕ → String
unfolding decimal_from digit
decimal n = decimal_from (suc n) n

-- Two digits, and four.
two_digits : ℕ → String
two_digits n = digit (n / 10 % 10) ⧺ digit (n % 10)

four_digits : ℕ → String
four_digits n = two_digits (n / 100) ⧺ two_digits (n % 100)

-- Year, month and day of a day since 1970-01-01, counted from March of the year 0.
civil_date : ℕ → ℕ × ℕ × ℕ
civil_date days =
    let z = days + 719468 in
    let doe = z % 146097 in
    let yoe = (doe - doe / 1460 + doe / 36524 - doe / 146096) / 365 in
    let doy = doe - (365 * yoe + yoe / 4 - yoe / 100) in
    let mp = (5 * doy + 2) / 153 in
    let m = if ltb mp 10 then mp + 3 else mp - 9 in
    let y = yoe + z / 146097 * 400 in
    (if leb m 2 then y + 1 else y, m, doy - (153 * mp + 2) / 5 + 1)

-- `toISOString()` without its milliseconds.
unfoldable pub iso_seconds : ℕ → String
unfolding civil_date two_digits four_digits digit
iso_seconds ms =
    let s = ms / 1000 in
    let (y, m, d) = civil_date (s / 86400) in
    four_digits y
    ⧺ "-"
    ⧺ two_digits m
    ⧺ "-"
    ⧺ two_digits d
    ⧺ "T"
    ⧺ two_digits (s / 3600 % 24)
    ⧺ ":"
    ⧺ two_digits (s / 60 % 60)
    ⧺ ":"
    ⧺ two_digits (s % 60)
    ⧺ "Z"

-- The characters that `encodeURIComponent` leaves alone.
is_unreserved : ℕ → Bool
is_unreserved c =
    leb b'A' c && leb c b'Z'
    || leb b'a' c && leb c b'z'
    || leb b'0' c && leb c b'9'
    || contains c (b'-' ∷ b'_' ∷ b'.' ∷ b'!' ∷ b'~' ∷ b'*' ∷ b'\'' ∷ b'(' ∷ b')' ∷ [])

escaped_byte : ℕ → String
escaped_byte b = "%" ⧺ digit (b / 16) ⧺ digit (b % 16)

-- The UTF-8 bytes of a code point, escaped.
escaped : ℕ → String
escaped c =
    if ltb c 128
    then escaped_byte c
    else if ltb c 2048
    then escaped_byte (192 + c / 64) ⧺ escaped_byte (128 + c % 64)
    else if ltb c 65536
    then escaped_byte (224 + c / 4096)
      ⧺ escaped_byte (128 + c / 64 % 64)
      ⧺ escaped_byte (128 + c % 64)
    else escaped_byte (240 + c / 262144)
      ⧺ escaped_byte (128 + c / 4096 % 64)
      ⧺ escaped_byte (128 + c / 64 % 64)
      ⧺ escaped_byte (128 + c % 64)

unfoldable pub encode_uri_component : String → String
unfolding is_unreserved escaped escaped_byte digit
encode_uri_component String.[] = ""
encode_uri_component (String.◌∷◌ c s) =
    (if is_unreserved (code c) then String.◌∷◌ c "" else escaped (code c)) ⧺ encode_uri_component s

decimal_tests : (decimal 0 ≡ "0") × (decimal 131072 ≡ "131072")
unfolding decimal
decimal_tests = (refl, refl)

iso_tests :
    (iso_seconds 1786190096789 ≡ "2026-08-08T11:54:56Z")
    × (iso_seconds 951782400000 ≡ "2000-02-29T00:00:00Z")
unfolding iso_seconds
iso_tests = (refl, refl)

encode_tests : encode_uri_component "a b/é€" ≡ "a%20b%2F%C3%A9%E2%82%AC"
unfolding encode_uri_component
encode_tests = refl
