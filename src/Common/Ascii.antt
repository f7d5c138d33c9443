-- ===== src/Common/Ascii.antt =====
-- What the program uses of JavaScript's `toLowerCase` and `toUpperCase` (on ASCII letters), `trim`,
-- `split(sep)` and
-- `includes`, by a separator of one character.
use Prim.Native.Nat.{ℕ, ◌-◌}
use Prim.Native.Char.{Char, code}
use Prim.Native.String.{String}
use mathlib.Core.Bool.{Bool, true, false, ◌&&◌, ◌||◌}
use mathlib.Core.Option.{Option, none, some}
use mathlib.Core.List.{List, [], ◌∷◌}
use vcalm_status_service.Common.Tests.{leb, if◌then◌else◌}
use vcalm_status_service.Common.Equality.{◌==◌, nat_eq, string_eq}
use vcalm_status_service.Common.Lists.{contains}
use vcalm_status_service.Common.Text.{◌⧺◌, nth}

abbrev pub letters : List String
letters =
    "a" ∷ "b" ∷ "c" ∷ "d" ∷ "e" ∷ "f" ∷ "g" ∷ "h" ∷ "i" ∷ "j" ∷ "k" ∷ "l" ∷ "m" ∷ "n" ∷ "o" ∷ "p"
    ∷ "q" ∷ "r" ∷ "s" ∷ "t" ∷ "u" ∷ "v" ∷ "w" ∷ "x" ∷ "y" ∷ "z" ∷ []

-- `toLowerCase` of a text whose letters are ASCII.
abbrev pub lower_case : String → String
lower_case String.[] = ""
lower_case (String.◌∷◌ c s) =
    let rest = lower_case s in
    if leb b'A' (code c) && leb (code c) b'Z'
    then nth (code c - b'A') letters ⧺ rest
    else String.◌∷◌ c rest

abbrev pub capitals : List String
capitals =
    "A" ∷ "B" ∷ "C" ∷ "D" ∷ "E" ∷ "F" ∷ "G" ∷ "H" ∷ "I" ∷ "J" ∷ "K" ∷ "L" ∷ "M" ∷ "N" ∷ "O" ∷ "P"
    ∷ "Q" ∷ "R" ∷ "S" ∷ "T" ∷ "U" ∷ "V" ∷ "W" ∷ "X" ∷ "Y" ∷ "Z" ∷ []

-- `toUpperCase` of a text whose letters are ASCII.
abbrev pub upper_case : String → String
upper_case String.[] = ""
upper_case (String.◌∷◌ c s) =
    let rest = upper_case s in
    if leb b'a' (code c) && leb (code c) b'z'
    then nth (code c - b'a') capitals ⧺ rest
    else String.◌∷◌ c rest

-- `trim` takes these away, by code: white space and line ends.
abbrev pub is_space : ℕ → Bool
is_space c =
    leb 9 c && leb c 13
    || leb 8192 c && leb c 8202
    || contains c (32 ∷ 160 ∷ 5760 ∷ 8232 ∷ 8233 ∷ 8239 ∷ 8287 ∷ 12288 ∷ 65279 ∷ [])

abbrev pub trim_start : String → String
trim_start String.[] = ""
trim_start (String.◌∷◌ c s) =
    let rest = trim_start s in if is_space (code c) then rest else String.◌∷◌ c s

abbrev pub trim_end : String → String
trim_end String.[] = ""
trim_end (String.◌∷◌ c s) =
    let rest = trim_end s in if rest == "" && is_space (code c) then "" else String.◌∷◌ c rest

unfoldable pub trim : String → String
trim s = trim_end (trim_start s)

-- The text up to a separator, and what follows it, if the separator is there.
abbrev pub cut : ℕ → String → String × Option String
cut sep String.[] = ("", none)
cut sep (String.◌∷◌ c s) =
    let (front, rest) = cut sep s in
    if code c == sep then ("", some s) else (String.◌∷◌ c front, rest)

abbrev pub with_head : Char → List String → List String
with_head c [] = []
with_head c (part ∷ parts) = String.◌∷◌ c part ∷ parts

-- `s.split(sep)`
abbrev pub split : ℕ → String → List String
split sep String.[] = "" ∷ []
split sep (String.◌∷◌ c s) =
    let parts = split sep s in if code c == sep then "" ∷ parts else with_head c parts

abbrev is_start : String → String → Bool
is_start String.[] t = true
is_start (String.◌∷◌ c s) String.[] = false
is_start (String.◌∷◌ c s) (String.◌∷◌ d t) = code c == code d && is_start s t

-- `t.includes(s)`
abbrev pub is_part : String → String → Bool
is_part s String.[] = is_start s ""
is_part s (String.◌∷◌ d t) = is_start s (String.◌∷◌ d t) || is_part s t
