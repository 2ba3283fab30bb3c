-- ===== src/Prelude/Texts.antt =====
-- Text as native strings. `◌+++◌` is Go's `+` on strings; `[]` and `∷` of a string are written
-- behind its type.
use Prim.Native.Nat.{ℕ, zero, suc, ◌/◌, ◌%◌}
use Prim.Native.Char.{code}
use Prim.Native.String.{String, ◌++◌ as append_text}
use mathlib.Core.Path.{◌≡◌, refl}
use mathlib.Core.Bool.{Bool, false, ◌||◌}
use mathlib.Core.Option.{Option, none, some}
use mathlib.Core.List.{List, [], ◌∷◌}
use scuffinger.Prelude.Tests.{ltb, nat_eq, if◌then◌else◌}

infixr 65 ◌+++◌
abbrev pub ◌+++◌ : String → String → String
s +++ t = append_text s t

-- strings.Join
abbrev pub join : String → List String → String
join sep [] = ""
join sep (s ∷ []) = s
join sep (s ∷ t ∷ ts) = s +++ (sep +++ join sep (t ∷ ts))

-- whether a character of that code occurs
abbrev pub has_char : ℕ → String → Bool
has_char c String.[] = false
has_char c (String.◌∷◌ d s) = nat_eq (code d) c || has_char c s

-- the text behind a prefix, if it is one: strings.HasPrefix and strings.TrimPrefix
unfoldable pub behind : String → String → Option String
behind String.[] s = some s
behind (String.◌∷◌ p ps) String.[] = none
behind (String.◌∷◌ p ps) (String.◌∷◌ c s) =
    let rest = behind ps s in if nat_eq (code p) (code c) then rest else none

digit_text : ℕ → String
digit_text d =
    if nat_eq d 0
    then "0"
    else if nat_eq d 1
    then "1"
    else if nat_eq d 2
    then "2"
    else if nat_eq d 3
    then "3"
    else if nat_eq d 4
    then "4"
    else if nat_eq d 5
    then "5"
    else if nat_eq d 6
    then "6"
    else if nat_eq d 7
    then "7"
    else if nat_eq d 8
    then "8"
    else "9"

-- The fuel is one more than the number, which has no more digits than that.
decimal_fuel : ℕ → ℕ → String → String
decimal_fuel zero n acc = acc
decimal_fuel (suc fuel) n acc =
    let rest = decimal_fuel fuel (n / 10) (digit_text (n % 10) +++ acc) in
    if ltb n 10 then digit_text n +++ acc else rest

-- fmt.Sprintf("%d", n)
unfoldable pub decimal : ℕ → String
unfolding digit_text decimal_fuel
decimal n = decimal_fuel (suc n) n ""

decimal_example : decimal 4096 ≡ "4096"
unfolding decimal
decimal_example = refl
