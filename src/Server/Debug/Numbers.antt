-- ===== src/Server/Debug/Numbers.antt =====
-- `clampInt` of internal/server/debug.go, with the part of `strconv.Atoi` that it reads.
use Prim.Native.Char.{code}
use scuffinger.Prelude.{
  ℕ, zero, suc, ◌+◌, ◌-◌, ◌*◌, ◌^◌, ◌≡◌, refl, ◌⊎◌, inl, inr, String, ◌&&◌, Option, none, some, ltb,
  leb, nat_eq, arith, if◌then◌else◌,
}
use scuffinger.Prelude.Int.{ℤ, pos, negsuc, ◌≤ℤ◌, ltb_ℤ}

-- base-10 digits after the number `n`
digits : ℕ → String → Option ℕ
digits n String.[] = some n
digits n (String.◌∷◌ c s) =
    let rest = digits (10 * n + (code c - b'0')) s in
    if leb b'0' (code c) && leb (code c) b'9' then rest else none

unsigned : String → Option ℕ
unfolding digits
unsigned String.[] = none
unsigned (String.◌∷◌ c s) = digits 0 (String.◌∷◌ c s)

negated : ℕ → ℤ
negated zero = pos 0
negated (suc n) = negsuc n

plus : Option ℕ → Option ℤ
plus none = none
plus (some n) = if ltb n (2 ^ 63) then some (pos n) else none

minus : Option ℕ → Option ℤ
unfolding negated
minus none = none
minus (some n) = if leb n (2 ^ 63) then some (negated n) else none

-- strconv.Atoi into a 64-bit `int`; `none` is a syntax or a range error
unfoldable pub atoi : String → Option ℤ
unfolding unsigned plus minus
atoi String.[] = none
atoi (String.◌∷◌ c s) =
    if nat_eq (code c) b'-'
    then minus (unsigned s)
    else if nat_eq (code c) b'+'
    then plus (unsigned s)
    else plus (unsigned (String.◌∷◌ c s))

clamped : ℤ → ℤ → Option ℤ → ℤ
clamped lo hi none = lo
clamped lo hi (some n) = if ltb_ℤ n lo then lo else if ltb_ℤ hi n then hi else n

unfoldable pub clamp_int : String → ℤ → ℤ → ℤ
unfolding clamped
clamp_int s lo hi = clamped lo hi (atoi s)

clamped-bounds :
    (lo hi : ℤ) (n : Option ℤ) → lo ≤ℤ hi → (lo ≤ℤ clamped lo hi n) × (clamped lo hi n ≤ℤ hi)
unfolding clamped
clamped-bounds lo hi none h = ground arith
clamped-bounds lo hi (some n) h = ground arith

-- `clampInt` answers a number between its bounds, whatever the text, when the bounds are in order.
pub clamp_int-bounds :
    (s : String) (lo hi : ℤ) → lo ≤ℤ hi → (lo ≤ℤ clamp_int s lo hi) × (clamp_int s lo hi ≤ℤ hi)
unfolding clamp_int
clamp_int-bounds s lo hi h = clamped-bounds lo hi (atoi s) h

-- `clampInt` answers an integer between the bounds that the text spells, and the lower bound for a
-- text that `strconv.Atoi` does not read.
pub clamp_int-atoi :
    (s : String) (lo hi n : ℤ)
    → lo ≤ℤ n
    → n ≤ℤ hi
    → (atoi s ≡ some n) ⊎ ((atoi s ≡ none) × (lo ≡ n))
    → clamp_int s lo hi ≡ n
unfolding clamp_int clamped
clamp_int-atoi s lo hi n a b (inl e) = rw e (ground arith)
clamp_int-atoi s lo hi n a b (inr (e, q)) = rw e q

atoi_example :
    (atoi "-42" ≡ some (negsuc 41)) × (atoi "9223372036854775808" ≡ none) × (atoi "5x" ≡ none)
unfolding atoi unsigned digits plus minus negated
atoi_example = (refl, refl, refl)
