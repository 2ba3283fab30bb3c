-- ===== src/Logging/Names.antt =====
-- The short names of callers in internal/logging/logger.go.
use Prim.Native.Char.{Char, code}
use text.Mathlib.TextEquality.{Char-path}
use text.Mathlib.TextLemmas.{cons-append, nil-append}
use scuffinger.Prelude.{
  String, ◌≡◌, refl, sym, ap, ◌∙◌, false, Option, none, some, ◌⊎◌, inl, inr, ◌+++◌, has_char,
  behind, nat_eq, nat_eq_iff, Bool-cases, arith,
}

or_else : Option String → Option String → Option String
or_else none b = b
or_else (some a) b = some a

-- the text behind the last occurrence: strings.LastIndex and the slice from there
unfoldable pub behind_last : String → String → Option String
unfolding or_else behind
behind_last marker String.[] = behind marker ""
behind_last marker (String.◌∷◌ c s) =
    or_else (behind_last marker s) (behind marker (String.◌∷◌ c s))

or_whole : String → Option String → String
or_whole s none = s
or_whole s (some t) = t

unfoldable pub short_func_name : String → String
unfolding or_whole
short_func_name name = or_whole name (behind_last "/" name)

unfoldable pub short_file_path : String → String
unfolding or_whole
short_file_path path = or_whole path (behind_last "scuffinger/" path)

-- What stands behind the last slash: no other slash, and the whole text if there is none.
abbrev pub Behind : String → Option String → Type 0
Behind s none = has_char b'/' s ≡ false
Behind s (some t) = (has_char b'/' t ≡ false) × ((dir : String) × (s ≡ dir +++ ("/" +++ t)))

abbrev slash : Char
slash = "/"

slash-cons : (r : String) → "/" +++ r ≡ String.◌∷◌ slash r
slash-cons r = cons-append slash "" r ∙ ap (String.◌∷◌ slash) (nil-append r)

Behind-cons :
    (c : Char) (s : String) (o : Option String)
    → Behind s o
    → Behind (String.◌∷◌ c s) (or_else o (behind "/" (String.◌∷◌ c s)))
unfolding or_else behind
Behind-cons c s (some t) (h, (dir, p)) =
    (h, (String.◌∷◌ c dir, ap (String.◌∷◌ c) p ∙ sym (cons-append c dir ("/" +++ t))))
Behind-cons c s none h = elim (Bool-cases (nat_eq b'/' (code c))) [
  | inl q ↦
      let e : slash ≡ c = Char-path slash c ((nat_eq_iff b'/' (code c)).0 q) in
      rw q (h, ("", ap (λ d. String.◌∷◌ d s) (sym e) ∙ sym (nil-append ("/" +++ s) ∙ slash-cons s)))
  | inr q ↦ rw q (ground arith)
]

behind_last-Behind : (s : String) → Behind s (behind_last "/" s)
unfolding behind_last behind
behind_last-Behind String.[] = refl
behind_last-Behind (String.◌∷◌ c s) = Behind-cons c s (behind_last "/" s) (behind_last-Behind s)

shortened :
    (name : String) (o : Option String)
    → Behind name o
    → (has_char b'/' (or_whole name o) ≡ false)
      × ((or_whole name o ≡ name) ⊎ ((dir : String) × (name ≡ dir +++ ("/" +++ or_whole name o))))
unfolding or_whole
shortened name none h = (h, inl refl)
shortened name (some t) (h, d) = (h, inr d)

pub short_func_name-last :
    (name : String)
    → (has_char b'/' (short_func_name name) ≡ false)
      × ((short_func_name name ≡ name)
          ⊎ ((dir : String) × (name ≡ dir +++ ("/" +++ short_func_name name))))
unfolding short_func_name
short_func_name-last name = shortened name (behind_last "/" name) (behind_last-Behind name)
