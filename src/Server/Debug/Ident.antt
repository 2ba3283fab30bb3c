-- ===== src/Server/Debug/Ident.antt =====
-- `pgQuoteIdent` of internal/server/debug.go, and the reader of quoted identifiers of SQL.
use Prim.Native.Char.{Char, code}
use text.Mathlib.TextLemmas.{cons-append, nil-append, append_assoc}
use scuffinger.Prelude.{
  String, ◌≡◌, refl, ap, ◌∙◌, Bool, true, false, Option, none, some, ◌+++◌, nat_eq, Bool-cases, inl,
  inr, if◌then◌else◌,
}

abbrev pub quote : Char
quote = "\""

abbrev is_quote : Char → Bool
is_quote c = nat_eq (code c) 34

-- strings.ReplaceAll(name, `"`, `""`)
unfoldable pub double_quotes : String → String
double_quotes String.[] = ""
double_quotes (String.◌∷◌ c s) =
    let rest = double_quotes s in
    if is_quote c then String.◌∷◌ c (String.◌∷◌ c rest) else String.◌∷◌ c rest

unfoldable pub pg_quote_ident : String → String
unfolding double_quotes
pg_quote_ident name = "\"" +++ (double_quotes name +++ "\"")

prepend : Char → Option (String × String) → Option (String × String)
prepend c none = none
prepend c (some (name, rest)) = some (String.◌∷◌ c name, rest)

-- The inside of a quoted identifier; after a quote, a second quote stands for one and anything else
-- ends the identifier.
read_inside : Bool → String → Option (String × String)
unfolding prepend
read_inside false String.[] = none
read_inside true String.[] = some ("", "")
read_inside false (String.◌∷◌ c s) =
    let closed = read_inside true s in
    let inside = prepend c (read_inside false s) in if is_quote c then closed else inside
read_inside true (String.◌∷◌ c s) =
    let inside = prepend c (read_inside false s) in
    if is_quote c then inside else some ("", String.◌∷◌ c s)

-- the identifier that a SQL text starts with, and the text behind it
unfoldable pub read_ident : String → Option (String × String)
unfolding read_inside
read_ident String.[] = none
read_ident (String.◌∷◌ c s) = if is_quote c then read_inside false s else none

abbrev pub starts_with_quote : String → Bool
starts_with_quote String.[] = false
starts_with_quote (String.◌∷◌ c s) = is_quote c

quote-cons : (r : String) → "\"" +++ r ≡ String.◌∷◌ quote r
quote-cons r = cons-append quote "" r ∙ ap (String.◌∷◌ quote) (nil-append r)

closing : (r : String) → starts_with_quote r ≡ false → read_inside true r ≡ some ("", r)
unfolding read_inside
closing String.[] h = refl
closing (String.◌∷◌ c r) h = rw h refl

inside-quoted :
    (s r : String)
    → starts_with_quote r ≡ false
    → read_inside false (double_quotes s +++ ("\"" +++ r)) ≡ some (s, r)
unfolding read_inside double_quotes prepend
inside-quoted String.[] r h = rw nil-append (rw quote-cons (closing r h))
inside-quoted (String.◌∷◌ c s) r h = elim (Bool-cases (is_quote c)) [
  | inl q ↦ rw q (
      rw (cons-append c (String.◌∷◌ c (double_quotes s)) ("\"" +++ r)) (
        rw q (
          rw (cons-append c (double_quotes s) ("\"" +++ r))
            (rw q (ap (prepend c) (inside-quoted s r h))))))
  | inr q ↦ rw q (
      rw (cons-append c (double_quotes s) ("\"" +++ r))
        (rw q (ap (prepend c) (inside-quoted s r h))))
]

-- SQL reads an identifier quoted by `pgQuoteIdent` back as the name that was quoted, whatever its
-- characters, and leaves the text behind it, if that does not start with a quote.
pub read_ident-pg_quote_ident :
    (name rest : String)
    → starts_with_quote rest ≡ false
    → read_ident (pg_quote_ident name +++ rest) ≡ some (name, rest)
unfolding read_ident pg_quote_ident
read_ident-pg_quote_ident name rest h = rw (append_assoc "\"" (double_quotes name +++ "\"") rest) (
    rw (append_assoc (double_quotes name) "\"" rest)
      (rw (quote-cons (double_quotes name +++ ("\"" +++ rest))) (inside-quoted name rest h)))
