-- ===== src/Collector/Repo.antt =====
-- `parseRepo` of internal/services/github_collector.go.
use Prim.Native.Char.{Char, code}
use text.Mathlib.TextEquality.{Char-path}
use text.Mathlib.TextLemmas.{cons-append, nil-append}
use scuffinger.Prelude.{
  String, ◌≡◌, ◌≢◌, refl, sym, ◌↔◌, ap, ◌∙◌, false, ◌||◌, Option, none, some, ◌==◌, string_eq,
  ◌+++◌, has_char, nat_eq, nat_eq_iff, Bool-cases, inl, inr, arith, eq_iff, if◌then◌else◌,
}
use scuffinger.Prelude.Result.{Result, ok, err}
use scuffinger.I18n.{Error}

-- strings.SplitN(s, "/", 2): the text before the first slash, and what stands behind it
unfoldable pub split_slash : String → String × Option String
split_slash String.[] = ("", none)
split_slash (String.◌∷◌ c s) =
    let rest = split_slash s in
    if nat_eq (code c) b'/' then ("", some s) else (String.◌∷◌ c rest.0, rest.1)

two_parts : Error → String × Option String → Result Error (String × String)
two_parts e (owner, none) = err e
two_parts e (owner, some repo) = if owner == "" || repo == "" then err e else ok (owner, repo)

-- `bad` makes the error text from the input
unfoldable pub parse_repo : (String → Error) → String → Result Error (String × String)
unfolding two_parts split_slash
parse_repo bad full_name = two_parts (bad full_name) (split_slash full_name)

abbrev slash : Char
slash = "/"

slash-cons : (r : String) → "/" +++ r ≡ String.◌∷◌ slash r
slash-cons r = cons-append slash "" r ∙ ap (String.◌∷◌ slash) (nil-append r)

split_slash-join :
    (s r : String) → (split_slash s).1 ≡ some r → (split_slash s).0 +++ ("/" +++ r) ≡ s
unfolding split_slash
split_slash-join String.[] r h = ground arith
split_slash-join (String.◌∷◌ c s) r h = elim (Bool-cases (nat_eq (code c) b'/')) [
  | inl q ↦
      let e : c ≡ slash = Char-path c slash ((nat_eq_iff (code c) b'/').0 q) in
      let f : s ≡ r = ground arith in rw q (nil-append ("/" +++ r) ∙ slash-cons r ∙ cc)
  | inr q ↦ rw q (
      cons-append c (split_slash s).0 ("/" +++ r)
      ∙ ap (String.◌∷◌ c) (split_slash-join s r (ground arith)))
]

no_slash : (s r : String) → has_char b'/' s ≡ false → split_slash (s +++ ("/" +++ r)) ≡ (s, some r)
unfolding split_slash
no_slash String.[] r h = rw nil-append (rw slash-cons refl)
no_slash (String.◌∷◌ c s) r h = rw (cons-append c s ("/" +++ r)) (ground (arith, no_slash s r))

split_slash-first : (s : String) → has_char b'/' (split_slash s).0 ≡ false
unfolding split_slash
split_slash-first String.[] = refl
split_slash-first (String.◌∷◌ c s) = elim (Bool-cases (nat_eq (code c) b'/')) [
  | inl q ↦ rw q refl
  | inr q ↦ rw q (rw q (split_slash-first s))
]

two_parts-ok :
    (e : Error) (p : String × Option String) {owner repo : String}
    → two_parts e p ≡ ok (owner, repo)
    → (p.0 ≡ owner) × (p.1 ≡ some repo) × (owner ≢ "") × (repo ≢ "")
unfolding two_parts
two_parts-ok e (o, none) h = ground arith
two_parts-ok e (o, some r) {owner} {repo} h =
    (ground arith, ground arith, λ q. ground (arith, eq_iff o ""), λ q. ground (arith, eq_iff r ""))

parse_repo-ok :
    (bad : String → Error) (s : String) {owner repo : String}
    → parse_repo bad s ≡ ok (owner, repo)
    → ((split_slash s).0 ≡ owner) × ((split_slash s).1 ≡ some repo) × (owner ≢ "") × (repo ≢ "")
unfolding parse_repo
parse_repo-ok bad s h = two_parts-ok (bad s) (split_slash s) h

-- `parseRepo` returns owner and repo exactly when its input is the two joined by a slash, neither
-- is empty, and the owner has no slash.
pub parse_repo-join :
    (bad : String → Error) (full_name owner repo : String)
    → (parse_repo bad full_name ≡ ok (owner, repo)) ↔ (
        (full_name ≡ owner +++ ("/" +++ repo))
        × (owner ≢ "")
        × (repo ≢ "")
        × (has_char b'/' owner ≡ false))
parse_repo-join bad full_name owner repo = (to, from)
  where
    to :
        parse_repo bad full_name ≡ ok (owner, repo)
        → (full_name ≡ owner +++ ("/" +++ repo))
          × (owner ≢ "")
          × (repo ≢ "")
          × (has_char b'/' owner ≡ false)
    to h =
        let (p, q, ho, hr) = parse_repo-ok bad full_name h in
        (
          sym (split_slash-join full_name repo q) ∙ ap (λ o. o +++ ("/" +++ repo)) p,
          ho,
          hr,
          rw p at (split_slash-first full_name),
        )

    from :
        (full_name ≡ owner +++ ("/" +++ repo))
          × (owner ≢ "")
          × (repo ≢ "")
          × (has_char b'/' owner ≡ false)
        → parse_repo bad full_name ≡ ok (owner, repo)
    from h = rw h.0 (
        unfold parse_repo two_parts in
        ground (arith, no_slash owner repo h.3, eq_iff owner "", eq_iff repo "", h.1, h.2))
