-- ===== src/Server/Debug/Bindings.antt =====
-- What `parseRedisInfo` of internal/server/debug.go reads, line by line.
use scuffinger.Prelude.{
  String, string_eq, ◌≡◌, refl, ◌∙◌, ap, sym, Bool-cases, inl, inr, ◌&&◌, Option, none, some, List,
  [], ◌∷◌, ◌==◌, eq_iff, if◌then◌else◌,
}
use scuffinger.Prelude.Map.{Map, lookup, insert, lookup-insert}
use scuffinger.Server.Debug.Info.{
  Line, other, header, binding, Sections, Parsing, line_of, trim_space, split_lines, made, put,
  note, parse_lines, parse_redis_info, fields_of,
}

-- the field of a section, if there is one
abbrev pub in_section : String → Option (Map String String) → Option String
in_section key none = none
in_section key (some fields) = lookup key fields

abbrev pub field : String → String → Sections → Option String
field name key sections = in_section key (lookup name sections)

-- The last binding of the key under a header of that name, when the lines begin in section
-- `current` and `found` was bound so far.
pub last_binding :
    (String → String) → String → String → List Line → String → Option String → Option String
last_binding to_lower name key [] current found = found
last_binding to_lower name key (other ∷ ls) current found =
    last_binding to_lower name key ls current found
last_binding to_lower name key (header title ∷ ls) current found =
    last_binding to_lower name key ls (to_lower title) found
last_binding to_lower name key (binding k v ∷ ls) current found =
    last_binding to_lower name key ls current
      (if current == name && k == key then some v else found)

lookup-empty :
    (key : String) (o : Option (Map String String))
    → in_section key (some (fields_of o)) ≡ in_section key o
unfolding fields_of lookup
lookup-empty key none = refl
lookup-empty key (some fields) = refl

-- Making a section shows no field.
made-field :
    (name key n : String) (s : Sections) (o : Option (Map String String))
    → lookup n s ≡ o
    → field name key (made n s) ≡ field name key s
unfolding made fields_of
made-field name key n s (some fields) h = rw h refl
made-field name key n s none h = rw h (elim (Bool-cases (n == name)) [
  | inl q ↦
      rw (lookup-insert n name [] s, q)
        (lookup-empty key none
          ∙ ap (in_section key) (sym (ap (λ m. lookup m s) (sym ((eq_iff n name).0 q)) ∙ h)))
  | inr q ↦ rw (lookup-insert n name [] s, q) refl
])

put-field :
    (name key n k v : String) (s : Sections)
    → field name key (put n k v s) ≡ (if n == name && k == key then some v else field name key s)
unfolding put
put-field name key n k v s = elim (Bool-cases (n == name)) [
  | inl q ↦
      rw (lookup-insert n name (insert k v (fields_of (lookup n s))) s, q)
        (lookup-insert k key v (fields_of (lookup n s))
          ∙ rw ((eq_iff n name).0 q)
              (ap (λ o. if k == key then some v else o) (lookup-empty key (lookup name s))))
  | inr q ↦ rw (lookup-insert n name (insert k v (fields_of (lookup n s))) s, q) refl
]

-- One line changes the fields as the reference says.
note-field :
    (to_lower : String → String) (name key : String) (l : Line) (ls : List Line) (p : Parsing)
    → last_binding to_lower name key (l ∷ ls) p.current (field name key p.sections)
      ≡ last_binding to_lower name key ls
          (note to_lower l p).current
          (field name key (note to_lower l p).sections)
unfolding note last_binding
note-field to_lower name key other ls p = refl
note-field to_lower name key (header title) ls p =
    ap (last_binding to_lower name key ls (to_lower title))
      (sym (made-field name key (to_lower title) p.sections _ refl))
note-field to_lower name key (binding k v) ls p = ap (last_binding to_lower name key ls p.current) (
    sym (
      put-field name key p.current k v (made p.current p.sections)
      ∙ ap (λ o. if p.current == name && k == key then some v else o)
          (made-field name key p.current p.sections _ refl)))

pub lines_of : List String → List Line
lines_of [] = []
lines_of (l ∷ ls) = line_of (trim_space l) ∷ lines_of ls

parse_lines-field :
    (to_lower : String → String) (name key : String) (ls : List String) (p : Parsing)
    → field name key (parse_lines to_lower ls p).sections
      ≡ last_binding to_lower name key (lines_of ls) p.current (field name key p.sections)
unfolding parse_lines lines_of last_binding
parse_lines-field to_lower name key [] p = refl
parse_lines-field to_lower name key (l ∷ ls) p =
    parse_lines-field to_lower name key ls (note to_lower (line_of (trim_space l)) p)
    ∙ sym (note-field to_lower name key (line_of (trim_space l)) (lines_of ls) p)

-- The parsed INFO has, under the name of a section and a key, the text behind the first colon of
-- the last line that binds the key below a header which lower-cases to that name, and nothing
-- where no line does.
pub parse_redis_info-last_binding :
    (to_lower : String → String) (info name key : String)
    → field name key (parse_redis_info to_lower info)
      ≡ last_binding to_lower name key (lines_of (split_lines info)) "default" none
unfolding parse_redis_info lookup
parse_redis_info-last_binding to_lower info name key =
    parse_lines-field to_lower name key (split_lines info)
      (record { current = "default"; sections = [] })
