-- ===== src/Logging/Lines.antt =====
-- The lines that the handler of internal/logging/yaml_handler.go writes: one for each leaf, with the
-- keys on its path joined by dots.
use mathlib.Core.List.{map-append}
use text.Mathlib.TextLemmas.{append_assoc, append-ne-nil_of_right_ne-nil}
use scuffinger.Prelude.{
  String, string_eq, ◌≡◌, ◌≢◌, refl, ap, ◌⊎◌, inl, inr, ◌∙◌, sym, List, [], ◌∷◌, ◌++◌, map, join,
  eq_iff, arith, if◌then◌else◌, ◌+++◌,
}
use scuffinger.Logging.Yaml.{
  Value, group, str, int, float, bool, time, duration, any, Attrs, nil, attr, Formats, Entry,
  YamlHandler, dotted, line_text, write_value, write_attrs, handle,
}

-- a leaf: the keys on its path, outermost first, and its text
module _ {F : Type 0} (fmt : Formats F) where
  mutual
    pub leaves : List String → Value F → List (List String × String)
    leaves path (group more) = leaves_of path more
    leaves path (str s) = (path, fmt.quoted s) ∷ []
    leaves path (int n) = (path, fmt.number n) ∷ []
    leaves path (float x) = (path, fmt.six_places x) ∷ []
    leaves path (bool b) = (path, if b then "true" else "false") ∷ []
    leaves path (time t) = (path, fmt.quoted (fmt.rfc3339_nano t)) ∷ []
    leaves path (duration d) = (path, fmt.quoted (fmt.duration_text d)) ∷ []
    leaves path (any s) = (path, fmt.quoted s) ∷ []

    pub leaves_of : List String → Attrs F → List (List String × String)
    leaves_of path nil = []
    leaves_of path (attr key v more) = leaves (path ++ (key ∷ [])) v ++ leaves_of path more

unfoldable mutual
  -- No key is empty.
  pub Named : {F : Type 0} → Value F → Type 0
  Named (group more) = AllNamed more
  Named (str s) = Unit
  Named (int n) = Unit
  Named (float x) = Unit
  Named (bool b) = Unit
  Named (time t) = Unit
  Named (duration d) = Unit
  Named (any s) = Unit

  pub AllNamed : {F : Type 0} → Attrs F → Type 0
  AllNamed nil = Unit
  AllNamed (attr key v more) = (key ≢ "") × Named v × AllNamed more

abbrev pub leaf_line : List String × String → String
leaf_line (path, s) = line_text (join "." path) s

-- a path that is empty or spells something
abbrev pub Proper : List String → Type 0
Proper path = (path ≡ []) ⊎ (join "." path ≢ "")

join-concat :
    (p : String) (ps : List String) (key : String)
    → join "." ((p ∷ ps) ++ (key ∷ [])) ≡ join "." (p ∷ ps) +++ ("." +++ key)
join-concat p [] key = refl
join-concat p (q ∷ ps) key =
    ap (λ t. p +++ ("." +++ t)) (join-concat q ps key)
    ∙ ap (λ t. p +++ t) (sym (append_assoc "." (join "." (q ∷ ps)) ("." +++ key)))
    ∙ sym (append_assoc p ("." +++ join "." (q ∷ ps)) ("." +++ key))

join-ne-nil : (path : List String) (key : String) → key ≢ "" → join "." (path ++ (key ∷ [])) ≢ ""
join-ne-nil [] key h = h
join-ne-nil (p ∷ ps) key h =
    rw (join-concat p ps key)
      (append-ne-nil_of_right_ne-nil (join "." (p ∷ ps)) (append-ne-nil_of_right_ne-nil "." h))

dotted-concat :
    (path : List String) (key : String)
    → Proper path
    → dotted (join "." path) key ≡ join "." (path ++ (key ∷ []))
dotted-concat [] key h = refl
dotted-concat (p ∷ ps) key (inl e) = absurd (ground arith)
dotted-concat (p ∷ ps) key (inr h) =
    rw (join-concat p ps key) (ground (arith, eq_iff (join "." (p ∷ ps)) ""))

module _ {F : Type 0} (fmt : Formats F) where
  mutual
    unfolding write_value write_attrs leaves leaves_of Named AllNamed

    write_value-leaves :
        (path : List String) (v : Value F)
        → Proper path
        → Named v
        → write_value fmt (join "." path) v ≡ map leaf_line (leaves fmt path v)
    write_value-leaves path (group more) h n = write_attrs-leaves path more h n
    write_value-leaves path (str s) h n = refl
    write_value-leaves path (int k) h n = refl
    write_value-leaves path (float x) h n = refl
    write_value-leaves path (bool b) h n = refl
    write_value-leaves path (time t) h n = refl
    write_value-leaves path (duration d) h n = refl
    write_value-leaves path (any s) h n = refl

    write_attrs-leaves :
        (path : List String) (more : Attrs F)
        → Proper path
        → AllNamed more
        → write_attrs fmt (join "." path) more ≡ map leaf_line (leaves_of fmt path more)
    write_attrs-leaves path nil h n = refl
    write_attrs-leaves path (attr key v more) h n =
        ap (λ k. write_value fmt k v ++ write_attrs fmt (join "." path) more)
          (dotted-concat path key h)
        ∙ ap (λ ls. ls ++ write_attrs fmt (join "." path) more)
            (write_value-leaves (path ++ (key ∷ [])) v (inr (join-ne-nil path key n.0)) n.1)
        ∙ ap (λ ls. map leaf_line (leaves fmt (path ++ (key ∷ [])) v) ++ ls)
            (write_attrs-leaves path more h n.2)
        ∙ sym (map-append leaf_line (leaves fmt (path ++ (key ∷ [])) v) (leaves_of fmt path more))

  -- If no key is empty, the YAML handler writes behind its four header lines one line for each
  -- attribute that is not a group, at any depth, in order: the keys on its path, the groups of the
  -- handler first, joined by dots, and its value; the attributes set before come first, also under
  -- the groups.
  pub handle-leaves :
      (h : YamlHandler F) (groups : List String) (r : Entry F)
      → h.group ≡ join "." groups
      → Proper groups
      → AllNamed h.attrs
      → AllNamed r.attrs
      → handle fmt h r
        ≡ handle fmt (record h { attrs = nil }) (record r { attrs = nil })
          ++ map leaf_line (leaves_of fmt groups h.attrs ++ leaves_of fmt groups r.attrs)
  unfolding handle write_attrs
  handle-leaves h groups r e p nh nr =
      ap
        (λ ls.
          "---"
          ∷ line_text "time" (fmt.quoted (fmt.rfc3339_nano r.time))
          ∷ line_text "level" r.level
          ∷ line_text "msg" (fmt.quoted r.message)
          ∷ ls)
        (ap (λ g. write_attrs fmt g h.attrs ++ write_attrs fmt g r.attrs) e
          ∙ ap (λ ls. ls ++ write_attrs fmt (join "." groups) r.attrs)
              (write_attrs-leaves groups h.attrs p nh)
          ∙ ap (λ ls. map leaf_line (leaves_of fmt groups h.attrs) ++ ls)
              (write_attrs-leaves groups r.attrs p nr)
          ∙ sym
              (map-append leaf_line (leaves_of fmt groups h.attrs) (leaves_of fmt groups r.attrs)))
