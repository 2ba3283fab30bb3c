-- ===== src/Logging/Yaml.antt =====
-- internal/logging/yaml_handler.go. The formats of fmt, package time and package strconv are
-- parameters; `F` is the type of float64. What is written is a list of lines.
use scuffinger.Prelude.{
  String, string_eq, Bool, Option, none, some, List, [], ◌∷◌, ◌++◌, ◌==◌, if◌then◌else◌, ◌+++◌,
}
use scuffinger.Prelude.Int.{ℤ, leb_ℤ}
use scuffinger.Logging.{level_info}

-- slog.Value by its kind; `any` is each other kind, with the text of its value
mutual
  pub data Value (F : Type 0) : Type 0 where
    group : Attrs F → Value F
    str : String → Value F
    int : ℤ → Value F
    float : F → Value F
    bool : Bool → Value F
    time : ℤ → Value F
    duration : ℤ → Value F
    any : String → Value F

  pub data Attrs (F : Type 0) : Type 0 where
    nil : Attrs F
    attr : String → Value F → Attrs F → Attrs F

pub record Formats (F : Type 0) : Type 0 where
  pub quoted : String → String
  pub number : ℤ → String
  pub six_places : F → String
  pub rfc3339_nano : ℤ → String
  pub duration_text : ℤ → String

-- slog.Record
pub record Entry (F : Type 0) : Type 0 where
  pub time : ℤ
  pub level : String
  pub message : String
  pub attrs : Attrs F

-- the options, the attributes set before, and the group
pub record YamlHandler (F : Type 0) : Type 0 where
  pub level : Option ℤ
  pub attrs : Attrs F
  pub group : String

-- the key behind a prefix
abbrev pub dotted : String → String → String
dotted prefix key = if prefix == "" then key else prefix +++ ("." +++ key)

-- append(slices.Clone(h.attrs), attrs...)
unfoldable pub append_attrs : {F : Type 0} → Attrs F → Attrs F → Attrs F
append_attrs nil bs = bs
append_attrs (attr k v more) bs = attr k v (append_attrs more bs)

abbrev pub line_text : String → String → String
line_text key value = key +++ (": " +++ value)

module _ {F : Type 0} (fmt : Formats F) where
  unfoldable mutual
    -- `writeYAMLAttr`: the lines of one attribute
    pub write_value : String → Value F → List String
    write_value key (group more) = write_attrs key more
    write_value key (str s) = line_text key (fmt.quoted s) ∷ []
    write_value key (int n) = line_text key (fmt.number n) ∷ []
    write_value key (float x) = line_text key (fmt.six_places x) ∷ []
    write_value key (bool b) = line_text key (if b then "true" else "false") ∷ []
    write_value key (time t) = line_text key (fmt.quoted (fmt.rfc3339_nano t)) ∷ []
    write_value key (duration d) = line_text key (fmt.quoted (fmt.duration_text d)) ∷ []
    write_value key (any s) = line_text key (fmt.quoted s) ∷ []

    -- each attribute behind a prefix
    pub write_attrs : String → Attrs F → List String
    write_attrs prefix nil = []
    write_attrs prefix (attr key v more) =
        write_value (dotted prefix key) v ++ write_attrs prefix more

  -- `Handle`
  unfoldable pub handle : YamlHandler F → Entry F → List String
  handle h r =
      "---"
      ∷ line_text "time" (fmt.quoted (fmt.rfc3339_nano r.time))
      ∷ line_text "level" r.level
      ∷ line_text "msg" (fmt.quoted r.message)
      ∷ (write_attrs h.group h.attrs ++ write_attrs h.group r.attrs)

least : Option ℤ → ℤ
least none = level_info
least (some level) = level

module _ {F : Type 0} where
  unfoldable pub new_yaml_handler : Option ℤ → YamlHandler F
  new_yaml_handler level = record { level = level; attrs = nil; group = "" }

  unfoldable pub enabled : YamlHandler F → ℤ → Bool
  unfolding least
  enabled h level = leb_ℤ (least h.level) level

  unfoldable pub with_attrs : YamlHandler F → Attrs F → YamlHandler F
  with_attrs h attrs = record h { attrs = append_attrs h.attrs attrs }

  unfoldable pub with_group : YamlHandler F → String → YamlHandler F
  with_group h name = record h {
    group = if h.group == "" then name else h.group +++ ("." +++ name);
  }
