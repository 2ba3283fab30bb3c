-- ===== src/Server/Debug/Rows/Where.antt =====
-- The condition of the statements of `QueryRows` of internal/server/debug.go, and their shape.
use mathlib.Core.Path.{subst}
use scuffinger.Prelude.{
  ℕ, zero, suc, ◌+◌, ◌≡◌, refl, sym, ◌⊎◌, inl, inr, String, string_eq, Bool, eq_iff, not, ◌&&◌,
  Option, none, some, List, [], ◌∷◌, ◌++◌, map, ◌==◌, if◌then◌else◌, ◌+++◌, join, All, All-append,
  get_elem?, Bool-cases,
}
use scuffinger.Prelude.Int.{ℤ, pos, ◌≤ℤ◌}
use scuffinger.Server.Debug.Ident.{pg_quote_ident}
use scuffinger.Server.Debug.Query.{
  RowsRequest, ColMeta, Std, Conditions, default_query, search_text, bound_text, non_empty, filters,
  ts_target, names_of, is_text, is_timestamp, from_time, to_time, where_text, first_fold, first_of,
  like, moment,
}
use scuffinger.Server.Debug.Filters.{
  Filter, Numbered, numbered, wanted, when_some, filters-Numbered, Sorts,
}
use scuffinger.Server.Debug.Rows.{decimal_ℤ}

-- the name of a column of the table
abbrev pub Column : List ColMeta → String → Type 0
Column cols name = (i : ℕ) × (col : ColMeta) × (get_elem? cols i ≡ some col) × (col.name ≡ name)

-- A condition compares columns of the table, quoted, with a placeholder.
abbrev pub Condition : List ColMeta → String → Type 0
Condition cols c =
    ((names : List String) × (n : ℕ) × (c ≡ search_text names n) × All (Column cols) names)
    ⊎ ((name : String) × (op : String) × (n : ℕ) × (c ≡ bound_text name op n)
        × (Column cols name)
        × ((op ≡ " >= ") ⊎ (op ≡ " <= ")))

abbrev pub IsWhere : List ColMeta → String → Type 0
IsWhere cols t =
    (t ≡ "") ⊎ ((cs : List String) × All (Condition cols) cs × (t ≡ " WHERE " +++ join " AND " cs))

abbrev pub table_of : RowsRequest → String
table_of r = pg_quote_ident (default_query "public" r.schema) +++ ("." +++ pg_quote_ident r.table)

-- `SELECT COUNT(*)` of the quoted table under such conditions
abbrev pub IsCount : RowsRequest → List ColMeta → String → Type 0
IsCount r cols q =
    (t : String) × IsWhere cols t × (q ≡ "SELECT COUNT(*) FROM " +++ (table_of r +++ t))

module _ (std : Std) where
  -- the rows of it, sorted by its first column or by a quoted one, in a bounded window
  abbrev pub IsData : RowsRequest → List ColMeta → String → Type 0
  IsData r cols q =
      (t : String) × (sort : String) × (order : String) × (limit : ℤ) × (offset : ℤ) × IsWhere cols
        t
      × Sorts std cols sort
      × ((order ≡ "ASC") ⊎ (order ≡ "DESC"))
      × (pos 1 ≤ℤ limit)
      × (limit ≤ℤ pos 500)
      × (pos 0 ≤ℤ offset)
      × (offset ≤ℤ pos 1_000_000)
      × (q
          ≡ "SELECT * FROM "
            +++ (table_of r
                +++ (t
                    +++ (" ORDER BY "
                        +++ (sort
                            +++ (" "
                                +++ (order
                                    +++ (" LIMIT "
                                        +++ (decimal_ℤ limit
                                            +++ (" OFFSET " +++ decimal_ℤ offset))))))))))

  abbrev pub IsSafe : RowsRequest → List ColMeta → String → Type 0
  IsSafe r cols q = IsCount r cols q ⊎ IsData r cols q

Column-cons : (c : ColMeta) (cols : List ColMeta) (n : String) → Column cols n → Column (c ∷ cols) n
Column-cons c cols n (i, col, g, e) = (suc i, col, g, e)

All-map_into {ℓ κ} :
    {A : Type ℓ} {P Q : A → Type κ} → ((a : A) → P a → Q a) → (xs : List A) → All P xs → All Q xs
All-map_into f [] h = tt
All-map_into f (x ∷ xs) (p, h) = (f x p, All-map_into f xs h)

module _ (std : Std) where
  names_of-Column :
      (p : ColMeta → Bool) (cols : List ColMeta) → All (Column cols) (names_of std p cols)
  unfolding names_of
  names_of-Column p [] = tt
  names_of-Column p (c ∷ cols) =
      let rest = All-map_into (Column-cons c cols) (names_of std p cols) (names_of-Column p cols) in
      elim (Bool-cases (p c)) [ inl h ↦ rw h ((zero, c, refl, refl), rest) | inr h ↦ rw h rest ]

  first_fold-All :
      (P : String → Type 0) (s : String) (ns : List String)
      → All P ns
      → (first_fold std s ns ≡ "") ⊎ P (first_fold std s ns)
  unfolding first_fold
  first_fold-All P s [] h = inl refl
  first_fold-All P s (n ∷ ns) (p, h) = elim (Bool-cases (std.equal_fold n s)) [
    | inl e ↦ rw e (inr p)
    | inr e ↦ rw e (first_fold-All P s ns h)
  ]

  first_of-All :
      (P : String → Type 0) (ns : List String)
      → All P ns
      → (first_of std ns ≡ "") ⊎ P (first_of std ns)
  unfolding first_of
  first_of-All P [] h = inl refl
  first_of-All P (n ∷ ns) (p, h) = inr p

  or_first-All :
      (P : String → Type 0) (found : String) (ns : List String)
      → All P ns
      → (found ≡ "") ⊎ P found
      → ((if found == "" then first_of std ns else found) ≡ "")
        ⊎ P (if found == "" then first_of std ns else found)
  or_first-All P found ns h f = elim (Bool-cases (found == "")) [
    | inl e ↦ rw e (first_of-All P ns h)
    | inr e ↦ rw e f
  ]

  ts_target-All :
      (P : String → Type 0) (s : String) (ns : List String)
      → All P ns
      → (ts_target std s ns ≡ "") ⊎ P (ts_target std s ns)
  unfolding ts_target
  ts_target-All P s ns h = elim (Bool-cases (s == "")) [
    | inl e ↦ rw e (or_first-All P "" ns h (inl refl))
    | inr e ↦ rw e (or_first-All P (first_fold std s ns) ns h (first_fold-All P s ns h))
  ]

-- a filter whose text is a condition under any placeholder
abbrev Conditional : List ColMeta → Filter → Type 0
Conditional cols f = (n : ℕ) → Condition cols (f.0 n)

numbered-All :
    (cols : List ColMeta) (n : ℕ) (fs : List Filter)
    → All (Conditional cols) fs
    → All (Condition cols) (numbered n (map (λ (f : Filter). f.0) fs))
unfolding numbered
numbered-All cols n [] h = tt
numbered-All cols n (f ∷ fs) (p, h) = (p n, numbered-All cols (n + 1) fs h)

when_some-All :
    (cols : List ColMeta) (o : Option ℤ) (name op : String)
    → Column cols name
    → (op ≡ " >= ") ⊎ (op ≡ " <= ")
    → All (Conditional cols) (when_some o (λ t. (bound_text name op, moment t)))
when_some-All cols none name op c k = tt
when_some-All cols (some t) name op c k = (λ n. inr (name, op, n, refl, c, k), tt)

module _ (std : Std) (r : RowsRequest) (cols : List ColMeta) where
  search-All : All (Conditional cols) (
      if not (r.q == "") && non_empty (names_of std (is_text std) cols)
      then (search_text (names_of std (is_text std) cols), like ("%" +++ (r.q +++ "%"))) ∷ []
      else [])
  search-All = elim (Bool-cases (not (r.q == "") && non_empty (names_of std (is_text std) cols))) [
    | inl h ↦ rw h (λ n. inl (_, n, refl, names_of-Column std (is_text std) cols), tt)
    | inr h ↦ rw h tt
  ]

  bounds-All :
      (target : String)
      → (target ≡ "") ⊎ Column cols target
      → All (Conditional cols) (
          if target == ""
          then []
          else when_some (from_time std r.from_str) (λ t. (bound_text target " >= ", moment t))
            ++ when_some (to_time std r.to_str) (λ t. (bound_text target " <= ", moment t)))
  bounds-All target (inl e) = rw ((eq_iff target "").1 e) tt
  bounds-All target (inr c) = elim (Bool-cases (target == "")) [
    | inl h ↦ rw h tt
    | inr h ↦ rw h (
        All-append (Conditional cols) _ _
          (when_some-All cols (from_time std r.from_str) target " >= " c (inl refl))
          (when_some-All cols (to_time std r.to_str) target " <= " c (inr refl)))
  ]

  wanted-All : All (Conditional cols) (wanted std r cols)
  unfolding wanted
  wanted-All = All-append (Conditional cols) _ _ search-All (
      bounds-All (ts_target std r.date_col (names_of std (is_timestamp std) cols)) (
        ts_target-All std (Column cols) r.date_col (names_of std (is_timestamp std) cols)
          (names_of-Column std (is_timestamp std) cols)))

  conditions-All : All (Condition cols) (filters std r cols).conditions
  unfolding Numbered
  conditions-All =
      subst (All (Condition cols)) (sym (filters-Numbered std r cols).0)
        (numbered-All cols 1 (wanted std r cols) wanted-All)

  where_text-IsWhere :
      (c : Conditions) → All (Condition cols) c.conditions → IsWhere cols (where_text std c)
  unfolding where_text
  where_text-IsWhere c h = elim (Bool-cases (non_empty c.conditions)) [
    | inl e ↦ rw e (inr (c.conditions, h, refl))
    | inr e ↦ rw e (inl refl)
  ]

  pub filters-IsWhere : IsWhere cols (where_text std (filters std r cols))
  filters-IsWhere = where_text-IsWhere (filters std r cols) conditions-All
