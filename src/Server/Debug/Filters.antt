-- ===== src/Server/Debug/Filters.antt =====
-- The SQL that `QueryRows` of internal/server/debug.go builds: its placeholders are numbered like
-- its arguments, and what stands outside them comes from the table's own columns.
use mathlib.Core.Path.{subst}
use mathlib.Core.List.{append_assoc, append-nil}
use scuffinger.Prelude.{
  ℕ, zero, suc, ◌+◌, ◌≡◌, refl, sym, ap, ◌∙◌, ◌⊎◌, inl, inr, String, string_eq, eq_iff, not, ◌&&◌,
  Option, none, some, List, [], ◌∷◌, ◌++◌, map, ◌==◌, if◌then◌else◌, ◌+++◌, arith, length,
  length-append, get_elem?, Bool-cases,
}
use scuffinger.Prelude.Int.{ℤ}
use scuffinger.Server.Debug.Ident.{pg_quote_ident}
use scuffinger.Server.Debug.Query.{
  RowsRequest, ColMeta, Std, Arg, like, moment, Conditions, no_conditions, add_condition,
  search_text, bound_text, non_empty, search_filter, timed, date_filter, filters, ts_target,
  names_of, is_text, is_timestamp, from_time, to_time, sort_expr, sort_found, order_of,
  default_query,
}

-- texts for the placeholders from `n` on
unfoldable pub numbered : ℕ → List (ℕ → String) → List String
numbered n [] = []
numbered n (f ∷ fs) = f n ∷ numbered (n + 1) fs

-- A filter is a text that waits for its placeholder, and its argument.
abbrev pub Filter : Type 0
Filter = (ℕ → String) × Arg

abbrev pub when_some : Option ℤ → (ℤ → Filter) → List Filter
when_some none f = []
when_some (some t) f = f t ∷ []

module _ (std : Std) where
  -- the filters that a request asks of a table
  unfoldable pub wanted : RowsRequest → List ColMeta → List Filter
  wanted r cols =
      let text_cols = names_of std (is_text std) cols in
      let target = ts_target std r.date_col (names_of std (is_timestamp std) cols) in
      (if not (r.q == "") && non_empty text_cols
        then (search_text text_cols, like ("%" +++ (r.q +++ "%"))) ∷ []
        else [])
      ++ (if target == ""
          then []
          else when_some (from_time std r.from_str) (λ t. (bound_text target " >= ", moment t))
            ++ when_some (to_time std r.to_str) (λ t. (bound_text target " <= ", moment t)))

-- the conditions are those filters, numbered from 1, and the arguments theirs
unfoldable pub Numbered : Conditions → List Filter → Type 0
unfolding numbered
Numbered c fs =
    (c.conditions ≡ numbered 1 (map (λ (f : Filter). f.0) fs))
    × (c.args ≡ map (λ (f : Filter). f.1) fs)
    × (c.arg_n ≡ 1 + length fs)

numbered-append :
    (n : ℕ) (fs : List Filter) (f : ℕ → String) (a : Arg)
    → numbered n (map (λ (f : Filter). f.0) (fs ++ ((f, a) ∷ [])))
      ≡ numbered n (map (λ (f : Filter). f.0) fs) ++ (f (n + length fs) ∷ [])
unfolding numbered
numbered-append n [] f a = ap (λ m. f m ∷ []) (omega arith)
numbered-append n (g ∷ fs) f a = ap (◌∷◌ (g.0 n)) (
    numbered-append (n + 1) fs f a
    ∙ ap (λ m. numbered (n + 1) (map (λ (h : Filter). h.0) fs) ++ (f m ∷ [])) (omega arith))

map-append_one {ℓ} :
    {B : Type ℓ} (f : Filter → B) (fs : List Filter) (a : Filter)
    → map f (fs ++ (a ∷ [])) ≡ map f fs ++ (f a ∷ [])
map-append_one f [] a = refl
map-append_one f (g ∷ fs) a = ap (◌∷◌ (f g)) (map-append_one f fs a)

add_condition-Numbered :
    (c : Conditions) (fs : List Filter) (f : ℕ → String) (a : Arg)
    → Numbered c fs
    → Numbered (add_condition f a c) (fs ++ ((f, a) ∷ []))
unfolding Numbered add_condition
add_condition-Numbered c fs f a (p, q, r) = (
  ap (λ xs. xs ++ (f c.arg_n ∷ [])) p
      ∙ ap (λ m. numbered 1 (map (λ (h : Filter). h.0) fs) ++ (f m ∷ [])) r
      ∙ sym (numbered-append 1 fs f a),
  ap (λ xs. xs ++ (a ∷ [])) q ∙ sym (map-append_one (λ (h : Filter). h.1) fs (f, a)),
  omega (arith, r, length-append fs ((f, a) ∷ [])),
)

timed-Numbered :
    (c : Conditions) (fs : List Filter) (col op : String) (t : Option ℤ)
    → Numbered c fs
    → Numbered (timed col op t c) (fs ++ when_some t (λ u. (bound_text col op, moment u)))
unfolding timed
timed-Numbered c fs col op none n = subst (Numbered c) (sym (append-nil fs)) n
timed-Numbered c fs col op (some t) n = add_condition-Numbered c fs (bound_text col op) (moment t) n

search_filter-Numbered :
    (q : String) (cols : List String)
    → Numbered (search_filter q cols no_conditions) (
        if not (q == "") && non_empty cols
        then (search_text cols, like ("%" +++ (q +++ "%"))) ∷ []
        else [])
unfolding search_filter Numbered numbered
search_filter-Numbered q cols = elim (Bool-cases (not (q == "") && non_empty cols)) [
  | inl h ↦ rw h (
      add_condition-Numbered no_conditions [] (search_text cols) (like ("%" +++ (q +++ "%")))
        (refl, refl, refl))
  | inr h ↦ rw h (refl, refl, refl)
]

module _ (std : Std) where
  date_filter-Numbered :
      (target : String) (r : RowsRequest) (c : Conditions) (fs : List Filter)
      → Numbered c fs
      → Numbered (date_filter std target r c) (
          fs
          ++ (if target == ""
              then []
              else when_some (from_time std r.from_str) (λ t. (bound_text target " >= ", moment t))
                ++ when_some (to_time std r.to_str) (λ t. (bound_text target " <= ", moment t))))
  unfolding date_filter
  date_filter-Numbered target r c fs n = elim (Bool-cases (target == "")) [
    | inl h ↦ rw h (subst (Numbered c) (sym (append-nil fs)) n)
    | inr h ↦ rw h (
        subst
          (Numbered (
            timed target " <= " (to_time std r.to_str)
              (timed target " >= " (from_time std r.from_str) c)))
          (append_assoc fs _ _)
          (timed-Numbered _ _ target " <= " (to_time std r.to_str)
            (timed-Numbered c fs target " >= " (from_time std r.from_str) n)))
  ]

  -- The conditions of `QueryRows` are the filters that the request asks of the table, in the order
  -- search, lower bound, upper bound; the placeholders are numbered from $1 without a gap, and the
  -- arguments are those of the filters in the same order.
  pub filters-Numbered :
      (r : RowsRequest) (cols : List ColMeta) → Numbered (filters std r cols) (wanted std r cols)
  unfolding filters wanted
  filters-Numbered r cols =
      date_filter-Numbered (ts_target std r.date_col (names_of std (is_timestamp std) cols)) r _ _
        (search_filter-Numbered r.q (names_of std (is_text std) cols))

  -- an expression that sorts by the first column or by one of the table's columns
  abbrev pub Sorts : List ColMeta → String → Type 0
  Sorts cols e =
      (e ≡ "1")
      ⊎ ((i : ℕ) × (col : ColMeta) × (get_elem? cols i ≡ some col) × (e ≡ pg_quote_ident col.name))

  Sorts-cons :
      (col : ColMeta) (cols : List ColMeta) (e : String) → Sorts cols e → Sorts (col ∷ cols) e
  Sorts-cons col cols e (inl h) = inl h
  Sorts-cons col cols e (inr (i, c, g, h)) = inr (suc i, c, g, h)

  sort_found-Sorts : (s : String) (cols : List ColMeta) → Sorts cols (sort_found std s cols)
  unfolding sort_found
  sort_found-Sorts s [] = inl refl
  sort_found-Sorts s (col ∷ cols) = elim (Bool-cases (std.equal_fold col.name s)) [
    | inl h ↦ rw h (inr (zero, col, refl, refl))
    | inr h ↦ rw h (Sorts-cons col cols _ (sort_found-Sorts s cols))
  ]

  pub sort_expr-Sorts : (s : String) (cols : List ColMeta) → Sorts cols (sort_expr std s cols)
  unfolding sort_expr
  sort_expr-Sorts s cols = elim (Bool-cases (s == "")) [
    | inl h ↦ rw h (inl refl)
    | inr h ↦ rw h (sort_found-Sorts s cols)
  ]

  pub order_of-known : (o : Option String) → (order_of std o ≡ "ASC") ⊎ (order_of std o ≡ "DESC")
  unfolding order_of
  order_of-known o =
      let order = std.to_upper (default_query "asc" o) in
      elim (Bool-cases (order == "ASC")) [
        | inl h ↦ inl (ground (arith, eq_iff order "ASC"))
        | inr h ↦ elim (Bool-cases (order == "DESC")) [
          | inl k ↦ inr (ground (arith, eq_iff order "DESC"))
          | inr k ↦ inl (ground arith)
        ]
      ]
