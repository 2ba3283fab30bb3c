-- ===== src/Pool/Turn.antt =====
-- What `rotate` of internal/services/github.go asks of GitHub, and where it ends.
use mathlib.Core.Path.{subst}
use scuffinger.Prelude.{
  ℕ, zero, suc, ◌+◌, ◌-◌, ◌%◌, ◌<◌, ◌≤◌, ◌≡◌, ◌⊎◌, inl, inr, refl, sym, ◌∙◌, ap, String, Bool, true,
  false, Option, none, some, List, [], ◌∷◌, map, arith, leb, length, get_elem?, leb→le,
  leb-false→lt, ltb→lt, ltb-false→le, Bool-cases, if◌then◌else◌,
}
use scuffinger.Prelude.Int.{ℤ, ◌≤ℤ◌, leb_ℤ, ltb_ℤ}
use scuffinger.Prelude.Result.{Result, ok, err}
use scuffinger.I18n.{Error}
use scuffinger.Pool.{
  ClientEntry, Limits, Api, GithubService, limit_of, active_entry, store, moved, Rest, answered,
  candidate, rotate_loop, rotate_from, rotate,
}
use scuffinger.Pool.Bounds.{Coreless, get_in_range, identity, map-set}
use scuffinger.Pool.Entries.{get_inside}
use scuffinger.Pool.Best.{Picks, rotate-Picks}
use scuffinger.Pool.Asked.{
  Lower, Asks, asked, refused, told, Ends, reached, kept, Ends-cons, Ends-better,
}

get_elem?-map {ℓ κ} :
    {A : Type ℓ} {B : Type κ} (f : A → B) (xs : List A) (i : ℕ) (x : A)
    → get_elem? xs i ≡ some x
    → get_elem? (map f xs) i ≡ some (f x)
get_elem?-map f [] i x h = absurd (ground arith)
get_elem?-map f (y ∷ xs) zero x h = ground arith
get_elem?-map f (y ∷ xs) (suc i) x h = get_elem?-map f xs i x h

length-map {ℓ κ} :
    {A : Type ℓ} {B : Type κ} (f : A → B) (xs : List A) → length (map f xs) ≡ length xs
length-map f [] = refl
length-map f (x ∷ xs) = ap suc (length-map f xs)

module _ {C W : Type 0} (api : Api C W) (ids : List (C × String)) (a : ℕ) (threshold : ℤ) where
  -- what a loop from the offset `i` on makes of a pool
  abbrev pub Turns :
      (i rounds best : ℕ) → ℤ → GithubService C W → Option (GithubService C W) → Type 0
  Turns i rounds best b s none = Coreless api
  Turns i rounds best b s (some t) =
      (map identity t.entries ≡ ids)
      × ((rs : List (Option ℤ)) × Asks api ids a i s.world rs t.world
          × Ends (limit_of threshold) a (length ids) i rounds best b rs t.active)

  record Turning (s : GithubService C W) : Type 0 where
    active : s.active ≡ a
    same : map identity s.entries ≡ ids
    limit : s.threshold ≡ threshold

  Turns-if :
      (i rounds best : ℕ) (b : ℤ) (s : GithubService C W) (c : Bool)
      (x y : Option (GithubService C W))
      → (c ≡ true → Turns i rounds best b s x)
      → (c ≡ false → Turns i rounds best b s y)
      → Turns i rounds best b s (if c then x else y)
  Turns-if i rounds best b s true x y p q = p refl
  Turns-if i rounds best b s false x y p q = q refl

  refused-Turns :
      (i rounds best : ℕ) (b : ℤ) (s : GithubService C W) (c : C) (label : String) (x : Error)
      (w : W) (o : Option (GithubService C W))
      → get_elem? ids ((a + i) % length ids) ≡ some (c, label)
      → api.rate_limit c s.world ≡ (err x, w)
      → Turns (suc i) rounds best b (moved s w) o
      → Turns i (suc rounds) best b s o
  refused-Turns i rounds best b s c label x w none g q n = n
  refused-Turns i rounds best b s c label x w (some t) g q (same, (rs, asks, ends)) = (
    same,
    (
      none ∷ rs,
      refused g q asks,
      Ends-cons (limit_of threshold) a (length ids) i rounds best t.active b none rs tt tt
          (λ r h. tt) ends,
    ),
  )

  low-Turns :
      (i rounds best : ℕ) (b : ℤ) (s u : GithubService C W) (c : C) (label : String) (l : Limits)
      (o : Option (GithubService C W))
      → get_elem? ids ((a + i) % length ids) ≡ some (c, label)
      → api.rate_limit c s.world ≡ (ok (some l), u.world)
      → Lower l.remaining (limit_of threshold)
      → l.remaining ≤ℤ b
      → Turns (suc i) rounds best b u o
      → Turns i (suc rounds) best b s o
  low-Turns i rounds best b s u c label l none g q lo am n = n
  low-Turns i rounds best b s u c label l (some t) g q lo am (same, (rs, asks, ends)) = (
    same,
    (
      some l.remaining ∷ rs,
      told g q asks,
      Ends-cons (limit_of threshold) a (length ids) i rounds best t.active b (some l.remaining) rs
          lo am (λ r h. omega arith) ends,
    ),
  )

  better-Turns :
      (i rounds best idx : ℕ) (b : ℤ) (s u : GithubService C W) (c : C) (label : String)
      (l : Limits) (o : Option (GithubService C W))
      → idx ≡ (a + i) % length ids
      → get_elem? ids ((a + i) % length ids) ≡ some (c, label)
      → api.rate_limit c s.world ≡ (ok (some l), u.world)
      → Lower l.remaining (limit_of threshold)
      → Lower b l.remaining
      → Turns (suc i) rounds idx l.remaining u o
      → Turns i (suc rounds) best b s o
  better-Turns i rounds best idx b s u c label l none x g q lo up n = n
  better-Turns i rounds best idx b s u c label l (some t) x g q lo up (same, (rs, asks, ends)) = (
    same,
    (
      some l.remaining ∷ rs,
      told g q asks,
      Ends-better (limit_of threshold) a (length ids) i rounds best idx t.active b l.remaining rs x
          lo up ends,
    ),
  )

  answered-Turns :
      (i rounds idx best : ℕ) (b : ℤ) (e : ClientEntry C) (s : GithubService C W) (rest : Rest C W)
      (r : Result Error (Option Limits) × W)
      → api.rate_limit e.client s.world ≡ r
      → idx ≡ (a + i) % length ids
      → get_elem? s.entries idx ≡ some e
      → Turning s
      → ((best' : ℕ) (b' : ℤ) (t : GithubService C W)
          → Turning t
          → Turns (suc i) rounds best' b' t (rest best' b' t))
      → Turns i (suc rounds) best b s (answered idx e best b s rest r)
  unfolding answered store
  answered-Turns i rounds idx best b e s rest (err x, w) q n g v ih =
      let known : get_elem? ids ((a + i) % length ids) ≡ some (identity e) =
        subst (λ xs. get_elem? xs ((a + i) % length ids) ≡ some (identity e)) v.same
          (subst (λ j. get_elem? (map identity s.entries) j ≡ some (identity e)) n
            (get_elem?-map identity s.entries idx e g)) in
      refused-Turns i rounds best b s e.client e.label x w (rest best b (moved s w)) known q
        (ih best b (moved s w) (record { active = v.active; same = v.same; limit = v.limit }))
  answered-Turns i rounds idx best b e s rest (ok none, w) q n g v ih =
      (e.client, s.world, ap (λ p. p.0) q)
  answered-Turns i rounds idx best b e s rest (ok (some l), w) q n g v ih =
      let t = store idx e l w s in
      let known : get_elem? ids ((a + i) % length ids) ≡ some (identity e) =
        subst (λ xs. get_elem? xs ((a + i) % length ids) ≡ some (identity e)) v.same
          (subst (λ j. get_elem? (map identity s.entries) j ≡ some (identity e)) n
            (get_elem?-map identity s.entries idx e g)) in
      let same : map identity t.entries ≡ ids = map-set s.entries idx e _ g refl ∙ v.same in
      let turning : Turning t = record { active = v.active; same = same; limit = v.limit } in
      Turns-if i (suc rounds) best b s (leb_ℤ (limit_of s.threshold) l.remaining)
        (some (record t { active = idx }))
        (if ltb_ℤ b l.remaining then rest idx l.remaining t else rest best b t)
        (λ h. (
          same,
          (
            some l.remaining ∷ [],
            told known q asked,
            reached [] l.remaining (omega arith) tt
                (subst (λ m. limit_of m ≤ℤ l.remaining) v.limit (leb→le _ _ h))
                (n ∙ ap (λ m. (a + m) % length ids) (omega arith)),
          ),
        ))
        (λ h.
          let lo : Lower l.remaining (limit_of threshold) =
            subst (λ m. Lower l.remaining (limit_of m)) v.limit (leb-false→lt _ _ h) in
          Turns-if i (suc rounds) best b s (ltb_ℤ b l.remaining) (rest idx l.remaining t)
            (rest best b t)
            (λ k.
              better-Turns i rounds best idx b s t e.client e.label l (rest idx l.remaining t) n
                known q lo (ltb→lt _ _ k) (ih idx l.remaining t turning))
            (λ k.
              low-Turns i rounds best b s t e.client e.label l (rest best b t) known q lo
                (ltb-false→le _ _ k) (ih best b t turning)))

  loop-Turns :
      (rounds i best : ℕ) (b : ℤ) (s : GithubService C W)
      → 0 < length ids
      → Turning s
      → Turns i rounds best b s (rotate_loop api rounds i best b s)
  unfolding rotate_loop candidate
  loop-Turns zero i best b s h v = (v.same, ([], asked, kept refl tt tt))
  loop-Turns (suc rounds) i best b s h v =
      let size : length s.entries ≡ length ids =
        sym (length-map identity s.entries) ∙ ap length v.same in
      let idx = (s.active + i) % length s.entries in
      let (e, g) = get_in_range s.entries idx (omega (arith, size)) in
      subst
        (λ o.
          Turns i (suc rounds) best b s
            (candidate api idx o best b s (rotate_loop api rounds (suc i))))
        (sym g)
        (answered-Turns i rounds idx best b e s (rotate_loop api rounds (suc i))
          (api.rate_limit e.client s.world) refl
          (ap (λ m. (m + i) % length s.entries) v.active ∙ ap (λ m. (a + i) % m) size) g v
          (λ best' b' t v'. loop-Turns rounds (suc i) best' b' t h v'))

module _ {C W : Type 0} (api : Api C W) where
  -- what becomes of a pool whose active entry is `e`
  abbrev pub Rotates : GithubService C W → ClientEntry C → Option (GithubService C W) → Type 0
  Rotates s e none = Coreless api
  Rotates s e (some t) =
      ((length s.entries ≡ 1) × (t ≡ s))
      ⊎ ((2 ≤ length s.entries)
          × Turns api (map identity s.entries) s.active s.threshold 1 (length s.entries - 1)
              s.active e.remaining s (some t)
          × Picks api s e.remaining (some t))

  several-Rotates :
      (s : GithubService C W) (e : ClientEntry C) (o : Option (GithubService C W))
      → 2 ≤ length s.entries
      → Turns api
          (map identity s.entries)
          s.active
          s.threshold
          1
          (length s.entries - 1)
          s.active
          e.remaining
          s
          o
      → Picks api s e.remaining o
      → Rotates s e o
  several-Rotates s e none h n p = n
  several-Rotates s e (some t) h n p = inr (h, n, p)

  several-Turns :
      (s : GithubService C W) (e : ClientEntry C)
      → active_entry s ≡ some e
      → leb (length s.entries) 1 ≡ false
      → Turns api
          (map identity s.entries)
          s.active
          s.threshold
          1
          (length s.entries - 1)
          s.active
          e.remaining
          s
          (rotate api s)
  unfolding rotate rotate_from
  several-Turns s e h p =
      let inside : 0 < length (map identity s.entries) =
        omega (arith, length-map identity s.entries, get_inside s.entries s.active e h) in
      rw p (
        subst
          (λ o.
            Turns api (map identity s.entries) s.active s.threshold 1 (length s.entries - 1)
              s.active e.remaining s (rotate_from api o s))
          (sym h)
          (loop-Turns api (map identity s.entries) s.active s.threshold (length s.entries - 1) 1
            s.active e.remaining s inside (record { active = refl; same = refl; limit = refl })))

  -- `rotate` changes nothing of a pool of one credential. Of a larger one it asks GitHub about the
  -- others in order, around its end: it stops at the first whose answer reaches the threshold and
  -- makes it active; if none does, all are asked, and the active credential stays, if no answer is
  -- above its count, or one with the highest answer follows. The credentials stay the same; the
  -- stored count of the active one then reaches the threshold, or is at least that of the one
  -- before, and no stored count that has changed is above it. Only an answer without the core
  -- limit makes `rotate` panic.
  pub rotate-Rotates :
      (s : GithubService C W) (e : ClientEntry C)
      → active_entry s ≡ some e
      → Rotates s e (rotate api s)
  unfolding rotate rotate_from
  rotate-Rotates s e h = elim (Bool-cases (leb (length s.entries) 1)) [
    | inl p ↦ rw p (inl (omega (arith, get_inside s.entries s.active e h, leb→le _ _ p), refl))
    | inr p ↦
        several-Rotates s e (rotate api s) (leb-false→lt _ _ p) (several-Turns s e h p)
          (rotate-Picks api s e h)
  ]
