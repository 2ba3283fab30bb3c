-- ===== src/Pool/Bounds.antt =====
-- The active index stays in range, so no operation of internal/services/github.go panics if the
-- answers of GitHub have their core limit, and the credentials stay the same.
use scuffinger.Prelude.{
  sym, ℕ, zero, suc, ◌+◌, ◌-◌, ◌%◌, ◌<◌, ◌≡◌, ◌≢◌, refl, ◌∙◌, String, Bool, true, false, Option,
  none, some, List, [], ◌∷◌, map, arith, leb, length, get_elem?, set, if◌then◌else◌,
}
use mathlib.Core.Path.{subst}
use scuffinger.Prelude.Int.{ℤ, leb_ℤ, ltb_ℤ}
use scuffinger.Prelude.Result.{Result, ok, err}
use scuffinger.I18n.{Error}
use scuffinger.Pool.{
  ClientEntry, Limits, Api, GithubService, limit_of, active_entry, store, moved, Rest, answered,
  candidate, rotate_loop, rotate_from, rotate, update,
}

pub get_in_range {ℓ} :
    {A : Type ℓ} (xs : List A) (i : ℕ) → i < length xs → (x : A) × (get_elem? xs i ≡ some x)
get_in_range [] i h = elim h [ ]
get_in_range (x ∷ xs) zero h = (x, refl)
get_in_range (x ∷ xs) (suc i) h = get_in_range xs i (omega arith)

module _ {C : Type 0} where
  -- what names a credential
  abbrev pub identity : ClientEntry C → C × String
  identity e = (e.client, e.label)

  pub length-set :
      (es : List (ClientEntry C)) (i : ℕ) (e : ClientEntry C) → length (set es i e) ≡ length es
  length-set [] i e = refl
  length-set (x ∷ es) zero e = refl
  length-set (x ∷ es) (suc i) e = ground (arith, length-set es i e)

  pub map-set :
      (es : List (ClientEntry C)) (i : ℕ) (e e' : ClientEntry C)
      → get_elem? es i ≡ some e
      → identity e' ≡ identity e
      → map identity (set es i e') ≡ map identity es
  map-set [] i e e' g h = refl
  map-set (x ∷ es) zero e e' g h = ground arith
  map-set (x ∷ es) (suc i) e e' g h = ground (arith, map-set es i e e' g h)

module _ {C W : Type 0} where
  -- The same credentials in the same order, with the active index in range.
  pub record Follows (s t : GithubService C W) : Type 0 where
    pub in_range : t.active < length t.entries
    pub same : map identity t.entries ≡ map identity s.entries
    pub size : length t.entries ≡ length s.entries
    pub limit : t.threshold ≡ s.threshold

  pub Follows-trans : {a b c : GithubService C W} → Follows a b → Follows b c → Follows a c
  Follows-trans p q = record {
    in_range = q.in_range;
    same = q.same ∙ p.same;
    size = q.size ∙ p.size;
    limit = q.limit ∙ p.limit;
  }

  store-Follows :
      (i : ℕ) (e : ClientEntry C) (l : Limits) (w : W) (s : GithubService C W)
      → get_elem? s.entries i ≡ some e
      → s.active < length s.entries
      → Follows s (store i e l w s)
  unfolding store
  store-Follows i e l w s g h = record {
    in_range =
        omega (
          arith,
          length-set s.entries i (record e { remaining = l.remaining; reset_at = l.reset }),
        );
    same = map-set s.entries i e _ g refl;
    size = length-set s.entries i _;
    limit = refl;
  }

-- What GitHub documents of its rate limits: the core limit is among them.
pub record CoreLaws {C W : Type 0} (api : Api C W) : Type 0 where
  pub core : (c : C) (w : W) → (api.rate_limit c w).0 ≢ ok none

module _ {C W : Type 0} (api : Api C W) where
  -- some answer of GitHub is no error and has no core limit
  abbrev pub Coreless : Type 0
  Coreless = (c : C) × (w : W) × ((api.rate_limit c w).0 ≡ ok none)

  abbrev pub Lands : GithubService C W → Option (GithubService C W) → Type 0
  Lands s none = Coreless
  Lands s (some t) = Follows s t

  pub Lands-trans :
      {a b : GithubService C W} (c : Option (GithubService C W))
      → Follows a b
      → Lands b c
      → Lands a c
  Lands-trans none p l = l
  Lands-trans (some c) p q = Follows-trans p q

  Lands-if :
      (s : GithubService C W) (b : Bool) (x y : Option (GithubService C W))
      → Lands s x
      → Lands s y
      → Lands s (if b then x else y)
  Lands-if s true x y p q = p
  Lands-if s false x y p q = q

  answered-Lands :
      (idx : ℕ) (e : ClientEntry C) (best : ℕ) (b : ℤ) (s : GithubService C W) (rest : Rest C W)
      (r : Result Error (Option Limits) × W)
      → (r.0 ≡ ok none → Coreless)
      → get_elem? s.entries idx ≡ some e
      → idx < length s.entries
      → s.active < length s.entries
      → best < length s.entries
      → ((best' : ℕ) (b' : ℤ) (t : GithubService C W)
          → t.active < length t.entries
          → best' < length t.entries
          → Lands t (rest best' b' t))
      → Lands s (answered idx e best b s rest r)
  unfolding answered store
  answered-Lands idx e best b s rest (err x, w) nc g hi ha hb ih =
      Lands-trans (rest best b (moved s w))
        (record { in_range = ha; same = refl; size = refl; limit = refl })
        (ih best b (moved s w) ha hb)
  answered-Lands idx e best b s rest (ok none, w) nc g hi ha hb ih = nc refl
  answered-Lands idx e best b s rest (ok (some l), w) nc g hi ha hb ih =
      let f = store-Follows idx e l w s g ha in
      let hi' : idx
          < length (set s.entries idx (record e { remaining = l.remaining; reset_at = l.reset })) =
        omega (
          arith,
          length-set s.entries idx (record e { remaining = l.remaining; reset_at = l.reset }),
        ) in
      let hb' : best
          < length (set s.entries idx (record e { remaining = l.remaining; reset_at = l.reset })) =
        omega (
          arith,
          length-set s.entries idx (record e { remaining = l.remaining; reset_at = l.reset }),
        ) in
      Lands-if s (leb_ℤ (limit_of s.threshold) l.remaining)
        (some (record (store idx e l w s) { active = idx }))
        (if ltb_ℤ b l.remaining
          then rest idx l.remaining (store idx e l w s)
          else rest best b (store idx e l w s))
        (record { in_range = hi'; same = f.same; size = f.size; limit = refl })
        (Lands-if s (ltb_ℤ b l.remaining) (rest idx l.remaining (store idx e l w s))
          (rest best b (store idx e l w s))
          (Lands-trans (rest idx l.remaining (store idx e l w s)) f
            (ih idx l.remaining (store idx e l w s) f.in_range hi'))
          (Lands-trans (rest best b (store idx e l w s)) f
            (ih best b (store idx e l w s) f.in_range hb')))

  candidate-Lands :
      (idx : ℕ) (best : ℕ) (b : ℤ) (s : GithubService C W) (rest : Rest C W)
      → idx < length s.entries
      → s.active < length s.entries
      → best < length s.entries
      → ((best' : ℕ) (b' : ℤ) (t : GithubService C W)
          → t.active < length t.entries
          → best' < length t.entries
          → Lands t (rest best' b' t))
      → Lands s (candidate api idx (get_elem? s.entries idx) best b s rest)
  unfolding candidate
  candidate-Lands idx best b s rest hi ha hb ih =
      let (e, g) = get_in_range s.entries idx hi in
      subst (λ o. Lands s (candidate api idx o best b s rest)) (sym g)
        (answered-Lands idx e best b s rest (api.rate_limit e.client s.world)
          (λ q. (e.client, s.world, q)) g hi ha hb ih)

  rotate_loop-Lands :
      (rounds i best : ℕ) (b : ℤ) (s : GithubService C W)
      → s.active < length s.entries
      → best < length s.entries
      → Lands s (rotate_loop api rounds i best b s)
  unfolding rotate_loop
  rotate_loop-Lands zero i best b s ha hb = record {
    in_range = hb;
    same = refl;
    size = refl;
    limit = refl;
  }
  rotate_loop-Lands (suc rounds) i best b s ha hb =
      candidate-Lands ((s.active + i) % length s.entries) best b s (rotate_loop api rounds (suc i))
        (omega arith) ha hb
        (λ best' b' t ha' hb'. rotate_loop-Lands rounds (suc i) best' b' t ha' hb')

  -- From a pool whose active index is in range, `rotate` returns, unless an answer has no core
  -- limit, with the active index in range of the same credentials in the same order and the same
  -- threshold.
  pub rotate-Lands : (s : GithubService C W) → s.active < length s.entries → Lands s (rotate api s)
  unfolding rotate rotate_from
  rotate-Lands s h =
      let (e, g) = get_in_range s.entries s.active h in
      Lands-if s (leb (length s.entries) 1) (some s) (rotate_from api (active_entry s) s)
        (record { in_range = h; same = refl; size = refl; limit = refl })
        (subst (λ o. Lands s (rotate_from api o s)) (sym g)
          (rotate_loop-Lands (length s.entries - 1) 1 s.active e.remaining s h h))

  pub update-Lands :
      (e : ClientEntry C) (l : Limits) (w : W) (s : GithubService C W)
      → get_elem? s.entries s.active ≡ some e
      → s.active < length s.entries
      → Lands s (update api e l w s)
  unfolding update
  update-Lands e l w s g h =
      let f = store-Follows s.active e l w s g h in
      Lands-if s (ltb_ℤ l.remaining (limit_of s.threshold)) (rotate api (store s.active e l w s))
        (some (store s.active e l w s))
        (Lands-trans (rotate api (store s.active e l w s)) f
          (rotate-Lands (store s.active e l w s) f.in_range))
        f
