-- ===== src/Pool/Best.antt =====
-- Where `rotate` of internal/services/github.go ends.
use native.Mathlib.Nat.{mod-eq_of_lt}
use mathlib.Core.Path.{subst}
use scuffinger.Prelude.{
  ℕ, zero, suc, ◌+◌, ◌-◌, ◌%◌, ◌<◌, ◌≡◌, ◌≢◌, ◌⊎◌, inl, inr, refl, sym, ◌∙◌, ap, Bool, true, false,
  Option, none, some, List, arith, leb, length, get_elem?, nat_eq, leb→le, ltb→lt, ltb-false→le,
  Bool-cases, if◌then◌else◌,
}
use scuffinger.Prelude.Int.{ℤ, ◌≤ℤ◌, leb_ℤ, ltb_ℤ}
use scuffinger.Prelude.Result.{Result, ok, err}
use scuffinger.I18n.{Error}
use scuffinger.Pool.{
  ClientEntry, Limits, Api, GithubService, limit_of, active_entry, store, moved, Rest, answered,
  candidate, rotate_loop, rotate_from, rotate,
}
use scuffinger.Pool.Bounds.{Coreless, get_in_range}
use scuffinger.Pool.Entries.{
  offsets_differ, get_inside, refreshed, get-store, get-store_same, get-store_other, length-store,
}

module _ {C W : Type 0} (api : Api C W) (s0 : GithubService C W) (old : ℤ) where
  -- the count of an entry is at most `r`
  abbrev pub Below : ℤ → Option (ClientEntry C) → Type 0
  Below r none = Unit
  Below r (some e) = e.remaining ≤ℤ r

  -- each entry is as it was, or its count is at most `r`
  abbrev pub Beaten : ℤ → List (ClientEntry C) → Type 0
  Beaten r es = (j : ℕ) → (get_elem? es j ≡ get_elem? s0.entries j) ⊎ Below r (get_elem? es j)

  -- the active entry has enough headroom, or no count that the rotation has seen beats its own
  abbrev pub Picks : Option (GithubService C W) → Type 0
  Picks none = Coreless api
  Picks (some t) =
      (e : ClientEntry C) × (get_elem? t.entries t.active ≡ some e)
      × ((limit_of s0.threshold ≤ℤ e.remaining)
          ⊎ ((old ≤ℤ e.remaining) × Beaten e.remaining t.entries))

  Below-weaken : (r r' : ℤ) (o : Option (ClientEntry C)) → r ≤ℤ r' → Below r o → Below r' o
  Below-weaken r r' none h b = tt
  Below-weaken r r' (some e) h b = omega arith

  -- the loop at the offset `i`
  record Sweeps (s : GithubService C W) (i best : ℕ) (b : ℤ) : Type 0 where
    active : s.active ≡ s0.active
    limit : s.threshold ≡ s0.threshold
    size : length s.entries ≡ length s0.entries
    inside : s0.active < length s0.entries
    offset : (k : ℕ) × (k < i) × (best ≡ (s0.active + k) % length s0.entries)
    best_entry : (e : ClientEntry C) × (get_elem? s.entries best ≡ some e) × (e.remaining ≡ b)
    beaten : Beaten b s.entries
    above : old ≤ℤ b

  Picks-if :
      (c : Bool) (x y : Option (GithubService C W))
      → (c ≡ true → Picks x)
      → (c ≡ false → Picks y)
      → Picks (if c then x else y)
  Picks-if true x y p q = p refl
  Picks-if false x y p q = q refl

  Beaten-store :
      (s : GithubService C W) (idx : ℕ) (e : ClientEntry C) (l : Limits) (w : W) (b b' : ℤ)
      → idx < length s.entries
      → l.remaining ≤ℤ b'
      → b ≤ℤ b'
      → Beaten b s.entries
      → Beaten b' (store idx e l w s).entries
  Beaten-store s idx e l w b b' hi hl hb h j = elim (Bool-cases (nat_eq idx j)) [
    | inl p ↦ rw (get-store idx e l w s j hi) (rw p (inr hl))
    | inr p ↦ rw (get-store idx e l w s j hi) (
        rw p (elim (h j) [
          | inl q ↦ inl q
          | inr q ↦ inr (Below-weaken b b' (get_elem? s.entries j) hb q)
        ]))
  ]

  -- the loop goes on from an answer that does not end it
  Sweeps-store :
      (s : GithubService C W) (i best idx : ℕ) (e : ClientEntry C) (l : Limits) (w : W) (b : ℤ)
      → idx ≡ (s0.active + i) % length s0.entries
      → i < length s0.entries
      → idx < length s.entries
      → l.remaining ≤ℤ b
      → Sweeps s i best b
      → Sweeps (store idx e l w s) (suc i) best b
  Sweeps-store s i best idx e l w b q hi hx hl v =
      let apart : idx ≢ best = λ x.
        offsets_differ s0.active (length s0.entries) v.offset.0 i v.inside v.offset.1 hi
          (sym v.offset.2 ∙ sym x ∙ q) in
      record {
        active = unfold store in v.active;
        limit = unfold store in v.limit;
        size = length-store idx e l w s ∙ v.size;
        inside = v.inside;
        offset = (v.offset.0, omega (arith, v.offset.1), v.offset.2);
        best_entry = (
          v.best_entry.0,
          get-store_other idx e l w s best hx apart ∙ v.best_entry.1,
          v.best_entry.2,
        );
        beaten = Beaten-store s idx e l w b b hx hl (omega arith) v.beaten;
        above = v.above;
      }

  Sweeps-better :
      (s : GithubService C W) (i best idx : ℕ) (e : ClientEntry C) (l : Limits) (w : W) (b : ℤ)
      → idx ≡ (s0.active + i) % length s0.entries
      → idx < length s.entries
      → b ≤ℤ l.remaining
      → Sweeps s i best b
      → Sweeps (store idx e l w s) (suc i) idx l.remaining
  Sweeps-better s i best idx e l w b q hx hl v = record {
    active = unfold store in v.active;
    limit = unfold store in v.limit;
    size = length-store idx e l w s ∙ v.size;
    inside = v.inside;
    offset = (i, omega arith, q);
    best_entry = (refreshed e l, get-store_same idx e l w s hx, refl);
    beaten = Beaten-store s idx e l w b l.remaining hx (omega arith) hl v.beaten;
    above = omega (arith, v.above);
  }

  answered-Picks :
      (i idx : ℕ) (e : ClientEntry C) (best : ℕ) (b : ℤ) (s : GithubService C W) (rest : Rest C W)
      (r : Result Error (Option Limits) × W)
      → (r.0 ≡ ok none → Coreless api)
      → idx ≡ (s0.active + i) % length s0.entries
      → i < length s0.entries
      → idx < length s.entries
      → Sweeps s i best b
      → ((best' : ℕ) (b' : ℤ) (t : GithubService C W)
          → Sweeps t (suc i) best' b'
          → Picks (rest best' b' t))
      → Picks (answered idx e best b s rest r)
  unfolding answered
  answered-Picks i idx e best b s rest (err x, w) nc q hi hx v ih = ih best b (moved s w) (record {
    active = v.active;
    limit = v.limit;
    size = v.size;
    inside = v.inside;
    offset = (v.offset.0, omega (arith, v.offset.1), v.offset.2);
    best_entry = v.best_entry;
    beaten = v.beaten;
    above = v.above;
  })
  answered-Picks i idx e best b s rest (ok none, w) nc q hi hx v ih = nc refl
  answered-Picks i idx e best b s rest (ok (some l), w) nc q hi hx v ih =
      let t = store idx e l w s in
      Picks-if (leb_ℤ (limit_of s.threshold) l.remaining) (some (record t { active = idx }))
        (if ltb_ℤ b l.remaining then rest idx l.remaining t else rest best b t)
        (λ h. (
          refreshed e l,
          get-store_same idx e l w s hx,
          inl (subst (λ m. limit_of m ≤ℤ l.remaining) v.limit (leb→le _ _ h)),
        ))
        (λ h.
          Picks-if (ltb_ℤ b l.remaining) (rest idx l.remaining t) (rest best b t)
            (λ k.
              ih idx l.remaining t
                (Sweeps-better s i best idx e l w b q hx (omega (arith, ltb→lt _ _ k)) v))
            (λ k. ih best b t (Sweeps-store s i best idx e l w b q hi hx (ltb-false→le _ _ k) v)))

  rotate_loop-Picks :
      (rounds i best : ℕ) (b : ℤ) (s : GithubService C W)
      → i + rounds ≡ length s0.entries
      → Sweeps s i best b
      → Picks (rotate_loop api rounds i best b s)
  unfolding rotate_loop candidate
  rotate_loop-Picks zero i best b s n v = (
    v.best_entry.0,
    v.best_entry.1,
    inr (
      subst (λ r. old ≤ℤ r) (sym v.best_entry.2) v.above,
      subst (λ r. Beaten r s.entries) (sym v.best_entry.2) v.beaten,
    ),
  )
  rotate_loop-Picks (suc rounds) i best b s n v =
      let idx = (s.active + i) % length s.entries in
      let hx : idx < length s.entries = omega (arith, v.size, v.inside) in
      let (e, g) = get_in_range s.entries idx hx in
      subst (λ o. Picks (candidate api idx o best b s (rotate_loop api rounds (suc i)))) (sym g)
        (answered-Picks i idx e best b s (rotate_loop api rounds (suc i))
          (api.rate_limit e.client s.world) (λ q. (e.client, s.world, q))
          (ap (λ m. (m + i) % length s.entries) v.active ∙ ap (λ m. (s0.active + i) % m) v.size)
          (omega arith) hx v
          (λ best' b' t v'. rotate_loop-Picks rounds (suc i) best' b' t (omega arith) v'))

module _ {C W : Type 0} (api : Api C W) where
  -- Unless an answer has no core limit, rotation ends at an entry whose stored count reaches the
  -- threshold, or else at one whose count is at least the active entry's before it, while each
  -- other entry is as it was, or not above.
  pub rotate-Picks :
      (s : GithubService C W) (e : ClientEntry C)
      → active_entry s ≡ some e
      → Picks api s e.remaining (rotate api s)
  unfolding rotate rotate_from
  rotate-Picks s e h =
      let hx : s.active < length s.entries = get_inside s.entries s.active e h in
      Picks-if api s e.remaining (leb (length s.entries) 1) (some s)
        (rotate_from api (active_entry s) s) (λ p. (e, h, inr (omega arith, λ j. inl refl)))
        (λ p.
          subst (λ o. Picks api s e.remaining (rotate_from api o s)) (sym h)
            (rotate_loop-Picks api s e.remaining (length s.entries - 1) 1 s.active e.remaining s
              (omega arith)
              (record {
                active = refl;
                limit = refl;
                size = refl;
                inside = hx;
                offset = (
                  0,
                  omega arith,
                  sym (mod-eq_of_lt {n = s.active + 0} (omega arith) ∙ omega arith),
                );
                best_entry = (e, h, refl);
                beaten = λ j. inl refl;
                above = omega arith;
              })))
