-- ===== src/Server/Debug/Scanned.antt =====
-- `ScanKeys` of internal/server/debug.go ends, and answers matching keys only, within the limit.
use scuffinger.Prelude.{
  ℕ, zero, suc, ◌*◌, ◌≤◌, ◌<◌, ◌≡◌, ◌⊎◌, inl, inr, refl, String, string_eq, ℕ_eq, Bool, true, false,
  Option, none, some, List, [], ◌∷◌, ◌==◌, if◌then◌else◌, arith, length, length-append, All,
  All-append, ltb, leb, Bool-cases,
}
use scuffinger.Prelude.Int.{ℤ}
use scuffinger.Prelude.Result.{Result, ok, err}
use scuffinger.I18n.{Error}
use scuffinger.Server.Debug.Query.{default_query}
use scuffinger.Server.Debug.Scan.{
  KeyEntry, ScanRequest, Redis, ScanResponse, server_error, keys_page, ttl_seconds, name_matches,
  type_matches, timed_key, typed_key, scan_key, scan_batch, key_limit, first_cursor, scan_answer,
  batch_found, scan_loop, scan_keys,
}

-- A full iteration of SCAN comes to its end: `rank` falls from a cursor to the one that it
-- answers, unless that is 0.
pub record ScanLaws {W : Type 0} (redis : Redis W) (rank : ℕ → ℕ) : Type 0 where
  pub falls :
      (c : ℕ) (glob : String) (n : ℕ) (w : W) (ks : List String) (next : ℕ)
      → (redis.scan c glob n w).0 ≡ ok (ks, next)
      → (next ≡ 0) ⊎ (rank next < rank c)

module _ {W : Type 0} (to_lower : String → String) (redis : Redis W) where
  -- an entry that passes both filters
  abbrev pub Matches : String → String → KeyEntry → Type 0
  Matches q t e =
      (name_matches to_lower redis q e.key ≡ true) × (type_matches to_lower redis t e.type ≡ true)

  abbrev pub Page : String → String → ℕ → List KeyEntry → Type 0
  Page q t limit keys = (length keys ≤ limit) × All (Matches q t) keys

  -- what the handler may answer: an error of the cache, or a page within the limit
  abbrev pub Answer : ScanRequest → ScanResponse → Type 0
  Answer r (server_error e) = Unit
  Answer r (keys_page glob next n keys) =
      (n ≡ length keys)
      × Page (to_lower r.q) (to_lower r.key_type) (key_limit to_lower redis r) keys

  abbrev pub Ends : ScanRequest → Option (ScanResponse × W) → Type 0
  Ends r none = ⊥
  Ends r (some (a, w)) = Answer r a

  timed_key-Page :
      (q t k kt : String) (limit : ℕ) (keys : List KeyEntry) (a : Result Error ℤ × W)
      → name_matches to_lower redis q k ≡ true
      → type_matches to_lower redis t kt ≡ true
      → length keys < limit
      → All (Matches q t) keys
      → Page q t limit (timed_key to_lower redis k kt keys a).0
  unfolding timed_key
  timed_key-Page q t k kt limit keys (err e, w) hn ht hl h = (omega arith, h)
  timed_key-Page q t k kt limit keys (ok ttl, w) hn ht hl h = (
    omega (arith, length-append keys (record { key = k; type = kt; ttl = ttl_seconds ttl } ∷ [])),
    All-append (Matches q t) keys _ h ((hn, ht), tt),
  )

  typed_key-Page :
      (q t k : String) (limit : ℕ) (keys : List KeyEntry) (a : Result Error String × W)
      → name_matches to_lower redis q k ≡ true
      → length keys < limit
      → All (Matches q t) keys
      → Page q t limit (typed_key to_lower redis t k keys a).0
  unfolding typed_key
  typed_key-Page q t k limit keys (err e, w) hn hl h = (omega arith, h)
  typed_key-Page q t k limit keys (ok kt, w) hn hl h =
      elim (Bool-cases (type_matches to_lower redis t kt)) [
        | inl ht ↦ rw ht (timed_key-Page q t k kt limit keys (redis.ttl_of k w) hn ht hl h)
        | inr ht ↦ rw ht (omega arith, h)
      ]

  scan_key-Page :
      (q t k : String) (limit : ℕ) (keys : List KeyEntry) (w : W)
      → length keys < limit
      → All (Matches q t) keys
      → Page q t limit (scan_key to_lower redis q t k keys w).0
  unfolding scan_key
  scan_key-Page q t k limit keys w hl h = elim (Bool-cases (name_matches to_lower redis q k)) [
    | inl hn ↦ rw hn (typed_key-Page q t k limit keys (redis.type_of k w) hn hl h)
    | inr hn ↦ rw hn (omega arith, h)
  ]

  scan_batch-Page :
      (q t : String) (limit : ℕ) (ks : List String) (keys : List KeyEntry) (w : W)
      → Page q t limit keys
      → Page q t limit (scan_batch to_lower redis q t limit ks (keys, w)).0
  unfolding scan_batch
  scan_batch-Page q t limit [] keys w p = p
  scan_batch-Page q t limit (k ∷ ks) keys w p = elim (Bool-cases (leb limit (length keys))) [
    | inl h ↦ rw h p
    | inr h ↦
        let r = scan_key to_lower redis q t k keys w in
        rw h (
          scan_batch-Page q t limit ks r.0 r.1
            (scan_key-Page q t k limit keys w (ground arith) p.1))
  ]

  Ends-if :
      (r : ScanRequest) (b : Bool) (x y : Option (ScanResponse × W))
      → (b ≡ true → Ends r x)
      → (b ≡ false → Ends r y)
      → Ends r (if b then x else y)
  Ends-if r true x y p q = p refl
  Ends-if r false x y p q = q refl

  batch_found-Ends :
      (r : ScanRequest) (keys : List KeyEntry)
      (rest : ℕ → List KeyEntry → W → Option (ScanResponse × W))
      (a : Result Error (List String × ℕ) × W)
      → Page (to_lower r.q) (to_lower r.key_type) (key_limit to_lower redis r) keys
      → ((ks : List String) (next : ℕ) (keys' : List KeyEntry) (w : W)
          → a.0 ≡ ok (ks, next)
          → (next == 0) ≡ false
          → Page (to_lower r.q) (to_lower r.key_type) (key_limit to_lower redis r) keys'
          → Ends r (rest next keys' w))
      → Ends r (batch_found to_lower redis r keys rest a)
  unfolding batch_found scan_answer
  batch_found-Ends r keys rest (err e, w) p ih = tt
  batch_found-Ends r keys rest (ok (ks, next), w) p ih =
      let b =
        scan_batch to_lower redis (to_lower r.q) (to_lower r.key_type) (key_limit to_lower redis r)
          ks (keys, w) in
      let q =
        scan_batch-Page (to_lower r.q) (to_lower r.key_type) (key_limit to_lower redis r) ks keys w
          p in
      Ends-if r (next == 0) (some (scan_answer to_lower redis r next b.0, b.1)) (rest next b.0 b.1)
        (λ h. (refl, q)) (λ h. ih ks next b.0 b.1 refl h q)

  module _ (rank : ℕ → ℕ) (laws : ScanLaws redis rank) where
    scan_loop-Ends :
        (r : ScanRequest) (fuel next : ℕ) (keys : List KeyEntry) (w : W)
        → rank next < fuel
        → Page (to_lower r.q) (to_lower r.key_type) (key_limit to_lower redis r) keys
        → Ends r (scan_loop to_lower redis r fuel next keys w)
    unfolding scan_loop scan_answer
    scan_loop-Ends r zero next keys w hf p = absurd (omega arith)
    scan_loop-Ends r (suc fuel) next keys w hf p =
        let a = redis.scan next (default_query "*" r.glob) (key_limit to_lower redis r * 2) w in
        Ends-if r (ltb (length keys) (key_limit to_lower redis r)) _
          (some (scan_answer to_lower redis r next keys, w))
          (λ h.
            batch_found-Ends r keys (scan_loop to_lower redis r fuel) a p
              (λ ks next' keys' w' e nz q.
                scan_loop-Ends r fuel next' keys' w'
                  (elim (laws.falls next (default_query "*" r.glob) (key_limit to_lower redis r * 2)
                    w ks next' e) [ inl z ↦ absurd (ground arith) | inr lt ↦ omega arith ])
                  q))
          (λ h. (refl, p))

    -- When a full iteration of SCAN comes to its end, `ScanKeys` answers, with fuel for one call
    -- more than the rank of the first cursor: either an error of the cache, or a page whose count
    -- is its length, within the limit, and all of whose keys pass both filters.
    pub scan_keys-Ends :
        (fuel : ℕ) (r : ScanRequest) (w : W)
        → rank (first_cursor to_lower redis r) < fuel
        → Ends r (scan_keys to_lower redis fuel r w)
    unfolding scan_keys
    scan_keys-Ends fuel r w h =
        scan_loop-Ends r fuel (first_cursor to_lower redis r) [] w h (omega arith, tt)
