-- ===== src/Server/Debug/Key/Answered.antt =====
-- What `GetKey` of internal/server/debug.go answers, and how much of a value.
use scuffinger.Prelude.{
  ℕ, zero, suc, ◌-◌, ◌≤◌, ◌≡◌, refl, ap, String, string_eq, Bool, true, false, ◌==◌, List, [], ◌∷◌,
  length, arith, eq_iff, Bool-cases, inl, inr, ◌↔◌, ◌≢◌, if◌then◌else◌,
}
use scuffinger.Prelude.Int.{ℤ}
use scuffinger.Prelude.Result.{Result, ok, err}
use scuffinger.I18n.{Error}
use scuffinger.Server.Debug.Key.{
  KeyCommands, Value, text, elements, members, scored, fields, messages, unsupported, KeyResponse,
  bad_request, server_error, missing, found, max_elements, take, key_of, capped, value_of,
  value_found, type_found, get_key, read_as,
}

length-take : {A : Type 0} (n : ℕ) (xs : List A) → length (take n xs) ≤ n
unfolding take
length-take zero xs = omega arith
length-take (suc n) [] = omega arith
length-take (suc n) (x ∷ xs) = omega (arith, length-take n xs)

length-capped : {A : Type 0} (xs : List A) → length (capped xs) ≤ max_elements
unfolding capped
length-capped xs = ground (arith, length-take max_elements xs)

-- What ValKey documents: a range of ranks holds no more elements than ranks.
pub record RangeLaws {S M W : Type 0} (redis : KeyCommands S M W) : Type 0 where
  pub list_length :
      (k : String) (n : ℕ) (w : W) (xs : List String)
      → (redis.list_range k 0 n w).0 ≡ ok xs
      → length xs ≤ suc n
  pub sorted_length :
      (k : String) (n : ℕ) (w : W) (xs : List S)
      → (redis.sorted_range k 0 n w).0 ≡ ok xs
      → length xs ≤ suc n

take-whole : {A : Type 0} (n : ℕ) (xs : List A) → length xs ≤ n → take n xs ≡ xs
unfolding take
take-whole zero [] h = refl
take-whole zero (x ∷ xs) h = absurd (omega arith)
take-whole (suc n) [] h = refl
take-whole (suc n) (x ∷ xs) h = ap (◌∷◌ x) (take-whole n xs (omega arith))

capped-take : {A : Type 0} (xs : List A) → capped xs ≡ take max_elements xs
unfolding capped
capped-take xs = ground (arith, take-whole max_elements xs)

-- none of the six types
abbrev pub Unlisted : String → Type 0
Unlisted kind =
    (kind ≢ "string")
    × (kind ≢ "list")
    × (kind ≢ "set")
    × (kind ≢ "zset")
    × (kind ≢ "hash")
    × (kind ≢ "stream")

module _ {S M W : Type 0} (redis : KeyCommands S M W) where
  -- A value of the named type that a command for that type has answered for the key, of a stream
  -- the first `max_elements` messages; a list, a sorted set and a stream are within that number.
  -- Only a type that is none of the six has no value.
  abbrev pub Fits : String → String → Value S M → Type 0
  Fits key kind (text s) = (kind ≡ "string") × ((w : W) × ((redis.get key w).0 ≡ ok s))
  Fits key kind (elements xs) =
      (kind ≡ "list")
      × ((w : W) × ((redis.list_range key 0 (max_elements - 1) w).0 ≡ ok xs))
      × (length xs ≤ max_elements)
  Fits key kind (members xs) = (kind ≡ "set") × ((w : W) × ((redis.set_members key w).0 ≡ ok xs))
  Fits key kind (scored xs) =
      (kind ≡ "zset")
      × ((w : W) × ((redis.sorted_range key 0 (max_elements - 1) w).0 ≡ ok xs))
      × (length xs ≤ max_elements)
  Fits key kind (fields xs) = (kind ≡ "hash") × ((w : W) × ((redis.hash_all key w).0 ≡ ok xs))
  Fits key kind (messages xs) =
      (kind ≡ "stream")
      × ((w : W) × (msgs : List M) × ((redis.stream_range key "-" "+" w).0 ≡ ok msgs)
          × (xs ≡ take max_elements msgs))
      × (length xs ≤ max_elements)
  Fits key kind (unsupported s) = Unlisted kind

  abbrev pub ResultFits : String → String → Result Error (Value S M) → Type 0
  ResultFits key kind (ok v) = Fits key kind v
  ResultFits key kind (err e) = Unit

  -- the status of an answer
  abbrev pub status : KeyResponse S M → ℕ
  status (bad_request e) = 400
  status (server_error e) = 500
  status (missing e) = 404
  status (found key kind ttl mem v) = 200

  -- what is found is of that key, and its value of the type that is answered with it
  abbrev pub ResponseFits : String → KeyResponse S M → Type 0
  ResponseFits key (bad_request e) = Unit
  ResponseFits key (server_error e) = Unit
  ResponseFits key (missing e) = Unit
  ResponseFits key (found k kind ttl mem v) = (k ≡ key) × Fits key kind v

module _ {S M W : Type 0} (redis : KeyCommands S M W) (quoted : String → String) where
  branch-Fits :
      (key kind : String) (b : Bool) (x y : Result Error (Value S M) × W)
      → (b ≡ true → ResultFits redis key kind x.0)
      → (b ≡ false → ResultFits redis key kind y.0)
      → ResultFits redis key kind (if b then x else y).0
  branch-Fits key kind true x y hx hy = hx refl
  branch-Fits key kind false x y hx hy = hy refl

  read_as-Fits :
      {A : Type 0} (key kind : String) (make : A → Value S M) (r : Result Error A × W)
      → ((a : A) → r.0 ≡ ok a → Fits redis key kind (make a))
      → ResultFits redis key kind (read_as redis quoted make r).0
  unfolding read_as
  read_as-Fits key kind make (ok a, w) h = h a refl
  read_as-Fits key kind make (err e, w) h = tt

  differs : (s t : String) → (s == t) ≡ false → s ≢ t
  differs s t h e = ground (arith, eq_iff s t)

  value_of-Fits :
      RangeLaws redis
      → (kind key : String) (w : W) → ResultFits redis key kind (value_of redis quoted kind key w).0
  unfolding value_of
  value_of-Fits laws kind key w =
      let is = λ (t : String). eq_iff kind t in
      branch-Fits key kind _ _ _
        (λ h. read_as-Fits key kind text _ (λ a e. ((is "string").0 h, (w, e))))
        (λ n1.
          branch-Fits key kind _ _ _
            (λ h.
              read_as-Fits key kind elements _
                (λ a e. ((is "list").0 h, (w, e), laws.list_length key 999 w a e)))
            (λ n2.
              branch-Fits key kind _ _ _
                (λ h. read_as-Fits key kind members _ (λ a e. ((is "set").0 h, (w, e))))
                (λ n3.
                  branch-Fits key kind _ _ _
                    (λ h.
                      read_as-Fits key kind scored _
                        (λ a e. ((is "zset").0 h, (w, e), laws.sorted_length key 999 w a e)))
                    (λ n4.
                      branch-Fits key kind _ _ _
                        (λ h. read_as-Fits key kind fields _ (λ a e. ((is "hash").0 h, (w, e))))
                        (λ n5.
                          branch-Fits key kind _ _ _
                            (λ h.
                              read_as-Fits key kind (λ msgs. messages (capped msgs)) _
                                (λ a e.
                                  ((is "stream").0 h, (w, a, e, capped-take a), length-capped a)))
                            (λ n6. (
                              differs kind "string" n1,
                              differs kind "list" n2,
                              differs kind "set" n3,
                              differs kind "zset" n4,
                              differs kind "hash" n5,
                              differs kind "stream" n6,
                            )))))))

  value_found-Fits :
      (key kind : String) (ttl : ℤ) (r : Result Error (Value S M) × W)
      → ResultFits redis key kind r.0
      → ResponseFits redis key (value_found redis quoted key kind ttl r).0
        × (status redis (value_found redis quoted key kind ttl r).0 ≢ 400)
        × (status redis (value_found redis quoted key kind ttl r).0 ≢ 404)
  unfolding value_found
  value_found-Fits key kind ttl (err e, w) h = (tt, λ p. omega arith, λ p. omega arith)
  value_found-Fits key kind ttl (ok v, w) h = ((refl, h), λ p. omega arith, λ p. omega arith)

  -- The three parts of an answer behind the command TYPE.
  type_found-Fits :
      RangeLaws redis
      → (key : String) (r : Result Error String × W)
      → ResponseFits redis key (type_found redis quoted key r).0
        × (status redis (type_found redis quoted key r).0 ≢ 400)
        × ((status redis (type_found redis quoted key r).0 ≡ 404) ↔ (r.0 ≡ ok "none"))
  unfolding type_found
  type_found-Fits laws key (err e, w) = (tt, λ p. omega arith, (λ p. absurd (omega arith), λ p. cc))
  type_found-Fits laws key (ok kind, w) = elim (Bool-cases (kind == "none")) [
    | inl q ↦ rw q (tt, λ p. omega arith, (λ p. ap ok ((eq_iff kind "none").0 q), λ p. refl))
    | inr q ↦
        let (fits, n400, n404) =
          value_found-Fits key kind (redis.ttl_of key w).0
            (value_of redis quoted kind key (redis.ttl_of key w).1)
            (value_of-Fits laws kind key (redis.ttl_of key w).1) in
        rw q (fits, n400, (λ p. absurd (n404 p), λ p. ground (arith, eq_iff kind "none")))
  ]

  -- If ValKey answers a range of ranks with no more elements than ranks: `GetKey` answers 400
  -- exactly for an empty key, and 404 exactly for another key of type none; what it finds is of
  -- the asked key, with a value that the command for the named type has answered for it, or for a
  -- type that is none of the six without one; a list, a sorted set or a stream has at most 1000
  -- elements.
  pub get_key-Fits :
      RangeLaws redis
      → (param : String) (w : W)
      → ResponseFits redis (key_of param) (get_key redis quoted param w).0
        × ((status redis (get_key redis quoted param w).0 ≡ 400) ↔ (key_of param ≡ ""))
        × ((status redis (get_key redis quoted param w).0 ≡ 404)
            ↔ ((key_of param ≢ "") × ((redis.type_of (key_of param) w).0 ≡ ok "none")))
  unfolding get_key
  get_key-Fits laws param w = elim (Bool-cases (key_of param == "")) [
    | inl q ↦
        let e = (eq_iff (key_of param) "").0 q in
        rw q (tt, (λ p. e, λ p. refl), (λ p. absurd (omega arith), λ p. absurd (p.0 e)))
    | inr q ↦
        let (fits, n400, both) =
          type_found-Fits laws (key_of param) (redis.type_of (key_of param) w) in
        let ne : key_of param ≢ "" = λ p. ground (arith, eq_iff (key_of param) "") in
        rw q
          (fits, (λ p. absurd (n400 p), λ p. absurd (ne p)), (λ p. (ne, both.0 p), λ p. both.1 p.1))
  ]
