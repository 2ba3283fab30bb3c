-- ===== src/Vault.antt =====
-- internal/vault/vault.go: the interface that each platform's store implements, and what the
-- callers rely on. A store is a state `S` and its three methods.
pub mod Memory
pub mod Linux
use scuffinger.Prelude.{String, Option, none, some, ◌≡◌, ◌≢◌, ◌⊎◌}
use scuffinger.Prelude.Result.{Result, ok, err}
use scuffinger.I18n.{Error}

-- `ErrNotFound`, or an error of the platform
pub data VaultError : Type 0 where
  not_found : VaultError
  failed : Error → VaultError

pub record Store (S : Type 0) : Type 0 where
  pub set_secret : String → String → S → Option VaultError × S
  pub get_secret : String → S → Result VaultError String
  pub delete_secret : String → S → Option VaultError × S

-- The contract of the interface for the keys of `K`: a write or a removal that reports success is
-- what the next read answers, a removal reports `ErrNotFound` of a key that is absent and of no
-- other, and neither touches another key.
pub record StoreLaws {S : Type 0} (K : String → Type 0) (store : Store S) : Type 0 where
  pub get-set_same :
      (k v : String) (s : S)
      → (store.set_secret k v s).0 ≡ none
      → store.get_secret k (store.set_secret k v s).1 ≡ ok v
  pub get-set_other :
      (k k' v : String) (s : S)
      → K k
      → K k'
      → k' ≢ k
      → store.get_secret k' (store.set_secret k v s).1 ≡ store.get_secret k' s
  pub get-delete_same :
      (k : String) (s : S)
      → ((store.delete_secret k s).0 ≡ none) ⊎ ((store.delete_secret k s).0 ≡ some not_found)
      → store.get_secret k (store.delete_secret k s).1 ≡ err not_found
  pub get-delete_other :
      (k k' : String) (s : S)
      → K k
      → K k'
      → k' ≢ k
      → store.get_secret k' (store.delete_secret k s).1 ≡ store.get_secret k' s
  pub delete-absent :
      (k : String) (s : S)
      → store.get_secret k s ≡ err not_found
      → (store.delete_secret k s).0 ≡ some not_found
  pub delete-present :
      (k v : String) (s : S)
      → store.get_secret k s ≡ ok v
      → (store.delete_secret k s).0 ≢ some not_found

-- what holds for more keys holds for fewer
pub StoreLaws-narrow :
    {S : Type 0} {K L : String → Type 0} {store : Store S}
    → ((k : String) → K k → L k)
    → StoreLaws L store
    → StoreLaws K store
StoreLaws-narrow sub laws = record {
  get-set_same = laws.get-set_same;
  get-set_other = λ k k' v s a b h. laws.get-set_other k k' v s (sub k a) (sub k' b) h;
  get-delete_same = laws.get-delete_same;
  get-delete_other = λ k k' s a b h. laws.get-delete_other k k' s (sub k a) (sub k' b) h;
  delete-absent = laws.delete-absent;
  delete-present = laws.delete-present;
}
