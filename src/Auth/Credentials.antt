-- ===== src/Auth/Credentials.antt =====
-- internal/auth/auth.go: the token and the user kept in the vault, whichever store that is.
use scuffinger.Prelude.{
  String, eq_iff, string_eq, Bool, true, false, Option, none, some, ◌≡◌, ◌≢◌, ◌⊎◌, inl, inr, refl,
  arith, ap, ◌∙◌, sym,
}
use scuffinger.Prelude.Result.{Result, ok, err, is_ok}
use scuffinger.Vault.{VaultError, not_found, Store, StoreLaws}

abbrev pub vault_key_token : String
vault_key_token = "github_token"

abbrev pub vault_key_user : String
vault_key_user = "github_user"

pub keys_differ : vault_key_user ≢ vault_key_token
keys_differ h = ground (arith, eq_iff vault_key_user vault_key_token)

module _ {S : Type 0} (store : Store S) where
  unfoldable pub save_token : String → S → Option VaultError × S
  save_token t s = store.set_secret vault_key_token t s

  unfoldable pub load_token : S → Result VaultError String
  load_token s = store.get_secret vault_key_token s

  unfoldable pub save_user : String → S → Option VaultError × S
  save_user u s = store.set_secret vault_key_user u s

  unfoldable pub load_user : S → Result VaultError String
  load_user s = store.get_secret vault_key_user s

  unfoldable pub clear_credentials : S → S
  clear_credentials s =
      (store.delete_secret vault_key_user (store.delete_secret vault_key_token s).1).1

  unfoldable pub has_credentials : S → Bool
  has_credentials s = is_ok (store.get_secret vault_key_token s)

  -- a removal that leaves the key absent
  abbrev pub Removes : String → S → Type 0
  Removes k s =
      ((store.delete_secret k s).0 ≡ none) ⊎ ((store.delete_secret k s).0 ≡ some not_found)

-- the keys that the program writes
abbrev pub IsCredential : String → Type 0
IsCredential k = (k ≡ vault_key_token) ⊎ (k ≡ vault_key_user)

module _ {S : Type 0} (store : Store S) (laws : StoreLaws IsCredential store) where
  -- Over any store that keeps the contract of the interface, after a login that saves the token
  -- and then the user without an error, both read back and `HasCredentials` answers true.
  pub login-load :
      (t u : String) (s : S)
      → (save_token store t s).0 ≡ none
      → (save_user store u (save_token store t s).1).0 ≡ none
      → (load_token store (save_user store u (save_token store t s).1).1 ≡ ok t)
        × (load_user store (save_user store u (save_token store t s).1).1 ≡ ok u)
        × (has_credentials store (save_user store u (save_token store t s).1).1 ≡ true)
  unfolding save_token save_user load_token load_user has_credentials
  login-load t u s h h' =
      let s' = (store.set_secret vault_key_token t s).1 in
      let p =
        laws.get-set_other vault_key_user vault_key_token u s' (inr refl) (inl refl)
          (λ e. keys_differ (sym e))
        ∙ laws.get-set_same vault_key_token t s h in
      (p, laws.get-set_same vault_key_user u s' h', ap is_ok p)

  -- Over any store that keeps the contract of the interface, a logout whose removals succeed or
  -- find nothing leaves neither the token nor the user, and `HasCredentials` answers false.
  pub clear_credentials-absent :
      (s : S)
      → Removes store vault_key_token s
      → Removes store vault_key_user (store.delete_secret vault_key_token s).1
      → (load_token store (clear_credentials store s) ≡ err not_found)
        × (load_user store (clear_credentials store s) ≡ err not_found)
        × (has_credentials store (clear_credentials store s) ≡ false)
  unfolding clear_credentials load_token load_user has_credentials
  clear_credentials-absent s h h' =
      let s' = (store.delete_secret vault_key_token s).1 in
      let p =
        laws.get-delete_other vault_key_user vault_key_token s' (inr refl) (inl refl)
          (λ e. keys_differ (sym e))
        ∙ laws.get-delete_same vault_key_token s h in
      (p, laws.get-delete_same vault_key_user s' h', ap is_ok p)
