-- ===== src/Vault/Memory.antt =====
-- internal/vault/vault_other.go: the store in memory.
use scuffinger.Prelude.{
  true, false, ◌≡◌, refl, String, string_eq, eq_iff, Option, none, some, [], arith, if◌then◌else◌,
}
use scuffinger.Prelude.Map.{Map, lookup, insert, delete, is_some, lookup-insert, lookup-delete}
use scuffinger.Prelude.Result.{Result, ok, err}
use scuffinger.Vault.{VaultError, not_found, Store, StoreLaws}

-- `newPlatformStore`
abbrev pub new_memory_store : Map String String
new_memory_store = []

found : Option String → Result VaultError String
found none = err not_found
found (some v) = ok v

unfoldable pub get_secret : String → Map String String → Result VaultError String
unfolding found
get_secret k m = found (lookup k m)

unfoldable pub set_secret :
    String → String → Map String String → Option VaultError × Map String String
set_secret k v m = (none, insert k v m)

unfoldable pub delete_secret : String → Map String String → Option VaultError × Map String String
delete_secret k m = if is_some (lookup k m) then (none, delete k m) else (some not_found, m)

found-absent : (o : Option String) → found o ≡ err not_found → is_some o ≡ false
unfolding found
found-absent none h = refl
found-absent (some v) h = absurd (ground arith)

found-present : (o : Option String) (v : String) → found o ≡ ok v → is_some o ≡ true
unfolding found
found-present none v h = absurd (ground arith)
found-present (some v) w h = refl

abbrev pub memory_store : Store (Map String String)
memory_store = record {
  set_secret = set_secret;
  get_secret = get_secret;
  delete_secret = delete_secret;
}

-- The store in memory keeps the contract of the interface of the vault for every key: what is
-- written reads back until it is removed, a removal answers ErrNotFound exactly of a key that is
-- absent, and no call touches another key.
pub memory_store-StoreLaws : StoreLaws (λ k. Unit) memory_store
unfolding get_secret set_secret delete_secret found
memory_store-StoreLaws = record {
  get-set_same = λ k v s h. ground (arith, lookup-insert k k v s, eq_iff k k);
  get-set_other = λ k k' v s a b h.
      ground (arith, lookup-insert k k' v s, lookup-insert k' k v s, eq_iff k k', eq_iff k' k);
  get-delete_same = λ k s h. ground (arith, lookup-delete k k s, eq_iff k k);
  get-delete_other = λ k k' s a b h.
      ground (arith, lookup-delete k k' s, lookup-delete k' k s, eq_iff k k', eq_iff k' k);
  delete-absent = λ k s h. ground (arith, found-absent (lookup k s));
  delete-present = λ k v s h q. ground (arith, found-present (lookup k s) v);
}
