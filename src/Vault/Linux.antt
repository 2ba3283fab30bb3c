-- ===== src/Vault/Linux.antt =====
-- internal/vault/vault_linux.go: the store of plain files under a directory. The file system of
-- package os and `filepath.Join` are parameters.
use scuffinger.Prelude.{
  String, Option, none, some, ◌≡◌, ◌≢◌, ◌⊎◌, inl, inr, ◌+++◌, arith, refl, ap, ◌∙◌,
}
use scuffinger.Prelude.Result.{Result, ok, err}
use scuffinger.I18n.{Error}
use scuffinger.Vault.{VaultError, not_found, failed, Store, StoreLaws}

-- an error of package os, which is or is not `os.ErrNotExist`
pub data FileError : Type 0 where
  not_exist : FileError
  other : Error → FileError

pub record Files (F : Type 0) : Type 0 where
  pub mkdir_all : String → F → Option Error × F
  pub write_file : String → String → F → Option Error × F
  pub read_file : String → F → Result FileError String
  pub remove : String → F → Option FileError × F

-- What package os documents of regular files: a directory that is made changes no file, a file
-- written without an error reads back, a file removed or found absent by a removal is absent, a
-- removal of an absent file says so and of no other, and another path's file stays.
pub record FilesLaws {F : Type 0} (files : Files F) : Type 0 where
  pub read-mkdir :
      (p d : String) (f : F) → files.read_file p (files.mkdir_all d f).1 ≡ files.read_file p f
  pub read-write_same :
      (p v : String) (f : F)
      → (files.write_file p v f).0 ≡ none
      → files.read_file p (files.write_file p v f).1 ≡ ok v
  pub read-write_other :
      (p p' v : String) (f : F)
      → p' ≢ p
      → files.read_file p' (files.write_file p v f).1 ≡ files.read_file p' f
  pub read-remove_same :
      (p : String) (f : F)
      → ((files.remove p f).0 ≡ none) ⊎ ((files.remove p f).0 ≡ some not_exist)
      → files.read_file p (files.remove p f).1 ≡ err not_exist
  pub read-remove_other :
      (p p' : String) (f : F)
      → p' ≢ p
      → files.read_file p' (files.remove p f).1 ≡ files.read_file p' f
  pub remove-absent :
      (p : String) (f : F)
      → files.read_file p f ≡ err not_exist
      → (files.remove p f).0 ≡ some not_exist
  pub remove-present :
      (p v : String) (f : F) → files.read_file p f ≡ ok v → (files.remove p f).0 ≢ some not_exist

module _ {F : Type 0} (files : Files F) (path_of : String → String → String) (dir : String) where
  abbrev path : String → String
  path key = path_of dir key

  written : Option Error → Option VaultError
  written none = none
  written (some e) = some (failed e)

  made : String → String → Option Error × F → Option VaultError × F
  unfolding written
  made k v (some e, f) = (some (failed ("create vault dir: " +++ e)), f)
  made k v (none, f) = let r = files.write_file (path k) v f in (written r.0, r.1)

  unfoldable pub set_file : String → String → F → Option VaultError × F
  unfolding made
  set_file k v f = made k v (files.mkdir_all dir f)

  read_result : Result FileError String → Result VaultError String
  read_result (ok v) = ok v
  read_result (err not_exist) = err not_found
  read_result (err (other e)) = err (failed e)

  unfoldable pub get_file : String → F → Result VaultError String
  unfolding read_result
  get_file k f = read_result (files.read_file (path k) f)

  removed : Option FileError → Option VaultError
  removed none = none
  removed (some not_exist) = some not_found
  removed (some (other e)) = some (failed e)

  unfoldable pub delete_file : String → F → Option VaultError × F
  unfolding removed
  delete_file k f = let r = files.remove (path k) f in (removed r.0, r.1)

  abbrev pub linux_store : Store F
  linux_store = record { set_secret = set_file; get_secret = get_file; delete_secret = delete_file }

  module _ (laws : FilesLaws files) (K : String → Type 0)
      (path_lem : (k k' : String) → K k → K k' → k' ≢ k → path k' ≢ path k) where
    made_same :
        (k v : String) (r : Option Error × F)
        → (made k v r).0 ≡ none
        → get_file k (made k v r).1 ≡ ok v
    unfolding made written get_file read_result
    made_same k v (some e, f) h = ground arith
    made_same k v (none, f) h = ground (arith, laws.read-write_same (path k) v f)

    made_other :
        (k k' v : String) (r : Option Error × F)
        → K k
        → K k'
        → k' ≢ k
        → get_file k' (made k v r).1 ≡ get_file k' r.1
    unfolding made written get_file read_result
    made_other k k' v (some e, f) a b h = refl
    made_other k k' v (none, f) a b h =
        ap read_result (laws.read-write_other (path k) (path k') v f (path_lem k k' a b h))

    removed_cases :
        (o : Option FileError)
        → (removed o ≡ none) ⊎ (removed o ≡ some not_found)
        → (o ≡ none) ⊎ (o ≡ some not_exist)
    unfolding removed
    removed_cases none h = inl refl
    removed_cases (some not_exist) h = inr refl
    removed_cases (some (other e)) (inl h) = ground arith
    removed_cases (some (other e)) (inr h) = ground arith

    read_result-absent :
        (r : Result FileError String) → read_result r ≡ err not_found → r ≡ err not_exist
    unfolding read_result
    read_result-absent (ok v) h = absurd (ground arith)
    read_result-absent (err not_exist) h = refl
    read_result-absent (err (other e)) h = absurd (ground arith)

    read_result-ok : (r : Result FileError String) (v : String) → read_result r ≡ ok v → r ≡ ok v
    unfolding read_result
    read_result-ok (ok v) w h = ground arith
    read_result-ok (err not_exist) w h = absurd (ground arith)
    read_result-ok (err (other e)) w h = absurd (ground arith)

    removed-absent : (o : Option FileError) → removed o ≡ some not_found → o ≡ some not_exist
    unfolding removed
    removed-absent none h = absurd (ground arith)
    removed-absent (some not_exist) h = refl
    removed-absent (some (other e)) h = absurd (ground arith)

    -- The store of plain files keeps the contract of the interface of the vault for any keys of
    -- which different ones name different paths, ErrNotFound of exactly the absent keys included,
    -- on a file system that does what package os documents.
    pub linux_store-StoreLaws : StoreLaws K linux_store
    unfolding set_file get_file delete_file read_result removed
    linux_store-StoreLaws = record {
      get-set_same = λ k v f h. made_same k v (files.mkdir_all dir f) h;
      get-set_other = λ k k' v f a b h.
          made_other k k' v (files.mkdir_all dir f) a b h
          ∙ ap read_result (laws.read-mkdir (path k') dir f);
      get-delete_same = λ k f h.
          ap read_result
            (laws.read-remove_same (path k) f (removed_cases (files.remove (path k) f).0 h));
      get-delete_other = λ k k' f a b h.
          ap read_result (laws.read-remove_other (path k) (path k') f (path_lem k k' a b h));
      delete-absent = λ k f h.
          ap removed
            (laws.remove-absent (path k) f (read_result-absent (files.read_file (path k) f) h));
      delete-present = λ k v f h q.
          laws.remove-present (path k) v f (read_result-ok (files.read_file (path k) f) v h)
            (removed-absent (files.remove (path k) f).0 q);
    }
