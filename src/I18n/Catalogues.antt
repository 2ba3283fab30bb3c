-- ===== src/I18n/Catalogues.antt =====
-- internal/i18n: the catalogues of all languages, and what they have in common.
mod English
mod German
mod Spanish
mod Finnish
mod French
mod Italian
mod Japanese
mod Maltese
mod Norwegian
mod Swedish
mod Chinese
use scuffinger.Prelude.{
  String, ◌≡◌, ◌≢◌, refl, Bool, true, false, not, Option, none, some, List, [], ◌∷◌, ◌==◌, map,
  ◌&&◌, ◌∙◌, string_eq, arith, any, all, All, Bool-cases, inl, inr, eq_iff, Eq, ap,
}
use scuffinger.Prelude.Map.{Map, lookup, has_key, is_some}
use scuffinger.I18n.{Key, Messages, get}
use scuffinger.I18n.Keys.{all_keys}
use English.{english}
use German.{german}
use Spanish.{spanish}
use Finnish.{finnish}
use French.{french}
use Italian.{italian}
use Japanese.{japanese}
use Maltese.{maltese}
use Norwegian.{norwegian}
use Swedish.{swedish}
use Chinese.{chinese}

unfoldable pub catalogues : List Messages
catalogues =
    english ∷ german ∷ spanish ∷ finnish ∷ french ∷ italian ∷ japanese ∷ maltese ∷ norwegian
    ∷ swedish ∷ chinese ∷ []

abbrev pub keys_of : Messages → List Key
keys_of [] = []
keys_of ((k, msg) ∷ m) = k ∷ keys_of m

abbrev pub contains : Key → List Key → Bool
contains key ks = any (λ k. k == key) ks

-- What `Get` answers for a key under a catalogue: a text that is not empty if a constant declares
-- the key, and the key itself otherwise.
abbrev pub TranslatesIf : Bool → Key → Messages → Type 0
TranslatesIf true key m = (lookup key m ≡ some (get m key)) × (get m key ≢ "")
TranslatesIf false key m = get m key ≡ key

abbrev pub Translates : Key → Messages → Type 0
Translates key = TranslatesIf (contains key all_keys) key

has_key-contains : (key : Key) (m : Messages) → has_key key m ≡ contains key (keys_of m)
unfolding lookup
has_key-contains key [] = refl
has_key-contains key ((k, msg) ∷ m) = ground (arith, has_key-contains key m)

-- a list all of whose keys another one contains
included :
    (ks js : List Key) (key : Key)
    → all (λ k. contains k js) ks ≡ true
    → contains key ks ≡ true
    → contains key js ≡ true
included [] js key h c = ground arith
included (k ∷ ks) js key h c = ground (arith, included ks js key, eq_iff k key)

english_declared : all (λ k. contains k all_keys) (keys_of english) ≡ true
unfolding all_keys english
english_declared = refl

declared_english : all (λ k. contains k (keys_of english)) all_keys ≡ true
unfolding all_keys english
declared_english = refl

english_keys : (key : Key) → contains key (keys_of english) ≡ contains key all_keys
english_keys key = ground (
  arith,
  included (keys_of english) all_keys key english_declared,
  included all_keys (keys_of english) key declared_english,
)

abbrev is_spoken : Messages → Bool
is_spoken [] = true
is_spoken ((k, msg) ∷ m) = not (msg == "") && is_spoken m

spoken-lookup :
    (key : Key) (m : Messages) (msg : String)
    → is_spoken m ≡ true
    → lookup key m ≡ some msg
    → msg ≢ ""
unfolding lookup
spoken-lookup key [] msg h p = absurd (ground arith)
spoken-lookup key ((k, v) ∷ m) msg h p =
    ground (arith, spoken-lookup key m msg, eq_iff v "", eq_iff msg "")

found-TranslatesIf :
    (b : Bool) (key : Key) (m : Messages) (o : Option String)
    → lookup key m ≡ o
    → is_some o ≡ b
    → is_spoken m ≡ true
    → TranslatesIf b key m
unfolding get
found-TranslatesIf true key m none p c s = absurd (ground arith)
found-TranslatesIf true key m (some msg) p c s = rw p (refl, spoken-lookup key m msg s p)
found-TranslatesIf false key m none p c s = rw p refl
found-TranslatesIf false key m (some msg) p c s = absurd (ground arith)

translates :
    (key : Key) (m : Messages) → keys_of m ≡ keys_of english → is_spoken m ≡ true → Translates key m
translates key m k s =
    found-TranslatesIf (contains key all_keys) key m (lookup key m) refl
      (has_key-contains key m ∙ (ap (contains key) k ∙ english_keys key)) s

german-Translates : (key : Key) → Translates key german
unfolding english german
german-Translates key = translates key german refl refl

spanish-Translates : (key : Key) → Translates key spanish
unfolding english spanish
spanish-Translates key = translates key spanish refl refl

finnish-Translates : (key : Key) → Translates key finnish
unfolding english finnish
finnish-Translates key = translates key finnish refl refl

french-Translates : (key : Key) → Translates key french
unfolding english french
french-Translates key = translates key french refl refl

italian-Translates : (key : Key) → Translates key italian
unfolding english italian
italian-Translates key = translates key italian refl refl

japanese-Translates : (key : Key) → Translates key japanese
unfolding english japanese
japanese-Translates key = translates key japanese refl refl

maltese-Translates : (key : Key) → Translates key maltese
unfolding english maltese
maltese-Translates key = translates key maltese refl refl

norwegian-Translates : (key : Key) → Translates key norwegian
unfolding english norwegian
norwegian-Translates key = translates key norwegian refl refl

swedish-Translates : (key : Key) → Translates key swedish
unfolding english swedish
swedish-Translates key = translates key swedish refl refl

chinese-Translates : (key : Key) → Translates key chinese
unfolding english chinese
chinese-Translates key = translates key chinese refl refl

english-Translates : (key : Key) → Translates key english
unfolding english
english-Translates key = translates key english refl refl

-- For every key and each of the eleven catalogues: if a constant declares the key, the catalogue
-- has a message for it, which `Get` answers and which is not empty; otherwise `Get` answers the
-- key.
pub get-catalogues : (key : Key) → All (Translates key) catalogues
unfolding catalogues
get-catalogues key = search (
  english-Translates, german-Translates, spanish-Translates, finnish-Translates, french-Translates,
  italian-Translates, japanese-Translates, maltese-Translates, norwegian-Translates,
  swedish-Translates, chinese-Translates,
)
