-- ===== src/Base/Dict.antt =====
-- The maps of the program, `std::map` and `std::unordered_map` with text keys, as association
-- lists. An update in place keeps the entry's position, and a new key goes to the end.
use Prim.Native.String.{String}
use text.Mathlib.Text.{◌==◌ as str_eq}
use text.Mathlib.TextEquality.{eq_iff}
use mathlib.Core.Path.{◌≡◌, refl}
use mathlib.Core.Bool.{Bool, true, false, ◌||◌}
use mathlib.Core.List.{List, [], ◌∷◌}
use mathlib.Core.Option.{Option, none, some}
use native.Mathlib.Omega.{arith}
use strij.Base.Tests.{if◌then◌else◌}
pub use text.Mathlib.Text.{◌==◌ as str_eq}

abbrev pub Assoc {ℓ} : Type ℓ → Type ℓ
Assoc Value = List (String × Value)

-- Whether a text is in a sequence.
abbrev pub has_id : String → List String → Bool
has_id node_id [] = false
has_id node_id (present ∷ ids) = str_eq present node_id || has_id node_id ids

abbrev pub NoRepeat : List String → Type 0
NoRepeat [] = Unit {0}
NoRepeat (id ∷ ids) = (has_id id ids ≡ false) × NoRepeat ids

module _ {ℓ} {V : Type ℓ} where
  abbrev pub is_some : Option V → Bool
  is_some none = false
  is_some (some v) = true

  -- `erase(key)`
  unfoldable pub erase : String → Assoc V → Assoc V
  erase key [] = []
  erase key (entry ∷ entries) =
      if str_eq entry.0 key then erase key entries else entry ∷ erase key entries

  -- `insert_or_assign(key, v)`, and `m[key] = v`
  unfoldable pub insert : String → V → Assoc V → Assoc V
  insert key v [] = (key, v) ∷ []
  insert key v (entry ∷ entries) =
      if str_eq entry.0 key then (key, v) ∷ entries else entry ∷ insert key v entries

  -- `find(key)`
  unfoldable pub lookup : String → Assoc V → Option V
  lookup key [] = none
  lookup key (entry ∷ entries) = if str_eq entry.0 key then some entry.1 else lookup key entries

  -- `contains(key)`
  unfoldable pub contains : String → Assoc V → Bool
  contains key [] = false
  contains key (entry ∷ entries) = if str_eq entry.0 key then true else contains key entries

  pub lookup-erase :
      (gone key : String) (entries : Assoc V)
      → lookup key (erase gone entries) ≡ (if str_eq gone key then none else lookup key entries)
  unfolding lookup erase
  lookup-erase gone key [] = ground arith
  lookup-erase gone key ((i, w) ∷ entries) =
      ground (arith, lookup-erase gone key entries, eq_iff gone key, eq_iff i gone, eq_iff i key)

  pub lookup-insert :
      (new key : String) (v : V) (entries : Assoc V)
      → lookup key (insert new v entries) ≡ (if str_eq new key then some v else lookup key entries)
  unfolding lookup insert
  lookup-insert new key v [] = refl
  lookup-insert new key v ((i, w) ∷ entries) =
      ground (arith, lookup-insert new key v entries, eq_iff new key, eq_iff i new, eq_iff i key)

  pub contains-lookup : (key : String) (m : Assoc V) → contains key m ≡ is_some (lookup key m)
  unfolding contains lookup
  contains-lookup key [] = refl
  contains-lookup key ((i, w) ∷ m) = ground (arith, contains-lookup key m)

  -- No key twice, as in every map.
  abbrev pub Unique : Assoc V → Type ℓ
  Unique [] = Unit {ℓ}
  Unique ((i, w) ∷ m) = (lookup i m ≡ none) × Unique m

  pub Unique-insert : (key : String) (v : V) (m : Assoc V) → Unique m → Unique (insert key v m)
  unfolding lookup insert
  Unique-insert key v [] u = (refl, tt)
  Unique-insert key v ((i, w) ∷ m) u =
      ground (arith, u, eq_iff i key, eq_iff key i, lookup-insert key i v m, Unique-insert key v m)

  pub Unique-erase : (key : String) (m : Assoc V) → Unique m → Unique (erase key m)
  unfolding lookup erase
  Unique-erase key [] u = tt
  Unique-erase key ((i, w) ∷ m) u = ground (arith, u, lookup-erase key i m, Unique-erase key m)
