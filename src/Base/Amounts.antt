-- ===== src/Base/Amounts.antt =====
-- Counters by name: maps from texts to `uint64_t`, where a missing key counts as 0.
use Prim.Native.String.{String}
use Prim.Native.Nat.{ℕ, ◌+◌, ◌-◌, ◌%◌, ◌^◌, ◌<◌}
use text.Mathlib.TextEquality.{eq_iff}
use mathlib.Core.Path.{◌≡◌}
use mathlib.Core.List.{[], ◌∷◌}
use mathlib.Core.Option.{Option, none, some}
use native.Mathlib.Omega.{arith}
use strij.Base.Tests.{if◌then◌else◌, leb}
use strij.Base.Dict.{Assoc, lookup, insert, erase, lookup-insert, lookup-erase, str_eq}

abbrev pub u64_mod : ℕ
u64_mod = 2 ^ 64

abbrev pub or_zero : Option ℕ → ℕ
or_zero none = 0
or_zero (some n) = n

-- The value of a key, 0 if it is missing: `m[k]` as it is read.
abbrev pub amount_of : String → Assoc ℕ → ℕ
amount_of k m = or_zero (lookup k m)

-- `m[k] += n`
unfoldable pub add_to : String → ℕ → Assoc ℕ → Assoc ℕ
add_to k n m = insert k ((amount_of k m + n) % u64_mod) m

-- for (const auto& [k, n] : amounts) m[k] += n
unfoldable pub add_all : Assoc ℕ → Assoc ℕ → Assoc ℕ
add_all [] m = m
add_all ((k, n) ∷ amounts) m = add_all amounts (add_to k n m)

-- Take `n` off a key, which is dropped when nothing is left; a missing key is left alone.
unfoldable pub take_from : String → ℕ → Assoc ℕ → Assoc ℕ
take_from k n m = elim (lookup k m) [
  | none ↦ m
  | some held ↦ if leb held n then erase k m else insert k (held - n) m
]

unfoldable pub take_all : Assoc ℕ → Assoc ℕ → Assoc ℕ
take_all [] m = m
take_all ((k, n) ∷ amounts) m = take_all amounts (take_from k n m)

-- No key twice, as in a protobuf map.
abbrev pub Distinct : Assoc ℕ → Type 0
Distinct [] = Unit {0}
Distinct ((k, n) ∷ amounts) = (lookup k amounts ≡ none) × Distinct amounts

pub amount_of-add_to :
    (k j : String) (n : ℕ) (m : Assoc ℕ)
    → amount_of j (add_to k n m)
      ≡ (if str_eq k j then (amount_of j m + n) % u64_mod else amount_of j m)
unfolding add_to
amount_of-add_to k j n m =
    ground (arith, eq_iff k j, lookup-insert k j ((amount_of k m + n) % u64_mod) m)

pub amount_of-take_from :
    (k j : String) (n : ℕ) (m : Assoc ℕ)
    → amount_of j (take_from k n m) ≡ (if str_eq k j then amount_of j m - n else amount_of j m)
unfolding take_from
amount_of-take_from k j n m =
    ground (arith, eq_iff k j, lookup-erase k j m, lookup-insert k j (or_zero (lookup k m) - n) m)

pub amount_of-cons :
    (k j : String) (n : ℕ) (m : Assoc ℕ)
    → amount_of j ((k, n) ∷ m) ≡ (if str_eq k j then n else amount_of j m)
unfolding lookup
amount_of-cons k j n m = ground arith

-- Adding all amounts adds to each key its own, modulo 2^64.
pub amount_of-add_all :
    (amounts m : Assoc ℕ) (j : String)
    → Distinct amounts
    → amount_of j m < u64_mod
    → amount_of j (add_all amounts m) ≡ (amount_of j m + amount_of j amounts) % u64_mod
unfolding add_all lookup
amount_of-add_all [] m j d h = omega arith
amount_of-add_all ((k, n) ∷ amounts) m j d h =
    ground
      (arith, eq_iff k j, amount_of-add_to k j n m, amount_of-add_all amounts (add_to k n m) j d.1)

pub amount_of-take_all :
    (amounts m : Assoc ℕ) (j : String)
    → Distinct amounts
    → amount_of j (take_all amounts m) ≡ amount_of j m - amount_of j amounts
unfolding take_all lookup
amount_of-take_all [] m j d = omega arith
amount_of-take_all ((k, n) ∷ amounts) m j d = ground (
  arith,
  eq_iff k j,
  amount_of-take_from k j n m,
  amount_of-take_all amounts (take_from k n m) j d.1,
)
