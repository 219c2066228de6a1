-- ===== src/Admission/Accounts.antt =====
-- What `Admit` and `Release` keep true: the capacity in use is that of the tasks that hold it, and
-- with the reservations it stays within each pool.
use strij.Base.{
  ℕ, ◌+◌, ◌-◌, ◌≤◌, ◌<◌, ◌≡◌, ◌⊎◌, refl, String, [], ◌∷◌, arith, if◌then◌else◌, Assoc, lookup,
  amount_of, u64_mod, Distinct, amount_of-add_to, amount_of-add_all, amount_of-take_all,
  lookup-insert, lookup-erase, str_eq, eq_iff,
}
use strij.Admission.{
  Controller, ok, shared_free, in_flight, check_pools, check_concurrency, reserve, admit,
  release_type, release,
}

-- The reserved share and the share in use of every pool fit its total, and no declared limit on a
-- task type is exceeded. A pool that is over-reserved by the configuration has nothing in use.
pub record IsBounded (c : Controller) : Type 0 where
  pub total_lt : (pool : String) → amount_of pool c.pool_total_map < u64_mod
  pub reserved_lt : (pool : String) → amount_of pool c.pool_reserved_map < u64_mod
  pub fits :
      (pool : String)
      → (amount_of pool c.pool_in_use_map ≡ 0)
        ⊎ (amount_of pool c.pool_reserved_map + amount_of pool c.pool_in_use_map
            ≤ amount_of pool c.pool_total_map)
  pub limited :
      (task_type : String)
      → (amount_of task_type c.type_concurrency_map ≡ 0)
        ⊎ (in_flight c task_type ≤ amount_of task_type c.type_concurrency_map)

-- `SharedFree` is the part of the total that is neither reserved nor in use.
pub shared_free-bounded :
    (c : Controller) (pool : String)
    → IsBounded c
    → shared_free c pool
      ≡ amount_of pool c.pool_total_map
        - (amount_of pool c.pool_reserved_map + amount_of pool c.pool_in_use_map)
unfolding shared_free
shared_free-bounded c pool b = ground (arith, b.total_lt pool, b.reserved_lt pool, b.fits pool)

-- Every pool of an accepted request is declared, and has the amount free.
pub check_pools-free :
    (c : Controller) (resources : Assoc ℕ) (pool : String)
    → check_pools c resources ≡ ok
    → amount_of pool resources ≤ shared_free c pool
unfolding check_pools lookup
check_pools-free c [] pool e = omega arith
check_pools-free c ((k, n) ∷ resources) pool e =
    ground (arith, eq_iff k pool, check_pools-free c resources pool)

-- What a successful `Admit` shows.
pub admit-ok :
    (c d : Controller) (task_type : String) (resources : Assoc ℕ)
    → admit c task_type resources ≡ (d, ok)
    → (check_pools c resources ≡ ok)
      × (check_concurrency c task_type ≡ ok)
      × (d ≡ reserve c task_type resources)
unfolding admit
admit-ok c d task_type resources e = ground arith

-- An `Admit` that fails reserves nothing.
pub admit-refused :
    (c : Controller) (task_type : String) (resources : Assoc ℕ)
    → ((admit c task_type resources).1 ≡ ok) ⊎ ((admit c task_type resources).0 ≡ c)
unfolding admit
admit-refused c task_type resources = ground arith

module _ (c : Controller) (task_type : String) (resources : Assoc ℕ) (b : IsBounded c)
    (d : Distinct resources) where
  -- A reservation adds the request to each pool, with no overflow.
  pub reserve-in_use :
      (pool : String)
      → check_pools c resources ≡ ok
      → amount_of pool (reserve c task_type resources).pool_in_use_map
        ≡ amount_of pool c.pool_in_use_map + amount_of pool resources
  unfolding reserve
  reserve-in_use pool e = ground (
    arith,
    b.total_lt pool,
    b.fits pool,
    check_pools-free c resources pool e,
    shared_free-bounded c pool b,
    amount_of-add_all resources c.pool_in_use_map pool d,
  )

  pub reserve-IsBounded :
      check_pools c resources ≡ ok
      → check_concurrency c task_type ≡ ok
      → in_flight c task_type + 1 < u64_mod
      → IsBounded (reserve c task_type resources)
  reserve-IsBounded e f small = record {
    total_lt = unfold reserve in b.total_lt;
    reserved_lt = unfold reserve in b.reserved_lt;
    fits = λ pool. reserve_fits pool;
    limited = λ other. reserve_limited other;
  }
    where
      same_maps :
          (pool : String)
          → (amount_of pool (reserve c task_type resources).pool_reserved_map
              ≡ amount_of pool c.pool_reserved_map)
            × (amount_of pool (reserve c task_type resources).pool_total_map
                ≡ amount_of pool c.pool_total_map)
      same_maps pool = unfold reserve in (refl, refl)

      reserve_fits :
          (pool : String)
          → (amount_of pool (reserve c task_type resources).pool_in_use_map ≡ 0)
            ⊎ (amount_of pool (reserve c task_type resources).pool_reserved_map
                  + amount_of pool (reserve c task_type resources).pool_in_use_map
                ≤ amount_of pool (reserve c task_type resources).pool_total_map)
      reserve_fits pool = ground (
        arith,
        b.fits pool,
        same_maps pool,
        reserve-in_use pool e,
        check_pools-free c resources pool e,
        shared_free-bounded c pool b,
      )

      reserve_limited :
          (other : String)
          → (amount_of other (reserve c task_type resources).type_concurrency_map ≡ 0)
            ⊎ (in_flight (reserve c task_type resources) other
                ≤ amount_of other (reserve c task_type resources).type_concurrency_map)
      reserve_limited other =
          unfold reserve check_concurrency in
          ground (
            arith,
            eq_iff task_type other,
            b.limited other,
            f,
            amount_of-add_to task_type other 1 c.type_in_flight_map,
          )

-- `Release` takes the request off each pool, stopping at 0, and one off the type's count.
pub release-in_use :
    (c : Controller) (task_type : String) (resources : Assoc ℕ) (pool : String)
    → Distinct resources
    → amount_of pool (release c task_type resources).pool_in_use_map
      ≡ amount_of pool c.pool_in_use_map - amount_of pool resources
unfolding release release_type
release-in_use c task_type resources pool d =
    ground (arith, amount_of-take_all resources c.pool_in_use_map pool d)

pub release-in_flight :
    (c : Controller) (task_type other : String) (resources : Assoc ℕ)
    → in_flight (release c task_type resources) other
      ≡ (if str_eq task_type other then in_flight c other - 1 else in_flight c other)
unfolding release release_type
release-in_flight c task_type other resources = ground (
  arith,
  eq_iff task_type other,
  lookup-erase task_type other c.type_in_flight_map,
  lookup-insert task_type other (in_flight c task_type - 1) c.type_in_flight_map,
)

pub release-config :
    (c : Controller) (task_type : String) (resources : Assoc ℕ)
    → ((release c task_type resources).pool_total_map ≡ c.pool_total_map)
      × ((release c task_type resources).pool_reserved_map ≡ c.pool_reserved_map)
      × ((release c task_type resources).type_concurrency_map ≡ c.type_concurrency_map)
unfolding release release_type
release-config c task_type resources = ground arith

pub release-IsBounded :
    (c : Controller) (task_type : String) (resources : Assoc ℕ)
    → IsBounded c
    → Distinct resources
    → IsBounded (release c task_type resources)
release-IsBounded c task_type resources b d =
    let same = release-config c task_type resources in
    record {
      total_lt = λ pool. rw same.0 (b.total_lt pool);
      reserved_lt = λ pool. rw same.1 (b.reserved_lt pool);
      fits = λ pool. ground (arith, same, b.fits pool, release-in_use c task_type resources pool d);
      limited = λ other.
          ground (arith, same, b.limited other, release-in_flight c task_type other resources);
    }
