-- ===== src/Admission/Capacity.antt =====
-- The promise of admission control, for a controller built from a node's capabilities.
use strij.Base.{
  ℕ, ◌+◌, ◌≤◌, ◌<◌, ◌≡◌, ◌⊎◌, inl, refl, String, List, [], ◌∷◌, arith, Assoc, lookup, insert,
  amount_of, add_to, add_all, u64_mod, lookup-insert, eq_iff, amount_of-add_to,
}
use strij.Admission.{Controller, Capabilities, create, assign_all, in_flight}
use strij.Admission.Holders.{Holder, held, running, Reach, IsExact, Reach-IsExact}

-- The totals of the capabilities are of `uint64_t`.
abbrev pub AllWords : Assoc ℕ → Type 0
AllWords [] = Unit {0}
AllWords ((k, n) ∷ m) = (n < u64_mod) × AllWords m

assign_all-word :
    (entries m : Assoc ℕ) (j : String)
    → AllWords entries
    → amount_of j m < u64_mod
    → amount_of j (assign_all entries m) < u64_mod
unfolding assign_all
assign_all-word [] m j w h = h
assign_all-word ((k, n) ∷ entries) m j w h =
    assign_all-word entries (insert k n m) j w.1 (ground (arith, eq_iff k j, lookup-insert k j n m))

add_all-word :
    (entries m : Assoc ℕ) (j : String)
    → amount_of j m < u64_mod
    → amount_of j (add_all entries m) < u64_mod
unfolding add_all
add_all-word [] m j h = h
add_all-word ((k, n) ∷ entries) m j h =
    add_all-word entries (add_to k n m) j (ground (arith, amount_of-add_to k j n m))

no_entry : (j : String) → amount_of j [] ≡ 0
unfolding lookup
no_entry j = refl

pub create-IsExact : (k : Capabilities) → AllWords k.pools → IsExact (create k) []
unfolding create
create-IsExact k w = record {
  bounded = record {
    total_lt = λ pool. assign_all-word k.pools [] pool w (omega (arith, no_entry pool));
    reserved_lt = λ pool. add_all-word k.reservations [] pool (omega (arith, no_entry pool));
    fits = λ pool. inl (no_entry pool);
    limited = λ t. ground (arith, no_entry t);
  };
  in_use = no_entry;
  flights = no_entry;
  distinct = tt;
}

-- Whatever tasks were admitted, refused and released since the controller was created: in every
-- pool the amounts of the tasks that hold capacity add up to 0, or with the reserved share to at
-- most the pool's total; and the tasks of a type with a limit are no more than the limit.
pub held_within_capacity :
    (k : Capabilities) (c : Controller) (hs : List Holder)
    → AllWords k.pools
    → Reach (create k) c hs
    → ((pool : String)
        → (held pool hs ≡ 0)
          ⊎ (amount_of pool c.pool_reserved_map + held pool hs ≤ amount_of pool c.pool_total_map))
      × ((t : String)
          → (amount_of t c.type_concurrency_map ≡ 0)
            ⊎ (running t hs ≤ amount_of t c.type_concurrency_map))
held_within_capacity k c hs w r =
    let x = Reach-IsExact (create-IsExact k w) r in
    (
      λ pool. ground (arith, x.bounded.fits pool, x.in_use pool),
      λ t. ground (arith, x.bounded.limited t, x.flights t),
    )

-- When every admitted task was released, nothing is in use in any pool and nothing is in flight.
pub drained :
    (k : Capabilities) (c : Controller)
    → AllWords k.pools
    → Reach (create k) c []
    → ((pool : String) → amount_of pool c.pool_in_use_map ≡ 0) × ((t : String) → in_flight c t ≡ 0)
drained k c w r = let x = Reach-IsExact (create-IsExact k w) r in (x.in_use, x.flights)
