-- ===== src/ProbeLocal/Node.antt =====
-- What a node that runs the probe local scheduler promises about its capacity.
use strij.Base.{ℕ, ◌+◌, ◌≤◌, ◌≡◌, ◌⊎◌, refl, String, [], arith, Assoc, amount_of}
use strij.Admission.{Capabilities, create, in_flight, register_capacity_observer}
use strij.Admission.Holders.{held, running, IsExact}
use strij.Admission.Capacity.{AllWords, create-IsExact}
use strij.FetchRouter.{Router}
use strij.ProbeLocal.{Codec, Scheduler, initial}
use strij.ProbeLocal.Books.{holders}
use strij.ProbeLocal.Protocol.{ParsesMaps, Reach, Reach-IsReady}
use strij.ProbeLocal.Safety.{IsReady}

module _ (codec : Codec) (k : Capabilities) (router : Router) (handlers : Assoc ℕ)
    (observer cap bound : ℕ) (s : Scheduler) (maps : ParsesMaps codec) (words : AllWords k.pools)
    (reach : Reach codec (initial observer (create k) router handlers cap bound) s) where
  registered-IsExact : IsExact (register_capacity_observer (create k) observer) []
  unfolding register_capacity_observer
  registered-IsExact =
      let x = create-IsExact k words in
      record {
        bounded = record {
          total_lt = x.bounded.total_lt;
          reserved_lt = x.bounded.reserved_lt;
          fits = x.bounded.fits;
          limited = x.bounded.limited;
        };
        in_use = x.in_use;
        flights = x.flights;
        distinct = tt;
      }

  ready : IsReady s
  unfolding initial register_capacity_observer
  ready =
      Reach-IsReady codec (initial observer (create k) router handlers cap bound) s maps
        (record {
          balanced = record { exact = registered-IsExact; kept = tt };
          requests = tt;
          live = tt;
        })
        reach

  -- Whatever frames, commands and ends of tasks a node has met since it started, with fewer scopes
  -- than the counters hold: in every pool the amounts held by its pending pulls and running tasks
  -- add up to 0, or with the reserved share to at most the pool's total; and the pending and running
  -- tasks of a type with a limit are no more than the limit.
  pub scopes_within_capacity :
      ((pool : String)
        → (held pool (holders s) ≡ 0)
          ⊎ (amount_of pool s.admission.pool_reserved_map + held pool (holders s)
              ≤ amount_of pool s.admission.pool_total_map))
      × ((t : String)
          → (amount_of t s.admission.type_concurrency_map ≡ 0)
            ⊎ (running t (holders s) ≤ amount_of t s.admission.type_concurrency_map))
  scopes_within_capacity =
      let x = ready.balanced.exact in
      (
        λ pool. ground (arith, x.bounded.fits pool, x.in_use pool),
        λ t. ground (arith, x.bounded.limited t, x.flights t),
      )

  -- A node leaks no capacity: with no pending pull and no running task, nothing is in use in any
  -- pool and nothing is in flight.
  pub idle-drained :
      s.pull_pending ≡ []
      → s.running ≡ []
      → ((pool : String) → amount_of pool s.admission.pool_in_use_map ≡ 0)
        × ((t : String) → in_flight s.admission t ≡ 0)
  idle-drained no_pending no_running =
      let x = ready.balanced.exact in
      (
        λ pool. rw (x.in_use pool, no_pending, no_running) refl,
        λ t. rw (x.flights t, no_pending, no_running) refl,
      )
