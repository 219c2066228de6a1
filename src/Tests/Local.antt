-- ===== src/Tests/Local.antt =====
-- The theorems on the default scheduler of a node at concrete states.
use strij.Base.{
  ◌≡◌, refl, Bool, true, List, [], ◌∷◌, ◌++◌, Option, none, some, if◌then◌else◌, ◌⊎◌, lookup,
}
use strij.Task.{Task}
use strij.LocalScheduler.{LocalScheduler, schedule, get}
use strij.LocalScheduler.Outcome.{Ran, Forwarded, Refused, schedule-Resolves}
use strij.LocalScheduler.Stream.{Arrival, sent, framed, arrive_all, results_of, arrive_all-stream}
use strij.GatewayFrames.Results.{stream, ends}
use strij.Admission.{create}
use strij.Tests.Routing.{part, failure}

abbrev local : LocalScheduler
local = record {
  admission = create (record { pools = []; reservations = []; handlers = [] });
  handlers = ("echo", 0) ∷ [];
  receivers = ("t1", 4) ∷ [];
  deliveries = [];
  forwarded = [];
  running = [];
}

abbrev child : Task
child = record { id = "c1"; type = "resize"; body = []; requirements = []; deps = [] }

abbrev takes_all : Option (Task → Bool)
takes_all = some (λ task. true)

schedule-Resolves_example :
    let s' = schedule takes_all local child 5 in
    Ran takes_all local child 5 s'
    ⊎ (Forwarded takes_all local child 5 s' ⊎ Refused takes_all local child 5 s')
schedule-Resolves_example = schedule-Resolves takes_all local child 5

abbrev arrivals : List Arrival
arrivals = framed part ∷ sent part ∷ framed failure ∷ sent part ∷ []

arrive_all-stream_example :
    ((arrive_all "t1" local arrivals).deliveries
      ≡ local.deliveries ++ stream 4 (results_of arrivals))
    × (get (arrive_all "t1" local arrivals) "t1"
        ≡ (if ends (results_of arrivals) then none else some 4))
unfolding lookup
arrive_all-stream_example =
    arrive_all-stream "t1" 4 local arrivals (refl, (refl, (refl, (refl, tt)))) refl
