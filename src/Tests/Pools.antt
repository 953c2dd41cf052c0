-- ===== src/Tests/Pools.antt =====
-- Runs of a mirroring pool, and headers that are removed.
use l7_proxy.Prelude.{◌⊎◌, arith, ◌≤◌, ◌+◌, All, ◌≡◌, refl, List, [], ◌∷◌, none, true, false}
use l7_proxy.Prelude.Int.{pos}
use l7_proxy.Text.{Str, codes}
use l7_proxy.Dict.{Dict, lookup}
use l7_proxy.Float.{fin}
use l7_proxy.Mirroring.{Job, hop_by_hop_headers, listed_in, values_of, remove_hop_by_hop_headers}
use l7_proxy.Mirroring.Listed.{Item, IsItem}
use l7_proxy.Mirroring.Headers.{IsHopByHop, IsListed, lookup-remove_hop_by_hop_headers}
use l7_proxy.Mirroring.Pool.{
  Worker, waiting, working, returned, Pool, new_pool, Trial, move, Label, accept, refuse, take,
  silent, Step, try_submit, stop, submits, stops, moves, Run, here, next,
}
use l7_proxy.Mirroring.Pool.Runs.{Inv, Run-new_pool-Inv}
use l7_proxy.Mirroring.Pool.Counted.{refused, tried, pending, offered, Run-new_pool-counts}
use l7_proxy.Mirroring.Pool.Ends.{moves_of, stop_ends}
use l7_proxy.Mirroring.Pool.Drain.{work}

abbrev headers : Dict (List Str)
headers =
    (codes "Connection", codes "keep-alive, X-Hop" ∷ [])
    ∷ (codes "X-Hop", codes "1" ∷ [])
    ∷ (codes "Accept", codes "*" ∷ [])
    ∷ []

-- The items of its Connection header.
abbrev items : List (List Item)
items =
    (record { before = []; name = codes "keep-alive"; after = [] }
      ∷ record { before = codes " "; name = codes "X-Hop"; after = [] }
      ∷ [])
    ∷ []

items-IsItem : All (All IsItem) items
items-IsItem = ground arith

lookup-remove_hop_by_hop_headers_example :
    (IsHopByHop (codes "X-Hop") ⊎ IsListed items (codes "X-Hop")
      → lookup (codes "X-Hop") (remove_hop_by_hop_headers headers) ≡ none)
    × (¬ (IsHopByHop (codes "X-Hop") ⊎ IsListed items (codes "X-Hop"))
        → lookup (codes "X-Hop") (remove_hop_by_hop_headers headers)
          ≡ lookup (codes "X-Hop") headers)
unfolding lookup
lookup-remove_hop_by_hop_headers_example =
    lookup-remove_hop_by_hop_headers (codes "X-Hop") headers items items-IsItem refl

headers_removed : remove_hop_by_hop_headers headers ≡ (codes "Accept", codes "*" ∷ []) ∷ []
unfolding remove_hop_by_hop_headers l7_proxy.Mirroring.del lookup l7_proxy.Text.split
    l7_proxy.Text.trim_space l7_proxy.Routing.Conditions.canonical_key
    l7_proxy.Config.Tokens.is_token_char
headers_removed = refl

abbrev pub job : Str → Job
job s = record {
  method = codes "GET";
  body = [];
  header = [];
  path = s;
  raw_query = [];
  targets = [];
}

abbrev pub trial : Trial
trial = record { rnd = fin (pos 0); fails = false }

-- One worker and room for one job: the second job is dropped, the first is taken, and the worker
-- returns after the stop.
abbrev labels : List Label
labels =
    accept (job (codes "a"))
    ∷ refuse (job (codes "b"))
    ∷ silent
    ∷ take (job (codes "a"))
    ∷ silent
    ∷ silent
    ∷ []

abbrev pub ended : Pool
ended = record {
  capacity = 1;
  queue = [];
  stopped = true;
  workers = returned ∷ [];
  counters = record { sent = 0; failed = 0; dropped = 1 };
}

abbrev pub pool : List Job → Worker → Pool
pool queue w = record ended { queue = queue; workers = w ∷ [] }

abbrev pub started : Pool
started = new_pool (pos 1) (pos 1)

abbrev pub filled : Pool
filled = record ended {
  queue = job (codes "a") ∷ [];
  stopped = false;
  workers = waiting ∷ [];
  counters = record { sent = 0; failed = 0; dropped = 0 };
}

filling : Step started (accept (job (codes "a"))) filled
unfolding new_pool try_submit
filling = submits (job (codes "a"))

refusing : Step filled (refuse (job (codes "b"))) (record filled { counters = ended.counters })
unfolding try_submit
refusing = submits (job (codes "b"))

stopping :
    Step (record filled { counters = ended.counters }) silent (pool (job (codes "a") ∷ []) waiting)
unfolding stop
stopping = stops

taking :
    Step
      (pool (job (codes "a") ∷ []) waiting)
      (take (job (codes "a")))
      (pool [] (working (job (codes "a")) []))
unfolding move
taking = moves {w = waiting} 0 trial refl refl

finishing : Step (pool [] (working (job (codes "a")) [])) silent (pool [] waiting)
unfolding move
finishing = moves {w = working (job (codes "a")) []} 0 trial refl refl

returning : Step (pool [] waiting) silent ended
unfolding move
returning = moves {w = waiting} 0 trial refl refl

whole-Run : Run started labels ended
whole-Run =
    next filling
      (next refusing (next stopping (next taking (next finishing (next returning here)))))

Run-new_pool-Inv_example : Inv ended
Run-new_pool-Inv_example = Run-new_pool-Inv (pos 1) (pos 1) ended labels whole-Run

Run-new_pool-counts_example :
    (ended.counters.dropped ≡ refused labels) × (tried ended + pending ended ≤ offered labels)
Run-new_pool-counts_example = Run-new_pool-counts (pos 1) (pos 1) ended labels whole-Run

taken_last :
    Run
      (pool (job (codes "a") ∷ []) waiting)
      (take (job (codes "a")) ∷ [])
      (pool [] (working (job (codes "a")) []))
taken_last = next taking here

stop_ends_example :
    (moves_of taken_last + work (pool [] (working (job (codes "a")) []))
      ≤ work (pool (job (codes "a") ∷ []) waiting))
    × ((r : Pool) × (ls : List Label) × Run (pool [] (working (job (codes "a")) [])) ls r
        × All (λ w. w ≡ returned) r.workers)
stop_ends_example = stop_ends taken_last refl
