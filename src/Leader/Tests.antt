-- ===== src/Leader/Tests.antt =====
-- Two servers, `a` and `b`.
use chicken_road_b.Base.{true, false, none, List, [], ◌∷◌, ◌≡◌, refl, ok}
use chicken_road_b.Stores.{none_down}
use chicken_road_b.Leader.{Leadership, become, ask, tick, perform}
use chicken_road_b.Leader.Lease.{Obeys, perform-Obeys}
use chicken_road_b.Leader.Turns.{Event, calls, Cluster, happen, run, Alone, leader-Alone}

abbrev start : Cluster
start = record { lease = none; flags = λ s. (false, false) }

abbrev turns : List Event
turns =
    calls "b" become none_down
    ∷ calls "a" tick none_down
    ∷ calls "b" ask none_down
    ∷ calls "a" ask none_down
    ∷ []

leader-Alone_example : Alone "a" (run turns (happen (calls "a" become none_down) start).1)
unfolding happen
leader-Alone_example =
    leader-Alone "a" become none_down turns start refl (refl, (refl, (refl, (refl, tt))))

turns_told : (run turns (happen (calls "a" become none_down) start).1).0 ≡ "a" ∷ "a" ∷ []
unfolding run
turns_told = refl

perform-Obeys_example :
    let l : Leadership = record { lease = none; is_currently_leader = true; renewing = true } in
    Obeys false "a" l (perform tick none_down "a" l)
perform-Obeys_example =
    perform-Obeys none_down "a" tick
      (record { lease = none; is_currently_leader = true; renewing = true })

-- A server that has lost the lease to nobody does not ask for it again: its own failed renewal
-- has taken the flag down.
lost_for_good :
    (perform tick none_down "a"
      (record { lease = none; is_currently_leader = true; renewing = true })).0
    ≡ ok false
unfolding perform
lost_for_good = refl
