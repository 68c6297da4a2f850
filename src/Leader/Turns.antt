-- ===== src/Leader/Turns.antt =====
-- Several servers that call the methods in any order.
use chicken_road_b.Base.{
  String, Bool, true, false, ◌&&◌, Option, none, some, List, [], ◌∷◌, ◌++◌, ◌≡◌, refl, arith,
  Result, ok, err, All, str_eq, eq_iff, sym, ◌∙◌, if◌then◌else◌,
}
use chicken_road_b.Stores.{Outage}
use chicken_road_b.Leader.{Leadership, Op, perform}
use chicken_road_b.Leader.Lease.{Move, keep, take_free, give_back, is_release, perform-Obeys}

-- A method that a server calls, or the end of the lease's time.
pub data Event : Type 0 where
  calls : (server : String) → Op → Outage → Event
  expires : Event

pub record Cluster : Type 0 where
  pub lease : Option String
  -- the flag and the timer of each server
  pub flags : String → Bool × Bool

abbrev seen_by : String → Cluster → Leadership
seen_by s c = record {
  lease = c.lease;
  is_currently_leader = (c.flags s).0;
  renewing = (c.flags s).1;
}

abbrev after : String → Leadership → Cluster → Cluster
after s l c = record {
  lease = l.lease;
  flags = λ t. if str_eq s t then (l.is_currently_leader, l.renewing) else c.flags t;
}

-- The servers to which an event told that they lead, and the cluster after it.
abbrev told : String → Result Bool → List String
told s (ok true) = s ∷ []
told s _ = []

unfoldable pub happen : Event → Cluster → List String × Cluster
unfolding perform
happen (calls s op down) c = let (r, l) = perform op down s (seen_by s c) in (told s r, after s l c)
happen expires c = ([], record c { lease = none })

unfoldable pub run : List Event → Cluster → List String × Cluster
unfolding happen
run [] c = ([], c)
run (e ∷ es) c = let (now, c') = happen e c in let (later, c'') = run es c' in (now ++ later, c'')

-- The event may end the lease of the server.
abbrev pub ends : String → Event → Bool
ends s (calls t op down) = is_release op && str_eq t s
ends s expires = true

move_keeps :
    {frees : Bool} {t : String} {a b : Option String} (s : String)
    → Move frees t a b
    → frees && str_eq t s ≡ false
    → a ≡ some s
    → b ≡ some s
move_keeps s (keep lease) h e = e
move_keeps s take_free h e = absurd (cc)
move_keeps {t = t} s (give_back f) h e = absurd (released f (cc) h)
  where
    released : {b : Bool} → b ≡ true → t ≡ s → b && str_eq t s ≡ false → ⊥
    released p q r = ground (arith, eq_iff t s)

All-append :
    (s : String) (xs ys : List String)
    → All (λ t. t ≡ s) xs
    → All (λ t. t ≡ s) ys
    → All (λ t. t ≡ s) (xs ++ ys)
All-append s [] ys a b = b
All-append s (x ∷ xs) ys (p, a) b = (p, All-append s xs ys a b)

told_holder :
    (s t : String) (r : Result Bool) {lease : Option String}
    → lease ≡ some s
    → (r ≡ ok true → lease ≡ some t)
    → All (λ u. u ≡ s) (told t r)
told_holder s t (ok true) e h = (cc (sym (h refl) ∙ e), tt)
told_holder s t (ok false) e h = tt
told_holder s t (err x) e h = tt

-- The server holds the lease, and only it is told that it leads.
abbrev pub Alone : String → List String × Cluster → Type 0
Alone s (answers, c) = (c.lease ≡ some s) × All (λ t. t ≡ s) answers

happen-Alone :
    (s : String) (e : Event) (c : Cluster)
    → c.lease ≡ some s
    → ends s e ≡ false
    → Alone s (happen e c)
unfolding happen
happen-Alone s (calls t op down) c held h =
    let o = perform-Obeys down t op (seen_by t c) in
    let kept = move_keeps s o.move h held in
    (kept, told_holder s t (perform op down t (seen_by t c)).0 kept o.told)
happen-Alone s expires c held h = absurd (cc)

run-Alone :
    (s : String) (es : List Event) (c : Cluster)
    → c.lease ≡ some s
    → All (λ e. ends s e ≡ false) es
    → Alone s (run es c)
unfolding run
run-Alone s [] c held h = (held, tt)
run-Alone s (e ∷ es) c held (h, hs) =
    let (kept, now) = happen-Alone s e c held h in
    let (last, later) = run-Alone s es (happen e c).1 kept hs in
    (last, All-append s (happen e c).0 (run es (happen e c).1).0 now later)

told_lease : (s : String) (r : Result Bool) → told s r ≡ s ∷ [] → r ≡ ok true
told_lease s (ok true) h = refl
told_lease s (ok false) h = absurd (cc)
told_lease s (err x) h = absurd (cc)

-- Once a method told a server that it leads, then as long as the lease does not expire and the
-- server does not release it, whatever methods the servers call in whatever order and whichever
-- calls of Redis fail, the server holds the lease and every answer that somebody leads is given
-- to it alone.
pub leader-Alone :
    (s : String) (op : Op) (down : Outage) (es : List Event) (c : Cluster)
    → (happen (calls s op down) c).0 ≡ s ∷ []
    → All (λ e. ends s e ≡ false) es
    → Alone s (run es (happen (calls s op down) c).1)
unfolding happen
leader-Alone s op down es c was_told h =
    let o = perform-Obeys down s op (seen_by s c) in
    run-Alone s es (after s (perform op down s (seen_by s c)).1 c)
      (o.told (told_lease s (perform op down s (seen_by s c)).0 was_told)) h
