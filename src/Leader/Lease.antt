-- ===== src/Leader/Lease.antt =====
-- The election is a lease: what each method may do to it, and what its answer means.
use chicken_road_b.Base.{
  String, Bool, true, false, Option, none, some, ◌≡◌, refl, arith, ok, Action, Result, Bool-cases,
  eq_iff, eq_refl, inl, inr, sym, ap, ◌∙◌, catching, Thrown, io_error, err, ◌>>=◌, bind_run, subst,
  pure, ◌>>◌,
}
use chicken_road_b.Stores.{Outage, leader_get, leader_set, leader_del}
use chicken_road_b.Leader.{
  Op, become, ask, renew, release, tick, perform, Leadership, is_mine, try_become_leader, is_leader,
  note_leader, renew_lease, release_leadership, renewal_tick, read_lease, renew_as, release_as,
  regain,
}

-- The abstract lease: it is taken by a server when it is free, and given back by its holder, if
-- the method is one that frees it.
pub data Move (frees : Bool) (id : String) : Option String → Option String → Type 0 where
  keep : (lease : Option String) → Move frees id lease lease
  take_free : Move frees id none (some id)
  give_back : frees ≡ true → Move frees id (some id) none

-- What a method of a server may do: one move of the lease, or a renewal and a move after it;
-- an answer that it leads means that it holds the lease; the flag and the timer go together.
pub record Obeys (frees : Bool) (id : String) (l : Leadership) (o : Result Bool × Leadership)
    : Type 0 where
  pub move : Move frees id l.lease o.1.lease
  pub told : o.0 ≡ ok true → o.1.lease ≡ some id
  pub flag : l.is_currently_leader ≡ l.renewing → o.1.is_currently_leader ≡ o.1.renewing

abbrev at_lease : Option String → Bool → Bool → Leadership
at_lease lease flag timer = record { lease = lease; is_currently_leader = flag; renewing = timer }

-- Nothing is changed, and the answer is no.
silent : (frees : Bool) (id : String) (l : Leadership) → Obeys frees id l (ok false, l)
silent frees id l = record { move = keep l.lease; told = λ h. absurd (cc); flag = λ h. h }

ok_inj : {a b : Bool} → ok a ≡ ok b → a ≡ b
ok_inj h = cc

module _ (frees : Bool) (down : Outage) (id : String) where
  become_at :
      (lease : Option String) (flag timer : Bool)
      → Obeys frees id
          (at_lease lease flag timer)
          (try_become_leader down id (at_lease lease flag timer))
  unfolding try_become_leader
  become_at none flag timer = elim (Bool-cases (down leader_set)) [
    | inl fails ↦ rw fails (silent frees id (at_lease none flag timer))
    | inr works ↦ rw works (record { move = take_free; told = λ h. refl; flag = λ h. refl })
  ]
  become_at (some x) flag timer = elim (Bool-cases (down leader_set)) [
    | inl fails ↦ rw fails (silent frees id (at_lease (some x) flag timer))
    | inr works ↦ elim (Bool-cases (down leader_get)) [
      | inl lost ↦ rw (works, lost) (silent frees id (at_lease (some x) flag timer))
      | inr read ↦ rw (works, read) (silent frees id (at_lease (some x) flag timer))
    ]
  ]

  noted_flag :
      (mine : Bool) (l : Leadership)
      → l.is_currently_leader ≡ l.renewing
      → let l' = note_leader down id mine l in l'.is_currently_leader ≡ l'.renewing
  unfolding note_leader
  noted_flag mine l h = ground arith

  pub noted_lease : (mine : Bool) (l : Leadership) → (note_leader down id mine l).lease ≡ l.lease
  unfolding note_leader
  noted_lease mine l = ground arith

  mine_lem : (lease : Option String) → is_mine id lease ≡ true → lease ≡ some id
  mine_lem none h = absurd (cc)
  mine_lem (some x) h = ap some ((eq_iff x id).0 h)

  -- What the holder of the lease is told.
  pub asked :
      (l : Leadership)
      → down leader_get ≡ false
      → l.lease ≡ some id
      → is_leader down id l ≡ (ok true, note_leader down id true l)
  unfolding is_leader
  asked l works mine = rw works (rw (mine, eq_refl id) refl)

  ask_at : (l : Leadership) → Obeys frees id l (is_leader down id l)
  unfolding is_leader
  ask_at l = elim (Bool-cases (down leader_get)) [
    | inl fails ↦ rw fails (silent frees id l)
    | inr works ↦ rw works (record {
      move = rw (noted_lease (is_mine id l.lease) l) (keep l.lease);
      told = λ h. noted_lease (is_mine id l.lease) l ∙ mine_lem l.lease (ok_inj h);
      flag = noted_flag (is_mine id l.lease) l;
    })
  ]

  -- A renewal keeps the lease.
  record Renews (l : Leadership) (o : Result Bool × Leadership) : Type 0 where
    same : o.1.lease ≡ l.lease
    answer : Bool
    answers : o.0 ≡ ok answer
    holds : answer ≡ true → l.lease ≡ some id
    flag : l.is_currently_leader ≡ l.renewing → o.1.is_currently_leader ≡ o.1.renewing

  no_renewal : (l : Leadership) → Renews l (ok false, l)
  no_renewal l = record {
    same = refl;
    answer = false;
    answers = refl;
    holds = λ h. absurd (cc);
    flag = λ h. h;
  }

  read_fails : (l : Leadership) → down leader_get ≡ true → read_lease down id l ≡ (err io_error, l)
  unfolding read_lease
  read_fails l fails = rw fails refl

  read_works : (l : Leadership) → down leader_get ≡ false → read_lease down id l ≡ (ok l.lease, l)
  unfolding read_lease
  read_works l works = rw works refl

  module _ {A : Type 0} (f : Bool → Action Leadership A) (h : Thrown → Action Leadership A)
      (l : Leadership) where
    abbrev tested : Action Leadership A
    tested = read_lease down id >>= λ current. f (is_mine id current)

    -- The lease cannot be read; it is another's; it is this server's.
    tested_cases :
        (P : Result A × Leadership → Type 0)
        → P (h io_error l)
        → P (catching (f false) h l)
        → (l.lease ≡ some id → P (catching (f true) h l))
        → P (catching tested h l)
    tested_cases P lost other mine = elim (Bool-cases (down leader_get)) [
      | inl fails ↦ back (unread fails) lost
      | inr works ↦ read (is_mine id l.lease) refl works
    ]
      where
        back :
            {o : Result A × Leadership}
            → tested l ≡ o
            → P (catching (λ _. o) h l)
            → P (catching tested h l)
        back e p = subst P (sym (ap (λ o. catching (λ _. o) h l) e)) p

        unread : down leader_get ≡ true → tested l ≡ (err io_error, l)
        unread fails = unfold read_lease in rw fails refl

        run : (b : Bool) → is_mine id l.lease ≡ b → down leader_get ≡ false → tested l ≡ f b l
        run b e works =
            bind_run (read_lease down id) (λ current. f (is_mine id current)) l (read_works l works)
            ∙ ap (λ b. f b l) e

        read :
            (b : Bool) → is_mine id l.lease ≡ b → down leader_get ≡ false → P (catching tested h l)
        read true e works = back (run true e works) (mine (mine_lem l.lease e))
        read false e works = back (run false e works) other

  renew_at : (l : Leadership) → Renews l (renew_lease down id l)
  unfolding renew_lease
  renew_at l =
      tested_cases (renew_as down id) (λ e. pure false) l (Renews l) (no_renewal l)
        (record {
          same = refl;
          answer = false;
          answers = refl;
          holds = λ h. absurd (cc);
          flag = λ h. refl;
        })
        (λ held. elim (Bool-cases (down leader_set)) [
          | inl lost ↦ rw lost (no_renewal l)
          | inr kept ↦ rw kept (record {
            same = sym held;
            answer = true;
            answers = refl;
            holds = λ h. held;
            flag = λ h. h;
          })
        ])

  release_at :
      frees ≡ true
      → (l : Leadership) → Obeys frees id l ((release_leadership down id >> pure false) l)
  unfolding release_leadership
  release_at f l =
      tested_cases (release_as down id) (λ e. pure tt) l
        (λ o. Obeys frees id l (((λ _. o) >> pure false) l)) (silent frees id l)
        (record { move = keep l.lease; told = λ h. absurd (cc); flag = λ h. refl })
        (λ held. elim (Bool-cases (down leader_del)) [
          | inl lost ↦ rw lost (silent frees id l)
          | inr given ↦ rw given (record {
            move = subst (λ o. Move frees id o none) (sym held) (give_back f);
            told = λ h. absurd (cc);
            flag = λ h. refl;
          })
        ])

  renew-Obeys : (l : Leadership) → Obeys frees id l (renew_lease down id l)
  renew-Obeys l =
      let r = renew_at l in
      record {
        move = subst (λ o. Move frees id l.lease o) (sym r.same) (keep l.lease);
        told = λ h. r.same ∙ r.holds (ok_inj (sym r.answers ∙ h));
        flag = r.flag;
      }

  regain-Obeys :
      (b : Bool) (l : Leadership)
      → (b ≡ true → l.lease ≡ some id)
      → Obeys frees id l (regain down id b l)
  unfolding regain
  regain-Obeys true l held = record { move = keep l.lease; told = λ h. held refl; flag = λ h. h }
  regain-Obeys false l held = elim (Bool-cases l.is_currently_leader) [
    | inl flagged ↦ rw flagged (become_at l.lease true l.renewing)
    | inr plain ↦ rw plain (silent frees id (record l { is_currently_leader = false }))
  ]

  tick_at : (l : Leadership) → Obeys frees id l (renewal_tick down id l)
  unfolding renewal_tick
  tick_at l =
      let r = renew_at l in
      let l' = (renew_lease down id l).1 in
      let o = regain-Obeys r.answer l' (λ h. r.same ∙ r.holds h) in
      subst (Obeys frees id l)
        (sym (bind_run (renew_lease down id) (regain down id) l (ap (λ a. (a, l')) r.answers)))
        (record {
          move =
              subst (λ lease. Move frees id lease (regain down id r.answer l').1.lease) r.same
                o.move;
          told = o.told;
          flag = λ h. o.flag (r.flag h);
        })

abbrev pub is_release : Op → Bool
is_release release = true
is_release _ = false

module _ (down : Outage) (id : String) where
  -- Whatever the lease, the flag and the timer are and whichever calls of Redis fail, each
  -- method of the election that a server runs does to the lease only what an abstract lease
  -- allows it: it leaves it, takes it when it is free, or, as a release alone may, gives back
  -- its own. An answer that the server leads means that it holds the lease, and if the flag
  -- said whether the timer of renewals runs before, it says so after.
  pub perform-Obeys : (op : Op) (l : Leadership) → Obeys (is_release op) id l (perform op down id l)
  unfolding perform
  perform-Obeys become l = become_at false down id l.lease l.is_currently_leader l.renewing
  perform-Obeys ask l = ask_at false down id l
  perform-Obeys renew l = renew-Obeys false down id l
  perform-Obeys release l = release_at true down id refl l
  perform-Obeys tick l = tick_at false down id l
