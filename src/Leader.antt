-- ===== src/Leader.antt =====
-- modules/redis/leader-election.service.ts: one server of several leads, as long as Redis keeps
-- its id under the key of the service. That value is the lease; that it expires is a step of its
-- own. A method is run as a whole, and `down` says which of its calls of Redis fail.
pub mod Lease
pub mod Turns
mod Tests
use chicken_road_b.Base.{
  String, Bool, true, false, ◌&&◌, not, Option, none, some, str_eq, template, [], ◌∷◌, is_some,
  if◌then◌else◌, Action, io_error, pure, throw_if, gets, modify, catching, ◌>>=◌, ◌>>◌,
}
use chicken_road_b.Stores.{Outage, leader_get, leader_set, leader_del}

-- What a server sees: the lease, which it shares with the others, and its own two fields.
pub record Leadership : Type 0 where
  pub lease : Option String
  pub is_currently_leader : Bool
  -- the timer of the renewals runs
  pub renewing : Bool

-- `${hostname}-${pid}`
abbrev pub server_id_of : String → String → String
server_id_of hostname pid = template (hostname ∷ "-" ∷ pid ∷ [])

-- `currentLeader === this.serverId`
abbrev pub is_mine : String → Option String → Bool
is_mine id none = false
is_mine id (some leader) = str_eq leader id

module _ (down : Outage) (server_id : String) where
  abbrev pub gain_flag : Leadership → Leadership
  gain_flag l = record l { is_currently_leader = true; renewing = true }

  abbrev pub lose_flag : Leadership → Leadership
  lose_flag l = record l { is_currently_leader = false; renewing = false }

  unfoldable pub read_lease : Action Leadership (Option String)
  read_lease = do throw_if (down leader_get) io_error; gets (λ l. l.lease)

  -- `SET key id EX ttl NX`; the leader of a lease that is taken is read for the log only.
  unfoldable pub try_become_leader : Action Leadership Bool
  unfolding read_lease
  try_become_leader =
      catching
        (do
          throw_if (down leader_set) io_error
          held ← gets (λ l. is_some l.lease)
          if held
              then (do read_lease; pure false)
              else (do modify (λ l. gain_flag (record l { lease = some server_id })); pure true))
        (λ e. pure false)

  -- The two corrections of the flag.
  unfoldable pub note_leader : Bool → Leadership → Leadership
  note_leader mine l =
      if l.is_currently_leader && not mine
      then lose_flag l
      else if not l.is_currently_leader && mine
      then gain_flag l
      else l

  unfoldable pub is_leader : Action Leadership Bool
  unfolding read_lease note_leader
  is_leader =
      catching
        (do
          current ← read_lease
          modify (note_leader (is_mine server_id current))
          pure (is_mine server_id current))
        (λ e. pure false)

  -- What follows the test of the lease: it is set again, or the leadership is lost.
  unfoldable pub renew_as : Bool → Action Leadership Bool
  renew_as true = do
    throw_if (down leader_set) io_error
    modify (λ l. record l { lease = some server_id })
    pure true
  renew_as false = do modify lose_flag; pure false

  unfoldable pub renew_lease : Action Leadership Bool
  unfolding read_lease renew_as
  renew_lease =
      catching (do current ← read_lease; renew_as (is_mine server_id current)) (λ e. pure false)

  unfoldable pub release_as : Bool → Action Leadership (Unit {0})
  release_as true = do
    throw_if (down leader_del) io_error
    modify (λ l. record l { lease = none })
    modify lose_flag
  release_as false = modify lose_flag

  unfoldable pub release_leadership : Action Leadership (Unit {0})
  unfolding read_lease release_as
  release_leadership =
      catching (do current ← read_lease; release_as (is_mine server_id current)) (λ e. pure tt)

  unfoldable pub get_current_leader : Action Leadership (Option String)
  unfolding read_lease
  get_current_leader = catching read_lease (λ e. pure none)

  -- A tick of the timer: the leadership is asked for again if the renewal failed and the flag
  -- still stands.
  unfoldable pub regain : Bool → Action Leadership Bool
  unfolding try_become_leader
  regain renewed = do
    flag ← gets (λ l. l.is_currently_leader)
    if not renewed && flag then try_become_leader else pure renewed

  unfoldable pub renewal_tick : Action Leadership Bool
  unfolding renew_lease regain
  renewal_tick = renew_lease >>= regain

  -- The timer stops; neither the lease nor the flag is given up.
  unfoldable pub on_module_destroy : Leadership → Leadership
  on_module_destroy l = record l { renewing = false }

-- The methods by which the lease changes, or by which a server asks whether it leads.
pub data Op : Type 0 where
  become ask renew release tick : Op

unfoldable pub perform : Op → Outage → String → Action Leadership Bool
unfolding try_become_leader is_leader renew_lease release_leadership renewal_tick
perform become down id = try_become_leader down id
perform ask down id = is_leader down id
perform renew down id = renew_lease down id
perform release down id = do release_leadership down id; pure false
perform tick down id = renewal_tick down id
