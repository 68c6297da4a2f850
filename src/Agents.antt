-- ===== src/Agents.antt =====
-- modules/agents/agents.service.ts and entities/agents.entity.ts: the table of agents, keyed by
-- `agentId`, and which games an agent may offer. The times that the table keeps by itself, and the
-- columns that only other services write, are left out.
pub mod Access
mod Tests
use chicken_road_b.Base.{
  String, Bool, true, false, not, Option, none, some, List, [], ◌∷◌, ◌++◌, str_eq, includes_text,
  is_some, or_else, template, if◌then◌else◌, Action, not_found, conflict, io_error, pure, throw_if,
  or_throw, gets, modify, zoom, ◌>>=◌, ◌>>◌,
}
use chicken_road_b.Stores.{Stores, Outage, agent_find, agent_save, agent_delete}
use chicken_road_b.Games.{Game, get_game}

pub record AgentRow : Type 0 where
  pub agent_id : String
  pub cert : String
  pub agent_ip_address : String
  pub callback_url : String
  pub is_whitelisted : Bool
  pub allowed_game_codes : Option (List String)
  pub created_by : String
  pub updated_by : String

pub record CreateAgentParams : Type 0 where
  pub agent_id : String
  pub cert : String
  pub agent_ip_address : String
  pub callback_url : String
  pub is_whitelisted : Option Bool
  pub created_by : String

pub record UpdateAgentParams : Type 0 where
  pub cert : Option String
  pub agent_ip_address : Option String
  pub callback_url : Option String
  pub is_whitelisted : Option Bool
  pub updated_by : String

pub record AgentTables (st : Stores) : Type 0 where
  pub agents : st.Of AgentRow
  pub games : st.Of Game

-- `new` agents have no list of games.
abbrev pub new_agent : CreateAgentParams → AgentRow
new_agent p = record {
  agent_id = p.agent_id;
  cert = p.cert;
  agent_ip_address = p.agent_ip_address;
  callback_url = p.callback_url;
  is_whitelisted = or_else p.is_whitelisted true;
  allowed_game_codes = none;
  created_by = p.created_by;
  updated_by = p.created_by;
}

abbrev pub upserted : CreateAgentParams → AgentRow → AgentRow
upserted p a = record a {
  cert = p.cert;
  agent_ip_address = p.agent_ip_address;
  callback_url = p.callback_url;
  is_whitelisted = or_else p.is_whitelisted a.is_whitelisted;
  updated_by = p.created_by;
}

abbrev pub updated : UpdateAgentParams → AgentRow → AgentRow
updated p a = record a {
  cert = or_else p.cert a.cert;
  agent_ip_address = or_else p.agent_ip_address a.agent_ip_address;
  callback_url = or_else p.callback_url a.callback_url;
  is_whitelisted = or_else p.is_whitelisted a.is_whitelisted;
  updated_by = p.updated_by;
}

-- A missing or an empty list allows every game.
unfoldable pub allows : Option (List String) → String → Bool
allows none code = true
allows (some []) code = true
allows (some (c ∷ cs)) code = includes_text code (c ∷ cs)

module _ (st : Stores) (down : Outage) where
  abbrev World : Type 0
  World = AgentTables st

  abbrev pub on_games : {A : Type 0} → Action (st.Of Game) A → Action World A
  on_games = zoom (λ w. w.games) (λ g w. record w { games = g })

  unfoldable pub find_one : String → Action World (Option AgentRow)
  find_one agent_id = do
    throw_if (down agent_find) io_error
    gets (λ w. st.get AgentRow w.agents agent_id)

  unfoldable pub save_agent : AgentRow → Action World AgentRow
  save_agent a = do
    throw_if (down agent_save) io_error
    modify (λ w. record w { agents = st.put AgentRow w.agents a.agent_id a })
    pure a

  abbrev pub find_where : (AgentRow → Bool) → Action World (List AgentRow)
  find_where p = do throw_if (down agent_find) io_error; gets (λ w. st.select AgentRow w.agents p)

  unfoldable pub create : CreateAgentParams → Action World AgentRow
  create p = do
    existing ← find_one p.agent_id
    throw_if (is_some existing) (conflict "Agent already exists")
    save_agent (new_agent p)

  unfoldable pub upsert_found : CreateAgentParams → Option AgentRow → Action World AgentRow
  upsert_found p none = create p
  upsert_found p (some a) = save_agent (upserted p a)

  unfoldable pub upsert : CreateAgentParams → Action World AgentRow
  upsert p = find_one p.agent_id >>= upsert_found p

  unfoldable pub find_all : Action World (List AgentRow)
  find_all = find_where (λ a. true)

  unfoldable pub find_all_whitelisted : Action World (List AgentRow)
  find_all_whitelisted = find_where (λ a. a.is_whitelisted)

  unfoldable pub update : String → UpdateAgentParams → Action World AgentRow
  update agent_id p = do
    found ← find_one agent_id
    a ← or_throw found (not_found "Agent not found")
    save_agent (updated p a)

  unfoldable pub toggle_whitelist : String → String → Option Bool → Action World AgentRow
  toggle_whitelist agent_id updated_by value = do
    found ← find_one agent_id
    a ← or_throw found (not_found "Agent not found")
    save_agent (record a {
      is_whitelisted = or_else value (not a.is_whitelisted);
      updated_by = updated_by;
    })

  -- Whether a row was deleted.
  unfoldable pub remove : String → Action World Bool
  remove agent_id = do
    throw_if (down agent_delete) io_error
    success ← gets (λ w. is_some (st.get AgentRow w.agents agent_id))
    modify (λ w. record w { agents = st.del AgentRow w.agents agent_id })
    pure success

  unfoldable pub find_by_ip : String → Action World (List AgentRow)
  find_by_ip ip = find_where (λ a. str_eq a.agent_ip_address ip)

  unfoldable pub find_by_callback_url : String → Action World (List AgentRow)
  find_by_callback_url url = find_where (λ a. str_eq a.callback_url url)

  abbrev pub access_of : String → Option AgentRow → Bool
  access_of game_code none = false
  access_of game_code (some a) = allows a.allowed_game_codes game_code

  unfoldable pub has_game_access : String → String → Action World Bool
  has_game_access agent_id game_code = do
    found ← find_one agent_id
    pure (access_of game_code found)

  abbrev pub with_game : String → AgentRow → AgentRow
  with_game game_code a = record a {
    allowed_game_codes = some (or_else a.allowed_game_codes [] ++ game_code ∷ []);
  }

  unfoldable pub add_game_access : String → String → Action World AgentRow
  add_game_access agent_id game_code = do
    on_games (get_game st down game_code)
    found ← find_one agent_id
    a ← or_throw found (not_found (template ("Agent with id " ∷ agent_id ∷ " not found" ∷ [])))
    save_agent (with_game game_code a)
