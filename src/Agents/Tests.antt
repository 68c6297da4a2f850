-- ===== src/Agents/Tests.antt =====
-- An agent without a list of games, which may offer every game, is given one.
use chicken_road_b.Base.{◌≡◌, refl, true, false, none, [], ◌∷◌, ok, Ends}
use chicken_road_b.Stores.{none_down}
use chicken_road_b.Stores.Assoc.{assoc, assoc-Laws}
use chicken_road_b.Agents.{
  AgentTables, CreateAgentParams, has_game_access, add_game_access, create, save_agent, find_one,
  new_agent, allows,
}
use chicken_road_b.Agents.Access.{add_game_access_lem}
use chicken_road_b.Samples.{game}

abbrev params : CreateAgentParams
params = record {
  agent_id = "op";
  cert = "c";
  agent_ip_address = "10.0.0.1";
  callback_url = "http://op";
  is_whitelisted = none;
  created_by = "admin";
}

abbrev tables : AgentTables assoc
tables = record { agents = ("op", new_agent params) ∷ []; games = ("road", game) ∷ [] }

add_game_access_example : Ends (add_game_access assoc none_down "op" "road") tables (λ b w'.
    Ends (has_game_access assoc none_down "op" "mines") w' (λ allowed w''. allowed ≡ false))
add_game_access_example =
    add_game_access_lem assoc assoc-Laws none_down "op" "road" "mines" tables (new_agent params)
      game refl refl refl refl refl refl

-- Before that it may offer the other game too.
allowed_before : (has_game_access assoc none_down "op" "mines" tables).0 ≡ ok true
unfolding has_game_access find_one allows
allowed_before = refl

created : (create assoc none_down params (record tables { agents = [] })).1 ≡ tables
unfolding create find_one save_agent
created = refl
