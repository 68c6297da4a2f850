-- ===== src/Games.antt =====
-- modules/games/game.service.ts: the table of games. It is keyed by `gameCode`.
use chicken_road_b.Base.{
  String, Bool, true, Option, List, str_eq, or_text, or_else, is_some, not, Action, not_found,
  conflict, io_error, pure, throw_if, or_throw, template, [], ◌∷◌, gets, modify, ◌>>=◌, ◌>>◌,
}
use chicken_road_b.Stores.{Stores, Outage, game_find, game_save}

pub record Game : Type 0 where
  pub game_code : String
  pub game_name : String
  pub platform : String
  pub game_type : String
  pub settle_type : String
  pub is_active : Bool

pub record GamePayloads : Type 0 where
  pub game_code : String
  pub game_name : String
  pub platform : String
  pub game_type : String
  pub settle_type : String

-- The parameter of `createGame`.
pub record NewGame : Type 0 where
  pub game_code : String
  pub game_name : String
  pub platform : Option String
  pub game_type : Option String
  pub settle_type : Option String
  pub is_active : Option Bool

module _ (st : Stores) (down : Outage) where
  abbrev Games : Type 0
  Games = st.Of Game

  unfoldable pub get_game : String → Action Games Game
  get_game game_code = do
    throw_if (down game_find) io_error
    or_throw (← gets (λ t. st.find Game t (λ g. str_eq g.game_code game_code)))
        (not_found (template ("Game with code " ∷ game_code ∷ " not found" ∷ [])))

  unfoldable pub validate_game : String → Action Games (Unit {0})
  unfolding get_game
  validate_game game_code = do
    game ← get_game game_code
    throw_if (not game.is_active)
        (not_found (template ("Game with code " ∷ game_code ∷ " is not active" ∷ [])))

  unfoldable pub get_active_games : Action Games (List Game)
  get_active_games = do
    throw_if (down game_find) io_error
    gets (λ t. st.select Game t (λ g. g.is_active))

  unfoldable pub get_game_payloads : String → Action Games GamePayloads
  unfolding get_game
  get_game_payloads game_code = do
    game ← get_game game_code
    pure (record {
      game_code = game.game_code;
      game_name = game.game_name;
      platform = game.platform;
      game_type = game.game_type;
      settle_type = game.settle_type;
    })

  unfoldable pub create_game : NewGame → Action Games Game
  create_game params = do
    throw_if (down game_find) io_error
    existing ← gets (λ t. st.find Game t (λ g. str_eq g.game_code params.game_code))
    throw_if (is_some existing)
        (conflict (template ("Game with code " ∷ params.game_code ∷ " already exists" ∷ [])))
    let game = created
    throw_if (down game_save) io_error
    modify (λ t. st.put Game t params.game_code game)
    pure game
    where
      created : Game
      created = record {
        game_code = params.game_code;
        game_name = params.game_name;
        platform = or_text params.platform "In-out";
        game_type = or_text params.game_type "CRASH";
        settle_type = or_text params.settle_type "platformTxId";
        is_active = or_else params.is_active true;
      }
