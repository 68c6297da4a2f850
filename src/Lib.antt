-- ===== src/Lib.antt =====
-- A model of the game server of chicken-road-b, with theorems about it.
--
-- The program: an agent (operator) sends a player; the player places a bet, walks from column to
-- column, and cashes out or meets a hazard. GamePlayService keeps the session of a round in Redis,
-- asks the agent's wallet over HTTP (SingleWalletFunctionsService), writes the bet to the database
-- (BetService), and draws and rotates the player's seeds (FairnessService). A call of the wallet
-- that fails leaves an audit record (WalletAuditService), a retry job (WalletRetryJobService) and,
-- for a settlement, a bet marked as failed. Which columns are hazards comes from patterns that
-- HazardGeneratorService draws, and that HazardSchedulerService rotates on the one server that
-- LeaderElectionService lets lead.
--
-- The files, with the code they model (paths from the repository's root):
--   Base       Boolean tests, lists, the action monad with its exceptions, and the rules for what
--              an action keeps (Keeps), leads to (Leads), yields (Yields) and ends with (Ends)
--   Js         the operations on JavaScript numbers, a parameter; Js.Cents computes
--   Stores     Redis and the tables, a parameter with laws; Stores.Assoc is an instance
--   Games      src/modules/games/game.service.ts
--   Bets       src/modules/bet/bet.service.ts, src/entities/bet.entity.ts
--   Fairness   src/modules/fairness/fairness.service.ts; Fairness.Hex has the texts of digits
--   Enums      src/common/enums/wallet.enums.ts
--   Audit      src/modules/wallet-audit/wallet-audit.service.ts
--   Retry      src/modules/wallet-retry/wallet-retry-job.service.ts
--   Wallet     src/routes/single-wallet-functions/single-wallet-functions.service.ts
--   Hazard     src/modules/hazard/hazard-generator.service.ts
--   Leader     src/modules/redis/leader-election.service.ts: one server's methods on the lease that
--              the servers share; in Leader.Turns several servers call them in turns
--   Agents     src/modules/agents/agents.service.ts, src/entities/agents.entity.ts
--   Rotation   src/modules/hazard/hazard-scheduler.service.ts: the configuration, the calls and the
--              rotation in Rotation, initialization and getCurrentState in Rotation.Current
--   GamePlay   src/routes/gamePlay/game-play.service.ts: the data and the pure parts in GamePlay,
--              the session, lock and settlement actions in GamePlay.Flows, the requests in
--              GamePlay.Requests and GamePlay.Account; the lock and session calls of
--              src/modules/redis/redis.service.ts
--   Gateway    src/routes/gamePlay/game-play.gateway.ts: the messages of a connected player, and in
--              Gateway.Connection how a player connects
--   Processing src/modules/wallet-retry/wallet-retry-processor.service.ts, and processRetryJob of
--              src/modules/wallet-retry/wallet-retry-scheduler.service.ts
--   Refunds    src/modules/refund-scheduler/refund-scheduler.service.ts
--   Cleanup    src/modules/bet-cleanup/bet-cleanup-scheduler.service.ts,
--              src/modules/wallet-audit/wallet-audit-cleanup.service.ts
--   Samples    the data of the tests, which stand in the Tests module of each component
--
-- State and operations. A method of a service is a function of the same name in snake case. An
-- asynchronous method is an Action: it takes the service's state and gives a result or a thrown
-- error with the new state, so what was written before a throw stays written. The clock, drawn
-- ids, the agent's answers and which outside calls fail (Outage) are arguments; theorems hold for
-- all of them unless they say otherwise. GameWorld is the state that the flows of a round share.
--
-- Bounds and fuel. JavaScript doubles are not among the kernel's numbers: an amount is of a type
-- Num with the operations of Js, about which no law is assumed. Times are milliseconds as natural
-- numbers, and a difference of times is only used where it is not negative. The loop that draws a
-- pattern runs on the list of its picks, and is shown to end once they have enough different
-- columns. Decimal notation runs on 25 digits, enough for every number below 16 ^ 20.
--
-- The tables are maps by the unique column; the column winAmount, a decimal(18, 3), refuses a text
-- that is no number, while a number too large for it is not refused.
--
-- Not modelled: expiry of Redis keys (a theorem about a later time names what must still be
-- there), JSON encoding, the parts of a request that are only passed on to the agent, logging;
-- when the timers of the schedulers fire; tokens, users and the game configuration service, of
-- which what is used is an argument; the admin portal and the operators' HTTP routes. Each server
-- of a cluster runs a method as a whole; other servers write to Redis while it waits, not between
-- two of its calls. A step or a cash-out is run as a whole too: the code holds no lock between
-- reading and writing the session, and messages of one player that overlap are not modelled.
pub mod Base
pub mod Js
pub mod Stores
pub mod Games
pub mod Bets
pub mod Fairness
pub mod Enums
pub mod Audit
pub mod Retry
pub mod Wallet
pub mod Leader
pub mod Hazard
pub mod Agents
pub mod Rotation
pub mod GamePlay
pub mod Gateway
pub mod Processing
pub mod Refunds
pub mod Cleanup
pub mod Samples
