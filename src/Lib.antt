-- ===== src/Lib.antt =====
-- A verification library for CryptoARC, a Solana launch monitor that scores new tokens, trades them on
-- paper, and submits real transactions under a hot wallet. The backend is Python, in backend/app/.
--
-- A launch becomes a `TokenSignal` (core/models.py). `ScoringEngine` scores it, `RiskEngine` can veto
-- the entry, and `PaperTrader` fills it, ticks it and closes it, with the closed trades counted in
-- `BotStats`. A micro pilot with real money is bounded by a `PilotRiskPolicy`; its transactions are
-- signed by the `HotWalletVault`, which simulates before it sends. Optional background work goes
-- through a `BoundedWorkQueue` and is shed by the `WorkloadGovernor` under pressure. `AuthManager`
-- guards the dashboard, `PricePipeline` decides which observed prices count, and `Sentinel` judges whether
-- the conditions allow a pilot. `DecisionPipeline` runs the scoring engine and the risk engine on a launch.
-- A separate signer daemon on localhost holds a key of its own behind a token and a cap. A phone is
-- paired with a one-time code and then calls with a token until it is revoked. `AutonomousPilotGate` and
-- `ManualLiveProof` judge recorded evidence and never open anything themselves.
--
-- Files, and the code that they are about:
--   Prelude, Prelude/   shared names: lists, integers, dicts, results, times, texts, and the tables of
--                       checks that the gates of the program are
--   Number, Number/     Python's float and Decimal as a type with operations and laws, and an instance
--   Models, Models/     the dataclasses of backend/app/core/models.py
--   Workload, Workload/ backend/app/core/workload_governor.py: Queue (BoundedWorkQueue: enqueue, claim,
--                       finish, fail) and Governor (observe, allowed, record_result)
--   PilotRisk           backend/app/core/pilot_risk.py: create, evaluate_entry, evaluate_exit
--   Risk                backend/app/core/risk.py: evaluate, effective_score_threshold
--   Scoring             backend/app/core/scoring.py: score, one function per rule
--   PaperTrader         backend/app/core/paper_trader.py: buy, mark_to_market, close; PaperTrader/Ticks:
--                       tick, apply_closed_trade
--   HotWallet           backend/app/core/hot_wallet.py: Cipher (_encrypt, _decrypt), Vault (import,
--                       unlock, lock, clear, sign), Submit (_simulate, simulate_and_submit)
--   Pricing             backend/app/core/price_pipeline.py: from_payload, observe, validate_first_tick
--   Sentinel            backend/app/core/sentinel.py: evaluate, _confidence
--   Strategy            backend/app/core/strategy.py: DecisionPipeline.evaluate, which composes Scoring and
--                       Risk, with strategy_snapshot
--   Candidates          backend/app/core/strategy_candidates.py: PromotionGate.promote, with
--                       promote_strategy_candidate of backend/app/core/storage.py
--   Gates               backend/app/core/autonomous_pilot.py (AutonomousPilot: open_window and the stop
--                       evaluator) and backend/app/core/manual_live_proof.py (ManualLiveProof: qualify), over
--                       the untyped mappings of Values
--   SignerDaemon        tools/local_signer_daemon.py: Execution (the configuration, require_auth, execute,
--                       simulate_transaction) and Probes (the shared health probes of submission_readiness)
--   Mobile              the devices of backend/app/core/state.py with their transactions in
--                       backend/app/core/storage.py: Pairing (create_mobile_pairing, claim_mobile_pairing),
--                       Tokens (validate_mobile_token, revoke_mobile_device), Scopes; Steps puts the calls
--                       in any order; Tickets: the websocket tickets of backend/app/mobile/service.py
--   Auth                backend/app/auth.py: login, issue, valid, set_password, verify_totp
--   Examples            the theorems at concrete inputs
-- The children of a module hold its theorems and are named for what these are about.
--
-- State is a record that an operation takes and returns, next to its result. A call that raises is an
-- `err` with the message, or `none` where only the fact matters; it then leaves no new state. Python's
-- int is an integer without bounds, float is any type with the operations of `Float`, a NaN included,
-- and Decimal likewise; laws of their order are hypotheses, which Number/Fixed meets. Times are
-- microseconds. The clock, random bytes, hashes, Base64, key pairs and the RPC node are parameters.
-- Loops are structural; `_xor_stream` runs on the length of its payload, since each block is not empty,
-- and the digits of a number on the number itself.
--
-- Not modelled: the engine loop of core/state.py, and of core/storage.py all but the transactions of
-- the mobile devices and of promotions, which would need the whole schema; websocket sources and the
-- Solana client, which are network code; the HTTP routes and the commands of the mobile gateway; the
-- strategy contract, the making and comparing of candidates, and the other evidence gates; outside
-- backend/app/ all but the signer daemon: front ends, scripts and tests.
pub mod Auth
pub mod Candidates
pub mod Examples
pub mod Gates
pub mod HotWallet
pub mod Mobile
pub mod Models
pub mod Number
pub mod PaperTrader
pub mod PilotRisk
pub mod Prelude
pub mod Pricing
pub mod Risk
pub mod Scoring
pub mod Sentinel
pub mod SignerDaemon
pub mod Strategy
pub mod Workload
