-- ===== src/Lib.antt =====
-- A verification library of the core of the continuous authentication backend: ingestion, windows,
-- risk, decisions and their enforcement, updates, and the records they leave.
--
-- The program receives framed keyboard, mouse and context events from a collector, attributes them to
-- an authenticated session, scores windows of them, turns each score into a risk decision, and
-- enforces decisions on the session. The parts modelled here and the files that model them:
--   Common       names of the libraries, lists over native numbers, Boolean tests, blank texts
--   Contracts    protocol/generated/python/contracts.py, as far as the risk path reads it
--   Ingestion    backend/app/ingestion
--     Framing    framing.py: IncrementalFrameDecoder.feed, finish and reset; the encoder
--                frame_payload of tools/synthetic/framing.py
--     Ordering   ordering.py: SequenceTracker.observe and reset
--     Events     types.py: events, entries, lifecycle events and counters
--     Sessions   sessions.py: SessionManager.start, attribute and end
--     Validation validation.py: validate_payload
--     Recording  pipeline.py: the state of IngestionPipeline and how it records issues
--     Pipeline   pipeline.py: the calls of IngestionPipeline, which use all parts above; Keeping and
--                Ring serve the order of its ring, Counters and Accounting its counters
--   Risk         backend/app/risk
--     State      state.py: UserStateMachine
--     Assessment types.py: ContextAssessment.adjust, inputs, alerts, traces, outcomes
--     Context    context.py: ContextConfidenceLayer.observe_genuine, assess, suspend_learning
--     Engine     engine.py: RiskEngine; Emission has its state and what it emits, Scoring its fusion
--                and levels, Process the method process and the reported failures, Branches the
--                ways that process ends
--   Decisions    backend/app/decisions
--     Policy     policy.py: DecisionPolicy.decide, which the engine calls
--     Posture    session.py: EnforcementSessionState, which follows the engine's decisions
--     Challenge  challenge.py: Credential has ChallengeCredential, Registry the pending challenges,
--                Service and Prompts the methods of ChallengeService; Codec serves the tests
--     Enforcement adapters.py: EnforcementCoordinator, which executes decisions
--   Api          backend/app/api
--     Challenges backend.py: SQLiteApiBackend.respond_to_challenge and sweep_expired_challenges, which
--                use the challenge service, the posture and the coordinator
--   Updates      backend/app/updates
--     Candidates manager.py: UpdateManager.submit_segment, reassess and invalidate
--     Scheduled  manager.py: UpdateManager.run_scheduled, on tables as repository.py keeps them
--   Training     ml/training
--     Gate       gate.py: require_promotion_gate
--   Features     ml/features
--     Windowing  windowing.py: WindowBuilder.push_events and flush
--   Storage      backend/app/storage
--     Audit      audit.py: AuditLog.append and _verify_file; Chain has what the hashes give away, Appends
--                and Sound what append keeps
--   Stream       backend/app/websocket
--     Broker     broker.py: EventBroker.publish, subscribe and unsubscribe
--
-- A component's state is a record with the source's fields, and a method is a function from the state
-- to its result and the new state. Errors are values: an Option, or a result type that names the
-- error; a result that is none is an exception that escapes, and the state is the one it leaves. The
-- calls of sinks are recorded in a field `sent`, in their order. Files named Tests run the definitions
-- on concrete inputs.
--
-- Fuel: the loop of IncrementalFrameDecoder.feed runs on the fuel `length buffer + length chunk + 2`.
-- Each turn that goes on consumes a byte or an expected size, so that this is enough
-- (Ingestion.Framing.Chunks.measure-lt-fuel_for).
--
-- Parameters: the JSON decoder and the pydantic models (Parser), identifiers (make_id), Python's
-- floats (Floats: a type with the operations and tests that the code uses of it, without laws),
-- math.sqrt and math.isfinite, clock readings, whether the sinks of the pipeline raise (sink), and the
-- payloads and snapshots of the stream; PBKDF2,
-- hexadecimal texts and the JSON codec of credentials (Crypto), the adapters, store and sinks of the
-- coordinator and of the backend (Environment, Wiring), which may raise, the digest of evidence, the builder of candidate
-- profiles, the features and context of windows (Features), and JSON values with the SHA-256 of their
-- canonical form (Json, digest).
-- Numbers that the contracts keep from being negative are natural numbers.
--
-- Not modelled: native prompts, storage but for the tables and files named above, the rotation of audit
-- files and the comparison of ids across them, the table of profiles, the orchestration of threads, the
-- HTTP API, the features themselves and training, the C++ collector, the dashboard and the tools: they
-- are input and output, third-party numerics, other languages, or work that is left. Configuration
-- files are read by code that is not modelled; settings are arguments. A method that holds its lock
-- throughout is one step; where a method releases it in between, as observe_decision of the posture and
-- ChallengeService.configure do, the steps are definitions of their own.
pub mod Common
pub mod Contracts
pub mod Ingestion
pub mod Risk
pub mod Decisions
pub mod Api
pub mod Updates
pub mod Training
pub mod Features
pub mod Storage
pub mod Stream
