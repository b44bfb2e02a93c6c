-- ===== src/Lib.antt =====
-- The adaptive model router (plugins/adaptive-model-router) decides which model and reasoning effort
-- works on a task, admits one delegated child at a time, and correlates the child's start, result and
-- stop with the admission. This library models its decisions and its delegation gate, and proves what
-- the rest of the program relies on.
--
-- The parts, with the sources under plugins/adaptive-model-router/scripts/lib:
--   Common        shared names, Boolean tests, equality as an interface, lists
--   Vocabulary    constants.mjs, model-policy.mjs: efforts, work levels, signals, gates
--   Task          contracts.mjs, scorer.mjs: the evidence of a task and its score
--   Policy        model-policy.mjs: compileModelPolicy (Policy.Compile, with what it guarantees in
--                 Policy.Bindings and Policy.Anchors), decideWorkLevel (Policy.Decide,
--                 Policy.Downgrade), nextWorkLevel (Policy.Escalate), resolveModelTarget
--                 (Policy.Resolve, Policy.Select, Policy.Scope); the policies of the repository
--                 (Policy.Shipped)
--   Gate          the tables and delegation-gate.mjs: tickets (Gate.Carrier, Gate.Ticket), results
--                 (Gate.Observe), stops (Gate.Stop), outcomes and finalization (Gate.Finalize),
--                 admission (Gate.Admission), and of stage-closure.mjs and failed-child-takeover.mjs
--                 what the gate asks for (Gate.Managed); the writes to its table of
--                 stage-closure.mjs, delegation-recovery.mjs,
--                 historical-qualification-recovery.mjs and clearProject of database.mjs
--                 (Gate.Recovery, Gate.Writes). Gate.Preserve, Gate.Replay, Gate.Rerun and
--                 Gate.Histories carry a property of every attempt over every sequence of calls;
--                 Gate.Sound, Gate.Sticky, Gate.OneShot, Gate.Once and Gate.Accounting apply that;
--                 Gate.Budget is about admission.
--   PolicyStore   model-policy-store.mjs: the revisions and the lineage (PolicyStore.Reading,
--                 PolicyStore.Lineage), their changes (PolicyStore.Change), their invariant
--                 (PolicyStore.Stored, PolicyStore.Kept, PolicyStore.Reach), and the store as a
--                 stack of digests (PolicyStore.Stack, PolicyStore.Refines, PolicyStore.History)
--   Router        router.mjs: validateRouteInput (Router.Input, Router.Acceptance), the plan of a
--                 retry and the choice of a target (Router, Router.Plan, Router.Choose) and
--                 routeWithStore (Router.Request, Router.Routed), over commitRoute of database.mjs
--                 (Router.Commit). Router.Retries is about the plan, Router.Targets and
--                 Router.Levels about the choice; Router.Answers, Router.Walk and Router.Stages
--                 carry a property of the two commits to every answer, Router.Opened and
--                 Router.Counts apply that; Router.Disabled is about a disabled override.
--   ModelSlug     model-slug.mjs
--   Scorer        scorer.mjs and service.mjs: desiredRoute and validateScoringDefinition
--                 (Scorer.Levels), the sum, the clamps and the hard signals of scoreTask
--                 (Scorer.Score)
--   Catalog       catalog.mjs: compatibleEffort, selectAutomaticRoute, selectExplicitRoute
--                 (Catalog.Best, Catalog.Fit)
--   Host          database.mjs: hostModelState, setTaskMode, cancelPendingHostModelIntent,
--                 observeHostModel (Host.Observe) and resolveHostModelIntent (Host.Resolve), with
--                 the states that they reach (Host.Intent, Host.Reach) and what an answer does
--                 (Host.Decisions)
--   Overrides     database.mjs: setOverride, clearOverrides, resolveOverride (Overrides.Precedence)
--   Classifier    classifier.mjs and database.mjs: the circuit breaker (Classifier.Breaker)
--   Learning      learning.mjs: maybeGenerateProposal (Learning.Propose, Learning.Evidence), the
--                 decisions on a proposal and the rollback (Learning.Decide, Learning.Once,
--                 Learning.Range); Signed has integers and the clamp of io.mjs
--
-- The router scores a task, the policy turns the score into a demand and then a target, and a
-- delegation stores an attempt, whose ticket the hooks consume, claim, observe and stop. After a
-- failure the router holds the target of the stage or escalates it.
--
-- How the code is represented: an object of the program is a record, a value that may be null an
-- option, an error or a refusal a constructor, a table the list of its rows in the order of insertion,
-- and an SQL statement a function on that list. A time is a number that the caller passes. The hash of
-- a ticket, the key of an agent and the encryption of a package are parameters (Gate.Ticket.Crypto),
-- as are the test of an exact model slug of a policy (whose code is in ModelSlug) and the digest
-- of a policy (Policy.Compile): nothing is assumed of them, but that a digest of a policy is 64
-- hexadecimal digits and that the default policy is a compiled one where the policy store says so
-- (PolicyStore.Stored.IsPlausible). A call of the gate is one transaction, so an interleaving of hooks
-- is a sequence of calls (Gate.Preserve.Call). The writes of Gate.Recovery may come at any time, since
-- what is checked before them is left out, and a call may also change the tables other than
-- delegation_attempts in any way (Gate.Recovery.rewrite_tables). A request for a route awaits a catalog and the
-- readiness of hooks, a stored override that is disabled finishes it before either or at the start
-- of a claim, and what other processes do to the store meanwhile is an arbitrary function
-- (Router.Request.Others). The loop over the claims of a route has two passes, as in the source. The
-- walk along the escalation chain (Policy.Escalate.skip_same) has 7 steps of fuel, one more than there
-- are levels. The walk over the parents of the revisions (PolicyStore.walk) has a step for each
-- revision and two more.
--
-- Not modelled: the regular expressions that find signals in a text, the qualification branch of a
-- route, the outcomes and stops of the route store, files, processes, the Node and Codex interfaces,
-- the text of packages and messages, the walk through the JSON of a native response (its identities,
-- names and its denial of a child are parameters), the unique indexes on a tool call, on an agent and
-- on a pending proposal (whose violation aborts a transaction), the prompt of the classifier and its
-- lease, the log of learning events, the runtime's installation and isolation, and the audits of
-- native evidence files.
pub mod Common
pub mod Vocabulary
pub mod Signed
pub mod Task
pub mod Policy
pub mod Gate
pub mod Catalog
pub mod Classifier
pub mod Host
pub mod Learning
pub mod ModelSlug
pub mod Overrides
pub mod PolicyStore
pub mod Router
pub mod Scorer
