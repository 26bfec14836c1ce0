-- ===== src/Lib.antt =====
-- Verification of driver-os, a coding agent that edits a workspace, checks its own work with a
-- verification command and reports what it could and could not guarantee.
--
-- The parts and how they meet. A loop asks a model for actions and runs them in a sandbox. Each run of
-- a command gives an observation (agent/tools.go), which the turn tracker and the spiral detector
-- (agent/tracker.go) read to nudge, to stop or to go on. When the model says that it is done, the
-- closing gates (agent/finish.go, agent/gate.go, agent/verify.go) decide whether the answer stands;
-- when a budget ends the run, they decide whether the state reached is good enough to count as
-- answered. Before they do, a run that must reproduce the bug first declares a test that fails on the
-- base tree (agent/repro.go), and the writing tools refuse what a test fence or a diff scope holds back
-- (agent/fence.go). An evidence log (agent/evidence.go) follows the mutations and checks and becomes the
-- report, and the outcome becomes an exit code (headless/output.go). Around this stand the resolution
-- of what a run was asked for into one policy (runspec/runspec.go, profile/resolve.go), the trust
-- profiles (profile/) and the plan of a headless run under one (headless/trust.go), the gate in front of
-- execution (sandbox/gated), the dollars spent (agent/spend.go), and the filter that feeds a
-- provider's event stream to its decoder (provider/openaicompat/ssefilter.go).
--
-- Files:
--   Base                shared names, Boolean tests, lists and texts (Go strings as code points); Int:
--                       signed integers; FilePaths: Clean, Base and Match of Go's path and filepath
--   Agent/Outcome       Outcome of agent/agent.go
--   Agent/Observation   isRunFailure and its kin, classifyRunObservation; Fingerprint: runFingerprint
--   Agent/Policy        runspec/types.go and resolveTermination of runspec/runspec.go
--   Agent/Tracker       turnTracker of agent/tracker.go: observe_run is observeRun, and so on
--   Agent/Spiral        spiralState of agent/tracker.go
--   Agent/Evidence      agent/evidence.go: the log, its updates, finalizeGuarantees
--   Agent/Spend         agent/spend.go
--   Agent/Gates         the state and the checks of agent/gate.go, verifyRun of agent/verify.go;
--                       Completion: verifyTermination, verifyCompletion and its failures, verifyFinish;
--                       Finish: agent/finish.go; Rescue: upgradeIfVerified;
--                       Check: the standalone gate
--   Agent/Review        classify and escalate of agent/gate.go; Rounds: reviewFinish from the verdict on,
--                       with the fates of agent/review.go
--   Agent/Fence         matchesFence, matchesScope and fenceRelPath of agent/fence.go; Snapshots:
--                       walkFenced, driftCheck, violationCheck and restore; Tools: applyTestFence
--                       and applyDiffScope round a writing tool
--   Agent/Repro         the state, the lock and skipRepro of agent/repro.go; Declare: declareRepro;
--                       Finish: reproFinish
--   Agent/TextLoop      the state of the loop of agent/loop_text.go and its small functions; Action:
--                       parseAction; Budget: dollarBudgetStop and classifyGenerateErr; Calls: a turn
--                       with a tool call; Turn: a whole turn, and Run as the loop over the turns
--   Agent/Closing       the closing gates with the fence and the repro gate that they call
--   Agent/Standing      renderVerification of agent/standing.go
--   Profile/Posture     profile/posture.go and Enforce; Profile/Policy: Allows and
--                       AllowsExec; Profile/Shell: the words of a command; Profile/Exec:
--                       profile/exec.go; Profile/Resolve: Resolve of profile/resolve.go
--   Runspec             the request, the policy and the trace of runspec/runspec.go; Resolve: Resolve,
--                       validatePolicy and Complete
--   Sandbox/Gated       sandbox/gated/gated.go
--   Provider/SseFilter  provider/openaicompat/ssefilter.go
--   Headless            exitCodeFor of headless/output.go; Headless/Trust: headless/trust.go
-- The children of a component hold its theorems, and Tests the runs and the instances of them.
--
-- State. A struct with methods is a record, and a method a function from the record to the new record
-- and its result. What a method asks of the outside is a parameter: the world of the gates (the
-- context, the verification command, git trees, the verdicts of the fence and the scope), the reviews
-- behind the gates, the sandbox and the approver of the execution gate, the model and its tools, the
-- clock, the pricer, the shell parser, the rendering of numbers and of quoted text, SHA-256 and the JSON
-- that is digested, the listing of a workspace and the reads and writes of its files. A function of the
-- world takes it as it is and gives it back, so that the order of the calls is the order of the source.
--
-- Numbers. Counters, generations and limits are natural numbers: the source only counts them up and
-- compares them, far below the width of its integers. The settings of a run, which a request may give
-- as negative, are integers. Where the source subtracts, the comment at the definition says why the
-- difference that stops at 0 is the same. No definition needs fuel: the source's loops run over lists,
-- over the turns that are left and over the listing of a workspace, and reading the stream to its end is
-- bounded by the chunks of the body.
--
-- Not modelled: the loop of the native protocol, the generation with its retries, which the text
-- loop takes as a parameter, the tools over files and the call of the reviewer. The
-- closing gates take the review and the verdict of the scope as parameters still. The JSON arguments of
-- tools, sessions, the providers' clients, the sandbox backends, git, flags and output are left out too.
-- Notes to the observer, the text of foreign errors and telemetry that nothing reads back are left out
-- of the states.
pub mod Base
pub mod Agent
pub mod Profile
pub mod Sandbox
pub mod Provider
pub mod Headless
pub mod Runspec
