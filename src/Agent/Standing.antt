-- ===== src/Agent/Standing.antt =====
-- agent/standing.go: the verification lines of the standing context.
pub mod Shown
mod Tests
use driver_os.Base.{
  Bool, true, false, not, ◌&&◌, ◌||◌, List, [], ◌∷◌, ◌++◌, Option, none, some, Text, codes,
  if◌then◌else◌, is_empty, text_eq, trim_space,
}
use driver_os.Agent.Evidence.{EvidenceStatus, passed, failed}
use driver_os.Agent.Observation.{Cause, timeout, environment, cancellation, execution_error}
use driver_os.Agent.Tracker.{VerificationRecord, no_record, TurnTracker}

abbrev pub word_of_cause : Cause → Text
word_of_cause timeout = codes "TIMEOUT"
word_of_cause environment = codes "ENV-FAULT"
word_of_cause cancellation = codes "CANCELED"
word_of_cause execution_error = codes "EXEC-ERROR"
word_of_cause _ = codes "UNKNOWN"

abbrev pub word_of : EvidenceStatus → Cause → Text
word_of passed cause = codes "PASS"
word_of failed cause = codes "FAIL"
word_of _ cause = word_of_cause cause

unfoldable pub verification_word : VerificationRecord → Text
verification_word r = word_of r.status r.cause

unfoldable pub freshness_tag : Text → Text → Bool → Text
freshness_tag run_tree cur_tree unknown =
    if is_empty run_tree
    then []
    else if unknown || is_empty cur_tree
    then codes "  [FRESHNESS UNKNOWN: could not read working tree]"
    else if not (text_eq run_tree cur_tree)
    then codes "  [STALE: files changed since this ran — re-run to confirm]"
    else []

-- What is shown behind the arrow of a check. The gate's tag is dropped in a tree that is unchanged since
-- the session start.
unfoldable pub standing_word : VerificationRecord → Text → Bool → Bool → Text
standing_word r cur_tree unknown unchanged =
    verification_word r ++ (if unchanged then [] else freshness_tag r.tree cur_tree unknown)

abbrev pub with_output : Text → Text → List Text
with_output line out = if is_empty out then line ∷ [] else line ∷ out ∷ []

-- The records of a tracker; a nil tracker is an empty one.
abbrev pub last_verify_of : Option TurnTracker → VerificationRecord
last_verify_of none = no_record
last_verify_of (some t) = t.last_verify

abbrev pub last_run_of : Option TurnTracker → VerificationRecord
last_run_of none = no_record
last_run_of (some t) = t.last_run

-- The hint of a gate that filters tests, from verifySkipFilter.
abbrev pub filter_hint : Text → Text
filter_hint filter =
    if is_empty filter
    then []
    else codes
        " The gate deliberately skips these — carry the filter or you will see unrelated red tests."

unfoldable pub gate_lines :
    (Text → Text) → VerificationRecord → Text → Text → Bool → Bool → List Text
gate_lines skip_filter r verify_cmd cur_tree unknown unchanged =
    if is_empty r.command
    then (if unchanged
        then codes "gate: `"
          ++ verify_cmd
          ++ codes
              "` — no file changes yet this session; nothing to verify (the harness runs it authoritatively at finish)"
        else codes "gate: `"
          ++ verify_cmd
          ++ codes
              "` — NOT run yet this session; the closing gate runs authoritatively at finish. For mid-run confidence, run only tests scoped to the package(s) you changed."
          ++ filter_hint (skip_filter verify_cmd))
      ∷ []
    else with_output
        (codes "gate: `" ++ r.command ++ codes "` → " ++ standing_word r cur_tree unknown unchanged)
        r.output

unfoldable pub other_lines : VerificationRecord → VerificationRecord → Text → Bool → List Text
other_lines run verify cur_tree unknown =
    if not (is_empty run.command)
      && not (text_eq (trim_space run.command) (trim_space verify.command))
    then (codes "last check (not the gate): `"
        ++ run.command
        ++ codes "` → "
        ++ standing_word run cur_tree unknown false)
      ∷ []
    else []

-- The lines, which are joined by newlines.
unfoldable pub render_verification :
    (Text → Text) → Option TurnTracker → Text → Text → Bool → Bool → List Text
render_verification skip_filter t verify_cmd cur_tree unknown unchanged =
    let run = last_run_of t in
    let verify = last_verify_of t in
    if not (is_empty verify_cmd)
    then gate_lines skip_filter verify verify_cmd cur_tree unknown unchanged
      ++ other_lines run verify cur_tree unknown
    else if not (is_empty run.command)
    then with_output
        (codes "last check: `"
          ++ run.command
          ++ codes "` → "
          ++ standing_word run cur_tree unknown false)
        run.output
    else codes "last check: none yet" ∷ []
