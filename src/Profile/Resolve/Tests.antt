-- ===== src/Profile/Resolve/Tests.antt =====
-- coding-v2 under the container floor, with a number of iterations of its own; and with a worktree that
-- the floor forbids.
use driver_os.Base.{◌≡◌, ◌↔◌, refl, pos, false, none, some, [], Text, codes, text_eq}
use driver_os.Profile.Posture.{
  container, trust_name, floor_for, worktree_required, worktree_satisfies,
}
use driver_os.Profile.Exec.{
  Exec, demand, coding_v2, added, declared, worktree_stance, require_trust, interactive_v2,
  observe_v1, eval_swe_v1,
}
use driver_os.Profile.Resolve.{
  TrustPosture, Overrides, Trace, trust, text, put_entry, traced, resolved, refused, cli_conflict,
  demand_conflict, merged, is_canonical, worktree_of, raised, with_floor, checked, resolve,
}
use driver_os.Profile.Resolve.Merged.{IsMerged, resolve-IsMerged, resolve-conflict}

abbrev post : TrustPosture
post = record { selected = trust_name container; posture = floor_for container }

abbrev flags : Overrides
flags = record {
  max_iters = some (pos 12);
  max_tokens = none;
  finish_nudge = none;
  run_timeout = none;
  effort = none;
  worktree = none;
  verify_continue = none;
  auto_verify = none;
  auto_verify_soft = none;
  memory = none;
  boot_context = none;
  standing_context = none;
  batch_reads = none;
  require_diff = none;
  read_window = none;
  read_outline = none;
  churn_nudge_runs = none;
  nav_spiral_window = none;
  answer_nudge_window = none;
}

abbrev merged_exec : Exec
merged_exec = record (coding_v2) { max_iters = pos 12; worktree = codes "required" }

abbrev merged_trace : Trace
merged_trace = record {
  fields =
      put_entry
        (record { field = codes "worktree"; value = text (codes "required"); source = trust })
        (traced (coding_v2) flags);
  canonical = false;
  selected_trust = trust_name container;
  required_trust = [];
}

raises_worktree : resolve post coding_v2 flags ≡ resolved merged_exec merged_trace
unfolding resolve checked merged traced is_canonical with_floor raised worktree_of
    worktree_satisfies floor_for trust_name declared coding_v2 interactive_v2 observe_v1 eval_swe_v1
    added worktree_stance require_trust text_eq put_entry
raises_worktree = refl

resolve-IsMerged_example :
    (require_trust coding_v2 post.selected ≡ none)
    × IsMerged post coding_v2 flags merged_exec merged_trace
resolve-IsMerged_example =
    resolve-IsMerged post coding_v2 flags merged_exec merged_trace raises_worktree

abbrev off_tree : Overrides
off_tree = record flags { worktree = some (codes "off") }

free : require_trust coding_v2 post.selected ≡ none
unfolding require_trust coding_v2 added
free = refl

resolve-conflict_example :
    ((w : Text)
      → (resolve post coding_v2 off_tree ≡ refused (cli_conflict w)) ↔ (
          (some (codes "off") ≡ some w)
          × (text_eq w (codes "required") ≡ false)
          × ((floor_for container).worktree ≡ worktree_required)))
    × ((w : Text)
        → (resolve post coding_v2 off_tree ≡ refused (demand_conflict w)) ↔ (
            (some (codes "off") ≡ none)
            × ((declared coding_v2).worktree ≡ w)
            × (worktree_stance coding_v2 ≡ demand)
            × (text_eq w (codes "required") ≡ false)
            × ((floor_for container).worktree ≡ worktree_required)))
resolve-conflict_example = resolve-conflict post coding_v2 off_tree free
