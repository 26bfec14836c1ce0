-- ===== src/Agent/Policy/Tests.antt =====
-- The resolution of a policy that sets one threshold.
use driver_os.Base.{◌≡◌, refl, [], some}
use driver_os.Agent.Policy.{TerminationPolicy, default_termination_policy, resolve_termination}

abbrev requested : TerminationPolicy
requested = record {
  version = [];
  max_repeats = 5;
  max_reasoning_repeats = 0;
  max_stagnant = 0;
  nav_spiral_window = 0;
  wander_multiple = 0;
  frontier_cap = 0;
  green_repeat_threshold = 0;
}

five_repeats :
    resolve_termination (some requested) ≡ record (default_termination_policy) { max_repeats = 5 }
unfolding resolve_termination
five_repeats = refl
