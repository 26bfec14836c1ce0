-- ===== src/Agent/Review.antt =====
-- classify and escalate of agent/gate.go, and the fates of agent/review.go: what becomes of one claim of
-- the reviewer. The workspace `W` and what reads and restores it are parameters; reasons for a drop and
-- clipped output are left out.
pub mod Standing
pub mod Restored
pub mod Rounds
mod Tests
use driver_os.Base.{
  ℕ, ◌-◌, Bool, true, false, not, ◌&&◌, ◌||◌, List, [], ◌∷◌, Option, none, some, Text, codes, ltb,
  leb, ◌==◌, if◌then◌else◌, is_empty, text_eq, to_lower, trim_space, contains,
}
use driver_os.Agent.Evidence.{Fate, pending, repaired, refuted, expired, advised, note, dropped}
use driver_os.Agent.Observation.{is_run_failure}

-- The fields of ReviewFinding that decide; the confidence is a number from 0 to 10.
pub record Claim : Type 0 where
  pub file : Text
  pub quote : Text
  pub severity : Text
  pub confidence : ℕ
  pub repro_cmd : Text

-- ReviewedFinding; `pending` is a blocking finding.
pub record Reviewed : Type 0 where
  pub claim : Claim
  pub round : ℕ
  pub fate : Fate
  pub confirmed : Bool

-- readBounded on the quoted file.
pub data Source : Type 0 where
  missing unreadable : Source
  content : Text → Source

pub record Workspace {ℓ} (W : Type ℓ) : Type ℓ where
  pub read : Text → W → Source
  pub write_tree : W → Option Text
  pub run : Text → W → Option Text × W
  -- Whether the fence is armed and a fenced path changed.
  pub drift : W → Bool
  -- The repair of the fence and vcs.RestoreTree, with whether they succeeded.
  pub restore_fence : W → Bool × W
  pub restore_tree : Text → W → Bool × W

abbrev pub block_confidence : ℕ
block_confidence = 8

abbrev pub advise_confidence : ℕ
advise_confidence = 5

abbrev pub fated : Claim → Fate → Reviewed
fated f x = record { claim = f; round = 0; fate = x; confirmed = false }

abbrev pub is_tree : Option Text → Text → Bool
is_tree none t = false
is_tree (some u) t = text_eq u t

unfoldable pub is_blocker : Claim → Bool
is_blocker f = text_eq (to_lower (trim_space f.severity)) (codes "blocker")

-- strings.EqualFold(file, "n/a")
unfoldable pub names_file : Claim → Bool
names_file f =
    not (is_empty (trim_space f.file)) && not (text_eq (to_lower (trim_space f.file)) (codes "n/a"))

abbrev pub grounded_in : Source → Text → Bool
grounded_in missing quote = true
grounded_in unreadable quote = false
grounded_in (content s) quote = contains s quote

-- The confidence ladder.
unfoldable pub by_confidence : Claim → Reviewed
by_confidence f =
    if ltb f.confidence block_confidence
    then if leb advise_confidence f.confidence then fated f advised else fated f note
    else fated f pending

-- A repro that ran and left the workspace alone: none where it could not start.
unfoldable pub settled : Claim → Option Text → Option Reviewed
settled f none = none
settled f (some out) =
    if is_run_failure out
    then some (record (fated f pending) { confirmed = true })
    else if ltb f.confidence block_confidence
    then some (fated f refuted)
    else some (fated f advised)

abbrev pub or_ladder : Claim → Option Reviewed → Reviewed
or_ladder f none = by_confidence f
or_ladder f (some r) = r

module _ {ℓ} {W : Type ℓ} (space : Workspace W) where
  -- The workspace behind a repro that changed it. An error of a restore is only noted.
  unfoldable pub repair : Text → W → W
  repair pre w =
      let v = if space.drift w then (space.restore_fence w).1 else w in
      if is_tree (space.write_tree w) pre then v else (space.restore_tree pre v).1

  unfoldable pub after_run : Claim → Text → Option Text × W → Option Reviewed × W
  after_run f pre (o, w) =
      if not (is_tree (space.write_tree w) pre) || space.drift w
      then (some (fated f dropped), repair pre w)
      else (settled f o, w)

  unfoldable pub escalate_from : Claim → Option Text → W → Option Reviewed × W
  escalate_from f none w = (none, w)
  escalate_from f (some pre) w = after_run f pre (space.run (trim_space f.repro_cmd) w)

  unfoldable pub escalate : Claim → W → Option Reviewed × W
  escalate f w = escalate_from f (space.write_tree w) w

  -- The end of the ladder: the finding, what is left of the budget, and the workspace.
  unfoldable pub laddered : Claim → ℕ → Option Reviewed × W → Reviewed × ℕ × W
  laddered f budget (r, w) = (or_ladder f r, budget, w)

  unfoldable pub blocker_ladder : Claim → ℕ → W → Reviewed × ℕ × W
  blocker_ladder f budget w =
      if not (is_empty (trim_space f.repro_cmd)) && ltb 0 budget
      then laddered f (budget - 1) (escalate f w)
      else (by_confidence f, budget, w)

  unfoldable pub is_grounded : Claim → W → Bool
  is_grounded f w = not (names_file f) || grounded_in (space.read f.file w) (trim_space f.quote)

  unfoldable pub classify : Claim → ℕ → W → Reviewed × ℕ × W
  classify f budget w =
      if is_empty (trim_space f.quote)
      then (fated f dropped, budget, w)
      else if not (is_grounded f w)
      then (fated f dropped, budget, w)
      else if not (is_blocker f)
      then (fated f note, budget, w)
      else blocker_ladder f budget w
