-- ===== src/Agent/Fence/Snapshots.antt =====
-- agent/fence.go: the snapshot of the fenced files, what drifted from it, and its repair.
pub mod Drift
pub mod Restored
use driver_os.Base.{
  and_then, ℕ, ◌+◌, Bool, true, false, not, ◌&&◌, ◌||◌, List, [], ◌∷◌, ◌++◌, Option, none, some,
  Text, codes, drop, length, ◌==◌, if◌then◌else◌, is_empty, text_eq, has_prefix, has_code, contains,
  trim_space, before, sort_texts, clean_path, base_name, path_match,
}
use driver_os.Agent.Fence.{matches_fence, comma_texts}

-- A snapshot entry. The content is there unless the file was over the cap.
pub record FencedFile : Type 0 where
  pub hash : Text
  pub content : Option Text
  pub full_hash : Text
  pub size : ℕ

-- A map from paths to entries: one entry for each path.
abbrev pub Snapshot : Type 0
Snapshot = List (Text × FencedFile)

unfoldable pub find_file : Text → Snapshot → Option FencedFile
find_file p [] = none
find_file p ((q, f) ∷ m) = if text_eq p q then some f else find_file p m

-- `out[p] = ff`
unfoldable pub put_file : Text → FencedFile → Snapshot → Snapshot
put_file p f [] = (p, f) ∷ []
put_file p f ((q, g) ∷ m) =
    let rest = put_file p f m in if text_eq p q then (p, f) ∷ m else (q, g) ∷ rest

-- What the sandbox shows of a workspace: listings and files, each of which may fail. A file has its
-- bounded read, with whether it is over the cap, and its full read.
mutual
  pub data Node : Type 0 where
    file : Option (Text × Bool) → Option Text → Node
    folder : Listing → Node

  pub data Listing : Type 0 where
    unlisted : Listing
    empty : Listing
    entry : Text → Node → Listing → Listing

abbrev pub child : Text → Text → Text
child dir name =
    if not (text_eq dir (codes ".")) && not (is_empty dir) then dir ++ codes "/" ++ name else name

-- crypto/sha256, in hexadecimal.
module _ (sha256 : Text → Text) where
  -- One fenced file that was read.
  unfoldable pub fenced_file : Text × Bool → Option Text → Option FencedFile
  fenced_file (data_read, false) full =
      some (record { hash = sha256 data_read; content = some data_read; full_hash = []; size = 0 })
  fenced_file (data_read, true) none = none
  fenced_file (data_read, true) (some full) = some (record {
    hash = sha256 data_read;
    content = none;
    full_hash = sha256 full;
    size = length full;
  })

  unfoldable pub visit_file :
      List Text → Text → Option (Text × Bool) → Option Text → Snapshot → Option Snapshot
  unfolding fenced_file
  visit_file globs p bounded full m =
      if not (matches_fence globs p)
      then some m
      else and_then bounded (λ r. and_then (fenced_file r full) (λ f. some (put_file p f m)))

  -- walk: none is the error of a listing or of a read.
  unfoldable mutual
    pub walk : List Text → Text → Listing → Snapshot → Option Snapshot
    walk globs dir unlisted m = none
    walk globs dir empty m = some m
    walk globs dir (entry name n rest) m =
        and_then (visit globs (child dir name) name n m) (λ m'. walk globs dir rest m')

    pub visit : List Text → Text → Text → Node → Snapshot → Option Snapshot
    visit globs p name (file bounded full) m = visit_file globs p bounded full m
    visit globs p name (folder l) m =
        let below = walk globs p l m in if text_eq name (codes ".git") then some m else below

  unfoldable pub walk_fenced : List Text → Listing → Option Snapshot
  unfolding walk visit
  walk_fenced globs l = walk globs (codes ".") l []

-- fenceState. The base is none where the map is nil, and `snapshot_failed` is snapErr.
pub record FenceState : Type 0 where
  pub globs : List Text
  pub base : Option Snapshot
  pub snapshot_failed : Bool

abbrev pub is_nil : Option Snapshot → Bool
is_nil none = true
is_nil (some m) = false

-- A nil map reads as an empty one.
abbrev pub entries : Option Snapshot → Snapshot
entries none = []
entries (some m) = m

-- newFenceState: no globs are no fence.
unfoldable pub new_fence_state : (Text → Text) → List Text → Listing → Option FenceState
unfolding walk_fenced
new_fence_state sha256 [] l = none
new_fence_state sha256 (g ∷ gs) l =
    let m = walk_fenced sha256 (g ∷ gs) l in
    some (record { globs = g ∷ gs; base = m; snapshot_failed = is_nil m })

unfoldable pub same_file : Option FencedFile → FencedFile → Bool
same_file none f = false
same_file (some b) f = text_eq b.hash f.hash && text_eq b.full_hash f.full_hash && b.size == f.size

-- The files that are new or changed.
unfoldable pub changed_files : Snapshot → Snapshot → List Text
unfolding find_file same_file
changed_files base [] = []
changed_files base ((p, f) ∷ cur) =
    let rest = changed_files base cur in if same_file (find_file p base) f then rest else p ∷ rest

abbrev is_missing : Option FencedFile → Bool
is_missing none = true
is_missing (some f) = false

-- The files that were deleted.
unfoldable pub deleted_files : Snapshot → Snapshot → List Text
unfolding find_file
deleted_files [] cur = []
deleted_files ((p, f) ∷ base) cur =
    let rest = deleted_files base cur in if is_missing (find_file p cur) then p ∷ rest else rest

unfoldable pub drifted : Snapshot → Snapshot → List Text
unfolding changed_files deleted_files
drifted base cur = sort_texts (changed_files base cur ++ deleted_files base cur)

-- driftCheck: none is a fence that cannot be verified.
unfoldable pub drift_check : (Text → Text) → Option FenceState → Listing → Option (List Text)
unfolding drifted walk_fenced
drift_check sha256 none l = some []
drift_check sha256 (some f) l =
    if f.snapshot_failed
    then none
    else and_then (walk_fenced sha256 f.globs l) (λ cur. some (drifted (entries f.base) cur))

abbrev globs_of : Option FenceState → List Text
globs_of none = []
globs_of (some f) = f.globs

unfoldable pub violation_text : List Text → List Text → Text
violation_text globs [] = []
violation_text globs (p ∷ ps) =
    codes "test fence violated: "
    ++ comma_texts (codes ", ") (p ∷ ps)
    ++ codes " — fenced paths ("
    ++ comma_texts (codes ",") globs
    ++ codes ") are read-only for this run and were modified"

-- violationCheck: none is a fence that cannot be verified, the empty text a clean one.
unfoldable pub violation_check : (Text → Text) → Option FenceState → Listing → Option Text
unfolding drift_check violation_text
violation_check sha256 f l =
    and_then (drift_check sha256 f l) (λ ps. some (violation_text (globs_of f) ps))

-- What the repair asks of the sandbox; none is an error.
pub record Files {ℓ} (W : Type ℓ) : Type ℓ where
  pub read : Text → W → Option Text
  pub write : Text → Text → W → Option W
  pub remove : Text → W → Option W

module _ {ℓ} {W : Type ℓ} (files : Files W) where
  unfoldable pub restore_file : Text → Option FencedFile → W → Option W
  restore_file p none w = files.remove p w
  restore_file p (some b) w = and_then b.content (λ text. files.write p text w)

  -- restore: none is the first error.
  unfoldable pub restore : Snapshot → List Text → W → Option W
  unfolding restore_file
  restore base [] w = some w
  restore base (p ∷ ps) w = and_then (restore_file p (find_file p base) w) (λ v. restore base ps v)
