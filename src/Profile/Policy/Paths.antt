-- ===== src/Profile/Policy/Paths.antt =====
-- A path that passes the test stays inside the workspace.
use mathlib.Core.List.{reverse}
use driver_os.Base.{
  split, Kept, clean_step, clean_parts, joined, with_ups, clean, ℕ, zero, suc, ◌+◌, ◌≤◌, ◌≡◌, refl,
  arith, true, not, ◌&&◌, ◌||◌, List, [], ◌∷◌, Option, none, some, Text, codes, is_empty, text_eq,
  has_prefix, length, if◌then◌else◌,
}
use driver_os.Profile.Policy.{workspace_path}

-- How deep below its start a walk along the parts ends; none when it ever stands above it.
pub walk : ℕ → List Text → Option ℕ
walk d [] = some d
walk d (p ∷ ps) =
    let same = walk d ps in
    let down = walk (d + 1) ps in
    let up : Option ℕ = elim d [ zero ↦ none | suc e ↦ walk e ps ] in
    if is_empty p || text_eq p (codes ".")
    then same
    else if text_eq p (codes "..")
    then up
    else down

clean_step-ups : (k : Kept) (p : Text) → k.ups ≤ (clean_step k p).ups
unfolding clean_step
clean_step-ups k p = ground arith

clean_parts-ups : (k : Kept) (ps : List Text) → k.ups ≤ (clean_parts k ps).ups
unfolding clean_parts
clean_parts-ups k [] = omega arith
clean_parts-ups k (p ∷ ps) = omega (arith, clean_step-ups k p, clean_parts-ups (clean_step k p) ps)

walk-clean_step :
    (k : Kept) (p : Text) (ps : List Text) (d : ℕ)
    → (clean_step k p).ups ≡ 0
    → walk (length (clean_step k p).kept) ps ≡ some d
    → walk (length k.kept) (p ∷ ps) ≡ some d
unfolding clean_step walk
walk-clean_step k p ps d z h = ground arith

walk-clean_parts :
    (k : Kept) (ps : List Text)
    → (clean_parts k ps).ups ≡ 0
    → (d : ℕ) × (walk (length k.kept) ps ≡ some d)
unfolding clean_parts walk
walk-clean_parts k [] z = (length k.kept, refl)
walk-clean_parts k (p ∷ ps) z =
    let (d, e) = walk-clean_parts (clean_step k p) ps z in
    let u = clean_parts-ups (clean_step k p) ps in
    (d, walk-clean_step k p ps d (omega (arith, u, z)) e)

-- What starts with `..` is seen to.
joined-ups :
    (n : ℕ) (ps : List Text)
    → let s = joined (with_ups (suc n) ps) in
      (text_eq s (codes "..") || has_prefix s (codes "../")) ≡ true
unfolding joined with_ups has_prefix text_eq
joined-ups zero [] = refl
joined-ups zero (p ∷ ps) = refl
joined-ups (suc n) ps = refl

rejects-ups :
    (u : ℕ) (ps : List Text)
    → let s = joined (with_ups u ps) in
      let t = if is_empty s then codes "." else s in
      (not (text_eq t (codes "..")) && not (has_prefix t (codes "../"))) ≡ true → u ≡ 0
unfolding has_prefix text_eq
rejects-ups zero ps h = refl
rejects-ups (suc n) ps h = ground (arith, joined-ups n ps)

workspace_path-ups :
    (arg : Text)
    → workspace_path arg ≡ true
    → (clean_parts (record { ups = 0; kept = [] }) (split b'/' arg)).ups ≡ 0
unfolding workspace_path clean
workspace_path-ups arg h =
    let k = clean_parts (record { ups = 0; kept = [] }) (split b'/' arg) in
    rejects-ups k.ups (reverse k.kept) (ground arith)

-- A path that passes the test names something in the workspace: read from left to right, its parts
-- never lead above the directory where they start.
pub workspace_path-stays :
    (arg : Text) → workspace_path arg ≡ true → (d : ℕ) × (walk 0 (split b'/' arg) ≡ some d)
workspace_path-stays arg h = walk-clean_parts _ (split b'/' arg) (workspace_path-ups arg h)
