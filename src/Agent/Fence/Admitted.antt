-- ===== src/Agent/Fence/Admitted.antt =====
-- The globs of a scope against the same globs as a fence.
use driver_os.Base.{
  ◌≡◌, refl, arith, true, false, List, [], ◌∷◌, Option, none, some, Text, is_empty, has_code,
  trim_space, clean, clean_path, behind_slash, base_name,
}
use driver_os.Agent.Fence.{
  cut_globstar, fences, any_fences, matches_fence, admits, any_admits, matches_scope,
}

behind_slash_plain : (acc s : Text) → has_code b'/' s ≡ false → behind_slash acc s ≡ acc
unfolding behind_slash has_code
behind_slash_plain acc [] h = refl
behind_slash_plain acc (c ∷ s) h = ground (arith, behind_slash_plain acc s)

-- A path of one element is its own base.
base_name_plain : (p : Text) → is_empty p ≡ false → has_code b'/' p ≡ false → base_name p ≡ p
unfolding base_name
base_name_plain p e h = rw (behind_slash_plain p p h) (rw e)

clean_path-not_empty : (s : Text) → is_empty (clean_path s) ≡ false
unfolding clean_path clean
clean_path-not_empty s = ground arith

admits-fences :
    (g p : Text) (o : Option Text) → is_empty p ≡ false → admits g p o ≡ true → fences g p o ≡ true
unfolding admits fences
admits-fences g p (some dir) e h = ground arith
admits-fences g p none e h = ground (arith, base_name_plain p e)

any_admits-any_fences :
    (gs : List Text) (p : Text)
    → is_empty p ≡ false
    → any_admits gs p ≡ true
    → any_fences gs p ≡ true
unfolding any_admits any_fences
any_admits-any_fences [] p e h = cc
any_admits-any_fences (g ∷ gs) p e h = ground (
  arith,
  admits-fences (trim_space g) p (cut_globstar (trim_space g)) e,
  any_admits-any_fences gs p e,
)

-- Whatever the globs, a path that they admit as a scope is one that they match as a fence: the fence is
-- the wider of the two readings.
pub matches_scope-matches_fence :
    (globs : List Text) (rel : Text)
    → matches_scope globs rel ≡ true
    → matches_fence globs rel ≡ true
unfolding matches_scope matches_fence
matches_scope-matches_fence globs rel h =
    any_admits-any_fences globs (clean_path rel) (clean_path-not_empty rel) h
