-- ===== src/Base/FilePaths.antt =====
-- Slash-separated paths: strings.Split, path.Clean, path.Base and path.Match, as the program calls them.
-- On Unix, filepath.Clean is path.Clean, and filepath.ToSlash changes nothing.
use mathlib.Core.List.{List, [], ◌∷◌, ◌++◌, reverse}
use mathlib.Core.Bool.{Bool, true, false, not, ◌&&◌, ◌||◌}
use mathlib.Core.Option.{Option, none, some}
use Prim.Native.Nat.{ℕ, zero, suc, ◌+◌}
use driver_os.Base.Tests.{leb, ◌==◌, if◌then◌else◌}
use driver_os.Base.Lists.{is_empty}
use driver_os.Base.Texts.{Text, codes, text_eq, has_prefix, has_code}

-- strings.Split for a separator of one code point.
abbrev pub push : ℕ → List Text → List Text
push x [] = (x ∷ []) ∷ []
push x (p ∷ ps) = (x ∷ p) ∷ ps

unfoldable pub split : ℕ → Text → List Text
split c [] = [] ∷ []
split c (x ∷ s) = let rest = split c s in if x == c then [] ∷ rest else push x rest

-- The elements that filepath.Clean keeps of a relative path: how many `..` in front, and the names
-- behind them, the last one first.
pub record Kept : Type 0 where
  pub ups : ℕ
  pub kept : List Text

abbrev pub go_up : ℕ → List Text → Kept
go_up u [] = record { ups = u + 1; kept = [] }
go_up u (n ∷ ns) = record { ups = u; kept = ns }

unfoldable pub clean_step : Kept → Text → Kept
unfolding text_eq
clean_step k p =
    if is_empty p || text_eq p (codes ".")
    then k
    else if text_eq p (codes "..")
    then go_up k.ups k.kept
    else record k { kept = p ∷ k.kept }

unfoldable pub clean_parts : Kept → List Text → Kept
clean_parts k [] = k
clean_parts k (p ∷ ps) = clean_parts (clean_step k p) ps

unfoldable pub joined : List Text → Text
joined [] = []
joined (p ∷ []) = p
joined (p ∷ q ∷ ps) = p ++ b'/' ∷ joined (q ∷ ps)

unfoldable pub with_ups : ℕ → List Text → List Text
with_ups zero ps = ps
with_ups (suc n) ps = codes ".." ∷ with_ups n ps

-- filepath.Clean on Unix, for a path that is not rooted.
unfoldable pub clean : Text → Text
clean arg =
    let k = clean_parts (record { ups = 0; kept = [] }) (split b'/' arg) in
    let out = joined (with_ups k.ups (reverse k.kept)) in if is_empty out then codes "." else out

-- path.Clean: above the root there is nothing.
unfoldable pub clean_path : Text → Text
unfolding clean
clean_path s =
    if has_prefix s (codes "/")
    then b'/' ∷ joined (reverse (clean_parts (record { ups = 0; kept = [] }) (split b'/' s)).kept)
    else clean s

-- path.Base of a path that is clean: what stands behind the last slash, and the root itself.
unfoldable pub behind_slash : Text → Text → Text
behind_slash acc [] = acc
behind_slash acc (c ∷ s) = behind_slash (if c == b'/' then s else acc) s

unfoldable pub base_name : Text → Text
unfolding behind_slash
base_name s = let b = behind_slash s s in if is_empty b then codes "/" else b

-- What a pattern of path.Match is made of.
pub data Token : Type 0 where
  star : Token
  any : Token
  literal : ℕ → Token
  class : Bool → List (ℕ × ℕ) → Token

-- Where the reader of a pattern stands; in a class, whether it is negated and the ranges so far.
pub data Reader : Type 0 where
  outside escaped opened : Reader
  low : Bool → List (ℕ × ℕ) → Reader
  low_escaped : Bool → List (ℕ × ℕ) → Reader
  ranged : Bool → List (ℕ × ℕ) → ℕ → Reader
  high : Bool → List (ℕ × ℕ) → ℕ → Reader
  high_escaped : Bool → List (ℕ × ℕ) → ℕ → Reader

-- What one code point does: a reader with the token that it ends, or none for a bad pattern.
abbrev Read : Type 0
Read = Option (Option Token × Reader)

abbrev stay : Reader → Read
stay r = some (none, r)

abbrev emit : Token → Read
emit t = some (some t, outside)

unfoldable pub read_low : Bool → List (ℕ × ℕ) → ℕ → Read
read_low n rs c =
    if c == b']'
    then if is_empty rs then none else emit (class n rs)
    else if c == b'-'
    then none
    else if c == b'\\'
    then stay (low_escaped n rs)
    else stay (ranged n rs c)

unfoldable pub read_code : Reader → ℕ → Read
unfolding read_low
read_code outside c =
    if c == b'*'
    then emit star
    else if c == b'?'
    then emit any
    else if c == b'['
    then stay opened
    else if c == b'\\'
    then stay escaped
    else emit (literal c)
read_code escaped c = emit (literal c)
read_code opened c = if c == b'^' then stay (low true []) else read_low false [] c
read_code (low n rs) c = read_low n rs c
read_code (low_escaped n rs) c = stay (ranged n rs c)
read_code (ranged n rs lo) c =
    if c == b'-' then stay (high n rs lo) else read_low n ((lo, lo) ∷ rs) c
read_code (high n rs lo) c =
    if c == b'-' || c == b']'
    then none
    else if c == b'\\'
    then stay (high_escaped n rs lo)
    else stay (low n ((lo, c) ∷ rs))
read_code (high_escaped n rs lo) c = stay (low n ((lo, c) ∷ rs))

abbrev put_token : Option Token → List Token → List Token
put_token none ts = ts
put_token (some t) ts = t ∷ ts

abbrev ended : Reader → Option (List Token)
ended outside = some []
ended _ = none

-- The tokens of a pattern, or none for a bad one. path.Match finds a bad pattern late, and reports no
-- match then as it does where the error is dropped.
unfoldable pub tokens : Reader → Text → Option (List Token)
unfolding read_code
tokens r [] = ended r
tokens r (c ∷ s) = elim (read_code r c) [
  | none ↦ none
  | some (t, r') ↦ elim (tokens r' s) [ none ↦ none | some ts ↦ some (put_token t ts) ]
]

-- scanChunk: tokens without a star behind stars or none.
pub record Chunk : Type 0 where
  pub starred : Bool
  pub parts : List Token

abbrev add_part : Token → List Chunk → List Chunk
add_part t [] = record { starred = false; parts = t ∷ [] } ∷ []
add_part t (k ∷ ks) =
    if k.starred
    then record { starred = false; parts = t ∷ [] } ∷ k ∷ ks
    else record { starred = false; parts = t ∷ k.parts } ∷ ks

-- A star in front of an unstarred chunk is that chunk's; before a starred one it is one star with it.
abbrev add_star : List Chunk → List Chunk
add_star [] = record { starred = true; parts = [] } ∷ []
add_star (k ∷ ks) = record { starred = true; parts = k.parts } ∷ ks

unfoldable pub chunks : List Token → List Chunk
chunks [] = []
chunks (star ∷ ts) = add_star (chunks ts)
chunks (t ∷ ts) = add_part t (chunks ts)

abbrev in_ranges : ℕ → List (ℕ × ℕ) → Bool
in_ranges c [] = false
in_ranges c ((lo, hi) ∷ rs) = (leb lo c && leb c hi) || in_ranges c rs

-- Whether a token takes a code point. A class takes a slash too.
unfoldable pub takes : Token → ℕ → Bool
takes star c = false
takes any c = not (c == b'/')
takes (literal x) c = c == x
takes (class n rs) c = if n then not (in_ranges c rs) else in_ranges c rs

-- matchChunk: what is left of the name, or none.
unfoldable pub match_chunk : List Token → Text → Option Text
unfolding takes
match_chunk [] s = some s
match_chunk (t ∷ ts) [] = none
match_chunk (t ∷ ts) (c ∷ s) = let rest = match_chunk ts s in if takes t c then rest else none

-- Whether a match of a chunk may stand: the last chunk has to use the name up.
abbrev stands : Bool → Option Text → Option Text
stands last none = none
stands last (some t) = if is_empty t || not last then some t else none

-- The search behind a star, which does not skip a slash.
unfoldable pub skip_match : Bool → List Token → Text → Option Text
skip_match last ts [] = none
skip_match last ts (c ∷ s) =
    if c == b'/'
    then none
    else elim (stands last (match_chunk ts s)) [ none ↦ skip_match last ts s | some t ↦ some t ]

unfoldable pub place : Chunk → Bool → Text → Option Text
unfolding match_chunk skip_match
place k last s = elim (stands last (match_chunk k.parts s)) [
  | some t ↦ some t
  | none ↦ if k.starred then skip_match last k.parts s else none
]

unfoldable pub match_chunks : List Chunk → Text → Bool
unfolding place has_code
match_chunks [] s = is_empty s
match_chunks (k ∷ ks) s =
    if k.starred && is_empty k.parts
    then not (has_code b'/' s)
    else elim (place k (is_empty ks) s) [ none ↦ false | some t ↦ match_chunks ks t ]

abbrev matched : Option (List Token) → Text → Bool
matched none s = false
matched (some ts) s = match_chunks (chunks ts) s

-- path.Match without its error.
unfoldable pub path_match : Text → Text → Bool
unfolding tokens chunks match_chunks
path_match g s = matched (tokens outside g) s
