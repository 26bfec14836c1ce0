-- ===== src/Provider/SseFilter/Lines.antt =====
-- What the byte machine of `transform` does to whole lines.
use driver_os.Base.{
  Bool, true, false, ◌&&◌, none, List, [], ◌∷◌, ◌++◌, ◌≡◌, refl, sym, ◌∙◌, ap, arith, Text, ◌==◌,
  if◌then◌else◌, is_empty, All, has_code, append-nil, append_assoc,
}
use driver_os.Provider.SseFilter.{Filter, step, transform}

-- A line's bytes without its '\n', and the stream that the lines make.
abbrev pub Line : Type 0
Line = Text

unfoldable pub render : List Line → Text
render [] = []
render (l ∷ ls) = l ++ (b'\n' ∷ render ls)

abbrev pub NoNewline : Line → Type 0
NoNewline l = has_code b'\n' l ≡ false

abbrev pub is_comment : Line → Bool
is_comment [] = false
is_comment (c ∷ l) = c == b':'

-- Empty but for one '\r'.
abbrev pub is_blank : Line → Bool
is_blank [] = true
is_blank (c ∷ l) = c == b'\r' && is_empty l

-- The lines that survive, where `saw` says that a field line stands since the last blank one.
unfoldable pub kept : Bool → List Line → List Line
kept saw [] = []
kept saw (l ∷ ls) =
    let skip = kept saw ls in
    let dispatch = l ∷ kept false ls in
    let field = l ∷ kept true ls in
    if is_comment l then skip else if is_blank l then if saw then dispatch else skip else field

unfoldable pub saw_after : Bool → List Line → Bool
saw_after saw [] = saw
saw_after saw (l ∷ ls) =
    saw_after (if is_comment l then saw else if is_blank l then false else true) ls

-- The filter between two lines.
abbrev pub between : Text → Bool → Filter
between out saw = record {
  err = none;
  out = out;
  mid_line = false;
  drop_line = false;
  pending_cr = false;
  saw_field = saw;
}

-- Inside a comment nothing is served up to the newline.
transform-comment :
    (l rest out : Text) (saw : Bool)
    → NoNewline l
    → transform (record (between out saw) { drop_line = true }) (l ++ (b'\n' ∷ rest))
      ≡ transform (between out saw) rest
unfolding transform step has_code
transform-comment [] rest out saw h = refl
transform-comment (c ∷ l) rest out saw h = ground (arith, transform-comment l rest out saw)

-- Inside a field line every byte is forwarded, the newline too.
transform-field :
    (l rest out : Text)
    → NoNewline l
    → transform (record (between out true) { mid_line = true }) (l ++ (b'\n' ∷ rest))
      ≡ transform (between (out ++ (l ++ b'\n' ∷ [])) true) rest
unfolding transform step has_code
transform-field [] rest out h = refl
transform-field (c ∷ l) rest out h =
    ground
      (arith, transform-field l rest (out ++ c ∷ []), append_assoc out (c ∷ []) (l ++ b'\n' ∷ []))

-- Where the filter stands behind a line.
abbrev behind : Text → Bool → Line → Filter
behind out saw l =
    if is_comment l
    then between out saw
    else if is_blank l
    then between (if saw then out ++ (l ++ b'\n' ∷ []) else out) false
    else between (out ++ (l ++ b'\n' ∷ [])) true

transform-line :
    (l rest out : Text) (saw : Bool)
    → NoNewline l
    → transform (between out saw) (l ++ (b'\n' ∷ rest)) ≡ transform (behind out saw l) rest
unfolding transform step has_code
transform-line [] rest out saw h = ground arith
transform-line (c ∷ []) rest out saw h = ground (arith, append_assoc out (c ∷ []) (b'\n' ∷ []))
transform-line (c ∷ d ∷ l) rest out saw h = ground (
  arith,
  transform-comment (d ∷ l) rest out saw,
  transform-field (d ∷ l) rest (out ++ c ∷ []),
  transform-field l rest (out ++ c ∷ d ∷ []),
  append_assoc out (c ∷ []) (d ∷ (l ++ b'\n' ∷ [])),
  append_assoc out (c ∷ d ∷ []) (l ++ b'\n' ∷ []),
)

-- Over whole lines the machine drops the comments, and each blank line that no field line precedes.
pub transform-render :
    (ls : List Line) (out : Text) (saw : Bool)
    → All NoNewline ls
    → transform (between out saw) (render ls)
      ≡ between (out ++ render (kept saw ls)) (saw_after saw ls)
unfolding render kept saw_after transform
transform-render [] out saw h = ap (λ o. between o saw) (sym (append-nil out))
transform-render (l ∷ ls) out saw h =
    transform-line l (render ls) out saw h.0
    ∙ ground (
      arith,
      transform-render ls out saw h.1,
      transform-render ls out false h.1,
      transform-render ls (out ++ (l ++ b'\n' ∷ [])) false h.1,
      transform-render ls (out ++ (l ++ b'\n' ∷ [])) true h.1,
      append_assoc out (l ++ b'\n' ∷ []) (render (kept false ls)),
      append_assoc out (l ++ b'\n' ∷ []) (render (kept true ls)),
      append_assoc l (b'\n' ∷ []) (render (kept false ls)),
      append_assoc l (b'\n' ∷ []) (render (kept true ls)),
    )

choose-NoNewline :
    (c b saw : Bool) (l : Line) (skip dispatch field : List Line)
    → NoNewline l
    → All NoNewline skip
    → All NoNewline dispatch
    → All NoNewline field
    → All NoNewline
        (if c then skip else if b then if saw then l ∷ dispatch else skip else l ∷ field)
choose-NoNewline true b saw l x y z h s d f = s
choose-NoNewline false true true l x y z h s d f = (h, d)
choose-NoNewline false true false l x y z h s d f = s
choose-NoNewline false false saw l x y z h s d f = (h, f)

pub kept-NoNewline : (ls : List Line) (saw : Bool) → All NoNewline ls → All NoNewline (kept saw ls)
unfolding kept
kept-NoNewline [] saw h = tt
kept-NoNewline (l ∷ ls) saw h =
    choose-NoNewline (is_comment l) (is_blank l) saw l _ _ _ h.0 (kept-NoNewline ls saw h.1)
      (kept-NoNewline ls false h.1) (kept-NoNewline ls true h.1)
