-- ===== src/Agent/TextLoop/Action.antt =====
-- agent/loop_text.go: parseAction, which reads the first action of a reply. The known verbs are a list, so
-- a loop over them takes its order where the source takes the map's; encoding/json is a parameter, and
-- gives the fields of an object, each with the text that its value decodes to, where it does.
pub mod Known
mod Tests
use driver_os.Base.{
  ℕ, zero, suc, ◌+◌, ◌-◌, Bool, true, false, not, ◌&&◌, ◌||◌, List, [], ◌∷◌, ◌++◌, Option, none,
  some, Text, codes, leb, ◌==◌, if◌then◌else◌, is_empty, text_eq, has_prefix, has_code, trim_space,
  trim_left, is_space, before, after, length, drop, split,
}

-- strings.ReplaceAll of a tag by nothing, behind a number of code points to skip.
unfoldable pub without : Text → ℕ → Text → Text
without tag k [] = []
without tag (suc k) (c ∷ s) = without tag k s
without tag zero (c ∷ s) =
    let cut = without tag (length tag - 1) s in
    let kept = without tag zero s in if has_prefix (c ∷ s) tag then cut else c ∷ kept

-- strings.TrimSuffix and HasSuffix, for a suffix that is not empty.
unfoldable pub trim_suffix : Text → Text → Text
trim_suffix [] suffix = []
trim_suffix (c ∷ s) suffix =
    let rest = trim_suffix s suffix in if text_eq (c ∷ s) suffix then [] else c ∷ rest

unfoldable pub has_suffix : Text → Text → Bool
has_suffix [] suffix = false
has_suffix (c ∷ s) suffix = text_eq (c ∷ s) suffix || has_suffix s suffix

-- The first of strings.Fields.
unfoldable pub first_field : Text → Text
first_field [] = []
first_field (c ∷ s) = let rest = first_field s in if is_space c then [] else c ∷ rest

-- strings.Index, with what is before and behind.
unfoldable pub cut_text : Text → Text → Option (Text × Text)
cut_text pattern [] = none
cut_text pattern (c ∷ s) = elim (cut_text pattern s) [
  | none ↦ if has_prefix (c ∷ s) pattern then some ([], drop (length pattern) (c ∷ s)) else none
  | some (a, b) ↦
      if has_prefix (c ∷ s) pattern
      then some ([], drop (length pattern) (c ∷ s))
      else some (c ∷ a, b)
]

unfoldable pub strip_argument_wrappers : Text → Text
unfolding without
strip_argument_wrappers arg = trim_space (
    without (codes "</argument_value>") 0 (
      without (codes "<argument_value>") 0
        (without (codes "</argument>") 0 (without (codes "<argument>") 0 arg))))

abbrev without_slash : Text → Text
without_slash s = if has_prefix s (codes "/") then drop 1 s else s

abbrev is_wrapper_name : Text → Bool
is_wrapper_name name =
    text_eq name (codes "tool_call")
    || text_eq name (codes "function")
    || text_eq name (codes "parameter")
    || text_eq name (codes "argument")
    || text_eq name (codes "argument_value")

unfoldable pub is_wrapper_tag : Text → Bool
unfolding trim_suffix has_suffix first_field
is_wrapper_tag line =
    let name = without_slash (trim_space (trim_suffix (drop 1 line) (codes ">"))) in
    has_prefix line (codes "<")
    && has_suffix (drop 1 line) (codes ">")
    && leb 3 (length line)
    && is_wrapper_name (before b'=' (first_field (trim_left name)))

unfoldable pub pickup_argument : List Text → Text
unfolding is_wrapper_tag strip_argument_wrappers
pickup_argument [] = []
pickup_argument (raw ∷ lines) =
    let rest = pickup_argument lines in
    let line = trim_space raw in
    if is_empty line || is_wrapper_tag line then rest else strip_argument_wrappers line

abbrev pub is_known : Text → List Text → Bool
is_known v [] = false
is_known v (k ∷ known) = text_eq v k || is_known v known

abbrev ends_verb : Text → Bool
ends_verb [] = true
ends_verb (c ∷ rest) = c == b' ' || c == b'\t'

unfoldable pub starts_known_verb : Text → List Text → Bool
starts_known_verb line [] = false
starts_known_verb line (v ∷ known) =
    has_prefix line v && ends_verb (drop (length v) line) || starts_known_verb line known

abbrev strips : Text → Text → List Text → Bool
strips prefix line known =
    has_prefix line prefix && starts_known_verb (drop (length prefix) line) known

unfoldable pub strip_action_prefix : Text → List Text → Text
unfolding starts_known_verb
strip_action_prefix line known =
    if strips (codes "\\") line known
    then drop 1 line
    else if strips (codes "<tool_call>_") line known
    then drop 12 line
    else if strips (codes "<tool_call>") line known
    then drop 11 line
    else line

abbrev pub if_known : List Text → Text × Text → Option (Text × Text)
if_known known (v, rest) = if is_known v known then some (v, rest) else none

abbrev pub then_known : List Text → Option (Text × Text) → Option (Text × Text)
then_known known none = none
then_known known (some x) = if_known known x

unfoldable pub parameter_action : Text → List Text → Option (Text × Text)
unfolding cut_text
parameter_action line known =
    let tail = drop 11 line in
    if has_prefix line (codes "<parameter=") && has_code b'>' tail
    then if_known known (before b'>' tail, after b'>' tail)
    else if has_prefix line (codes "<parameter name=\"")
    then then_known known (cut_text (codes "\">") (drop 17 line))
    else none

unfoldable pub angle_action : Text → List Text → Option (Text × Text)
angle_action line [] = none
angle_action line (v ∷ known) =
    let rest = angle_action line known in
    if has_prefix line (codes "<" ++ v ++ codes ">")
      || has_prefix line (codes "<" ++ v ++ codes " ")
    then some (v, drop (length v + 2) line)
    else rest

unfoldable pub strip_verb_close : Text → Text → Text
unfolding trim_suffix
strip_verb_close arg verb = trim_space (
    trim_suffix (trim_space (trim_suffix (trim_space arg) (codes "</" ++ verb ++ codes ">")))
      (codes ">"))

unfoldable pub strip_parameter_close : Text → Text
unfolding trim_suffix
strip_parameter_close arg = trim_space (trim_suffix (trim_space arg) (codes "</parameter>"))

-- A field of an object: none where it is missing or no string.
abbrev field_text : Text → List (Text × Option Text) → Option Text
field_text k [] = none
field_text k ((j, v) ∷ fields) = if text_eq k j then v else field_text k fields

abbrev both : Option Text → Option Text → Option (Text × Text)
both none argument = none
both (some action) none = none
both (some action) (some argument) = some (action, argument)

unfoldable pub json_action : Option (List (Text × Option Text)) → List Text → Option (Text × Text)
json_action none known = none
json_action (some fields) known =
    if length fields == 2
    then then_known known
        (both (field_text (codes "action") fields) (field_text (codes "argument") fields))
    else none

-- The argument of a later line, where there is one.
abbrev pub picked : Text → Text → Option (Text × Text)
picked v a = if is_empty a then none else some (v, a)

unfoldable pub plain : Text → Text → List Text → Option (Text × Text)
unfolding strip_argument_wrappers pickup_argument
plain v rest lines =
    let a = strip_argument_wrappers rest in
    if not (is_empty a) || text_eq v (codes "answer") || is_empty (trim_space rest)
    then some (v, a)
    else picked v (pickup_argument lines)

unfoldable pub parametric : Text → Text → List Text → Option (Text × Text)
unfolding strip_argument_wrappers strip_parameter_close pickup_argument
parametric v rest lines =
    let a = strip_parameter_close (strip_argument_wrappers rest) in
    if not (is_empty a) then some (v, a) else picked v (pickup_argument lines)

unfoldable pub tagged : Text → Text → List Text → Option (Text × Text)
unfolding strip_argument_wrappers strip_verb_close pickup_argument
tagged v rest lines =
    let a = strip_argument_wrappers (strip_verb_close rest v) in
    if not (is_empty a)
    then some (v, a)
    else if text_eq v (codes "answer")
    then none
    else picked v (pickup_argument lines)

unfoldable pub tag_action : Option (Text × Text) → List Text → Option (Text × Text)
unfolding tagged
tag_action none lines = none
tag_action (some (v, rest)) lines = tagged v rest lines

unfoldable pub marked_action :
    Option (Text × Text) → Option (Text × Text) → List Text → Option (Text × Text)
unfolding parametric tag_action
marked_action none angle lines = tag_action angle lines
marked_action (some (v, rest)) angle lines = parametric v rest lines

unfoldable pub text_action : Text → List Text → List Text → Option (Text × Text)
unfolding plain marked_action parameter_action angle_action
text_action line known lines =
    let v = before b' ' line in
    if is_known v known
    then plain v (after b' ' line) lines
    else marked_action (parameter_action line known) (angle_action line known) lines

abbrev pub or_else : Option (Text × Text) → Option (Text × Text) → Option (Text × Text)
or_else none y = y
or_else (some x) y = some x

-- The action of a line, with the lines behind it.
unfoldable pub line_action :
    (Text → Option (List (Text × Option Text)))
    → Text
    → List Text
    → List Text
    → Option (Text × Text)
unfolding json_action text_action strip_action_prefix
line_action decode raw known lines =
    or_else (json_action (decode (trim_space raw)) known)
      (text_action (strip_action_prefix (trim_space raw) known) known lines)

abbrev pub or_reply : Option (Text × Text) → Text × Text → Text × Text
or_reply none y = y
or_reply (some x) y = x

unfoldable pub parse_lines :
    (Text → Option (List (Text × Option Text))) → Text → List Text → List Text → Text × Text
unfolding line_action
parse_lines decode reply known [] = ([], reply)
parse_lines decode reply known (raw ∷ lines) =
    or_reply (line_action decode raw known lines) (parse_lines decode reply known lines)

unfoldable pub parse_action :
    (Text → Option (List (Text × Option Text))) → Text → List Text → Text × Text
unfolding parse_lines
parse_action decode reply tools =
    parse_lines decode reply (codes "answer" ∷ tools) (split b'\n' reply)
