-- ===== src/Agent/TextLoop/Action/Known.antt =====
-- The verbs that parseAction gives.
use driver_os.Base.{
  ◌≡◌, ◌⊎◌, inl, inr, refl, arith, true, List, [], ◌∷◌, Option, none, some, Text, codes,
  text_eq_refl, trim_space, before, after, split, drop, Bool-cases,
}
use driver_os.Agent.TextLoop.Action.{
  is_known, then_known, plain, parametric, tagged, tag_action, marked_action, parameter_action,
  angle_action, json_action, cut_text, text_action, or_else, line_action, strip_action_prefix,
  or_reply, parse_lines, parse_action,
}

-- An action, where there is one, has a verb of the list.
abbrev IsOf : List Text → Option (Text × Text) → Type 0
IsOf known o = (x : Text × Text) → o ≡ some x → is_known x.0 known ≡ true

then_known-IsOf : (known : List Text) (o : Option (Text × Text)) → IsOf known (then_known known o)
then_known-IsOf known none x h = cc
then_known-IsOf known (some (v, rest)) x h = ground arith

json_action-IsOf :
    (fields : Option (List (Text × Option Text))) (known : List Text)
    → IsOf known (json_action fields known)
unfolding json_action
json_action-IsOf none known x h = cc
json_action-IsOf (some fields) known x h = ground arith

plain-IsOf :
    (v rest : Text) (known lines : List Text)
    → is_known v known ≡ true
    → IsOf known (plain v rest lines)
unfolding plain
plain-IsOf v rest known lines k x h = ground arith

parametric-IsOf :
    (v rest : Text) (known lines : List Text)
    → is_known v known ≡ true
    → IsOf known (parametric v rest lines)
unfolding parametric
parametric-IsOf v rest known lines k x h = ground arith

tagged-IsOf :
    (v rest : Text) (known lines : List Text)
    → is_known v known ≡ true
    → IsOf known (tagged v rest lines)
unfolding tagged
tagged-IsOf v rest known lines k x h = ground arith

parameter_action-IsOf : (line : Text) (known : List Text) → IsOf known (parameter_action line known)
unfolding parameter_action
parameter_action-IsOf line known x h =
    ground (arith, then_known-IsOf known (cut_text (codes "\">") (drop 17 line)) x)

angle_action-IsOf : (line : Text) (known : List Text) → IsOf known (angle_action line known)
unfolding angle_action
angle_action-IsOf line [] x h = cc
angle_action-IsOf line (v ∷ known) x h =
    ground (arith, angle_action-IsOf line known x, text_eq_refl v)

marked_action-IsOf :
    (p a : Option (Text × Text)) (known lines : List Text)
    → IsOf known p
    → IsOf known a
    → IsOf known (marked_action p a lines)
unfolding marked_action tag_action
marked_action-IsOf none none known lines p a x h = cc
marked_action-IsOf none (some (v, rest)) known lines p a x h =
    tagged-IsOf v rest known lines (a (v, rest) refl) x h
marked_action-IsOf (some (v, rest)) o known lines p a x h =
    parametric-IsOf v rest known lines (p (v, rest) refl) x h

text_action-IsOf :
    (line : Text) (known lines : List Text) → IsOf known (text_action line known lines)
unfolding text_action
text_action-IsOf line known lines x h = elim (Bool-cases (is_known (before b' ' line) known)) [
  | inl k ↦ plain-IsOf (before b' ' line) (after b' ' line) known lines k x (ground arith)
  | inr k ↦
      marked_action-IsOf (parameter_action line known) (angle_action line known) known lines
        (parameter_action-IsOf line known) (angle_action-IsOf line known) x (ground arith)
]

or_else-IsOf :
    (known : List Text) (o p : Option (Text × Text))
    → IsOf known o
    → IsOf known p
    → IsOf known (or_else o p)
or_else-IsOf known none p a b x h = b x h
or_else-IsOf known (some y) p a b x h = a x h

or_reply-IsOf :
    (known : List Text) (reply : Text) (o : Option (Text × Text)) (y : Text × Text)
    → IsOf known o
    → (is_known y.0 known ≡ true) ⊎ (y ≡ ([], reply))
    → (is_known (or_reply o y).0 known ≡ true) ⊎ (or_reply o y ≡ ([], reply))
or_reply-IsOf known reply none y a h = h
or_reply-IsOf known reply (some x) y a h = inl (a x refl)

parse_lines-known :
    (decode : Text → Option (List (Text × Option Text))) (reply : Text) (known lines : List Text)
    → (is_known (parse_lines decode reply known lines).0 known ≡ true)
      ⊎ (parse_lines decode reply known lines ≡ ([], reply))
unfolding parse_lines line_action
parse_lines-known decode reply known [] = inr refl
parse_lines-known decode reply known (raw ∷ lines) =
    or_reply-IsOf known reply _ (parse_lines decode reply known lines)
      (or_else-IsOf known (json_action (decode (trim_space raw)) known)
        (text_action (strip_action_prefix (trim_space raw) known) known lines)
        (json_action-IsOf (decode (trim_space raw)) known)
        (text_action-IsOf (strip_action_prefix (trim_space raw) known) known lines))
      (parse_lines-known decode reply known lines)

-- Whatever the reply, in plain text, tags, parameters or JSON: its action has the verb `answer` or the name
-- of a tool, or it is no action, with an empty verb and the whole reply as its argument.
pub parse_action-known :
    (decode : Text → Option (List (Text × Option Text))) (reply : Text) (tools : List Text)
    → (is_known (parse_action decode reply tools).0 (codes "answer" ∷ tools) ≡ true)
      ⊎ (parse_action decode reply tools ≡ ([], reply))
unfolding parse_action
parse_action-known decode reply tools =
    parse_lines-known decode reply (codes "answer" ∷ tools) (split b'\n' reply)
