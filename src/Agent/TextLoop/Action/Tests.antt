-- ===== src/Agent/TextLoop/Action/Tests.antt =====
-- Replies and their actions.
use driver_os.Base.{
  ◌≡◌, ◌⊎◌, refl, true, List, [], ◌∷◌, Option, none, some, Text, codes, text_eq, split, before,
  after, has_prefix, has_code, trim_space, trim_left, is_space,
}
use driver_os.Agent.TextLoop.Action.{is_known, parse_action}
use driver_os.Agent.TextLoop.Action.Known.{parse_action-known}

abbrev tools : List Text
tools = codes "run" ∷ codes "read_file" ∷ []

abbrev undecoded : Text → Option (List (Text × Option Text))
undecoded line = none

plain_action :
    parse_action undecoded (codes "I will look.\nrun ls\n") tools ≡ (codes "run", codes "ls")
unfolding parse_action split text_eq before after has_prefix has_code trim_space trim_left is_space
plain_action = refl

picked_action :
    parse_action undecoded (codes "<run>\n<argument>\nls -l</argument>") tools
    ≡ (codes "run", codes "ls -l")
unfolding parse_action split text_eq before after has_prefix has_code trim_space trim_left is_space
picked_action = refl

named_action :
    parse_action undecoded (codes "<parameter name=\"run\">ls</parameter>") tools
    ≡ (codes "run", codes "ls")
unfolding parse_action split text_eq before after has_prefix has_code trim_space trim_left is_space
named_action = refl

abbrev decoded : Text → Option (List (Text × Option Text))
decoded line =
    some ((codes "action", some (codes "run")) ∷ (codes "argument", some (codes "ls")) ∷ [])

object_action : parse_action decoded (codes "{}") tools ≡ (codes "run", codes "ls")
unfolding parse_action split text_eq before after has_prefix has_code trim_space trim_left is_space
object_action = refl

no_action : parse_action undecoded (codes "rm x") tools ≡ ([], codes "rm x")
unfolding parse_action split text_eq before after has_prefix has_code trim_space trim_left is_space
no_action = refl

parse_action-known_example :
    let r = parse_action undecoded (codes "<run> ls") tools in
    (is_known r.0 (codes "answer" ∷ tools) ≡ true) ⊎ (r ≡ ([], codes "<run> ls"))
parse_action-known_example = parse_action-known undecoded (codes "<run> ls") tools
