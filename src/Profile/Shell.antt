-- ===== src/Profile/Shell.antt =====
-- parseSimpleCommand and literalWord of profile/profile.go. The shell parser (mvdan.cc/sh/v3/syntax) is a
-- parameter: of its tree, what the checks read is written here.
use driver_os.Base.{
  ℕ, Bool, true, false, not, ◌&&◌, ◌||◌, List, [], ◌∷◌, ◌++◌, Option, none, some, Text, ◌==◌,
  if◌then◌else◌,
}

-- The parts of a word of the shell: what is neither a literal nor quoted has no text.
mutual
  pub data WordPart : Type 0 where
    literal : Text → WordPart
    single_quoted : Bool → Text → WordPart
    double_quoted : Bool → WordParts → WordPart
    other_part : WordPart

  pub data WordParts : Type 0 where
    no_part : WordParts
    part : WordPart → WordParts → WordParts

-- One statement of the tree: the marks that the check refuses, and the words of a call.
pub record Statement : Type 0 where
  pub is_call : Bool
  pub has_semicolon : Bool
  pub negated : Bool
  pub background : Bool
  pub coprocess : Bool
  pub redirs : ℕ
  pub comments : ℕ
  pub assigns : ℕ
  pub args : List WordParts

pub record File : Type 0 where
  pub stmts : List Statement
  pub last : ℕ

-- strings.ContainsAny(s, "*?[~{}")
unfoldable pub has_glob : Text → Bool
has_glob [] = false
has_glob (c ∷ s) =
    c == b'*' || c == b'?' || c == b'[' || c == b'~' || c == b'{' || c == b'}' || has_glob s

abbrev pub both : Option Text → Option Text → Option Text
both (some a) (some b) = some (a ++ b)
both _ _ = none

-- The text of a word, where every part has one; the flag says that the parts are quoted.
unfoldable mutual
  pub part_text : Bool → WordPart → Option Text
  part_text quoted (literal s) = if not quoted && has_glob s then none else some s
  part_text quoted (single_quoted dollar s) = if dollar then none else some s
  part_text quoted (double_quoted dollar ps) =
      let inner = parts_text true ps in if dollar then none else inner
  part_text quoted other_part = none

  pub parts_text : Bool → WordParts → Option Text
  parts_text quoted no_part = some []
  parts_text quoted (part p ps) = both (part_text quoted p) (parts_text quoted ps)

unfoldable pub literal_word : WordParts → Option Text
literal_word = parts_text false

unfoldable pub literal_words : List WordParts → Option (List Text)
literal_words [] = some []
literal_words (w ∷ ws) = elim (literal_word w) [
  | none ↦ none
  | some a ↦ elim (literal_words ws) [ none ↦ none | some rest ↦ some (a ∷ rest) ]
]

-- Nothing but one call: no mark, no redirection, no comment, no assignment.
unfoldable pub is_simple : Statement → Bool
is_simple s =
    s.is_call
    && not s.has_semicolon
    && not s.negated
    && not s.background
    && not s.coprocess
    && s.redirs == 0
    && s.comments == 0
    && s.assigns == 0

unfoldable pub one_command : List Statement → Option (List Text)
one_command (s ∷ []) = if not (is_simple s) then none else literal_words s.args
one_command _ = none

-- The words of the one command of a file; the parser's tree, or none where it fails.
unfoldable pub parse_simple_command : Option File → Option (List Text)
parse_simple_command none = none
parse_simple_command (some f) = if not (f.last == 0) then none else one_command f.stmts
