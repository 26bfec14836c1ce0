-- ===== src/Agent/Observation/Fingerprint.antt =====
-- runFingerprint and assertionLineRE of agent/tools.go: what two runs have in common but for the
-- duration in the first line and the numbers in the body.
use mathlib.Core.List.{reverse}
use driver_os.Base.{
  ℕ, ◌+◌, Bool, true, false, not, ◌&&◌, ◌||◌, List, [], ◌∷◌, ◌++◌, Text, codes, leb, ◌==◌,
  if◌then◌else◌, is_empty, before, after, has_code, ◌≡◌, refl, sym, ap, ◌∙◌, arith, append-nil,
  append_assoc, ==_refl, All,
}

-- \w of package regexp.
is_word : ℕ → Bool
is_word c =
    (leb b'0' c && leb c b'9')
    || (leb b'A' c && leb c b'Z')
    || c == b'_'
    || (leb b'a' c && leb c b'z')

-- Case folding under (?i): the long s and the K-sign fold to ASCII letters.
fold_code : ℕ → ℕ
fold_code c =
    if leb b'A' c && leb c b'Z'
    then c + 32
    else if c == 0x17f
    then b's'
    else if c == 0x212a
    then b'k'
    else c

-- The word `w` stands at the start of `s`, and a word boundary behind it.
word_at : Text → Text → Bool
unfolding is_word fold_code
word_at [] [] = true
word_at [] (c ∷ s) = not (is_word c)
word_at (x ∷ w) [] = false
word_at (x ∷ w) (c ∷ s) = fold_code c == x && word_at w s

any_word_at : List Text → Text → Bool
unfolding word_at
any_word_at [] s = false
any_word_at (w ∷ ws) s = word_at w s || any_word_at ws s

-- `expected?` is these two.
abbrev assertion_words : List Text
assertion_words =
    codes "want"
    ∷ codes "got"
    ∷ codes "expecte"
    ∷ codes "expected"
    ∷ codes "actual"
    ∷ codes "assert"
    ∷ []

-- A match from some place on; `inside` says that a word character stands before the place.
scan : Bool → Text → Bool
unfolding any_word_at
scan inside [] = false
scan inside (c ∷ s) = (not inside && any_word_at assertion_words (c ∷ s)) || scan (is_word c) s

-- assertionLineRE.MatchString
unfoldable pub assertion_line : Text → Bool
unfolding scan
assertion_line = scan false

abbrev is_digit : ℕ → Bool
is_digit c = leb b'0' c && leb c b'9'

abbrev pub IsDigit : ℕ → Type 0
IsDigit c = is_digit c ≡ true

-- The inner loop: each run of digits is written as one '#'.
mask : Bool → Text → Text
mask in_digits [] = []
mask in_digits (c ∷ s) =
    let digit = if in_digits then mask true s else b'#' ∷ mask true s in
    let other = c ∷ mask false s in if is_digit c then digit else other

-- The lines that the loop cuts off `rest`; one newline at the end opens no line.
cut_lines : Text → Text → List Text
cut_lines cur [] = if is_empty cur then [] else cur ∷ []
cut_lines cur (c ∷ s) =
    let done = cur ∷ cut_lines [] s in
    let more = cut_lines (cur ++ c ∷ []) s in if c == b'\n' then done else more

mask_line : Text → Text
unfolding assertion_line mask
mask_line line = if assertion_line line then line else mask false line

write_lines : List Text → Text
write_lines [] = []
write_lines (line ∷ lines) = b'\n' ∷ (mask_line line ++ write_lines lines)

drop_blanks : Text → Text
drop_blanks [] = []
drop_blanks (c ∷ s) = if c == 32 then drop_blanks s else c ∷ s

-- strings.TrimRight(s, " ")
trim_right_blanks : Text → Text
unfolding drop_blanks
trim_right_blanks s = reverse (drop_blanks (reverse s))

-- The first line with its parenthesis cut off.
first_part : Text → Text
unfolding trim_right_blanks
first_part first = if has_code b'(' first then trim_right_blanks (before b'(' first) else first

unfoldable pub run_fingerprint : Text → Text
unfolding first_part cut_lines write_lines mask_line
run_fingerprint obs =
    let first = first_part (before b'\n' obs) in
    if has_code b'\n' obs then first ++ write_lines (cut_lines [] (after b'\n' obs)) else first

abbrev pub Lacks : ℕ → Text → Type 0
Lacks c s = has_code c s ≡ false

before-append : (c : ℕ) (a s : Text) → Lacks c a → before c (a ++ (c ∷ s)) ≡ a
unfolding before has_code
before-append c [] s h = ground (arith, ==_refl c)
before-append c (x ∷ a) s h = ground (arith, before-append c a s)

after-append : (c : ℕ) (a s : Text) → Lacks c a → after c (a ++ (c ∷ s)) ≡ s
unfolding after has_code
after-append c [] s h = ground (arith, ==_refl c)
after-append c (x ∷ a) s h = ground (arith, after-append c a s)

has_code-append : (c : ℕ) (a s : Text) → has_code c (a ++ (c ∷ s)) ≡ true
unfolding has_code
has_code-append c [] s = ground (arith, ==_refl c)
has_code-append c (x ∷ a) s = ground (arith, has_code-append c a s)

Lacks-append : (c : ℕ) (a b : Text) → Lacks c a → Lacks c b → Lacks c (a ++ b)
unfolding has_code
Lacks-append c [] b h k = k
Lacks-append c (x ∷ a) b h k = ground (arith, Lacks-append c a b)

-- The first line of a run: the command's exit, and its duration in a parenthesis.
abbrev pub first_line : Text → Text → Text
first_line exit duration = exit ++ (b'(' ∷ duration)

fingerprint-parts :
    (exit duration body : Text)
    → Lacks b'(' exit
    → Lacks b'\n' exit
    → Lacks b'\n' duration
    → run_fingerprint (first_line exit duration ++ (b'\n' ∷ body))
      ≡ trim_right_blanks exit ++ write_lines (cut_lines [] body)
unfolding run_fingerprint first_part
fingerprint-parts exit duration body paren line line' =
    let whole = Lacks-append b'\n' exit (b'(' ∷ duration) line (unfold has_code in line') in
    ground (
      arith,
      has_code-append b'\n' (first_line exit duration) body,
      before-append b'\n' (first_line exit duration) body whole,
      after-append b'\n' (first_line exit duration) body whole,
      has_code-append b'(' exit duration,
      before-append b'(' exit duration paren,
    )

cut_lines-line :
    (l cur s : Text)
    → Lacks b'\n' l
    → cut_lines cur (l ++ (b'\n' ∷ s)) ≡ (cur ++ l) ∷ cut_lines [] s
unfolding cut_lines has_code
cut_lines-line [] cur s h = ap (λ t. t ∷ cut_lines [] s) (sym (append-nil cur))
cut_lines-line (c ∷ l) cur s h =
    ground (arith, cut_lines-line l (cur ++ c ∷ []) s, append_assoc cur (c ∷ []) l)

-- A run of digits is one '#', whichever digits they are and however many.
mask-digits :
    (ds es q : Text) → All IsDigit ds → All IsDigit es → mask true (ds ++ q) ≡ mask true (es ++ q)
unfolding mask
mask-digits [] [] q h k = refl
mask-digits [] (e ∷ es) q h k = ground (arith, mask-digits [] es q)
mask-digits (d ∷ ds) es q h k = ground (arith, mask-digits ds es q)

mask-run :
    (p : Text) (b : Bool) (d e : ℕ) (ds es q : Text)
    → All IsDigit (d ∷ ds)
    → All IsDigit (e ∷ es)
    → mask b (p ++ (d ∷ (ds ++ q))) ≡ mask b (p ++ (e ∷ (es ++ q)))
unfolding mask
mask-run [] b d e ds es q h k = ground (arith, mask-digits ds es q)
mask-run (c ∷ p) b d e ds es q h k =
    ground (arith, mask-run p true d e ds es q h k, mask-run p false d e ds es q h k)

-- Lines of a run's body, each with its newline.
pub joined : List Text → Text → Text
joined [] s = s
joined (l ∷ ls) s = l ++ (b'\n' ∷ joined ls s)

cut_lines-joined :
    (ls : List Text) (s : Text)
    → All (Lacks b'\n') ls
    → cut_lines [] (joined ls s) ≡ ls ++ cut_lines [] s
unfolding joined
cut_lines-joined [] s h = refl
cut_lines-joined (l ∷ ls) s h =
    cut_lines-line l [] (joined ls s) h.0 ∙ ap (◌∷◌ l) (cut_lines-joined ls s h.1)

write_lines-swap :
    (ls : List Text) (l m : Text) (rest : List Text)
    → mask_line l ≡ mask_line m
    → write_lines (ls ++ (l ∷ rest)) ≡ write_lines (ls ++ (m ∷ rest))
unfolding write_lines
write_lines-swap [] l m rest h = ap (λ t. b'\n' ∷ (t ++ write_lines rest)) h
write_lines-swap (x ∷ ls) l m rest h =
    ap (λ t. b'\n' ∷ (mask_line x ++ t)) (write_lines-swap ls l m rest h)

-- One run of digits in a line.
abbrev pub numbered : Text → Text → Text → Text
numbered p ds q = p ++ (ds ++ q)

mask_line-run :
    (p q : Text) (d e : ℕ) (ds es : Text)
    → All IsDigit (d ∷ ds)
    → All IsDigit (e ∷ es)
    → assertion_line (numbered p (d ∷ ds) q) ≡ false
    → assertion_line (numbered p (e ∷ es) q) ≡ false
    → mask_line (numbered p (d ∷ ds) q) ≡ mask_line (numbered p (e ∷ es) q)
unfolding mask_line
mask_line-run p q d e ds es hd he ad ae = ground (arith, mask-run p false d e ds es q hd he)

-- Two observations that differ in the duration of the first line and in one number of one later line,
-- where that line is none of assertions in either, have the same fingerprint.
pub run_fingerprint_volatile :
    (exit duration duration' p q rest : Text) (ls : List Text) (d e : ℕ) (ds es : Text)
    → Lacks b'(' exit
    → Lacks b'\n' exit
    → Lacks b'\n' duration
    → Lacks b'\n' duration'
    → All (Lacks b'\n') ls
    → All IsDigit (d ∷ ds)
    → All IsDigit (e ∷ es)
    → Lacks b'\n' (numbered p (d ∷ ds) q)
    → Lacks b'\n' (numbered p (e ∷ es) q)
    → assertion_line (numbered p (d ∷ ds) q) ≡ false
    → assertion_line (numbered p (e ∷ es) q) ≡ false
    → run_fingerprint
        (first_line exit duration ++ (b'\n' ∷ joined ls (numbered p (d ∷ ds) q ++ (b'\n' ∷ rest))))
      ≡ run_fingerprint (
          first_line exit duration'
          ++ (b'\n' ∷ joined ls (numbered p (e ∷ es) q ++ (b'\n' ∷ rest))))
run_fingerprint_volatile exit u v p q rest ls d e ds es paren line lu lv hl hd he nd ne ad ae =
    fingerprint-parts exit u _ paren line lu
    ∙ ap (λ t. trim_right_blanks exit ++ write_lines t)
        (cut_lines-joined ls _ hl ∙ ap (λ t. ls ++ t) (cut_lines-line _ [] rest nd))
    ∙ ap (λ t. trim_right_blanks exit ++ t)
        (write_lines-swap ls _ _ (cut_lines [] rest) (mask_line-run p q d e ds es hd he ad ae))
    ∙ sym (
        fingerprint-parts exit v _ paren line lv
        ∙ ap (λ t. trim_right_blanks exit ++ write_lines t)
            (cut_lines-joined ls _ hl ∙ ap (λ t. ls ++ t) (cut_lines-line _ [] rest ne)))
