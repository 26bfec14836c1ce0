-- ===== src/Provider/SseFilter/Events.antt =====
-- What the filter is for (the comment at the head of ssefilter.go): a decoder that dispatches an event
-- at every blank line, an empty one too, reads no event without a field from the filtered stream, and
-- all the events of the unfiltered one that have a field. Those with data are the events of the SSE
-- rule; an event with a field and an empty data buffer, such as `event: ping`, is in the way of neither.
use driver_os.Base.{
  Bool, false, not, ◌||◌, codes, has_prefix, text_eq, List, [], ◌∷◌, ◌++◌, ◌≡◌, refl, sym, ap, ◌∙◌,
  arith, Text, ◌==◌, if◌then◌else◌, is_empty, All, has_code, append-nil, append_assoc,
}
use driver_os.Provider.SseFilter.Lines.{
  Line, NoNewline, render, is_comment, is_blank, kept, transform-render, kept-NoNewline,
}
use driver_os.Provider.SseFilter.{new_filter, transform}

-- The complete lines of a stream; `cur` is the line so far.
lines_from : Line → Text → List Line
lines_from cur [] = []
lines_from cur (c ∷ s) =
    let done = cur ∷ lines_from [] s in
    let more = lines_from (cur ++ c ∷ []) s in if c == b'\n' then done else more

-- A blank line ends an event, an empty one too.
pub eager_events : List Line → List Line → List (List Line)
eager_events fields [] = []
eager_events fields (l ∷ ls) =
    let ended = fields ∷ eager_events [] ls in
    let skip = eager_events fields ls in
    let field = eager_events (fields ++ l ∷ []) ls in
    if is_blank l then ended else if is_comment l then skip else field

-- The same but for an event with no field, which is not dispatched.
pub field_events : List Line → List Line → List (List Line)
field_events fields [] = []
field_events fields (l ∷ ls) =
    let ended = fields ∷ field_events [] ls in
    let none_yet = field_events [] ls in
    let skip = field_events fields ls in
    let field = field_events (fields ++ l ∷ []) ls in
    if is_blank l
    then if is_empty fields then none_yet else ended
    else if is_comment l
    then skip
    else field

-- A line of the field `data`; each adds to the data buffer, one with an empty value a newline.
abbrev pub is_data : Line → Bool
is_data l = has_prefix l (codes "data:") || text_eq l (codes "data") || text_eq l (codes "data\r")

-- The data buffer of an event is not empty.
pub has_data : List Line → Bool
has_data [] = false
has_data (l ∷ ls) = is_data l || has_data ls

-- The events that have data.
pub with_data : List (List Line) → List (List Line)
with_data [] = []
with_data (e ∷ es) = let rest = with_data es in if has_data e then e ∷ rest else rest

-- The SSE rule: an event with an empty data buffer is not dispatched.
pub standard_events : List Line → List Line → List (List Line)
standard_events fields [] = []
standard_events fields (l ∷ ls) =
    let ended = fields ∷ standard_events [] ls in
    let none_yet = standard_events [] ls in
    let skip = standard_events fields ls in
    let field = standard_events (fields ++ l ∷ []) ls in
    if is_blank l
    then if has_data fields then ended else none_yet
    else if is_comment l
    then skip
    else field

pub eager_decode : Text → List (List Line)
eager_decode s = eager_events [] (lines_from [] s)

pub field_decode : Text → List (List Line)
field_decode s = field_events [] (lines_from [] s)

pub standard_decode : Text → List (List Line)
standard_decode s = standard_events [] (lines_from [] s)

lines_from-line :
    (l cur s : Text)
    → NoNewline l
    → lines_from cur (l ++ (b'\n' ∷ s)) ≡ (cur ++ l) ∷ lines_from [] s
unfolding lines_from has_code
lines_from-line [] cur s h = ap (λ t. t ∷ lines_from [] s) (sym (append-nil cur))
lines_from-line (c ∷ l) cur s h =
    ground (arith, lines_from-line l (cur ++ c ∷ []) s, append_assoc cur (c ∷ []) l)

lines_from-render : (ls : List Line) → All NoNewline ls → lines_from [] (render ls) ≡ ls
unfolding render lines_from
lines_from-render [] h = refl
lines_from-render (l ∷ ls) h =
    lines_from-line l [] (render ls) h.0 ∙ ap (◌∷◌ l) (lines_from-render ls h.1)

not-is_empty : (fields : List Line) (l : Line) → is_empty (fields ++ l ∷ []) ≡ false
not-is_empty [] l = refl
not-is_empty (x ∷ fields) l = refl

events-kept :
    (ls fields : List Line)
    → eager_events fields (kept (not (is_empty fields)) ls) ≡ field_events fields ls
unfolding eager_events field_events kept
events-kept [] fields = refl
events-kept (l ∷ ls) [] = ground (arith, events-kept ls [], events-kept ls (l ∷ []))
events-kept (l ∷ ls) (x ∷ fields) =
    ground (
      arith,
      events-kept ls [],
      events-kept ls (x ∷ fields),
      events-kept ls (x ∷ (fields ++ l ∷ [])),
    )

-- For every stream of complete lines, the decoder that dispatches at every blank line reads from the
-- filter's output exactly the events of the input that have a field.
pub decode-transform :
    (ls : List Line)
    → All NoNewline ls
    → eager_decode (transform new_filter (render ls)).out ≡ field_decode (render ls)
unfolding eager_decode field_decode
decode-transform ls h =
    rw
      (
        transform-render ls [] false h,
        lines_from-render (kept false ls) (kept-NoNewline ls false h),
        lines_from-render ls h,
      )
      (events-kept ls [])

with_data-field_events :
    (ls fields : List Line) → with_data (field_events fields ls) ≡ standard_events fields ls
unfolding with_data field_events standard_events has_data
with_data-field_events [] fields = refl
with_data-field_events (l ∷ ls) [] =
    ground (arith, with_data-field_events ls [], with_data-field_events ls (l ∷ []))
with_data-field_events (l ∷ ls) (x ∷ fields) = ground (
  arith,
  with_data-field_events ls [],
  with_data-field_events ls (x ∷ fields),
  with_data-field_events ls (x ∷ (fields ++ l ∷ [])),
)

pub with_data-field_decode : (s : Text) → with_data (field_decode s) ≡ standard_decode s
unfolding field_decode standard_decode
with_data-field_decode s = with_data-field_events (lines_from [] s) []
