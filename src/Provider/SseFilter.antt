-- ===== src/Provider/SseFilter.antt =====
-- provider/openaicompat/ssefilter.go: the filter that takes SSE comments and empty events out of a
-- streamed response. Slices are values: `out` is appended to and re-sliced, never written in place.
pub mod Lines
pub mod Events
pub mod Reads
pub mod Stream
mod Tests
use driver_os.Base.{
  ℕ, Bool, true, false, ◌&&◌, List, [], ◌∷◌, ◌++◌, Option, none, some, Text, ◌==◌, if◌then◌else◌,
  is_empty, take, drop,
}

-- An error of the response body, io.EOF among them.
pub data ReadError : Type 0 where
  eof : ReadError
  failed : ℕ → ReadError

-- The response body: what each coming Read of it returns, then io.EOF for ever.
abbrev pub Body : Type 0
Body = List (Text × Option ReadError)

-- sseCommentFilter, but for its body, which the calls pass along.
pub record Filter : Type 0 where
  pub err : Option ReadError
  pub out : Text
  pub mid_line : Bool
  pub drop_line : Bool
  pub pending_cr : Bool
  pub saw_field : Bool

abbrev pub new_filter : Filter
new_filter = record {
  err = none;
  out = [];
  mid_line = false;
  drop_line = false;
  pending_cr = false;
  saw_field = false;
}

-- Behind a '\r' at the start of a line.
after_cr : Filter → ℕ → Filter
after_cr g c =
    let f = record g { pending_cr = false } in
    if c == b'\n'
    then if f.saw_field
      then record f { out = f.out ++ b'\r' ∷ b'\n' ∷ []; saw_field = false }
      else f
    else record f { out = f.out ++ b'\r' ∷ c ∷ []; saw_field = true; mid_line = true }

at_line_start : Filter → ℕ → Filter
at_line_start f c =
    if c == b':'
    then record f { drop_line = true }
    else if c == b'\n'
    then if f.saw_field then record f { out = f.out ++ b'\n' ∷ []; saw_field = false } else f
    else if c == b'\r'
    then record f { pending_cr = true }
    else record f { out = f.out ++ c ∷ []; saw_field = true; mid_line = true }

-- The switch of `transform` on one byte.
unfoldable pub step : Filter → ℕ → Filter
unfolding after_cr at_line_start
step f c =
    if f.drop_line
    then if c == b'\n' then record f { drop_line = false } else f
    else if f.mid_line
    then record f { out = f.out ++ c ∷ []; mid_line = if c == b'\n' then false else true }
    else if f.pending_cr
    then after_cr f c
    else at_line_start f c

unfoldable pub transform : Filter → Text → Filter
transform f [] = f
transform f (c ∷ b) = transform (step f c) b

-- The loop of `Read`: it reads on while there is nothing to serve and no error.
unfoldable pub fill : Filter → Body → Filter × Body
fill f [] = (
  if is_empty f.out then record f { err = elim f.err [ none ↦ some eof | some e ↦ some e ] } else f,
  [],
)
fill f ((b, e) ∷ rest) =
    let more = fill (record (transform f b) { err = e }) rest in
    elim f.err [
      | some x ↦ (f, (b, e) ∷ rest)
      | none ↦ if is_empty f.out then more else (f, (b, e) ∷ rest)
    ]

pub record Served : Type 0 where
  pub bytes : Text
  pub error : Option ReadError
  pub filter : Filter
  pub body : Body

-- `Read` into a buffer of `size` bytes.
unfoldable pub read : ℕ → Filter → Body → Served
read size f body =
    let (g, rest) = fill f body in
    if is_empty g.out
    then record { bytes = []; error = g.err; filter = g; body = rest }
    else record {
      bytes = take size g.out;
      error = none;
      filter = record g { out = drop size g.out };
      body = rest;
    }
