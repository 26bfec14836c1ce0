-- ===== src/Provider/SseFilter/Tests.antt =====
-- The theorems at a keep-alive stream, and runs of the filter.
use mathlib.Core.List.{flatten}
use mathlib.Core.Option
use driver_os.Base.{
  ◌<◌, ◌≡◌, refl, arith, List, [], ◌∷◌, none, some, Text, codes, All, length, has_code,
}
use driver_os.Provider.SseFilter.{Body, failed, new_filter, step, transform}
use driver_os.Provider.SseFilter.Lines.{Line, NoNewline, render}
use driver_os.Provider.SseFilter.Events.{eager_decode, field_decode, with_data, standard_decode}
use driver_os.Provider.SseFilter.Reads.{flush, read_all}
use driver_os.Provider.SseFilter.Stream.{chunks, read_all-decode}

abbrev stream : List Line
stream =
    codes ": OPENROUTER PROCESSING"
    ∷ []
    ∷ codes "data: 1"
    ∷ []
    ∷ codes "\r"
    ∷ codes "data: 2\r"
    ∷ codes "\r"
    ∷ []

abbrev body : Body
body = (codes ": PROC", none) ∷ (codes "ESSING\n\nda", none) ∷ (codes "ta: 1\n\n", none) ∷ []

kept_stream : (transform new_filter (render stream)).out ≡ codes "data: 1\n\ndata: 2\r\n\r\n"
unfolding transform step render
kept_stream = refl

stream-NoNewline : All NoNewline stream
unfolding has_code
stream-NoNewline = (refl, (refl, (refl, (refl, (refl, (refl, (refl, tt)))))))

-- The same stream in three chunks.
abbrev parts : List Text
parts = codes ": OPENROUTER PROC" ∷ codes "ESSING\n\ndata: 1\n" ∷ codes "\n\r\ndata: 2\r\n\r\n" ∷ []

parts_join : flatten parts ≡ render stream
unfolding flatten render
parts_join = refl

served : length (flush new_filter (chunks parts)) < 30
unfolding flush transform step
served = omega arith

read_all-decode_example :
    (Option.map eager_decode (read_all 30 4 new_filter (chunks parts))
      ≡ some (field_decode (render stream)))
    × (Option.map (λ o. with_data (eager_decode o)) (read_all 30 4 new_filter (chunks parts))
        ≡ some (standard_decode (render stream)))
read_all-decode_example =
    read_all-decode stream parts 30 4 stream-NoNewline parts_join (omega arith) served

-- A body that breaks off.
abbrev broken : Body
broken = (codes "data: 1\n", none) ∷ (codes ": x", some (failed 7)) ∷ []

broken_due : length (flush new_filter broken) < 9
unfolding flush transform step
broken_due = omega arith
