-- ===== src/Provider/SseFilter/Stream.antt =====
-- The filter from end to end: a response body that arrives in any chunks, read through `Read`.
use mathlib.Core.List.{flatten}
use mathlib.Core.Option
use driver_os.Base.{
  ℕ, ◌<◌, ◌≡◌, refl, ap, ◌∙◌, arith, List, [], ◌∷◌, ◌++◌, none, some, Text, length, All,
}
use driver_os.Provider.SseFilter.{Body, Filter, new_filter, step, transform}
use driver_os.Provider.SseFilter.Lines.{Line, NoNewline, render}
use driver_os.Provider.SseFilter.Events.{
  eager_decode, field_decode, with_data, standard_decode, decode-transform, with_data-field_decode,
}
use driver_os.Provider.SseFilter.Reads.{flush, read_all, read_all-flush}

-- A body that gives these chunks and then ends.
abbrev pub chunks : List Text → Body
chunks [] = []
chunks (b ∷ bs) = (b, none) ∷ chunks bs

transform-append : (a b : Text) (f : Filter) → transform f (a ++ b) ≡ transform (transform f a) b
unfolding transform
transform-append [] b f = refl
transform-append (c ∷ a) b f = transform-append a b (step f c)

step-err : (f : Filter) (c : ℕ) → (step f c).err ≡ f.err
unfolding step
step-err f c = ground arith

transform-err : (b : Text) (f : Filter) → (transform f b).err ≡ f.err
unfolding transform
transform-err [] f = refl
transform-err (c ∷ b) f = transform-err b (step f c) ∙ step-err f c

-- Where the chunks are cut makes no difference.
flush-chunks :
    (bs : List Text) (f : Filter)
    → f.err ≡ none
    → flush f (chunks bs) ≡ (transform f (flatten bs)).out
unfolding flush transform flatten
flush-chunks [] f h = refl
flush-chunks (b ∷ bs) f h =
    ground
      (arith, transform-append b (flatten bs) f, transform-err b f, flush-chunks bs (transform f b))

-- For every stream of complete lines, cut into chunks in any way and read with buffers of any size:
-- reading ends, and the decoder that dispatches at every blank line gets exactly the events of the
-- stream that have a field; those among them that have data are, in that order, exactly the events that
-- the SSE rule on empty data buffers gives for the stream.
pub read_all-decode :
    (ls : List Line) (bs : List Text) (fuel size : ℕ)
    → All NoNewline ls
    → flatten bs ≡ render ls
    → 0 < size
    → length (flush new_filter (chunks bs)) < fuel
    → (Option.map eager_decode (read_all fuel size new_filter (chunks bs))
        ≡ some (field_decode (render ls)))
      × (Option.map (λ o. with_data (eager_decode o)) (read_all fuel size new_filter (chunks bs))
          ≡ some (standard_decode (render ls)))
read_all-decode ls bs fuel size h cut pos enough =
    let r = read_all-flush fuel size new_filter (chunks bs) pos enough in
    let e =
      ap eager_decode (flush-chunks bs new_filter refl ∙ ap (λ t. (transform new_filter t).out) cut)
      ∙ decode-transform ls h in
    (
      ap (Option.map eager_decode) r ∙ ap some e,
      ap (Option.map (λ o. with_data (eager_decode o))) r
          ∙ ap some (ap with_data e ∙ with_data-field_decode (render ls)),
    )
