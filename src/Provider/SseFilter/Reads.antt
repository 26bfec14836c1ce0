-- ===== src/Provider/SseFilter/Reads.antt =====
-- `Read` as an io.Reader: what it serves, over any sizes of the buffers and of the body's chunks.
use driver_os.Base.{
  ℕ, zero, suc, ◌<◌, ◌≡◌, ◌≢◌, refl, sym, ap, ◌∙◌, arith, [], ◌∷◌, ◌++◌, Option, none, some, Text,
  is_empty, take, drop, length, take-append-drop, append_assoc, length-append, Bool-cases, inl, inr,
}
use driver_os.Provider.SseFilter.{Body, Filter, step, transform, fill, read}

abbrev prepend : Text → Filter → Filter
prepend x f = record f { out = x ++ f.out }

step-prepend : (x : Text) (f : Filter) (c : ℕ) → step (prepend x f) c ≡ prepend x (step f c)
unfolding step
step-prepend x f c = ground (
  arith,
  append_assoc x f.out (c ∷ []),
  append_assoc x f.out (b'\n' ∷ []),
  append_assoc x f.out (b'\r' ∷ b'\n' ∷ []),
  append_assoc x f.out (b'\r' ∷ c ∷ []),
)

-- What is to be served in all: the bytes that wait, and what the body gives up to its first error.
unfoldable pub flush : Filter → Body → Text
flush f [] = f.out
flush f ((b, e) ∷ rest) = elim f.err [
  | some x ↦ f.out
  | none ↦ flush (record (transform f b) { err = e }) rest
]

transform-prepend :
    (b x : Text) (f : Filter) → transform (prepend x f) b ≡ prepend x (transform f b)
unfolding transform
transform-prepend [] x f = refl
transform-prepend (c ∷ b) x f =
    ap (λ g. transform g b) (step-prepend x f c) ∙ transform-prepend b x (step f c)

flush-prepend : (body : Body) (x : Text) (f : Filter) → flush (prepend x f) body ≡ x ++ flush f body
unfolding flush
flush-prepend [] x f = refl
flush-prepend ((b, e) ∷ rest) x f =
    ground
      (arith, transform-prepend b x f, flush-prepend rest x (record (transform f b) { err = e }))

flush-fill : (body : Body) (f : Filter) → flush (fill f body).0 (fill f body).1 ≡ flush f body
unfolding flush fill
flush-fill [] f = ground arith
flush-fill ((b, e) ∷ rest) f = ground (arith, flush-fill rest (record (transform f b) { err = e }))

-- The loop stops with something to serve, or with an error.
fill_stops : (body : Body) (f : Filter) → (fill f body).0.out ≡ [] → (fill f body).0.err ≢ none
unfolding fill
fill_stops [] f h = ground arith
fill_stops ((b, e) ∷ rest) f h =
    ground (arith, fill_stops rest (record (transform f b) { err = e }))

flush_of_err : (f : Filter) (body : Body) → f.err ≢ none → flush f body ≡ f.out
unfolding flush
flush_of_err f [] h = refl
flush_of_err f ((b, e) ∷ rest) h = ground arith

flush-split :
    (size : ℕ) (g : Filter) (rest : Body)
    → take size g.out ++ flush (record g { out = drop size g.out }) rest ≡ flush g rest
flush-split size g rest =
    sym (flush-prepend rest (take size g.out) (record g { out = drop size g.out }))
    ∙ ap (λ o. flush (record g { out = o }) rest) (take-append-drop size g.out)

-- Whatever the size of the buffer and the chunks of the body, a `Read` serves the next bytes that are
-- due, and leaves the others due: none is lost, repeated or moved.
pub read-flush :
    (size : ℕ) (f : Filter) (body : Body)
    → (read size f body).bytes ++ flush (read size f body).filter (read size f body).body
      ≡ flush f body
unfolding read
read-flush size f body =
    ground (arith, flush-fill body f, flush-split size (fill f body).0 (fill f body).1)

-- A `Read` that reports an error has served all that was due.
read-done :
    (size : ℕ) (f : Filter) (body : Body)
    → (read size f body).error ≢ none
    → ((read size f body).bytes ≡ []) × (flush f body ≡ [])
unfolding read
read-done size f body h =
    ground
      (arith, flush-fill body f, flush_of_err (fill f body).0 (fill f body).1, fill_stops body f)

-- One that reports none has served something, if its buffer has room.
read-progress :
    (size : ℕ) (f : Filter) (body : Body)
    → 0 < size
    → (read size f body).error ≡ none
    → 0 < length (read size f body).bytes
unfolding read
read-progress zero f body pos h = elim pos [ ]
read-progress (suc size) f body pos h = elim (Bool-cases (is_empty (fill f body).0.out)) [
  | inl e ↦ absurd (fill_stops body f (ground arith) (rw e at h))
  | inr e ↦ ground arith
]

-- A reader's loop: it calls `Read` until there is an error. The result is what it was served.
pub read_all : ℕ → ℕ → Filter → Body → Option Text
read_all zero size f body = none
read_all (suc fuel) size f body =
    let r = read size f body in
    elim r.error [
      | some e ↦ some r.bytes
      | none ↦ elim (read_all fuel size r.filter r.body) [
        | none ↦ none
        | some s ↦ some (r.bytes ++ s)
      ]
    ]

-- Reading ends, and all that is due is served, in order: with a buffer of at least one byte, within
-- one `Read` for each byte that is due and one more.
pub read_all-flush :
    (fuel size : ℕ) (f : Filter) (body : Body)
    → 0 < size
    → length (flush f body) < fuel
    → read_all fuel size f body ≡ some (flush f body)
unfolding read_all
read_all-flush zero size f body pos h = elim h [ ]
read_all-flush (suc fuel) size f body pos h =
    let r = read size f body in
    ground (
      arith,
      read-done size f body,
      read-progress size f body pos,
      read-flush size f body,
      length-append r.bytes (flush r.filter r.body),
      read_all-flush fuel size r.filter r.body pos,
    )
