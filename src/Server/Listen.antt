-- ===== src/Server/Listen.antt =====
-- What the server hands to the node of a stream.
use grain.Base.{
  ◌≡◌, ◌⊎◌, refl, sym, ap, ◌∙◌, Bool, Option, none, some, List, [], ◌∷◌, ◌++◌, append_assoc,
  append-nil, Bool-cases, inl, inr,
}
use grain.Server.{
  RecvError, eof, canceled, other_error, Recv, envelope, failed, Effect, received, recovered,
  ignored, recv_envelope, listen,
}

-- how a stream ended, and what `Listen` returned then
abbrev pub Ended : Option RecvError → Option (Option RecvError) → Type 0
Ended err result =
    ((err ≡ none) × (result ≡ none))
    ⊎ ((((err ≡ some eof) ⊎ (err ≡ some canceled)) × (result ≡ some none))
        ⊎ ((err ≡ some other_error) × (result ≡ some (some other_error))))

module _ {Envelope : Type 0} where
  -- the envelopes that came before the stream failed, and how it did
  abbrev pub arrived : List (Recv Envelope) → List Envelope
  arrived [] = []
  arrived (failed err ∷ stream) = []
  arrived (envelope none ∷ stream) = arrived stream
  arrived (envelope (some e) ∷ stream) = e ∷ arrived stream

  abbrev pub first_error : List (Recv Envelope) → Option RecvError
  first_error [] = none
  first_error (failed err ∷ stream) = some err
  first_error (envelope e ∷ stream) = first_error stream

  -- the envelopes that were handed over
  abbrev pub handed : List (Effect Envelope) → List Envelope
  handed [] = []
  handed (received e ∷ effects) = e ∷ handed effects
  handed (recovered ∷ effects) = handed effects
  handed (ignored ∷ effects) = handed effects

  handed-append : (xs ys : List (Effect Envelope)) → handed (xs ++ ys) ≡ handed xs ++ handed ys
  handed-append [] ys = refl
  handed-append (received e ∷ xs) ys = ap (λ l. e ∷ l) (handed-append xs ys)
  handed-append (recovered ∷ xs) ys = handed-append xs ys
  handed-append (ignored ∷ xs) ys = handed-append xs ys

  handed-recv : (panics : Envelope → Bool) (e : Envelope) → handed (recv_envelope panics e) ≡ e ∷ []
  handed-recv panics e = elim (Bool-cases (panics e)) [ inl t ↦ rw t refl | inr f ↦ rw f refl ]

  listen-from :
      (panics : Envelope → Bool) (stream : List (Recv Envelope)) (effects : List (Effect Envelope))
      → handed (listen panics stream effects).0 ≡ handed effects ++ arrived stream
  unfolding listen
  listen-from panics [] effects = sym (append-nil (handed effects))
  listen-from panics (failed err ∷ stream) effects = sym (append-nil (handed effects))
  listen-from panics (envelope none ∷ stream) effects =
      listen-from panics stream (effects ++ (ignored ∷ []))
      ∙ ap (λ l. l ++ arrived stream)
          (handed-append effects (ignored ∷ []) ∙ append-nil (handed effects))
  listen-from panics (envelope (some e) ∷ stream) effects =
      listen-from panics stream (effects ++ recv_envelope panics e)
      ∙ ap (λ l. l ++ arrived stream)
          (handed-append effects (recv_envelope panics e) ∙ rw (handed-recv panics e) refl)
      ∙ append_assoc (handed effects) (e ∷ []) (arrived stream)

  listen-Ended :
      (panics : Envelope → Bool) (stream : List (Recv Envelope)) (effects : List (Effect Envelope))
      → Ended (first_error stream) (listen panics stream effects).1
  unfolding listen
  listen-Ended panics [] effects = inl (refl, refl)
  listen-Ended panics (failed eof ∷ stream) effects = inr (inl (inl refl, refl))
  listen-Ended panics (failed canceled ∷ stream) effects = inr (inl (inr refl, refl))
  listen-Ended panics (failed other_error ∷ stream) effects = inr (inr (refl, refl))
  listen-Ended panics (envelope none ∷ stream) effects =
      listen-Ended panics stream (effects ++ (ignored ∷ []))
  listen-Ended panics (envelope (some e) ∷ stream) effects =
      listen-Ended panics stream (effects ++ recv_envelope panics e)

  -- A stream from another node delivers every envelope that comes before its first error, once and in
  -- order, also after a nil one and whichever of them makes the receiver panic. At its first error
  -- `Listen` returns: no error at the end of the stream or a cancellation, and any other one as it is;
  -- before, it does not return.
  pub listen-arrived :
      (panics : Envelope → Bool) (stream : List (Recv Envelope))
      → (handed (listen panics stream []).0 ≡ arrived stream)
        × Ended (first_error stream) (listen panics stream []).1
  listen-arrived panics stream = (listen-from panics stream [], listen-Ended panics stream [])
