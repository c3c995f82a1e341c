-- ===== src/Net/Request/Stream.antt =====
-- A series of callbacks: the bytes of a client arrive in pieces, and libevent calls handle_request
-- after each.
use mathlib.Core.List.{append-nil, append_assoc}
use shared_bike_server.Base.{
  ℕ, ◌≡◌, refl, inl, inr, false, List, [], ◌∷◌, ◌++◌, Option, none, some, arith, ltb, length, take,
  drop, length-append, take-append_le, drop-append_le, load32, strncmp_eq, Bool-cases,
}
use shared_bike_server.Events.{Event}
use shared_bike_server.Net.Io.{Bufferevent, Dispatcher}
use shared_bike_server.Net.Session.{
  Session, ss_request, ss_response, message_header_len, message_header_id,
}
use shared_bike_server.Net.Request.{
  Handled, kept, closed, fault, wrong_length, post, handle_request,
}
use shared_bike_server.Net.Request.Invariant.{IsValid, received}
use shared_bike_server.Net.Request.Deframe.{Verdict, more, invalid, frame, deframe, deframe_body}
use shared_bike_server.Net.Request.Body.{Refines}
use shared_bike_server.Net.Request.Refinement.{handle_request-Refines}

-- The verdict when more bytes follow those that it was reached on.
abbrev Extend : Verdict → List ℕ → Verdict → Type 0
Extend more t v = Unit
Extend invalid t v = v ≡ invalid
Extend (frame eid body rest) t v = v ≡ frame eid body (rest ++ t)

deframe_body-append : (h s t : List ℕ) → Extend (deframe_body h s) t (deframe_body h (s ++ t))
deframe_body-append h s t = elim (Bool-cases (strncmp_eq h message_header_id 4)) [
  | inl magic ↦ elim (Bool-cases (wrong_length (load32 h 6))) [
    | inl wrong ↦ rw (magic, wrong)
    | inr fine ↦ elim (Bool-cases (ltb (length s) (load32 h 6))) [
      | inl short ↦ rw (magic, fine, short) tt
      | inr long ↦
          let enough : ltb (length (s ++ t)) (load32 h 6) ≡ false =
            ground (arith, length-append s t) in
          rw (
            magic,
            fine,
            long,
            enough,
            take-append_le (load32 h 6) s t (ground arith),
            drop-append_le (load32 h 6) s t (ground arith),
          )
    ]
  ]
  | inr other ↦ rw other
]

deframe-append : (s t : List ℕ) → Extend (deframe s) t (deframe (s ++ t))
unfolding deframe
deframe-append s t = elim (Bool-cases (ltb (length s) message_header_len)) [
  | inl short ↦ rw short tt
  | inr long ↦
      let enough : ltb (length (s ++ t)) message_header_len ≡ false =
        ground (arith, length-append s t) in
      rw
        (
          long,
          enough,
          take-append_le message_header_len s t (ground arith),
          drop-append_le message_header_len s t (ground arith),
        )
        (deframe_body-append (take message_header_len s) (drop message_header_len s) t)
]

abbrev pub concat : List (List ℕ) → List ℕ
concat [] = []
concat (c ∷ chunks) = c ++ concat chunks

module _ (io : Bufferevent) {D : Type 0} (dispatcher : Dispatcher D) (p : ℕ) where
  -- One more piece. After a close there is no callback.
  unfoldable pub arrive : Handled D → List ℕ → Handled D
  arrive (kept cs input d) c = handle_request io dispatcher p cs (input ++ c) d
  arrive (closed d) c = closed d
  arrive fault c = fault

  unfoldable pub arrivals : Handled D → List (List ℕ) → Handled D
  arrivals r [] = r
  arrivals r (c ∷ chunks) = arrivals (arrive r c) chunks

  -- While the response is awaited the bytes stay where they are.
  arrive-post :
      (cs : Session) (rest c : List ℕ) (r : Option Event × D)
      → cs.session_stat ≡ ss_response
      → arrive (post dispatcher p cs rest r) c ≡ post dispatcher p cs (rest ++ c) r
  unfolding arrive handle_request
  arrive-post cs rest c (none, d) e = refl
  arrive-post cs rest c (some ev, d) e = simp e

  module _ (s c : List ℕ) (d : D) (r : Handled D) where
    arrive_by_verdict :
        (v : Verdict)
        → Refines dispatcher p s d r v
        → Extend v c (deframe (s ++ c))
        → Refines dispatcher p (s ++ c) d (arrive r c) (deframe (s ++ c))
    unfolding arrive
    arrive_by_verdict more (cs, e, open_, v, same) _ =
        rw (e, ← same) (handle_request-Refines io dispatcher p cs c d open_ v)
    arrive_by_verdict invalid e verdict = rw (e, verdict)
    arrive_by_verdict (frame eid body rest) (cs, e, waits, v) verdict =
        rw (e, verdict) (cs, arrive-post cs rest c _ waits, waits, v)

  arrivals-Refines :
      (chunks : List (List ℕ)) (s : List ℕ) (d : D) (r : Handled D)
      → Refines dispatcher p s d r (deframe s)
      → Refines dispatcher p
          (s ++ concat chunks)
          d
          (arrivals r chunks)
          (deframe (s ++ concat chunks))
  unfolding arrivals
  arrivals-Refines [] s d r h = rw (append-nil s) h
  arrivals-Refines (c ∷ chunks) s d r h = rw (← append_assoc s c (concat chunks)) (
      arrivals-Refines chunks (s ++ c) d (arrive r c)
        (arrive_by_verdict s c d r (deframe s) h (deframe-append s c)))

  -- However the bytes of a client are cut into pieces, the callbacks together do what the protocol
  -- says of all the bytes in one: the same verdict, one event for the request, parsed from the same
  -- body, and the same bytes left for the request that follows.
  pub chunks-Refines :
      (cs : Session) (c : List ℕ) (chunks : List (List ℕ)) (d : D)
      → cs.session_stat ≡ ss_request
      → IsValid cs
      → Refines dispatcher p
          (received cs ++ concat (c ∷ chunks))
          d
          (arrivals (kept cs [] d) (c ∷ chunks))
          (deframe (received cs ++ concat (c ∷ chunks)))
  unfolding arrivals arrive
  chunks-Refines cs c chunks d open_ v = rw (← append_assoc (received cs) c (concat chunks)) (
      arrivals-Refines chunks (received cs ++ c) d _
        (handle_request-Refines io dispatcher p cs c d open_ v))
