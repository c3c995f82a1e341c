-- ===== src/Net/Request/Body.antt =====
-- handle_request, lines 206 to 235: the message is put together and handed to the dispatcher.
use mathlib.Core.List.{append_assoc, append-nil}
use shared_bike_server.Base.{
  ℕ, ◌+◌, ◌-◌, ◌≤◌, ◌<◌, ◌≡◌, refl, sym, ap, ◌∙◌, ◌⊎◌, inl, inr, true, false, List, [], ◌∷◌, ◌++◌,
  some, arith, ltb, if◌then◌else◌, length, take, drop, blit, length-blit, length-take,
  length-append, take-blit, take-append_add, drop-append_add, take-all, drop-all, add32, sub32,
  Bool-cases,
}
use shared_bike_server.Net.Io.{Bufferevent, Dispatcher}
use shared_bike_server.Net.Session.{
  Session, ss_request, ss_response, ms_read_message, message_header_len,
}
use shared_bike_server.Net.Request.{
  Handled, kept, closed, wrong_length, put_message, complete, post, read_into, answered,
  read_message,
}
use shared_bike_server.Net.Request.Invariant.{InMessage, IsValid, Stage-InMessage, received}
use shared_bike_server.Net.Request.Deframe.{
  Verdict, more, invalid, frame, deframe, deframe-eq-deframe_body,
}

-- What handle_request has to do by the verdict on the bytes s, seen at its result r.
module _ {D : Type 0} (dispatcher : Dispatcher D) (p : ℕ) (s : List ℕ) (d : D) (r : Handled D) where
  abbrev pub Refines : Verdict → Type 0
  Refines more =
      (cs : Session) × (r ≡ kept cs [] d)
      × (cs.session_stat ≡ ss_request)
      × IsValid cs
      × (received cs ≡ s)
  Refines invalid = r ≡ closed d
  Refines (frame eid body rest) =
      (cs : Session) × (r
        ≡ post dispatcher p cs rest (dispatcher.parse_event (some body) (length body) eid d))
      × (cs.session_stat ≡ ss_response)
      × IsValid cs

null_or_not : (xs : List ℕ) → (xs ≡ []) ⊎ (ltb 0 (length xs) ≡ true)
null_or_not [] = inl refl
null_or_not (x ∷ xs) = inr (ground arith)

module _ (cs : Session) (buf input : List ℕ) (v : InMessage cs buf) where
  abbrev so_far : List ℕ
  so_far = take cs.read_message_len buf

  length-so_far : length so_far ≡ cs.read_message_len
  length-so_far = omega (arith, length-take cs.read_message_len buf, v.allocated, v.partial)

  length-header : length (take message_header_len cs.header) ≡ message_header_len
  length-header = omega (arith, length-take message_header_len cs.header, v.size)

  received-InMessage : received cs ≡ take message_header_len cs.header ++ so_far
  received-InMessage = rw (v.whole, v.buf_is)

  split : received cs ++ input ≡ take message_header_len cs.header ++ (so_far ++ input)
  split = ap (λ xs. xs ++ input) received-InMessage ∙ append_assoc _ so_far input

  take-received : take message_header_len (received cs ++ input) ≡ take message_header_len cs.header
  take-received =
      rw split
        (take-append_add message_header_len 0 _ _ (omega (arith, length-header)) ∙ append-nil _)

  drop-received : drop message_header_len (received cs ++ input) ≡ so_far ++ input
  drop-received = rw split (drop-append_add message_header_len 0 _ _ (omega (arith, length-header)))

  -- In this stage the header has been judged: what counts is the length.
  deframe-InMessage : deframe (received cs ++ input) ≡ (
      if ltb (length (so_far ++ input)) cs.message_len
      then more
      else frame cs.eid
          (take cs.message_len (so_far ++ input))
          (drop cs.message_len (so_far ++ input)))
  deframe-InMessage =
      let enough : message_header_len ≤ length (received cs ++ input) = rw split (
        omega (
          arith,
          length-append (take message_header_len cs.header) (so_far ++ input),
          length-header,
        )) in
      let fine : wrong_length cs.message_len ≡ false = ground (arith, v.bounded, v.partial) in
      deframe-eq-deframe_body _ cs.header (so_far ++ input) enough take-received drop-received
      ∙ rw (v.magic, ← v.len, fine, ← v.event)

  -- A write behind what is there, inside the buffer.
  put_message_lem :
      (got : List ℕ)
      → cs.read_message_len + length got ≤ cs.message_len
      → let cs' = put_message cs buf got in
        let buf' = blit buf cs.read_message_len got in
        (cs'.read_message_len ≡ cs.read_message_len + length got)
        × (take cs'.read_message_len buf' ≡ so_far ++ got)
        × (length buf' ≡ cs.message_len)
  put_message_lem got fits =
      let len : add32 cs.read_message_len (length got) ≡ cs.read_message_len + length got =
        omega (arith, v.bounded) in
      (
        len,
        rw len (take-blit buf cs.read_message_len got (omega (arith, v.allocated))),
        length-blit buf cs.read_message_len got ∙ v.allocated,
      )

  module _ (io : Bufferevent) {D : Type 0} (dispatcher : Dispatcher D) (p : ℕ) (d : D) where
    abbrev room : ℕ
    room = cs.message_len - cs.read_message_len

    module _ (open_ : cs.session_stat ≡ ss_request) (stage : cs.req_stat ≡ ms_read_message) where
      -- The message stage with the calls of libevent replaced by what they do.
      read_message_step : read_message io dispatcher p cs input d ≡ (
          if ltb 0 (length input)
          then read_into dispatcher p cs buf (take room input, drop room input) d
          else kept cs input d)
      unfolding read_message
      read_message_step =
          let e : sub32 cs.message_len cs.read_message_len ≡ room =
            omega (arith, v.bounded, v.partial) in
          simp (stage, io.get_length_lem, v.buf_is, io.read_lem, e)

      input-cases : (input ≡ []) ⊎ (ltb 0 (length input) ≡ true)
      input-cases = null_or_not input

      read_message-more :
          length (so_far ++ input) < cs.message_len
          → Refines dispatcher p
              (received cs ++ input)
              d
              (read_message io dispatcher p cs input d)
              more
      read_message-more short = elim input-cases [
        | inl nothing ↦ (
          cs,
          read_message_step ∙ rw nothing,
          open_,
          Stage-InMessage cs open_ stage v,
          sym (ap (◌++◌ (received cs)) nothing ∙ append-nil _),
        )
        | inr something ↦
            let few : length input < room =
              omega (arith, length-append so_far input, length-so_far) in
            let (len, prefix, size) = put_message_lem input (omega arith) in
            let all : take room input ≡ input = take-all room input (omega arith) in
            let nothing : drop room input ≡ [] = drop-all room input (omega arith) in
            (
              put_message cs buf input,
              read_message_step ∙ rw (something, all, nothing) (ground (arith, len)),
              open_,
              Stage-InMessage (put_message cs buf input) open_ stage (record {
                size = v.size;
                whole = v.whole;
                magic = v.magic;
                event = v.event;
                len = v.len;
                bounded = v.bounded;
                buf_is = refl;
                allocated = size;
                partial = rw len (omega arith);
              }),
              ap (◌++◌ (take cs.read_header_len cs.header)) prefix
                  ∙ ap (λ n. take n cs.header ++ (so_far ++ input)) v.whole
                  ∙ sym split,
            )
      ]

      read_message-frame :
          cs.message_len ≤ length (so_far ++ input)
          → Refines dispatcher p
              (received cs ++ input)
              d
              (read_message io dispatcher p cs input d)
              (frame cs.eid
                (take cs.message_len (so_far ++ input))
                (drop cs.message_len (so_far ++ input)))
      unfolding complete
      read_message-frame long =
          let many : room ≤ length input =
            omega (arith, length-append so_far input, length-so_far) in
          let something : ltb 0 (length input) ≡ true = ground (arith, v.partial) in
          let (len, prefix, size) =
            put_message_lem (take room input) (omega (arith, length-take room input, v.partial)) in
          let whole : cs.read_message_len + length (take room input) ≡ cs.message_len =
            omega (arith, length-take room input, v.partial) in
          let body : blit buf cs.read_message_len (take room input)
              ≡ take cs.message_len (so_far ++ input) =
            sym (take-all _ _ (omega (arith, size)))
            ∙ prefix
            ∙ sym (
                take-append_add cs.message_len room so_far input
                  (omega (arith, length-so_far, v.partial))) in
          let count : add32 cs.read_message_len (length (take room input))
              ≡ length (take cs.message_len (so_far ++ input)) =
            omega (arith, ap length body, size) in
          let rest : drop room input ≡ drop cs.message_len (so_far ++ input) = sym (
            drop-append_add cs.message_len room so_far input
              (omega (arith, length-so_far, v.partial))) in
          let cs' = put_message cs buf (take room input) in
          (
            answered cs',
            read_message_step ∙ rw something (ground (arith, len, whole)) ∙ (λ i.
                post dispatcher p (answered cs') (rest i)
                  (dispatcher.parse_event (some (body i)) (count i) cs.eid d)),
            refl,
            record { size = v.size; no_buf = refl },
          )

      -- The message stage does what the protocol says.
      pub read_message-Refines :
          Refines dispatcher p
            (received cs ++ input)
            d
            (read_message io dispatcher p cs input d)
            (deframe (received cs ++ input))
      read_message-Refines = elim (Bool-cases (ltb (length (so_far ++ input)) cs.message_len)) [
        | inl short ↦ rw (deframe-InMessage, short) (read_message-more (ground arith))
        | inr long ↦ rw (deframe-InMessage, long) (read_message-frame (ground arith))
      ]
