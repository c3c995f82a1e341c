-- ===== src/Net/Request/Refinement.antt =====
-- handle_request as a whole against the protocol.
use mathlib.Core.List.{append-nil}
use shared_bike_server.Base.{
  ℕ, ◌≤◌, ◌≡◌, refl, sym, ap, subst, ◌∙◌, inl, inr, true, false, List, [], ◌++◌, some, arith, ltb,
  length, take, drop, replicate, length-replicate, take-append-drop, load16, load32, strncmp_eq,
  Bool-cases,
}
use shared_bike_server.Net.Io.{Bufferevent, Dispatcher}
use shared_bike_server.Net.Session.{
  Session, ss_request, ms_read_header, ms_read_message, ms_read_done, ms_sending, MessageStatus,
  message_header_len, message_header_id,
}
use shared_bike_server.Net.Request.{
  kept, is_reading_header, wrong_length, accept_header, with_input, read_header, read_message,
  and_message, by_status, handle_request,
}
use shared_bike_server.Net.Request.Invariant.{
  InHeader, InMessage, IsValid, Stage, InRequest, Stage-InHeader, received,
}
use shared_bike_server.Net.Request.Deframe.{more, deframe, deframe_body, deframe-eq-deframe_body}
use shared_bike_server.Net.Request.Header.{read_header_partial, read_header_whole}
use shared_bike_server.Net.Request.Body.{Refines, read_message-Refines}

-- While the header is read the message stage does nothing.
read_message-in_header :
    (io : Bufferevent) {D : Type 0} (dispatcher : Dispatcher D) (p : ℕ) (cs : Session)
    (input : List ℕ) (d : D)
    → cs.req_stat ≡ ms_read_header
    → read_message io dispatcher p cs input d ≡ kept cs input d
unfolding read_message
read_message-in_header io dispatcher p cs input d e = simp e

-- The session behind a valid header.
module _ (cs : Session) where
  abbrev len : ℕ
  len = load32 cs.header 6

  abbrev accepted : Session
  accepted = record cs {
    eid = load16 cs.header 4;
    message_len = len;
    read_buf = some (replicate len 0);
    req_stat = ms_read_message;
    read_message_len = 0;
  }

  accepted-InMessage :
      length cs.header ≡ 11
      → cs.read_header_len ≡ message_header_len
      → strncmp_eq cs.header message_header_id 4 ≡ true
      → wrong_length len ≡ false
      → InMessage accepted (replicate len 0)
  accepted-InMessage size whole magic fine = record {
    size = size;
    whole = whole;
    magic = magic;
    event = refl;
    len = refl;
    bounded = ground arith;
    buf_is = refl;
    allocated = length-replicate len 0;
    partial = ground arith;
  }

module _ (io : Bufferevent) {D : Type 0} (dispatcher : Dispatcher D) (p : ℕ) (cs : Session)
    (s : List ℕ) (d : D) where
  -- What follows a complete header.
  judge-Refines :
      length cs.header ≡ 11
      → cs.read_header_len ≡ message_header_len
      → cs.session_stat ≡ ss_request
      → message_header_len ≤ length s
      → take message_header_len cs.header ≡ take message_header_len s
      → Refines dispatcher p s d
          (and_message io dispatcher p
            (with_input (accept_header cs) (drop message_header_len s))
            d)
          (deframe s)
  unfolding accept_header
  judge-Refines size whole open_ enough same =
      let verdict : deframe s ≡ deframe_body cs.header (drop message_header_len s) =
        deframe-eq-deframe_body s cs.header (drop message_header_len s) enough (sym same) refl in
      elim (Bool-cases (strncmp_eq cs.header message_header_id 4)) [
        | inl magic ↦ elim (Bool-cases (wrong_length (len cs))) [
          | inl wrong ↦ rw (verdict, magic, wrong)
          | inr fine ↦
              let read_so_far : received (accepted cs) ++ drop message_header_len s ≡ s =
                ap (λ k. (take k cs.header ++ []) ++ drop message_header_len s) whole
                ∙ ap (λ xs. xs ++ drop message_header_len s) (append-nil _ ∙ same)
                ∙ take-append-drop message_header_len s in
              rw (magic, fine)
                (subst
                  (λ t.
                    Refines dispatcher p t d
                      (read_message io dispatcher p (accepted cs) (drop message_header_len s) d)
                      (deframe t))
                  read_so_far
                  (read_message-Refines (accepted cs) _ (drop message_header_len s)
                    (accepted-InMessage cs size whole magic fine) io dispatcher p d open_ refl))
        ]
        | inr other ↦ rw (verdict, other)
      ]

deframe_short : (s : List ℕ) → ltb (length s) message_header_len ≡ true → deframe s ≡ more
unfolding deframe
deframe_short s h = rw h

module _ (io : Bufferevent) {D : Type 0} (dispatcher : Dispatcher D) (p : ℕ) (cs : Session)
    (input : List ℕ) (d : D) where
  header_stage-Refines :
      cs.session_stat ≡ ss_request
      → cs.req_stat ≡ ms_read_header
      → InHeader cs
      → Refines dispatcher p
          (received cs ++ input)
          d
          (and_message io dispatcher p (read_header io cs input) d)
          (deframe (received cs ++ input))
  header_stage-Refines open_ stage v =
      elim (Bool-cases (ltb (length (received cs ++ input)) message_header_len)) [
        | inl short ↦
            let (cs', e, v', same, opened, staged) =
              read_header_partial io cs input v reading (ground arith) in
            rw (deframe_short _ short, e)
              (
                cs',
                read_message-in_header io dispatcher p cs' [] d (staged ∙ stage),
                opened ∙ open_,
                Stage-InHeader cs' (opened ∙ open_) (staged ∙ stage) v',
                same,
              )
        | inr long ↦
            let (e, same, size, whole) = read_header_whole io cs input v reading (ground arith) in
            rw e (
              judge-Refines io dispatcher p _ (received cs ++ input) d size whole open_
                (ground arith) same)
      ]
    where
      reading : is_reading_header cs.req_stat ≡ true
      reading = rw stage

  by_stage :
      (stat : MessageStatus)
      → cs.req_stat ≡ stat
      → cs.session_stat ≡ ss_request
      → InRequest stat cs
      → Refines dispatcher p
          (received cs ++ input)
          d
          (and_message io dispatcher p (read_header io cs input) d)
          (deframe (received cs ++ input))
  unfolding read_header
  by_stage ms_read_header stage open_ v = header_stage-Refines open_ stage v
  by_stage ms_read_message stage open_ (buf, v) =
      subst (λ r. Refines dispatcher p (received cs ++ input) d r (deframe (received cs ++ input)))
        (simp stage) (read_message-Refines cs buf input v io dispatcher p d open_ stage)
  by_stage ms_read_done stage open_ v = absurd v
  by_stage ms_sending stage open_ v = absurd v

  -- For a valid session that waits for a request, what the callback does is what the protocol says
  -- of the bytes that the session has read so far and those that have arrived, in whatever pieces
  -- they came. With too few bytes it takes them all, stays valid and calls nothing. An invalid
  -- header frees the session. A complete request is parsed once, from exactly its body and under
  -- its event id; then the session is freed if there is no event, and otherwise the event is posted
  -- and the session awaits the response, with the bytes behind the request left in the input. No
  -- write goes through a null buffer.
  pub handle_request-Refines :
      cs.session_stat ≡ ss_request
      → IsValid cs
      → Refines dispatcher p
          (received cs ++ input)
          d
          (handle_request io dispatcher p cs input d)
          (deframe (received cs ++ input))
  unfolding handle_request
  handle_request-Refines open_ v =
      subst
        (λ a.
          Refines dispatcher p (received cs ++ input) d (by_status io dispatcher a p cs input d)
            (deframe (received cs ++ input)))
        (sym open_) (by_stage cs.req_stat refl open_ (subst (λ a. Stage a cs.req_stat cs) open_ v))
