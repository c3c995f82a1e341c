-- ===== src/Server/Run/Deliver.antt =====
-- handleAllResponseEvent in the running server.
use shared_bike_server.Base.{
  ℕ, ◌+◌, ◌^◌, ◌<◌, ◌≤◌, ◌≡◌, refl, inl, inr, List, [], ◌∷◌, ◌++◌, Option, none, some, arith, ◌==◌,
  if◌then◌else◌, Bool-cases, sym, ap, subst, ◌∙◌, length,
}
use shared_bike_server.Events.{Event, mobile_response}
use shared_bike_server.Events.Codes.{
  eeventid_get_moblie_code_rsp, eeventid_login_rsp, errc_success, get_reason_by_error_code,
}
use shared_bike_server.Events.Codec.{Codec}
use shared_bike_server.Net.Io.{Bufferevent}
use shared_bike_server.Net.Session.{
  Session, SessionStatus, MessageStatus, ss_request, ss_response, ms_read_header, ms_read_message,
  ms_read_done, ms_sending,
}
use shared_bike_server.Net.Request.Invariant.{Stage}
use shared_bike_server.Net.Response.{Connection, Connections, put}
use shared_bike_server.Dispatch.Answer.{answer, handle_all_response_event}
use shared_bike_server.Dispatch.Answer.Deliver.{sent, answer-mobile_code_rsp}
use shared_bike_server.Server.Run.{Running, delivered}
use shared_bike_server.Server.Run.Pending.{names, answered}
use shared_bike_server.Server.Run.Invariant.{
  Sane, IsResponse, AreResponses, Waits, ValidAt, put_each,
}

Stage-size :
    (a : SessionStatus) (b : MessageStatus) (cs : Session) → Stage a b cs → length cs.header ≡ 11
Stage-size ss_request ms_read_header cs v = v.size
Stage-size ss_request ms_read_message cs (buf, v) = v.size
Stage-size ss_request ms_read_done cs v = absurd v
Stage-size ss_request ms_sending cs v = absurd v
Stage-size ss_response b cs v = v.size

pub there_is : (o : Option Connection) → Waits o → (c : Connection) × (o ≡ some c)
there_is none w = absurd w
there_is (some c) w = (c, refl)

module _ (codec : Codec) (io : Bufferevent) where
  -- What one response means for the client at address p: a response for a code is sent, if it is its
  -- own.
  abbrev pub after_response : Event → ℕ → Option Connection → Option Connection
  after_response ev p none = none
  after_response ev p (some c) =
      if names p ev.args == 0
      then some c
      else if ev.eid == eeventid_get_moblie_code_rsp
      then some (sent codec io ev c)
      else some c

  abbrev pub after_all : List Event → ℕ → Option Connection → Option Connection
  after_all [] p c = c
  after_all (ev ∷ evs) p c = after_all evs p (after_response ev p c)

  pub after_response-other :
      (ev : Event) (p : ℕ) (c : Option Connection) → names p ev.args ≡ 0 → after_response ev p c ≡ c
  after_response-other ev p none h = refl
  after_response-other ev p (some c) h = rw h refl

  pub after_response-code :
      (ev : Event) (p : ℕ) (c : Connection)
      → ev.eid ≡ eeventid_get_moblie_code_rsp
      → ev.args ≡ some p
      → after_response ev p (some c) ≡ some (sent codec io ev c)
  after_response-code ev p c kind mine =
      let named : names p ev.args ≡ 1 = ap (names p) mine ∙ ground arith in rw (named, kind) refl

  after_response-login :
      (ev : Event) (p : ℕ) (c : Option Connection)
      → ev.eid ≡ eeventid_login_rsp
      → after_response ev p c ≡ c
  after_response-login ev p none kind = refl
  after_response-login ev p (some c) kind = elim (Bool-cases (names p ev.args == 0)) [
    | inl other ↦ rw other refl
    | inr own ↦ rw (own, kind) refl
  ]

  pub after_all-other :
      (evs : List Event) (p : ℕ) (c : Option Connection)
      → answered p evs ≡ 0
      → after_all evs p c ≡ c
  after_all-other [] p c h = refl
  after_all-other (ev ∷ evs) p c h =
      ap (after_all evs p) (after_response-other ev p c (omega (arith, h)))
      ∙ after_all-other evs p c (omega (arith, h))

  pub answered-middle :
      (p : ℕ) (evs : List Event) (ev : Event) (later : List Event)
      → names p ev.args ≤ answered p (evs ++ ev ∷ later)
  answered-middle p [] ev later = omega arith
  answered-middle p (e ∷ evs) ev later = omega (arith, answered-middle p evs ev later)

  -- The one response of a session is the one that counts for it.
  pub after_all-found :
      (p : ℕ) (evs : List Event) (ev : Event) (later : List Event) (c : Option Connection)
      → names p ev.args ≡ 1
      → answered p (evs ++ ev ∷ later) ≤ 1
      → after_all (evs ++ ev ∷ later) p c ≡ after_response ev p c
  after_all-found p [] ev later c own once = after_all-other later p _ (omega (arith, own, once))
  after_all-found p (e ∷ evs) ev later c own once =
      ap (after_all (evs ++ ev ∷ later) p)
        (after_response-other e p c (omega (arith, answered-middle p evs ev later)))
      ∙ after_all-found p evs ev later c own (omega arith)

  module _
      (small : (icode : ℕ)
        → codec.byte_size
              (mobile_response errc_success icode (get_reason_by_error_code errc_success))
            + 10
          < 2 ^ 32) where
    -- One response for a session that waits.
    answer_lem :
        (ev : Event) (conns : Connections)
        → IsResponse ev
        → ((p : ℕ) → 1 ≤ names p ev.args → Waits (conns p))
        → ((p : ℕ) → ValidAt (conns p))
        → (conns' : Connections) × (answer codec io ev conns ≡ some conns')
          × ((p : ℕ) → conns' p ≡ after_response ev p (conns p))
          × ((p : ℕ) → ValidAt (conns' p))
    unfolding answer
    answer_lem ev conns ((p, mine), inl (kind, (icode, msg))) waits valid =
        let (c, there) = there_is (conns p) (waits p (ground (arith, mine))) in
        let size : length c.session.header ≡ 11 =
          Stage-size c.session.session_stat c.session.req_stat c.session
            (subst ValidAt there (valid p)) in
        let (e, fine, _, _) =
          answer-mobile_code_rsp codec io ev p c conns kind mine there size
            (subst (λ m. codec.byte_size m + 10 < 2 ^ 32) (sym msg) (small icode)) in
        (
          put conns p (some (sent codec io ev c)),
          e,
          λ q.
              put_each (λ o. o ≡ after_response ev q (conns q)) conns p (some (sent codec io ev c))
                q
                (λ same.
                  sym (after_response-code ev p c kind mine)
                  ∙ ap (after_response ev p) (sym there)
                  ∙ ap (λ k. after_response ev k (conns k)) same)
                (λ other. sym (
                  after_response-other ev q (conns q) (ap (names q) mine ∙ ground (arith, other)))),
          λ q. put_each ValidAt conns p (some (sent codec io ev c)) q (λ _. fine) (λ _. valid q),
        )
    answer_lem ev conns ((p, mine), inr kind) waits valid =
        (conns, ground (arith, kind), λ q. sym (after_response-login ev q (conns q) kind), valid)

    -- All responses in their order, with one at most for each session, which waits for it: the
    -- behaviour is defined, and each client gets its own and nothing else.
    pub handle_all_response_event-after_all :
        (evs : List Event) (conns : Connections)
        → AreResponses evs
        → ((p : ℕ) → answered p evs ≤ 1)
        → ((p : ℕ) → 1 ≤ answered p evs → Waits (conns p))
        → ((p : ℕ) → ValidAt (conns p))
        → (conns' : Connections) × (handle_all_response_event codec io evs conns ≡ some conns')
          × ((p : ℕ) → conns' p ≡ after_all evs p (conns p))
          × ((p : ℕ) → ValidAt (conns' p))
    unfolding handle_all_response_event
    handle_all_response_event-after_all [] conns all once waits valid =
        (conns, refl, λ p. refl, valid)
    handle_all_response_event-after_all (ev ∷ evs) conns (first, all) once waits valid =
        let (mid, e, is, fine) = answer_lem ev conns first (λ p h. waits p (omega arith)) valid in
        let still : (p : ℕ) → 1 ≤ answered p evs → Waits (mid p) = λ p h.
          subst Waits (sym (is p ∙ after_response-other ev p (conns p) (omega (arith, once p))))
            (waits p (omega arith)) in
        let (conns', e', is', fine') =
          handle_all_response_event-after_all evs mid all (λ p. omega (arith, once p)) still fine in
        (conns', rw e e', λ p. is' p ∙ ap (after_all evs p) (is p), fine')

module _ {S : Type 0} (codec : Codec) (io : Bufferevent)
    (small : (icode : ℕ)
      → codec.byte_size (mobile_response errc_success icode (get_reason_by_error_code errc_success))
          + 10
        < 2 ^ 32)
    (h : ℕ) (s : Running S) (v : Sane h s) where
  pub delivered-Sane :
      (conns' : Connections) × (handle_all_response_event codec io s.service.response_events s.conns
        ≡ some conns')
      × ((p : ℕ) → conns' p ≡ after_all codec io s.service.response_events p (s.conns p))
      × Sane h (delivered conns' s)
  unfolding delivered
  delivered-Sane =
      let (conns', e, is, fine) =
        handle_all_response_event-after_all codec io small s.service.response_events s.conns
          v.responses (λ p. omega (arith, v.once p)) (λ p some_. v.waits p (omega arith)) v.valid in
      (
        conns',
        e,
        is,
        record {
          xs = v.xs;
          inv = v.inv;
          once = λ p. omega (arith, v.once p);
          waits = λ p some_.
              subst Waits
                (sym (
                  is p
                  ∙ after_all-other codec io s.service.response_events p (s.conns p)
                      (omega (arith, v.once p))))
                (v.waits p (omega arith));
          valid = fine;
          requests = v.requests;
          responses = tt;
          open_ = v.open_;
          codes = v.codes;
          logins = v.logins;
        },
      )
