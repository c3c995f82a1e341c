-- ===== src/Server/Run/Request.antt =====
-- A step of the request callback in the running server.
use shared_bike_server.Base.{
  ℕ, ◌+◌, ◌≡◌, refl, inl, inr, List, [], ◌∷◌, ◌++◌, Option, none, some, arith, ◌==◌, if◌then◌else◌,
  Bool-cases, Bool, ltb, sym, ap, subst, ◌∙◌, length, false, take, some_eq,
}
use shared_bike_server.Events.{Event, set_args, mobile_code_req_ev, login_req_ev}
use shared_bike_server.Events.Codec.{Codec}
use shared_bike_server.Net.Io.{Bufferevent}
use shared_bike_server.Net.Session.{Session, SessionStatus, ss_request, ss_response}
use shared_bike_server.Net.Request.{Handled, post, by_status, handle_request}
use shared_bike_server.Net.Request.Invariant.{IsValid, received}
use shared_bike_server.Net.Request.Body.{Refines}
use shared_bike_server.Net.Request.Deframe.{Verdict, more, invalid, frame, deframe}
use shared_bike_server.Net.Request.Refinement.{handle_request-Refines}
use shared_bike_server.Net.Response.{Connection, put}
use shared_bike_server.Pool.Locks.{Status, is_ok}
use shared_bike_server.Pool.Task.{job_at}
use shared_bike_server.Pool.Chain.{occ}
use shared_bike_server.Pool.Worker.{Pool, Worker}
use shared_bike_server.Pool.Worker.Invariant.{Inv, held}
use shared_bike_server.Pool.Worker.Reach.{dead-fresh}
use shared_bike_server.Dispatch.Parse.{parse_event, mobile_code_req, login_req}
use shared_bike_server.Dispatch.Enqueue.{Calls, enqueue_jobs}
use shared_bike_server.Server.Requests.{Posts, dispatch_msg_service}
use shared_bike_server.Server.Run.{Running, posted, handled, requested}
use shared_bike_server.Server.Run.Pending.{
  pending, of_session, names, queued-snoc, queued-same, in_hands-same,
}
use shared_bike_server.Server.Run.Invariant.{Sane, IsRequest, Waits, ValidAt, put_each, client-Sane}

-- What is parsed is a request for a code or a login, and gets its session.
mobile_code_req-IsRequest :
    (o : Option (List ℕ)) (sn p : ℕ) {ev : Event} {sn' : ℕ}
    → mobile_code_req o sn ≡ (some ev, sn')
    → IsRequest (set_args p ev)
unfolding mobile_code_req_ev
mobile_code_req-IsRequest none sn p e = absurd cc
mobile_code_req-IsRequest (some m) sn p e =
    subst (λ k. IsRequest (set_args p k)) (some_eq (ap (λ t. t.0) e))
      ((p, refl), inl (refl, (m, refl)))

login_req-IsRequest :
    (o : Option (List ℕ × ℕ)) (sn p : ℕ) {ev : Event} {sn' : ℕ}
    → login_req o sn ≡ (some ev, sn')
    → IsRequest (set_args p ev)
unfolding login_req_ev
login_req-IsRequest none sn p e = absurd cc
login_req-IsRequest (some (m, icode)) sn p e =
    subst (λ k. IsRequest (set_args p k)) (some_eq (ap (λ t. t.0) e))
      ((p, refl), inr (refl, (m, icode, refl)))

parse_event-IsRequest :
    (codec : Codec) (message : Option (List ℕ)) (len eid sn p : ℕ) {ev : Event} {sn' : ℕ}
    → parse_event codec message len eid sn ≡ (some ev, sn')
    → IsRequest (set_args p ev)
unfolding parse_event
parse_event-IsRequest codec none len eid sn p e = absurd cc
parse_event-IsRequest codec (some m) len eid sn p e = elim (Bool-cases (eid == 1)) [
  | inl code ↦
      mobile_code_req-IsRequest (codec.parse_mobile_request (take len m)) sn p (rw code at e)
  | inr other ↦ elim (Bool-cases (eid == 3)) [
    | inl login ↦
        login_req-IsRequest (codec.parse_login_request (take len m)) sn p (rw (other, login) at e)
    | inr unknown ↦ absurd (let f = rw (other, unknown) at e in cc)
  ]
]

module _ (p q a : ℕ) (ev : Event) (ws : List Worker) (xs : List ℕ) (evs : List Event)
    (jobs jobs' : ℕ → Option Event) where
  -- The task at address a, with an event of session p, is queued behind the others, or it is in
  -- memory alone.
  pending-posted :
      (ok : Bool)
      → ev.args ≡ some p
      → occ a xs + held a ws ≡ 0
      → ((k : ℕ) → jobs' k ≡ (if a == k then some ev else jobs k))
      → pending q jobs' (if ok then xs ++ a ∷ [] else xs) ws evs
        ≡ pending q jobs xs ws evs + (if ok then (if q == p then 1 else 0) else 0)
  pending-posted ok at fresh all =
      let same : (k : ℕ) → (a == k) ≡ false → jobs' k ≡ jobs k = λ k other. all k ∙ rw other refl in
      let mine : jobs' a ≡ some ev = all a ∙ ground arith in
      let asked : of_session q (jobs' a) ≡ (if q == p then 1 else 0) =
        ap (of_session q) mine ∙ ap (names q) at in
      let others = queued-same q jobs jobs' a same xs (omega (arith, fresh)) in
      let hands = in_hands-same q jobs jobs' a same ws (omega (arith, fresh)) in
      elim (Bool-cases ok) [
        | inl took ↦ rw took (omega (arith, queued-snoc q jobs' xs a, asked, others, hands))
        | inr refused ↦ rw refused (omega (arith, others, hands))
      ]

module _ {S : Type 0} (h : ℕ) (s : Running S) (v : Sane h s) (codec : Codec) (io : Bufferevent)
    (calls : Calls) (a p : ℕ) (c : Connection) (there : s.conns p ≡ some c)
    (at : calls.calloc ≡ some a) (dead : s.tp.cells a ≡ none) where
  abbrev Settles : Option (Running S) → Type 0
  Settles o = (u : Running S) × (o ≡ some u) × Sane h u

  -- Nothing is posted.
  unposted :
      (c' : Option Connection) (sn : ℕ)
      → (Waits (s.conns p) → Waits c')
      → ValidAt c'
      → Settles (posted s (put s.conns p c') (sn, some s.tp))
  unposted c' sn still fine = (_, refl, client-Sane h s v p sn c' still fine)

  -- A session that waits for a request has none on its way.
  none_pending :
      c.session.session_stat ≡ ss_request
      → pending p (job_at s.tp.cells) v.xs s.threads s.service.response_events ≡ 0
  none_pending idle =
      elim (Bool-cases
        (ltb 0 (pending p (job_at s.tp.cells) v.xs s.threads s.service.response_events))) [
          | inl several ↦ absurd (let e = subst Waits there (v.waits p (ground arith)) in cc)
          | inr idle_ ↦ ground arith
        ]

  -- An event of the session was given to the pool, which took it or refused it.
  posted-Sane :
      (ev : Event) (r : Status × Pool Event) (sn : ℕ) (c' : Connection)
      → IsRequest ev
      → ev.args ≡ some p
      → c.session.session_stat ≡ ss_request
      → c'.session.session_stat ≡ ss_response
      → IsValid c'.session
      → Inv s.threads r.1 (if is_ok r.0 then v.xs ++ a ∷ [] else v.xs)
      → ((k : ℕ) → job_at r.1.cells k ≡ (if a == k then some ev else job_at s.tp.cells k))
      → Settles (posted s (put s.conns p (some c')) (sn, some r.1))
  posted-Sane ev r sn c' asks mine idle busy fine inv jobs =
      let count = λ (q : ℕ).
        pending-posted p q a ev s.threads v.xs s.service.response_events (job_at s.tp.cells)
          (job_at r.1.cells) (is_ok r.0) mine (dead-fresh s.threads s.tp v.xs a v.inv dead) jobs in
      (
        _,
        refl,
        record {
          xs = if is_ok r.0 then v.xs ++ a ∷ [] else v.xs;
          inv = inv;
          once = λ q. ground (arith, count q, v.once q, none_pending idle);
          waits = λ q some_.
              put_each Waits s.conns p (some c') q (λ _. busy)
                (λ other. v.waits q (ground (arith, count q)));
          valid = λ q. put_each ValidAt s.conns p (some c') q (λ _. fine) (λ _. v.valid q);
          requests = λ k e live. elim (Bool-cases (a == k)) [
            | inl new ↦
                let found : job_at r.1.cells k ≡ some ev = jobs k ∙ rw new refl in
                subst IsRequest (some_eq (sym found ∙ live)) asks
            | inr old ↦
                let same : job_at r.1.cells k ≡ job_at s.tp.cells k = jobs k ∙ rw old refl in
                v.requests k e (sym same ∙ live)
          ];
          responses = v.responses;
          open_ = v.open_;
          codes = v.codes;
          logins = v.logins;
        },
      )

  not_waiting : c.session.session_stat ≡ ss_request → Waits (s.conns p) → ⊥
  not_waiting idle w = (let e = subst Waits there w in cc)

  given :
      (o : Option Event) (sn : ℕ) (cs : Session) (rest body : List ℕ) (eid : ℕ)
      → parse_event codec (some body) (length body) eid s.service.sn ≡ (o, sn)
      → c.session.session_stat ≡ ss_request
      → cs.session_stat ≡ ss_response
      → IsValid cs
      → Settles
          (handled p c s (post (dispatch_msg_service codec calls) p cs rest (o, (sn, some s.tp))))
  given none sn cs rest body eid e idle busy fine =
      unposted none sn (λ w. absurd (not_waiting idle w)) tt
  given (some ev) sn cs rest body eid e idle busy fine =
      let (r, queued_, inv, jobs) =
        enqueue_jobs calls (set_args p ev) s.threads s.tp v.xs a v.inv at dead in
      rw queued_ (
        posted-Sane (set_args p ev) r sn (record c { session = cs; input = rest })
          (parse_event-IsRequest codec (some body) (length body) eid s.service.sn p e) refl idle
          busy fine inv jobs)

  Refines-Sane :
      (bytes : List ℕ) (verdict : Verdict) (r : Handled Posts)
      → c.session.session_stat ≡ ss_request
      → Refines (dispatch_msg_service codec calls) p bytes (s.service.sn, some s.tp) r verdict
      → Settles (handled p c s r)
  Refines-Sane bytes more r idle (cs, e, open_, fine, _) =
      subst (λ k. Settles (handled p c s k)) (sym e)
        (unposted (some (record c { session = cs; input = [] })) s.service.sn
          (λ w. absurd (not_waiting idle w)) fine)
  Refines-Sane bytes invalid r idle e =
      subst (λ k. Settles (handled p c s k)) (sym e)
        (unposted none s.service.sn (λ w. absurd (not_waiting idle w)) tt)
  Refines-Sane bytes (frame eid body rest) r idle (cs, e, busy, fine) =
      let o = parse_event codec (some body) (length body) eid s.service.sn in
      subst (λ k. Settles (handled p c s k)) (sym e)
        (given o.0 o.1 cs rest body eid refl idle busy fine)

  -- The callback has no undefined behaviour, and the server stays sane.
  pub requested-Sane : Settles (requested codec io calls p c s)
  unfolding requested handle_request
  requested-Sane = at_status c.session.session_stat refl
    where
      at_status :
          (stat : SessionStatus)
          → c.session.session_stat ≡ stat
          → Settles (requested codec io calls p c s)
      at_status ss_request idle =
          Refines-Sane (received c.session ++ c.input) (deframe (received c.session ++ c.input)) _
            idle
            (handle_request-Refines io (dispatch_msg_service codec calls) p c.session c.input
              (s.service.sn, some s.tp) idle (subst ValidAt there (v.valid p)))
      at_status ss_response busy =
          subst
            (λ k. Settles (
              handled p c s (
                by_status io (dispatch_msg_service codec calls) k p c.session c.input
                  (s.service.sn, some s.tp))))
            (sym busy)
            (unposted (some c) s.service.sn (λ w. busy) (subst ValidAt there (v.valid p)))
