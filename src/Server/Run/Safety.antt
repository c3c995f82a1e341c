-- ===== src/Server/Run/Safety.antt =====
-- The running server in every state that it can reach.
use shared_bike_server.Base.{
  ℕ, ◌+◌, ◌^◌, ◌<◌, ◌≤◌, ◌≡◌, List, [], ◌∷◌, some, arith, sym, ap, subst, ◌∙◌, some_eq, ◌==◌, ◌⊎◌,
  inl, inr, Bool-cases,
}
use shared_bike_server.Config.{EnvConfig}
use shared_bike_server.Sql.{Mysql}
use shared_bike_server.Events.{mobile_response}
use shared_bike_server.Events.Codes.{
  eeventid_get_moblie_code_req, eeventid_login_req, errc_success, get_reason_by_error_code,
}
use shared_bike_server.Events.Codec.{Codec}
use shared_bike_server.Net.Io.{Bufferevent}
use shared_bike_server.Net.Session.{ss_response}
use shared_bike_server.Net.Response.{Connection, Connections}
use shared_bike_server.Pool.Task.{job_at}
use shared_bike_server.Pool.Chain.{QueueIs}
use shared_bike_server.Pool.Worker.Turn.{Chain-unique}
use shared_bike_server.Dispatch.Subscribers.{Subscribers, handlers_of}
use shared_bike_server.Dispatch.Answer.{handle_all_response_event}
use shared_bike_server.User.Handler.{Users}
use shared_bike_server.Server.Run.{
  Running, Step, accept, arrive, hang_up, request, work, serve, deliver, Reach, here, next,
  delivered,
}
use shared_bike_server.Server.Run.Pending.{pending}
use shared_bike_server.Server.Run.Invariant.{
  Sane, begun, begun-Sane, Waits, accepted-Sane, arrived-Sane, hung_up-Sane,
}
use shared_bike_server.Server.Run.Request.{requested-Sane}
use shared_bike_server.Server.Run.Work.{worked-Sane, served-Sane}
use shared_bike_server.Server.Run.Deliver.{delivered-Sane, after_all, there_is}

-- A response for a code, whatever the code is, is shorter than 4 GB with its header.
abbrev pub SmallCodes : Codec → Type 0
SmallCodes codec =
    (icode : ℕ)
    → codec.byte_size (mobile_response errc_success icode (get_reason_by_error_code errc_success))
        + 10
      < 2 ^ 32

module _ {S : Type 0} (mysql : Mysql S) (conf : EnvConfig) (codec : Codec) (io : Bufferevent)
    (small : SmallCodes codec) (h : ℕ) where
  Step-Sane : {s u : Running S} → Step mysql conf codec io s u → Sane h s → Sane h u
  Step-Sane {s} {u} (accept p fd ip free e) v =
      subst (Sane h) (sym e) (accepted-Sane h s v p fd ip free)
  Step-Sane {s} {u} (arrive p c bytes there e) v =
      subst (Sane h) (sym e) (arrived-Sane h s v p c bytes there)
  Step-Sane {s} {u} (hang_up p c there idle e) v =
      subst (Sane h) (sym e) (hung_up-Sane h s v p c there idle)
  Step-Sane {s} {u} (request calls a p c there at dead e) v =
      let (t, f, w) = requested-Sane h s v codec io calls a p c there at dead in
      subst (Sane h) (some_eq (sym f ∙ e)) w
  Step-Sane {s} {u} (work ws vs w w' act tp loop before moves e) v =
      subst (Sane h) (sym e) (worked-Sane h s v ws vs w w' act tp loop before moves)
  Step-Sane {s} {u} (serve ws vs a r ev tp service before job run moves e) v =
      subst (Sane h) (sym e)
        (served-Sane mysql conf h s v ws vs a r ev tp service before job run moves)
  Step-Sane {s} {u} (deliver conns run e) v =
      let (conns', f, is, w) = delivered-Sane codec io small h s v in
      subst (Sane h) (ap (λ k. delivered k s) (some_eq (sym f ∙ run)) ∙ sym e) w

  pub Steps-Sane :
      (s : Running S) {u : Running S} → Reach mysql conf codec io s u → Sane h s → Sane h u
  Steps-Sane s here v = v
  Steps-Sane s (next r st) v = Step-Sane st (Steps-Sane s r v)

  module _ (id : ℕ) (m : Subscribers) (w : Users S)
      (codes : handlers_of eeventid_get_moblie_code_req m ≡ h ∷ [])
      (logins : handlers_of eeventid_login_req m ≡ h ∷ []) {s : Running S}
      (r : Reach mysql conf codec io (begun id m w) s) where
    reached : Sane h s
    reached = Steps-Sane (begun id m w) r (begun-Sane h id m w codes logins)

    -- In every state that the server can reach, whose handler for the two requests is the
    -- UserEventHandler, as long as no client hangs up while it waits: each session has at most one
    -- request that is queued, in the hands of a worker, or answered by a response that is not sent
    -- yet; and if it has one, its client is there and its session waits in SS_RESPONSE.
    pub Reach-one_request :
        (xs : List ℕ) (p : ℕ)
        → QueueIs (s.tp.queue, s.tp.cells) xs
        → (pending p (job_at s.tp.cells) xs s.threads s.service.response_events ≡ 0)
          ⊎ ((pending p (job_at s.tp.cells) xs s.threads s.service.response_events ≡ 1)
              × ((c : Connection) × (s.conns p ≡ some c) × (c.session.session_stat ≡ ss_response)))
    Reach-one_request xs p queued_ =
        let same : reached.xs ≡ xs =
          Chain-unique s.tp.cells s.tp.queue.first reached.xs xs reached.inv.queued.chain
            queued_.chain in
        let n = pending p (job_at s.tp.cells) xs s.threads s.service.response_events in
        let once : n ≤ 1 =
          subst (λ l. pending p (job_at s.tp.cells) l s.threads s.service.response_events ≤ 1) same
            (reached.once p) in
        elim (Bool-cases (n == 0)) [
          | inl nothing ↦ inl (ground arith)
          | inr something ↦
              let one : n ≡ 1 = ground arith in
              let waits : Waits (s.conns p) = reached.waits p (
                omega (
                  arith,
                  one,
                  ap (λ l. pending p (job_at s.tp.cells) l s.threads s.service.response_events)
                      same,
                )) in
              let (c, there) = there_is (s.conns p) waits in
              inr (one, (c, there, subst Waits there waits))
        ]

    -- In every state that the server can reach, whose handler for the two requests is the
    -- UserEventHandler, as long as no client hangs up while it waits: handleAllResponseEvent has
    -- defined behaviour, although it works through pointers to sessions, and each client is
    -- afterwards what its own responses make of it: one whose code is among them gets it, and the
    -- others are as before.
    pub Reach-delivered :
        (conns' : Connections) × (handle_all_response_event codec io s.service.response_events
            s.conns
          ≡ some conns')
        × ((p : ℕ) → conns' p ≡ after_all codec io s.service.response_events p (s.conns p))
    Reach-delivered =
        let (conns', f, is, v) = delivered-Sane codec io small h s reached in (conns', f, is)
