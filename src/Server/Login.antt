-- ===== src/Server/Login.antt =====
-- What becomes of the response to a login.
use shared_bike_server.Base.{
  ℕ, ◌≡◌, ◌<◌, refl, false, List, [], ◌∷◌, none, some, arith, ◌∙◌, ap, length, ◌++◌,
}
use shared_bike_server.Config.{EnvConfig}
use shared_bike_server.Sql.{Mysql}
use shared_bike_server.Events.{Event, login_request, login_rsp_ev}
use shared_bike_server.Events.Codec.{Codec}
use shared_bike_server.Events.Codes.{eeventid_login_rsp, eeventid_login_req}
use shared_bike_server.Net.Io.{Bufferevent}
use shared_bike_server.Net.Response.{Connections}
use shared_bike_server.Dispatch.Subscribers.{handlers_of}
use shared_bike_server.Dispatch.Process.{
  Handle, Service, call_all, process, svc, process-handlers_of,
}
use shared_bike_server.Dispatch.Answer.{handle_all_response_event}
use shared_bike_server.Dispatch.Answer.Deliver.{handle_all_response_event-login_rsp}
use shared_bike_server.User.Service.{c_str}
use shared_bike_server.User.Handler.{Users, handle, handle_login_req}
use shared_bike_server.User.Overflow.{handle_login_req-Answers}

module _ {S : Type 0} (mysql : Mysql S) (conf : EnvConfig) where
  -- Every handler is the UserEventHandler, for the number r that rand() gives.
  abbrev pub user_handle : ℕ → Handle (Users S)
  user_handle r h ev w = handle mysql conf r ev w

  pub handle-login :
      (r : ℕ) (ev : Event) (mobile : List ℕ) (icode : ℕ) (w : ℕ × Users S)
      → ev.eid ≡ eeventid_login_req
      → ev.msg ≡ login_request mobile icode
      → handle mysql conf r ev w ≡ handle_login_req mysql conf mobile icode w
  unfolding handle
  handle-login r ev mobile icode w kind msg = ground (arith, kind, msg)

module _ {S : Type 0} (mysql : Mysql S) (conf : EnvConfig) (codec : Codec) (io : Bufferevent) where
  -- In an open service whose only handler for logins is the UserEventHandler, every login with a
  -- number shorter than 985 bytes is worked on to the end, and one response of the login kind is
  -- queued for its session; but whatever connections there are, the main loop takes it from the
  -- queue and sends nothing, also to that session.
  pub svc-login :
      (r h : ℕ) (ev : Event) (mobile : List ℕ) (icode : ℕ) (s : Service (Users S))
      → s.svr_exit ≡ false
      → handlers_of eeventid_login_req s.subscribers ≡ h ∷ []
      → ev.eid ≡ eeventid_login_req
      → ev.msg ≡ login_request mobile icode
      → length (c_str mobile) < 985
      → (s' : Service (Users S)) × (rsp : Event) × (svc (user_handle mysql conf r) ev s ≡ some s')
        × (s'.response_events ≡ s.response_events ++ rsp ∷ [])
        × (rsp.eid ≡ eeventid_login_rsp)
        × (rsp.args ≡ ev.args)
        × ((conns : Connections) → handle_all_response_event codec io (rsp ∷ []) conns ≡ some conns)
  unfolding svc call_all login_rsp_ev
  svc-login r h ev mobile icode s open_ mine kind msg short =
      let (rc, sn', u', e) = handle_login_req-Answers mysql conf mobile icode s.sn s.world short in
      let rsp : Event = record (login_rsp_ev rc s.sn).0 { args = ev.args } in
      let run : process (user_handle mysql conf r) s.subscribers ev (s.sn, s.world)
          ≡ some (some (login_rsp_ev rc s.sn).0, (sn', u')) =
        process-handlers_of (user_handle mysql conf r) s.subscribers ev (s.sn, s.world)
          (omega (arith, kind))
        ∙ ap
            (λ k.
              call_all (user_handle mysql conf r) (handlers_of k s.subscribers) ev
                (none, (s.sn, s.world)))
            kind
        ∙ ap (λ hs. call_all (user_handle mysql conf r) hs ev (none, (s.sn, s.world))) mine
        ∙ rw (handle-login mysql conf r ev mobile icode (s.sn, s.world) kind msg, e) refl in
      (
        record s { response_events = s.response_events ++ rsp ∷ []; sn = sn'; world = u' },
        rsp,
        rw (open_, run) refl,
        refl,
        refl,
        refl,
        λ conns. handle_all_response_event-login_rsp codec io (rsp ∷ []) conns (refl, tt),
      )
