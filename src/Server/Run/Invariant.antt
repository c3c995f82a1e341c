-- ===== src/Server/Run/Invariant.antt =====
-- What holds of the running server between two steps, and that clients may come, send bytes and go.
use shared_bike_server.Base.{
  ℕ, ◌≤◌, ◌≡◌, ◌⊎◌, refl, inl, inr, false, List, [], ◌∷◌, Option, none, some, arith, ◌==◌, ==_iff,
  Bool-cases, replicate, sym, subst,
}
use shared_bike_server.Events.{Event, mobile_request, mobile_response, login_request}
use shared_bike_server.Events.Codes.{
  eeventid_get_moblie_code_req, eeventid_get_moblie_code_rsp, eeventid_login_req,
  eeventid_login_rsp, errc_success, get_reason_by_error_code,
}
use shared_bike_server.Net.Session.{ss_request, ss_response}
use shared_bike_server.Net.Request.Invariant.{IsValid, listener_cb-IsValid}
use shared_bike_server.Net.Response.{Connection, Connections, put, handle_error}
use shared_bike_server.Pool.Task.{job_at}
use shared_bike_server.Pool.Worker.{at_top, new_pool, default_threads_num}
use shared_bike_server.Pool.Worker.Invariant.{Inv}
use shared_bike_server.Dispatch.Subscribers.{Subscribers, handlers_of}
use shared_bike_server.User.Handler.{Users}
use shared_bike_server.Server.Run.{Running, accepted, arrived, hung_up}
use shared_bike_server.Server.Run.Pending.{pending}

-- What parseEvent makes, with the session for its argument.
abbrev pub IsRequest : Event → Type 0
IsRequest ev =
    ((p : ℕ) × (ev.args ≡ some p))
    × ((ev.eid ≡ eeventid_get_moblie_code_req)
          × ((mobile : List ℕ) × (ev.msg ≡ mobile_request mobile))
        ⊎ ((ev.eid ≡ eeventid_login_req)
            × ((mobile : List ℕ) × (icode : ℕ) × (ev.msg ≡ login_request mobile icode))))

-- What UserEventHandler answers, with the session of the request.
abbrev pub IsResponse : Event → Type 0
IsResponse ev =
    ((p : ℕ) × (ev.args ≡ some p))
    × ((ev.eid ≡ eeventid_get_moblie_code_rsp)
          × ((icode : ℕ) × (ev.msg
                ≡ mobile_response errc_success icode (get_reason_by_error_code errc_success)))
        ⊎ (ev.eid ≡ eeventid_login_rsp))

abbrev pub AreResponses : List Event → Type 0
AreResponses [] = Unit
AreResponses (ev ∷ evs) = IsResponse ev × AreResponses evs

-- A client that is there, with its session in SS_RESPONSE.
abbrev pub Waits : Option Connection → Type 0
Waits none = ⊥
Waits (some c) = c.session.session_stat ≡ ss_response

abbrev pub ValidAt : Option Connection → Type 0
ValidAt none = Unit
ValidAt (some c) = IsValid c.session

-- Each session has one request at most on its way, and waits for it.
pub record Sane {S : Type 0} (h : ℕ) (s : Running S) : Type 0 where
  pub xs : List ℕ
  pub inv : Inv s.threads s.tp xs
  pub once : (p : ℕ) → pending p (job_at s.tp.cells) xs s.threads s.service.response_events ≤ 1
  pub waits :
      (p : ℕ)
      → 1 ≤ pending p (job_at s.tp.cells) xs s.threads s.service.response_events
      → Waits (s.conns p)
  pub valid : (p : ℕ) → ValidAt (s.conns p)
  pub requests : (a : ℕ) (ev : Event) → job_at s.tp.cells a ≡ some ev → IsRequest ev
  pub responses : AreResponses s.service.response_events
  pub open_ : s.service.svr_exit ≡ false
  pub codes : handlers_of eeventid_get_moblie_code_req s.service.subscribers ≡ h ∷ []
  pub logins : handlers_of eeventid_login_req s.service.subscribers ≡ h ∷ []

-- A property of each connection, when one of them changes.
pub put_each :
    (P : Option Connection → Type 0) (conns : Connections) (p : ℕ) (c : Option Connection) (q : ℕ)
    → ((p ≡ q) → P c)
    → ((p == q) ≡ false → P (conns q))
    → P (put conns p c q)
put_each P conns p c q new old = elim (Bool-cases (p == q)) [
  | inl same ↦ rw same (new ((==_iff p q).0 same))
  | inr other ↦ rw other (old other)
]

module _ {S : Type 0} (h : ℕ) (s : Running S) (v : Sane h s) where
  -- A change of one client that leaves it waiting, if it was, and with a valid session.
  pub client-Sane :
      (p sn : ℕ) (c : Option Connection)
      → (Waits (s.conns p) → Waits c)
      → ValidAt c
      → Sane h (record s { conns = put s.conns p c; service = record s.service { sn = sn } })
  client-Sane p sn c still fine = record {
    xs = v.xs;
    inv = v.inv;
    once = v.once;
    waits = λ q some_.
        put_each Waits s.conns p c q
          (λ same. still (subst (λ k. Waits (s.conns k)) (sym same) (v.waits q some_)))
          (λ _. v.waits q some_);
    valid = λ q. put_each ValidAt s.conns p c q (λ _. fine) (λ _. v.valid q);
    requests = v.requests;
    responses = v.responses;
    open_ = v.open_;
    codes = v.codes;
    logins = v.logins;
  }

  pub accepted-Sane : (p fd : ℕ) (ip : List ℕ) → s.conns p ≡ none → Sane h (accepted p fd ip s)
  unfolding accepted
  accepted-Sane p fd ip free =
      client-Sane p s.service.sn _ (λ w. absurd (subst Waits free w)) (listener_cb-IsValid fd ip).0

  pub arrived-Sane :
      (p : ℕ) (c : Connection) (bytes : List ℕ) → s.conns p ≡ some c → Sane h (arrived p c bytes s)
  unfolding arrived
  arrived-Sane p c bytes there =
      client-Sane p s.service.sn _ (λ w. subst Waits there w) (subst ValidAt there (v.valid p))

  pub hung_up-Sane :
      (p : ℕ) (c : Connection)
      → s.conns p ≡ some c
      → c.session.session_stat ≡ ss_request
      → Sane h (hung_up p s)
  unfolding hung_up handle_error
  hung_up-Sane p c there idle =
      client-Sane p s.service.sn none (λ w. (let e = subst Waits there w in absurd cc)) tt

-- The server behind main, which has made one event for its own test: four workers, a pool without
-- tasks, nobody connected, and no response.
abbrev pub begun : {S : Type 0} → ℕ → Subscribers → Users S → Running S
begun id m u = record {
  conns = λ p. none;
  threads = replicate default_threads_num at_top;
  tp = new_pool (λ a. none) id;
  service = record { subscribers = m; svr_exit = false; response_events = []; sn = 1; world = u };
}

pub begun-Sane :
    {S : Type 0} (h id : ℕ) (m : Subscribers) (u : Users S)
    → handlers_of eeventid_get_moblie_code_req m ≡ h ∷ []
    → handlers_of eeventid_login_req m ≡ h ∷ []
    → Sane h (begun id m u)
unfolding new_pool
begun-Sane h id m u codes logins = record {
  xs = [];
  inv = record {
    queued = record { chain = refl; last_is = refl; distinct = λ a. omega arith };
    counted = omega arith;
    owned = λ a. omega arith;
    live = λ a held. absurd (omega arith);
    bounded = omega arith;
  };
  once = λ p. omega arith;
  waits = λ p some_. absurd (omega arith);
  valid = λ p. tt;
  requests = λ a ev e. absurd cc;
  responses = tt;
  open_ = refl;
  codes = codes;
  logins = logins;
}
