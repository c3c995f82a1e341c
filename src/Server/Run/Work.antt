-- ===== src/Server/Run/Work.antt =====
-- The steps of the workers in the running server.
use shared_bike_server.Base.{
  ℕ, ◌+◌, ◌≤◌, ◌≡◌, ◌≢◌, ◌⊎◌, refl, inl, inr, List, [], ◌∷◌, ◌++◌, Option, none, some, arith, ◌==◌,
  if◌then◌else◌, Bool-cases, sym, ap, subst, ◌∙◌, false, some_eq,
}
use shared_bike_server.Config.{EnvConfig}
use shared_bike_server.Sql.{Mysql, init}
use shared_bike_server.Events.{
  Event, mobile_code_rsp_ev, login_rsp_ev, mobile_request, mobile_response,
}
use shared_bike_server.Events.Codes.{
  eeventid_get_moblie_code_rsp, eeventid_login_rsp, errc_success, get_reason_by_error_code,
  eeventid_get_moblie_code_req, eeventid_login_req, eeventid_unkown,
}
use shared_bike_server.Pool.Task.{Task, update, job_at, pop}
use shared_bike_server.Pool.Chain.{occ}
use shared_bike_server.Pool.Worker.{
  Pool, Worker, at_top, blocked, running, Act, enter, wake, finish, exit_thread, moved, release,
  cycle,
}
use shared_bike_server.Pool.Worker.Invariant.{Inv, holds, held, held-middle}
use shared_bike_server.Pool.Worker.Cycle.{Cycled, cycle-Cycled, InOrder}
use shared_bike_server.Dispatch.Process.{
  Service, svc, process, call_all, process-handlers_of, and_rest, responded,
}
use shared_bike_server.Dispatch.Subscribers.{handlers_of}
use shared_bike_server.User.Handler.{
  Users, handle, handle_login_req, handle_mobile_code_req, wrong_code, find_code, opened, closed,
  code_gen,
}
use shared_bike_server.Server.Login.{user_handle, handle-login}
use shared_bike_server.Server.Run.{Running, worked, served, IsLoop}
use shared_bike_server.Server.Run.Pending.{
  pending, queued, in_hand, of_session, names, in_hands-middle, queued-same, in_hands-same,
  answered-snoc,
}
use shared_bike_server.Server.Run.Invariant.{Sane, IsRequest, IsResponse, AreResponses}

pub IsRequest-known : (ev : Event) → IsRequest ev → ev.eid ≢ eeventid_unkown
IsRequest-known ev (_, inl (kind, _)) = omega (arith, kind)
IsRequest-known ev (_, inr (kind, _)) = omega (arith, kind)

pub asked-handlers :
    {S : Type 0} (h : ℕ) (s : Running S) (v : Sane h s) (ev : Event)
    → IsRequest ev
    → handlers_of ev.eid s.service.subscribers ≡ h ∷ []
asked-handlers h s v ev (_, inl (kind, _)) =
    ap (λ k. handlers_of k s.service.subscribers) kind ∙ v.codes
asked-handlers h s v ev (_, inr (kind, _)) =
    ap (λ k. handlers_of k s.service.subscribers) kind ∙ v.logins

-- Only the end of a handler changes the memory of a task.
pub cycle-cells :
    {J : Type 0} (act : Act) (w : Worker) (p : Pool J) {w' : Worker} {q : Pool J}
    → IsLoop act
    → cycle act w p ≡ moved w' q
    → q.cells ≡ p.cells
unfolding cycle pop
cycle-cells (enter lock unlock) at_top p loop e = ground arith
cycle-cells (wake wait unlock) blocked p loop e = ground arith
cycle-cells finish w p loop e = absurd loop
cycle-cells exit_thread w p loop e = absurd loop
cycle-cells _ _ p loop e = absurd cc

in_hand-free :
    (p : ℕ) (jobs : ℕ → Option Event) (w : Worker)
    → ((a : ℕ) → holds a w ≡ 0)
    → in_hand p jobs w ≡ 0
in_hand-free p jobs (running a) free = absurd (ground (arith, free a))
in_hand-free p jobs w free = refl

-- A task that goes from the queue to a worker stays on its way, or is dropped.
pending-InOrder :
    (p : ℕ) (jobs : ℕ → Option Event) (ws vs : List Worker) (w w' : Worker) (xs xs' : List ℕ)
    (evs : List Event)
    → InOrder xs xs' w'
    → pending p jobs xs' (ws ++ w' ∷ vs) evs ≤ pending p jobs xs (ws ++ w ∷ vs) evs
pending-InOrder p jobs ws vs w w' xs xs' evs (inl (same, free)) = omega (
  arith,
  ap (queued p jobs) same,
  in_hand-free p jobs w' free,
  in_hands-middle p jobs ws w vs,
  in_hands-middle p jobs ws w' vs,
)
pending-InOrder p jobs ws vs w w' xs xs' evs (inr (a, before, inl mine)) = omega (
  arith,
  ap (queued p jobs) before,
  ap (in_hand p jobs) mine,
  in_hands-middle p jobs ws w vs,
  in_hands-middle p jobs ws w' vs,
)
pending-InOrder p jobs ws vs w w' xs xs' evs (inr (a, before, inr gone)) = omega (
  arith,
  ap (queued p jobs) before,
  ap (in_hand p jobs) gone,
  in_hands-middle p jobs ws w vs,
  in_hands-middle p jobs ws w' vs,
)

module _ {S : Type 0} (h : ℕ) (s : Running S) (v : Sane h s) (ws vs : List Worker) where
  pub worked-Sane :
      (w w' : Worker) (act : Act) (tp : Pool Event)
      → IsLoop act
      → s.threads ≡ ws ++ w ∷ vs
      → cycle act w s.tp ≡ moved w' tp
      → Sane h (worked (ws ++ w' ∷ vs) tp s)
  unfolding worked
  worked-Sane w w' act tp loop before e =
      let inv0 : Inv (ws ++ w ∷ vs) s.tp v.xs = subst (λ l. Inv l s.tp v.xs) before v.inv in
      let (xs', inv, order) =
        subst (Cycled ws vs v.xs) e (cycle-Cycled ws vs v.xs act w s.tp inv0) in
      let same : job_at tp.cells ≡ job_at s.tp.cells = ap job_at (cycle-cells act w s.tp loop e) in
      let evs = s.service.response_events in
      let fewer : (p : ℕ)
          → pending p (job_at tp.cells) xs' (ws ++ w' ∷ vs) evs
            ≤ pending p (job_at s.tp.cells) v.xs s.threads evs =
        λ p. omega (
          arith,
          pending-InOrder p (job_at s.tp.cells) ws vs w w' v.xs xs' evs order,
          ap (λ l. pending p (job_at s.tp.cells) v.xs l evs) before,
          ap (λ j. pending p j xs' (ws ++ w' ∷ vs) evs) same,
        ) in
      record {
        xs = xs';
        inv = inv;
        once = λ p. omega (arith, fewer p, v.once p);
        waits = λ p some_. v.waits p (omega (arith, fewer p));
        valid = v.valid;
        requests = λ a ev live. v.requests a ev (sym (ap (λ j. j a) same) ∙ live);
        responses = v.responses;
        open_ = v.open_;
        codes = v.codes;
        logins = v.logins;
      }

-- What UserEventHandler answers, whose session is put in by svc.
abbrev Answer : Event → Type 0
Answer rsp =
    (rsp.eid ≡ eeventid_get_moblie_code_rsp)
      × ((icode : ℕ) × (rsp.msg
            ≡ mobile_response errc_success icode (get_reason_by_error_code errc_success)))
    ⊎ (rsp.eid ≡ eeventid_login_rsp)

module _ {S : Type 0} (mysql : Mysql S) (conf : EnvConfig) where
  abbrev Answers : Option (Option Event × (ℕ × Users S)) → Type 0
  Answers none = Unit
  Answers (some (none, w)) = ⊥
  Answers (some (some rsp, w)) = Answer rsp

  closed-Answers : (sn : ℕ) (u : Users S) (o : Option (ℕ × S)) → Answers (closed mysql conf sn u o)
  unfolding login_rsp_ev
  closed-Answers sn u none = tt
  closed-Answers sn u (some (rc, db)) = inr refl

  handle_login_req-kind :
      (mobile : List ℕ) (icode : ℕ) (w : ℕ × Users S)
      → Answers (handle_login_req mysql conf mobile icode w)
  unfolding handle_login_req login_rsp_ev
  handle_login_req-kind mobile icode (sn, u) =
      elim (Bool-cases (wrong_code icode (find_code mobile u.m2c))) [
        | inl wrong ↦ rw wrong (inr refl)
        | inr right ↦
            rw right (closed-Answers sn u (opened mysql conf mobile (init mysql conf u.db)))
      ]

  pub handle-code :
      (r : ℕ) (ev : Event) (mobile : List ℕ) (w : ℕ × Users S)
      → ev.eid ≡ eeventid_get_moblie_code_req
      → ev.msg ≡ mobile_request mobile
      → handle mysql conf r ev w ≡ handle_mobile_code_req mysql conf r mobile w
  unfolding handle
  handle-code r ev mobile w kind msg = ground (arith, kind, msg)

  handle-Answers :
      (r : ℕ) (ev : Event) (w : ℕ × Users S) → IsRequest ev → Answers (handle mysql conf r ev w)
  unfolding handle_mobile_code_req mobile_code_rsp_ev
  handle-Answers r ev w (mine, inl (kind, (mobile, msg))) =
      subst Answers (sym (handle-code r ev mobile w kind msg)) (inl (refl, (code_gen r, refl)))
  handle-Answers r ev w (mine, inr (kind, (mobile, icode, msg))) =
      subst Answers (sym (handle-login mysql conf r ev mobile icode w kind msg))
        (handle_login_req-kind mobile icode w)

  abbrev Served : Event → Service (Users S) → Service (Users S) → Type 0
  Served ev s s' =
      (rsp : Event) × (s'.response_events ≡ s.response_events ++ rsp ∷ [])
      × IsResponse rsp
      × (rsp.args ≡ ev.args)
      × (s'.subscribers ≡ s.subscribers)
      × (s'.svr_exit ≡ s.svr_exit)

  responded-Served :
      (r : ℕ) (ev : Event) (s s' : Service (Users S)) (o : Option (Option Event × (ℕ × Users S)))
      → ((p : ℕ) × (ev.args ≡ some p))
      → Answers o
      → responded (user_handle mysql conf r) s ev o ≡ some s'
      → Served ev s s'
  responded-Served r ev s s' none mine answer e = absurd cc
  responded-Served r ev s s' (some (none, w)) mine answer e = absurd answer
  responded-Served r ev s s' (some (some rsp, (sn, w))) mine answer e =
      subst (Served ev s) (some_eq e)
        (record rsp { args = ev.args }, refl, (mine, answer), refl, refl, refl)

  pub one_handler :
      (r h : ℕ) (ev : Event) (s : Service (Users S))
      → handlers_of ev.eid s.subscribers ≡ h ∷ []
      → ev.eid ≢ eeventid_unkown
      → process (user_handle mysql conf r) s.subscribers ev (s.sn, s.world)
        ≡ handle mysql conf r ev (s.sn, s.world)
  unfolding call_all
  one_handler r h ev s mine known =
      process-handlers_of (user_handle mysql conf r) s.subscribers ev (s.sn, s.world) known
      ∙ ap (λ hs. call_all (user_handle mysql conf r) hs ev (none, (s.sn, s.world))) mine
      ∙ and_nothing (handle mysql conf r ev (s.sn, s.world))
    where
      and_nothing :
          (o : Option (Option Event × (ℕ × Users S)))
          → and_rest (user_handle mysql conf r) (λ t. call_all (user_handle mysql conf r) [] ev t) o
            ≡ o
      and_nothing none = refl
      and_nothing (some t) = refl

  svc-Served :
      (r h : ℕ) (ev : Event) (s s' : Service (Users S))
      → s.svr_exit ≡ false
      → handlers_of ev.eid s.subscribers ≡ h ∷ []
      → IsRequest ev
      → svc (user_handle mysql conf r) ev s ≡ some s'
      → Served ev s s'
  unfolding svc
  svc-Served r h ev s s' open_ mine asks e =
      let todo =
        responded (user_handle mysql conf r) s ev
          (process (user_handle mysql conf r) s.subscribers ev (s.sn, s.world)) in
      responded-Served r ev s s' (handle mysql conf r ev (s.sn, s.world)) asks.0
        (handle-Answers r ev (s.sn, s.world) asks)
        (ap (responded (user_handle mysql conf r) s ev)
            (sym (one_handler r h ev s mine (IsRequest-known ev asks)))
          ∙ subst (λ b. (if b then some s else todo) ≡ some s') open_ e)

-- A worker whose handler has returned.
release-cells :
    {J : Type 0} (a : ℕ) (p q : Pool J) (c : Option (Task J)) {w' : Worker}
    → release a p c ≡ moved w' q
    → q.cells ≡ update p.cells a none
release-cells a p q none e = absurd cc
release-cells a p q (some t) e = ground arith

pub release_jobs :
    (a : ℕ) (p q : Pool Event) {w' : Worker}
    → release a p (p.cells a) ≡ moved w' q
    → (k : ℕ) → job_at q.cells k ≡ (if a == k then none else job_at p.cells k)
release_jobs a p q e k =
    let same : q.cells ≡ update p.cells a none = release-cells a p q (p.cells a) e in
    ap (λ c. job_at c k) same ∙ ground arith

-- The request that the worker was at goes over into its response.
pending-served :
    (q a : ℕ) (ev rsp : Event) (jobs jobs' : ℕ → Option Event) (ws vs : List Worker) (xs : List ℕ)
    (evs : List Event)
    → jobs a ≡ some ev
    → ((k : ℕ) → jobs' k ≡ (if a == k then none else jobs k))
    → rsp.args ≡ ev.args
    → occ a xs + held a (ws ++ running a ∷ vs) ≤ 1
    → pending q jobs' xs (ws ++ at_top ∷ vs) (evs ++ rsp ∷ [])
      ≡ pending q jobs xs (ws ++ running a ∷ vs) evs
pending-served q a ev rsp jobs jobs' ws vs xs evs job all mine once =
    let same : (k : ℕ) → (a == k) ≡ false → jobs' k ≡ jobs k = λ k other. all k ∙ rw other refl in
    let fresh : (occ a xs ≡ 0) × (held a ws ≡ 0) × (held a vs ≡ 0) =
      ground (arith, held-middle a ws (running a) vs) in
    omega (
      arith,
      queued-same q jobs jobs' a same xs fresh.0,
      in_hands-same q jobs jobs' a same ws fresh.1,
      in_hands-same q jobs jobs' a same vs fresh.2,
      in_hands-middle q jobs' ws at_top vs,
      in_hands-middle q jobs ws (running a) vs,
      ap (of_session q) job,
      answered-snoc q evs rsp,
      ap (names q) mine,
    )

AreResponses-snoc :
    (evs : List Event) (rsp : Event)
    → AreResponses evs
    → IsResponse rsp
    → AreResponses (evs ++ rsp ∷ [])
AreResponses-snoc [] rsp all new = (new, tt)
AreResponses-snoc (e ∷ evs) rsp (first, all) new = (first, AreResponses-snoc evs rsp all new)

unmoved : (xs xs' : List ℕ) → InOrder xs xs' at_top → xs' ≡ xs
unmoved xs xs' (inl (same, _)) = same
unmoved xs xs' (inr (b, _, inl e)) = absurd cc
unmoved xs xs' (inr (b, _, inr e)) = absurd cc

module _ {S : Type 0} (mysql : Mysql S) (conf : EnvConfig) (h : ℕ) (s : Running S) (v : Sane h s)
    (ws vs : List Worker) where
  pub served-Sane :
      (a r : ℕ) (ev : Event) (tp : Pool Event) (service : Service (Users S))
      → s.threads ≡ ws ++ running a ∷ vs
      → job_at s.tp.cells a ≡ some ev
      → svc (user_handle mysql conf r) ev s.service ≡ some service
      → cycle finish (running a) s.tp ≡ moved at_top tp
      → Sane h (served (ws ++ at_top ∷ vs) tp service s)
  unfolding served cycle
  served-Sane a r ev tp service before job run e =
      let inv0 : Inv (ws ++ running a ∷ vs) s.tp v.xs = subst (λ l. Inv l s.tp v.xs) before v.inv in
      let (xs', inv, order) =
        subst (Cycled ws vs v.xs) e (cycle-Cycled ws vs v.xs finish (running a) s.tp inv0) in
      let asks = v.requests a ev job in
      let (rsp, queued_, response, mine, subs, exits) =
        svc-Served mysql conf r h ev s.service service v.open_ (asked-handlers h s v ev asks) asks
          run in
      let jobs = release_jobs a s.tp tp e in
      let same_xs = unmoved v.xs xs' order in
      let count : (q : ℕ)
          → pending q (job_at tp.cells) v.xs (ws ++ at_top ∷ vs) service.response_events
            ≡ pending q (job_at s.tp.cells) v.xs s.threads s.service.response_events =
        λ q.
          ap (pending q (job_at tp.cells) v.xs (ws ++ at_top ∷ vs)) queued_
          ∙ pending-served q a ev rsp (job_at s.tp.cells) (job_at tp.cells) ws vs v.xs
              s.service.response_events job jobs mine (inv0.owned a)
          ∙ ap (λ l. pending q (job_at s.tp.cells) v.xs l s.service.response_events) (sym before) in
      record {
        xs = v.xs;
        inv = subst (Inv (ws ++ at_top ∷ vs) tp) same_xs inv;
        once = λ q. omega (arith, count q, v.once q);
        waits = λ q some_. v.waits q (omega (arith, count q));
        valid = v.valid;
        requests = λ k e' live. elim (Bool-cases (a == k)) [
          | inl freed ↦
              let gone : job_at tp.cells k ≡ none = jobs k ∙ rw freed refl in
              absurd (let f = sym gone ∙ live in cc)
          | inr other ↦
              let same : job_at tp.cells k ≡ job_at s.tp.cells k = jobs k ∙ rw other refl in
              v.requests k e' (sym same ∙ live)
        ];
        responses =
            subst AreResponses (sym queued_)
              (AreResponses-snoc s.service.response_events rsp v.responses response);
        open_ = exits ∙ v.open_;
        codes = ap (handlers_of eeventid_get_moblie_code_req) subs ∙ v.codes;
        logins = ap (handlers_of eeventid_login_req) subs ∙ v.logins;
      }
