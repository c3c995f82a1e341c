-- ===== src/Dispatch/Process.antt =====
-- DispatchMsgService::process and svc, the work of a pool thread on one event.
use shared_bike_server.Base.{
  ℕ, ◌≡◌, ◌≢◌, refl, inl, inr, Bool, false, List, [], ◌∷◌, ◌++◌, Option, none, some, arith, ◌==◌,
  if◌then◌else◌, Option-cases, sym, ap, ◌∙◌, ◌⊎◌,
}
use shared_bike_server.Events.{Event, exit_rsp_ev}
use shared_bike_server.Events.Codes.{eeventid_unkown, eeventid_exit_rsp}
use shared_bike_server.Dispatch.Subscribers.{
  Subscribers, find_eid, has_handler, subscribe, handlers_of, handlers_of-subscribe,
}

-- The handlers share a state W; each virtual call of `handle` may also draw sequence numbers, and
-- has undefined behaviour where the inner result is `none`.
abbrev pub Handle : Type 0 → Type 0
Handle W = ℕ → Event → ℕ × W → Option (Option Event × (ℕ × W))

-- DispatchMsgService with the counter of the sequence numbers.
pub record Service (W : Type 0) : Type 0 where
  pub subscribers : Subscribers
  pub svr_exit : Bool
  pub response_events : List Event
  pub sn : ℕ
  pub world : W

module _ {W : Type 0} (handle : Handle W) where
  abbrev pub and_rest :
      (Option Event × (ℕ × W) → Option (Option Event × (ℕ × W)))
      → Option (Option Event × (ℕ × W))
      → Option (Option Event × (ℕ × W))
  and_rest rest none = none
  and_rest rest (some r) = rest r

  -- Lines 160 to 169: each handler in turn; the response is that of the last.
  unfoldable pub call_all :
      List ℕ → Event → Option Event × (ℕ × W) → Option (Option Event × (ℕ × W))
  call_all [] ev r = some r
  call_all (h ∷ hs) ev (rsp, w) = and_rest (λ r. call_all hs ev r) (handle h ev w)

  abbrev call_found : Option (List ℕ) → Event → ℕ × W → Option (Option Event × (ℕ × W))
  call_found none ev w = some (none, w)
  call_found (some hs) ev w = call_all hs ev (none, w)

  -- process, for an event that is not null.
  unfoldable pub process : Subscribers → Event → ℕ × W → Option (Option Event × (ℕ × W))
  process subscribers ev w =
      if ev.eid == eeventid_unkown
      then some (none, w)
      else call_found (find_eid ev.eid subscribers) ev w

  abbrev respond : Service W → Event → Option Event × (ℕ × W) → Service W
  respond s ev (some rsp, (sn, w)) = record s {
    response_events = s.response_events ++ record rsp { args = ev.args } ∷ [];
    sn = sn;
    world = w;
  }
  respond s ev (none, (sn, w)) =
      let (rsp, sn') = exit_rsp_ev sn in
      record s {
        response_events = s.response_events ++ record rsp { args = ev.args } ∷ [];
        sn = sn';
        world = w;
      }

  abbrev pub responded : Service W → Event → Option (Option Event × (ℕ × W)) → Option (Service W)
  responded s ev none = none
  responded s ev (some r) = some (respond s ev r)

  -- svc, the handler of every posted task; nothing is done once the service is closed.
  unfoldable pub svc : Event → Service W → Option (Service W)
  unfolding exit_rsp_ev
  svc ev s =
      if s.svr_exit then some s else responded s ev (process s.subscribers ev (s.sn, s.world))

  -- The map is only read for the handlers of the event.
  pub process-handlers_of :
      (m : Subscribers) (ev : Event) (w : ℕ × W)
      → ev.eid ≢ eeventid_unkown
      → process m ev w ≡ call_all (handlers_of ev.eid m) ev (none, w)
  unfolding process call_all
  process-handlers_of m ev w known = elim (Option-cases (find_eid ev.eid m)) [
    | inl nobody ↦ ground (arith, nobody)
    | inr (hs, found) ↦ ground (arith, found)
  ]

  pub call_all-append :
      (hs : List ℕ) (h : ℕ) (ev : Event) (r : Option Event × (ℕ × W))
      → call_all (hs ++ h ∷ []) ev r ≡ and_rest (λ r'. handle h ev r'.1) (call_all hs ev r)
  unfolding call_all
  call_all-append [] h ev (rsp, w) = ground arith
  call_all-append (g ∷ hs) h ev (rsp, w) = elim (Option-cases (handle g ev w)) [
    | inl bad ↦ rw bad
    | inr (r, good) ↦ rw good (call_all-append hs h ev r)
  ]

  -- A handler that subscribes to an event of a known id, to which it was not subscribed, is called
  -- after those that were there, on the state that they leave, and its response is the one that
  -- counts.
  pub process-subscribe :
      (m : Subscribers) (ev : Event) (h : ℕ) (w : ℕ × W)
      → ev.eid ≢ eeventid_unkown
      → has_handler h (handlers_of ev.eid m) ≡ false
      → process (subscribe ev.eid h m) ev w ≡ and_rest (λ r. handle h ev r.1) (process m ev w)
  process-subscribe m ev h w known new =
      let added : handlers_of ev.eid (subscribe ev.eid h m) ≡ handlers_of ev.eid m ++ h ∷ [] =
        ground (arith, handlers_of-subscribe ev.eid h ev.eid m) in
      process-handlers_of (subscribe ev.eid h m) ev w known
      ∙ ap (λ hs. call_all hs ev (none, w)) added
      ∙ call_all-append (handlers_of ev.eid m) h ev (none, w)
      ∙ ap (and_rest (λ r. handle h ev r.1)) (sym (process-handlers_of m ev w known))

  -- While the service is open, a thread that works on an event queues exactly one response, behind
  -- the others and with the event's session: the one that the handlers gave, or an exit response if
  -- they gave none; provided that no handler has undefined behaviour.
  pub svc-responds :
      (ev : Event) (s : Service W) (rsp : Option Event) (sn : ℕ) (w : W)
      → s.svr_exit ≡ false
      → process s.subscribers ev (s.sn, s.world) ≡ some (rsp, (sn, w))
      → (s' : Service W) × (r : Event) × (svc ev s ≡ some s')
        × (s'.response_events ≡ s.response_events ++ r ∷ [])
        × (r.args ≡ ev.args)
        × (s'.world ≡ w)
        × (s'.subscribers ≡ s.subscribers)
        × ((rsp ≡ none) × (r.eid ≡ eeventid_exit_rsp)
            ⊎ ((given : Event) × (rsp ≡ some given) × (r.eid ≡ given.eid) × (r.msg ≡ given.msg)))
  unfolding svc
  svc-responds ev s none sn w open_ e = (
    respond s ev (none, (sn, w)),
    record (exit_rsp_ev sn).0 { args = ev.args },
    rw (open_, e),
    refl,
    refl,
    refl,
    refl,
    inl (refl, refl),
  )
  svc-responds ev s (some given) sn w open_ e = (
    respond s ev (some given, (sn, w)),
    record given { args = ev.args },
    rw (open_, e),
    refl,
    refl,
    refl,
    refl,
    inr (given, refl, refl, refl),
  )
