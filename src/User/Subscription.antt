-- ===== src/User/Subscription.antt =====
-- The constructor and the destructor of UserEventHandler, which subscribe it to its two events and
-- take it off again. Its mutex is not part of the state.
use shared_bike_server.Base.{ℕ, ◌≡◌, false, [], ◌∷◌, ◌++◌, arith, ◌==◌, if◌then◌else◌}
use shared_bike_server.Events.Codes.{eeventid_get_moblie_code_req, eeventid_login_req}
use shared_bike_server.Dispatch.Subscribers.{
  Subscribers, has_handler, subscribe, unsubscribe, handlers_of, handlers_of-subscribe,
  handlers_of-unsubscribe, erase_handler-append,
}

unfoldable pub user_event_handler : ℕ → Subscribers → Subscribers
user_event_handler h m = subscribe eeventid_login_req h (subscribe eeventid_get_moblie_code_req h m)

unfoldable pub delete_user_event_handler : ℕ → Subscribers → Subscribers
delete_user_event_handler h m =
    unsubscribe eeventid_login_req h (unsubscribe eeventid_get_moblie_code_req h m)

-- A new handler is called last for the two events, and for no other.
pub handlers_of-user_event_handler :
    (h k : ℕ) (m : Subscribers)
    → has_handler h (handlers_of k m) ≡ false
    → handlers_of k (user_event_handler h m) ≡ (
        if k == 1
        then handlers_of k m ++ h ∷ []
        else if k == 3
        then handlers_of k m ++ h ∷ []
        else handlers_of k m)
unfolding user_event_handler
handlers_of-user_event_handler h k m new = ground (
  arith,
  new,
  handlers_of-subscribe 3 h k (subscribe 1 h m),
  handlers_of-subscribe 1 h k m,
  handlers_of-subscribe 1 h 3 m,
)

-- A handler that comes and goes leaves those of every event as they were.
pub delete_user_event_handler_lem :
    (h : ℕ) (m : Subscribers)
    → has_handler h (handlers_of 1 m) ≡ false
    → has_handler h (handlers_of 3 m) ≡ false
    → (k : ℕ)
    → handlers_of k (delete_user_event_handler h (user_event_handler h m)) ≡ handlers_of k m
unfolding user_event_handler delete_user_event_handler
delete_user_event_handler_lem h m new1 new3 k =
    let one = subscribe 1 h m in
    let both = subscribe 3 h one in
    ground (
      arith,
      new1,
      new3,
      handlers_of-unsubscribe 3 h k (unsubscribe 1 h both),
      handlers_of-unsubscribe 1 h k both,
      handlers_of-unsubscribe 1 h 3 both,
      handlers_of-subscribe 3 h k one,
      handlers_of-subscribe 3 h 3 one,
      handlers_of-subscribe 3 h 1 one,
      handlers_of-subscribe 1 h k m,
      handlers_of-subscribe 1 h 3 m,
      handlers_of-subscribe 1 h 1 m,
      erase_handler-append h (handlers_of 1 m) new1,
      erase_handler-append h (handlers_of 3 m) new3,
    )
