-- ===== src/Dispatch/Subscribers.antt =====
-- subscribers_, a map from event ids to vectors of handlers, with subscribe and unsubscribe. A
-- handler is the address of its object.
use shared_bike_server.Base.{
  ℕ, ◌≡◌, refl, inl, inr, Bool, true, false, List, [], ◌∷◌, ◌++◌, Option, none, some, arith, ◌==◌,
  if◌then◌else◌, Option-cases,
}

abbrev pub Subscribers : Type 0
Subscribers = List (ℕ × List ℕ)

-- `subscribers_.find(eid)`
unfoldable pub find_eid : ℕ → Subscribers → Option (List ℕ)
find_eid eid [] = none
find_eid eid ((k, hs) ∷ m) = if eid == k then some hs else find_eid eid m

-- The vector at a key that is there is replaced, and a new key is added.
unfoldable pub set_eid : ℕ → List ℕ → Subscribers → Subscribers
set_eid eid hs [] = (eid, hs) ∷ []
set_eid eid hs ((k, old) ∷ m) = if eid == k then (k, hs) ∷ m else (k, old) ∷ set_eid eid hs m

-- `find(begin, end, handler) != end`
unfoldable pub has_handler : ℕ → List ℕ → Bool
has_handler h [] = false
has_handler h (g ∷ hs) = if g == h then true else has_handler h hs

-- `erase(find(begin, end, handler))`
unfoldable pub erase_handler : ℕ → List ℕ → List ℕ
erase_handler h [] = []
erase_handler h (g ∷ hs) = if g == h then hs else g ∷ erase_handler h hs

abbrev subscribe_found : ℕ → ℕ → Subscribers → Option (List ℕ) → Subscribers
subscribe_found eid h m none = set_eid eid (h ∷ []) m
subscribe_found eid h m (some hs) = if has_handler h hs then m else set_eid eid (hs ++ h ∷ []) m

unfoldable pub subscribe : ℕ → ℕ → Subscribers → Subscribers
subscribe eid h m = subscribe_found eid h m (find_eid eid m)

abbrev unsubscribe_found : ℕ → ℕ → Subscribers → Option (List ℕ) → Subscribers
unsubscribe_found eid h m none = m
unsubscribe_found eid h m (some hs) =
    if has_handler h hs then set_eid eid (erase_handler h hs) m else m

unfoldable pub unsubscribe : ℕ → ℕ → Subscribers → Subscribers
unsubscribe eid h m = unsubscribe_found eid h m (find_eid eid m)

pub find_eid-set_eid :
    (eid k : ℕ) (hs : List ℕ) (m : Subscribers)
    → find_eid k (set_eid eid hs m) ≡ (if k == eid then some hs else find_eid k m)
unfolding find_eid set_eid
find_eid-set_eid eid k hs [] = refl
find_eid-set_eid eid k hs ((j, old) ∷ m) = ground (arith, find_eid-set_eid eid k hs m)

-- The handlers of an event, in the order in which they are called.
abbrev pub or_nobody : Option (List ℕ) → List ℕ
or_nobody none = []
or_nobody (some hs) = hs

abbrev pub handlers_of : ℕ → Subscribers → List ℕ
handlers_of eid m = or_nobody (find_eid eid m)

-- A subscription puts the handler behind those of its event, unless it is one of them, and leaves
-- the handlers of every other event.
pub handlers_of-subscribe :
    (eid h k : ℕ) (m : Subscribers)
    → handlers_of k (subscribe eid h m) ≡ (
        if k == eid
        then (if has_handler h (handlers_of eid m)
            then handlers_of eid m
            else handlers_of eid m ++ h ∷ [])
        else handlers_of k m)
unfolding subscribe has_handler
handlers_of-subscribe eid h k m = elim (Option-cases (find_eid eid m)) [
  | inl nobody ↦ ground (arith, nobody, find_eid-set_eid eid k (h ∷ []) m)
  | inr (hs, found) ↦ ground (arith, found, find_eid-set_eid eid k (hs ++ h ∷ []) m)
]

erase_handler_none : (h : ℕ) (hs : List ℕ) → has_handler h hs ≡ false → erase_handler h hs ≡ hs
unfolding has_handler erase_handler
erase_handler_none h [] e = refl
erase_handler_none h (g ∷ hs) e = ground (arith, erase_handler_none h hs)

-- The end of a subscription takes the handler out of those of its event, and leaves the rest.
pub handlers_of-unsubscribe :
    (eid h k : ℕ) (m : Subscribers)
    → handlers_of k (unsubscribe eid h m)
      ≡ (if k == eid then erase_handler h (handlers_of eid m) else handlers_of k m)
unfolding unsubscribe erase_handler
handlers_of-unsubscribe eid h k m = elim (Option-cases (find_eid eid m)) [
  | inl nobody ↦ ground (arith, nobody)
  | inr (hs, found) ↦
      ground (arith, found, find_eid-set_eid eid k (erase_handler h hs) m, erase_handler_none h hs)
]

has_handler-append : (h : ℕ) (hs : List ℕ) → has_handler h (hs ++ h ∷ []) ≡ true
unfolding has_handler
has_handler-append h [] = ground arith
has_handler-append h (g ∷ hs) = ground (arith, has_handler-append h hs)

pub erase_handler-append :
    (h : ℕ) (hs : List ℕ) → has_handler h hs ≡ false → erase_handler h (hs ++ h ∷ []) ≡ hs
unfolding has_handler erase_handler
erase_handler-append h [] e = ground arith
erase_handler-append h (g ∷ hs) e = ground (arith, erase_handler-append h hs)

-- A second subscription of a handler to an event changes nothing.
pub subscribe_twice :
    (eid h : ℕ) (m : Subscribers)
    → (k : ℕ)
    → handlers_of k (subscribe eid h (subscribe eid h m)) ≡ handlers_of k (subscribe eid h m)
subscribe_twice eid h m k = ground (
  arith,
  handlers_of-subscribe eid h k (subscribe eid h m),
  handlers_of-subscribe eid h k m,
  handlers_of-subscribe eid h eid m,
  has_handler-append h (handlers_of eid m),
)

-- A handler that comes and goes leaves the handlers of every event as they were.
pub unsubscribe-subscribe :
    (eid h : ℕ) (m : Subscribers)
    → has_handler h (handlers_of eid m) ≡ false
    → (k : ℕ) → handlers_of k (unsubscribe eid h (subscribe eid h m)) ≡ handlers_of k m
unsubscribe-subscribe eid h m new k = ground (
  arith,
  handlers_of-unsubscribe eid h k (subscribe eid h m),
  handlers_of-subscribe eid h k m,
  handlers_of-subscribe eid h eid m,
  erase_handler-append h (handlers_of eid m),
)
