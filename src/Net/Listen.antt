-- ===== src/Net/Listen.antt =====
-- NetworkInterface: the constructor, start, close and the destructor, over the base and the listener
-- of libevent.
use shared_bike_server.Base.{ℕ, ◌≡◌, refl, List, [], ◌∷◌, ◌++◌, Option, none, some}

-- base_ and listener_; `none` is null.
pub record Interface : Type 0 where
  pub base : Option ℕ
  pub listener : Option ℕ

-- What libevent is called for at the end: event_base_free and evconnlistener_free.
pub data Freed : Type 0 where
  event_base : ℕ → Freed
  evconnlistener : ℕ → Freed

abbrev pub network_interface : Interface
network_interface = record { base = none; listener = none }

-- start, for what event_base_new and, on that base, evconnlistener_new_bind return; neither is
-- looked at, and nothing is returned.
unfoldable pub start : Option ℕ → (Option ℕ → Option ℕ) → Interface → Interface
start new bind s = record { base = new; listener = bind new }

abbrev free_base : Option ℕ → List Freed
free_base none = []
free_base (some p) = event_base p ∷ []

abbrev free_listener : Option ℕ → List Freed
free_listener none = []
free_listener (some p) = evconnlistener p ∷ []

-- close, and the destructor, which calls it: what is freed, in this order.
unfoldable pub close : Interface → List Freed × Interface
close s = (free_base s.base ++ free_listener s.listener, record { base = none; listener = none })

-- What was started is freed once, the base before the listener: a second close, also that of the
-- destructor, frees nothing.
pub close_twice :
    (s : Interface) (b l : ℕ)
    → ((close (start (some b) (λ base. some l) s)).0 ≡ event_base b ∷ evconnlistener l ∷ [])
      × ((close (close s).1).0 ≡ [])
unfolding close start
close_twice s b l = (refl, refl)
