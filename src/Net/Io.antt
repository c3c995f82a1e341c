-- ===== src/Net/Io.antt =====
-- What NetworkInterface.cpp calls of libevent's bufferevents and of the message dispatcher.
use shared_bike_server.Base.{ℕ, ◌≡◌, refl, List, ◌++◌, length, take, drop, Option}
use shared_bike_server.Events.{Event}

-- `bufferevent_read` takes from the front of the input as many bytes as are asked for, or all if
-- there are fewer; `bufferevent_write` adds to the end of the output.
pub record Bufferevent : Type 0 where
  pub read : ℕ → List ℕ → List ℕ × List ℕ
  pub get_length : List ℕ → ℕ
  pub write : List ℕ → List ℕ → List ℕ
  pub read_lem : (n : ℕ) (input : List ℕ) → read n input ≡ (take n input, drop n input)
  pub get_length_lem : (input : List ℕ) → get_length input ≡ length input
  pub write_lem : (output bytes : List ℕ) → write output bytes ≡ output ++ bytes

-- DispatchMsgService as the request callback sees it, with a state `D`.
pub record Dispatcher (D : Type 0) : Type 0 where
  pub parse_event : Option (List ℕ) → ℕ → ℕ → D → Option Event × D
  pub enqueue : Event → D → ℕ × D

abbrev pub libevent : Bufferevent
libevent = record {
  read = λ n input. (take n input, drop n input);
  get_length = length;
  write = ◌++◌;
  read_lem = λ n input. refl;
  get_length_lem = λ input. refl;
  write_lem = λ output bytes. refl;
}
