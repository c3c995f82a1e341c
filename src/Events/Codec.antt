-- ===== src/Events/Codec.antt =====
-- What the server uses of the generated messages (SourceFiles/bike.pb.cpp) and of libprotobuf:
-- `ByteSize`, `SerializeToArray` and `ParseFromArray` of the four messages in use.
use shared_bike_server.Base.{ℕ, ◌≡◌, List, length, Option}
use shared_bike_server.Events.{Message}

-- A message is serialised to as many bytes as its size says, and parsed back.
pub record Codec : Type 0 where
  pub byte_size : Message → ℕ
  pub serialize : Message → List ℕ
  pub parse_mobile_request : List ℕ → Option (List ℕ)
  pub parse_mobile_response : List ℕ → Option (ℕ × ℕ × List ℕ)
  pub parse_login_request : List ℕ → Option (List ℕ × ℕ)
  pub parse_login_response : List ℕ → Option (ℕ × List ℕ)
  pub length-serialize : (m : Message) → length (serialize m) ≡ byte_size m
