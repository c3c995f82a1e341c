-- ===== src/Protobuf/AccountBalanceRequest.antt =====
-- bike.pb.cpp: tianyun::account_balance_request, whose generated code is that of mobile_request under another name.
use shared_bike_server.Base.{ℕ, Bool, List}
use shared_bike_server.Protobuf.{Wire, Parsed, Field}
use shared_bike_server.Protobuf.MobileRequest as Same

abbrev pub AccountBalanceRequest : Type 0
AccountBalanceRequest = Same.MobileRequest

abbrev pub clear : Parsed AccountBalanceRequest
clear = Same.clear

abbrev pub is_initialized : AccountBalanceRequest → Bool
is_initialized = Same.is_initialized

abbrev pub merge_from :
    Parsed AccountBalanceRequest → Parsed AccountBalanceRequest → Parsed AccountBalanceRequest
merge_from = Same.merge_from

module _ (wire : Wire) where
  abbrev pub step : ℕ → AccountBalanceRequest → List ℕ → Field AccountBalanceRequest
  step = Same.step wire

  abbrev pub serialize : Parsed AccountBalanceRequest → List ℕ
  serialize = Same.serialize wire

  abbrev pub byte_size_long : Parsed AccountBalanceRequest → ℕ
  byte_size_long = Same.byte_size_long wire
