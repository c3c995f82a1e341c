-- ===== src/Protobuf/AccountBalanceResponse.antt =====
-- bike.pb.cpp: tianyun::account_balance_response, whose generated code is that of recharge_response under
-- another name.
use shared_bike_server.Base.{ℕ, Bool, List}
use shared_bike_server.Protobuf.{Wire, Parsed, Field}
use shared_bike_server.Protobuf.RechargeResponse as Same

abbrev pub AccountBalanceResponse : Type 0
AccountBalanceResponse = Same.RechargeResponse

abbrev pub clear : Parsed AccountBalanceResponse
clear = Same.clear

abbrev pub is_initialized : AccountBalanceResponse → Bool
is_initialized = Same.is_initialized

abbrev pub merge_from :
    Parsed AccountBalanceResponse → Parsed AccountBalanceResponse → Parsed AccountBalanceResponse
merge_from = Same.merge_from

module _ (wire : Wire) where
  abbrev pub step : ℕ → AccountBalanceResponse → List ℕ → Field AccountBalanceResponse
  step = Same.step wire

  abbrev pub serialize : Parsed AccountBalanceResponse → List ℕ
  serialize = Same.serialize wire

  abbrev pub required_fields_byte_size_fallback : AccountBalanceResponse → ℕ
  required_fields_byte_size_fallback = Same.required_fields_byte_size_fallback wire

  abbrev pub byte_size_long : Parsed AccountBalanceResponse → ℕ
  byte_size_long = Same.byte_size_long wire
