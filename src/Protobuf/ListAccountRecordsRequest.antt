-- ===== src/Protobuf/ListAccountRecordsRequest.antt =====
-- bike.pb.cpp: tianyun::list_account_records_request, whose generated code is that of mobile_request under another name.
use shared_bike_server.Base.{ℕ, Bool, List}
use shared_bike_server.Protobuf.{Wire, Parsed, Field}
use shared_bike_server.Protobuf.MobileRequest as Same

abbrev pub ListAccountRecordsRequest : Type 0
ListAccountRecordsRequest = Same.MobileRequest

abbrev pub clear : Parsed ListAccountRecordsRequest
clear = Same.clear

abbrev pub is_initialized : ListAccountRecordsRequest → Bool
is_initialized = Same.is_initialized

abbrev pub merge_from :
    Parsed ListAccountRecordsRequest
    → Parsed ListAccountRecordsRequest
    → Parsed ListAccountRecordsRequest
merge_from = Same.merge_from

module _ (wire : Wire) where
  abbrev pub step : ℕ → ListAccountRecordsRequest → List ℕ → Field ListAccountRecordsRequest
  step = Same.step wire

  abbrev pub serialize : Parsed ListAccountRecordsRequest → List ℕ
  serialize = Same.serialize wire

  abbrev pub byte_size_long : Parsed ListAccountRecordsRequest → ℕ
  byte_size_long = Same.byte_size_long wire
