-- ===== src/Protobuf/Instance.antt =====
-- The interface of the messages, filled by the generated code: what `ByteSize`, `SerializeToArray`
-- and `ParseFromArray` of the classes in events_def.h and of parseEvent come down to.
use shared_bike_server.Base.{
  ℕ, ◌<◌, ◌^◌, ◌≡◌, refl, sym, ap, ◌∙◌, Bool, List, [], ◌∷◌, Option, none, some, if◌then◌else◌,
  length,
}
use shared_bike_server.Events.{
  Message, mobile_request, mobile_response, login_request, login_response, no_message,
}
use shared_bike_server.Events.Codec.{Codec}
use shared_bike_server.Protobuf.{Wire, Parsed, Merged, merged, failure, no_fuel, merge_partial}
use shared_bike_server.Protobuf.MobileRequest as Mr
use shared_bike_server.Protobuf.MobileResponse as Ms
use shared_bike_server.Protobuf.LoginRequest as Lr
use shared_bike_server.Protobuf.LoginResponse as Ls

-- What ParseFromArray returns for the result of the loop: a message that is not initialized is
-- refused, and one that ended before the input did.
abbrev pub accepted : {F : Type 0} → (F → Bool) → Merged F → Option (Parsed F)
accepted is_initialized (merged m []) = if is_initialized m.fields then some m else none
accepted is_initialized (merged m (t ∷ s)) = none
accepted is_initialized failure = none
accepted is_initialized no_fuel = none

-- ParseFromArray of libprotobuf: the message is cleared, the loop of its class reads the bytes, and
-- the message has to be initialized.
pub record Library : Type 1 where
  pub wire : Wire
  pub parse_from_array :
      (F : Type 0) → (List ℕ → Merged F) → (F → Bool) → List ℕ → Option (Parsed F)
  pub parse_from_array_lem :
      (F : Type 0) (merge : List ℕ → Merged F) (is_initialized : F → Bool) (s : List ℕ)
      → parse_from_array F merge is_initialized s ≡ accepted is_initialized (merge s)

-- The messages of the constructors in events_def.cpp.
abbrev pub of_mobile_request : List ℕ → Parsed Mr.MobileRequest
of_mobile_request mobile = Mr.set_mobile mobile Mr.clear

abbrev pub of_mobile_response : ℕ → ℕ → List ℕ → Parsed Ms.MobileResponse
of_mobile_response code icode reason =
    Ms.set_reason reason (Ms.set_icode icode (Ms.set_code code Ms.clear))

abbrev pub of_login_request : List ℕ → ℕ → Parsed Lr.LoginRequest
of_login_request mobile icode = Lr.set_icode icode (Lr.set_mobile mobile Lr.clear)

abbrev pub of_login_response : ℕ → List ℕ → Parsed Ls.LoginResponse
of_login_response code desc = Ls.set_desc desc (Ls.set_code code Ls.clear)

module _ (library : Library) where
  open library use {wire}

  abbrev byte_size : Message → ℕ
  byte_size (mobile_request mobile) = Mr.byte_size_long wire (of_mobile_request mobile)
  byte_size (mobile_response code icode reason) =
      Ms.byte_size_long wire (of_mobile_response code icode reason)
  byte_size (login_request mobile icode) = Lr.byte_size_long wire (of_login_request mobile icode)
  byte_size (login_response code desc) = Ls.byte_size_long wire (of_login_response code desc)
  byte_size no_message = 0

  abbrev bytes_of : Message → List ℕ
  bytes_of (mobile_request mobile) = Mr.serialize wire (of_mobile_request mobile)
  bytes_of (mobile_response code icode reason) =
      Ms.serialize wire (of_mobile_response code icode reason)
  bytes_of (login_request mobile icode) = Lr.serialize wire (of_login_request mobile icode)
  bytes_of (login_response code desc) = Ls.serialize wire (of_login_response code desc)
  bytes_of no_message = []

  pub length-bytes_of : (m : Message) → length (bytes_of m) ≡ byte_size m
  length-bytes_of (mobile_request mobile) =
      sym (Mr.mobile_request_byte_size_long wire (of_mobile_request mobile))
  length-bytes_of (mobile_response code icode reason) =
      sym (Ms.mobile_response_byte_size_long wire (of_mobile_response code icode reason))
  length-bytes_of (login_request mobile icode) =
      sym (Lr.login_request_byte_size_long wire (of_login_request mobile icode))
  length-bytes_of (login_response code desc) =
      sym (Ls.login_response_byte_size_long wire (of_login_response code desc))
  length-bytes_of no_message = refl

  abbrev parsed_mobile_request : Option (Parsed Mr.MobileRequest) → Option (List ℕ)
  parsed_mobile_request none = none
  parsed_mobile_request (some m) = some (Mr.get_mobile m)

  abbrev parsed_mobile_response : Option (Parsed Ms.MobileResponse) → Option (ℕ × ℕ × List ℕ)
  parsed_mobile_response none = none
  parsed_mobile_response (some m) = some (Ms.get_code m, Ms.get_icode m, Ms.get_reason m)

  abbrev parsed_login_request : Option (Parsed Lr.LoginRequest) → Option (List ℕ × ℕ)
  parsed_login_request none = none
  parsed_login_request (some m) = some (Lr.get_mobile m, Lr.get_icode m)

  abbrev parsed_login_response : Option (Parsed Ls.LoginResponse) → Option (ℕ × List ℕ)
  parsed_login_response none = none
  parsed_login_response (some m) = some (Ls.get_code m, Ls.get_desc m)

  abbrev pub protobuf : Codec
  protobuf = record {
    byte_size = byte_size;
    serialize = bytes_of;
    parse_mobile_request = λ s. parsed_mobile_request (
        library.parse_from_array Mr.MobileRequest (merge_partial wire (Mr.step wire) Mr.clear)
          Mr.is_initialized s);
    parse_mobile_response = λ s. parsed_mobile_response (
        library.parse_from_array Ms.MobileResponse (merge_partial wire (Ms.step wire) Ms.clear)
          Ms.is_initialized s);
    parse_login_request = λ s. parsed_login_request (
        library.parse_from_array Lr.LoginRequest (merge_partial wire (Lr.step wire) Lr.clear)
          Lr.is_initialized s);
    parse_login_response = λ s. parsed_login_response (
        library.parse_from_array Ls.LoginResponse (merge_partial wire (Ls.step wire) Ls.clear)
          Ls.is_initialized s);
    length-serialize = length-bytes_of;
  }

  -- The two requests are read back from their bytes: a mobile number shorter than 2 GB, and a code of
  -- 32 bits.
  pub parse-serialize :
      (mobile : List ℕ) (icode : ℕ)
      → length mobile < 2 ^ 31
      → icode < 2 ^ 32
      → (protobuf.parse_mobile_request (protobuf.serialize (mobile_request mobile)) ≡ some mobile)
        × (protobuf.parse_login_request (protobuf.serialize (login_request mobile icode))
            ≡ some (mobile, icode))
  unfolding Mr.is_initialized Lr.is_initialized Mr.merge_from Lr.merge_from
  parse-serialize mobile icode short small = (
    ap parsed_mobile_request (
        library.parse_from_array_lem Mr.MobileRequest (merge_partial wire (Mr.step wire) Mr.clear)
          Mr.is_initialized (Mr.serialize wire (of_mobile_request mobile))
        ∙ ap (accepted Mr.is_initialized) (
            Mr.merge_partial-merge_from_mobile_request wire (record { mobile = some mobile })
              Mr.clear short)),
    ap parsed_login_request (
        library.parse_from_array_lem Lr.LoginRequest (merge_partial wire (Lr.step wire) Lr.clear)
          Lr.is_initialized (Lr.serialize wire (of_login_request mobile icode))
        ∙ ap (accepted Lr.is_initialized) (
            Lr.merge_partial-merge_from_login_request wire
              (record { mobile = some mobile; icode = some icode }) Lr.clear short small)),
  )
