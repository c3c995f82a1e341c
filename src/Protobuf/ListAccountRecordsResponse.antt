-- ===== src/Protobuf/ListAccountRecordsResponse.antt =====
-- bike.pb.cpp: tianyun::list_account_records_response.
use mathlib.Core.List.{append-nil}
use shared_bike_server.Base.{
  ℕ, ◌+◌, ◌/◌, ◌%◌, ◌^◌, ◌<◌, ◌≡◌, refl, Bool, ◌&&◌, List, [], ◌++◌, ◌∷◌, Option, none, some, arith,
  ◌==◌, if◌then◌else◌, length, ◌≢◌, length-append,
}
use shared_bike_server.Protobuf.{
  Wire, Parsed, Field, unusual, Merged, merged, no_fuel, set_field, merge_partial,
}
use shared_bike_server.Protobuf.Fields.{other, is_set, write_field, field_size, length-write_field}
use shared_bike_server.Protobuf.Total.{Shortens, merge_partial-Ends, case-shorter, field-shorter}
use shared_bike_server.Protobuf.Loop.{Short, Small, loop-end, loop-field}
use shared_bike_server.Protobuf.Messages.{
  Each, write_messages, messages_size, length-write_messages, loop-messages, message-shorter,
  Each-IsReadable,
}
use shared_bike_server.Protobuf.AccountRecord as Record
use shared_bike_server.Protobuf.AccountRecord.{AccountRecord}

pub record ListAccountRecordsResponse : Type 0 where
  pub code : Option ℕ
  pub desc : Option (List ℕ)
  pub records : List (Parsed AccountRecord)

-- A new message, and one after Clear: no field is set.
abbrev pub clear : Parsed ListAccountRecordsResponse
clear = record { fields = record { code = none; desc = none; records = [] }; unknown = [] }

-- MergeFrom: the fields that are set there replace those that are here, and the
-- messages there follow those that are here.
unfoldable pub merge_from :
    Parsed ListAccountRecordsResponse
    → Parsed ListAccountRecordsResponse
    → Parsed ListAccountRecordsResponse
merge_from from m = record {
  fields = record {
    code = other from.fields.code m.fields.code;
    desc = other from.fields.desc m.fields.desc;
    records = m.fields.records ++ from.fields.records;
  };
  unknown = m.unknown ++ from.unknown;
}

module _ (wire : Wire) where
  -- AllAreInitialized of the messages is a function of libprotobuf.
  unfoldable pub is_initialized : ListAccountRecordsResponse → Bool
  is_initialized x =
      is_set x.code && wire.all_are_initialized AccountRecord Record.is_initialized x.records

  -- The loop of a message in the repeated field, which starts from a new one.
  abbrev merge_record : List ℕ → Merged AccountRecord
  merge_record s = merge_partial wire (Record.step wire) Record.clear s

  -- The switch of MergePartialFromCodedStream.
  unfoldable pub step : ℕ → ListAccountRecordsResponse → List ℕ → Field ListAccountRecordsResponse
  step tag x rest =
      if tag / 8 == 1
      then (if tag % 256 == 8
          then set_field (λ v. record x { code = some v }) (wire.int32.parse rest)
          else unusual)
      else if tag / 8 == 2
      then (if tag % 256 == 18
          then set_field (λ s. record x { desc = some s }) (wire.string.parse rest)
          else unusual)
      else if tag / 8 == 3
      then (if tag % 256 == 26
          then set_field (λ r. record x { records = x.records ++ r ∷ [] })
              (wire.read_message AccountRecord merge_record rest)
          else unusual)
      else unusual

  -- SerializeWithCachedSizes, and the same into an array.
  unfoldable pub serialize : Parsed ListAccountRecordsResponse → List ℕ
  serialize m =
      write_field wire.int32 1 m.fields.code
      ++ (write_field wire.string 2 m.fields.desc
          ++ (write_messages wire (Record.byte_size_long wire) (Record.serialize wire) 3
                m.fields.records
              ++ m.unknown))

  unfoldable pub byte_size_long : Parsed ListAccountRecordsResponse → ℕ
  byte_size_long m =
      length m.unknown
      + field_size wire.int32 m.fields.code
      + messages_size wire (Record.byte_size_long wire) (Record.serialize wire) m.fields.records
      + field_size wire.string m.fields.desc

  -- The size that is announced for a list of account records is that of its bytes, whichever fields are
  -- set, and on each way of computing it.
  pub account_list_byte_size_long :
      (m : Parsed ListAccountRecordsResponse) → byte_size_long m ≡ length (serialize m)
  unfolding byte_size_long serialize
  account_list_byte_size_long m =
      rw (length-append, length-append, length-append)
        (omega (
          arith,
          length-write_field wire.int32 1 m.fields.code (omega arith),
          length-write_field wire.string 2 m.fields.desc (omega arith),
          length-write_messages wire (Record.byte_size_long wire) (Record.serialize wire) 3
              m.fields.records (omega arith) (Record.account_record_byte_size_long wire),
        ))

  -- The bytes of a list of account records, whichever of its fields are set, are read into a
  -- message as MergeFrom merges the two: its fields replace those that are there, and the others
  -- stay; its records follow those that are there. The condition is that its texts are shorter
  -- than 2 GB, its numbers have 32 bits and its records, shorter than 2 GB, have no unknown fields
  -- and numbers of 32 or 64 bits.
  pub merge_partial-merge_from_account_list :
      (x : ListAccountRecordsResponse) (m : Parsed ListAccountRecordsResponse)
      → Small x.code
      → Short x.desc
      → Each (λ r. Record.IsPlain r × (Record.byte_size_long wire r < 2 ^ 31)) x.records
      → merge_partial wire step m (serialize (record { fields = x; unknown = [] }))
        ≡ merged (merge_from (record { fields = x; unknown = [] }) m) []
  unfolding merge_partial serialize step merge_from
  merge_partial-merge_from_account_list x m h1 h2 h3 =
      loop-field wire step wire.int32 1 x.code _ _
        (λ o. record m.fields { code = other o m.fields.code }) (omega arith) (omega arith) h1
        (λ rest. refl) (omega arith)
        (λ n1 s1.
          (loop-field wire step wire.string 2 x.desc _ _
            (λ o. record m.fields {
              code = other x.code m.fields.code;
              desc = other o m.fields.desc;
            })
            (omega arith) (omega arith) h2 (λ rest. refl) s1
            (λ n2 s2.
              (loop-messages wire (Record.byte_size_long wire) (Record.serialize wire) merge_record
                step 3 x.records m.fields.records _ _
                (λ o. record m.fields {
                  code = other x.code m.fields.code;
                  desc = other x.desc m.fields.desc;
                  records = o;
                })
                (omega arith) (omega arith) (Record.account_record_byte_size_long wire)
                (Each-IsReadable wire (Record.byte_size_long wire) (Record.serialize wire)
                  merge_record _ _ (λ r p. (Record.IsPlain-reads wire r p.0, p.1)) h3)
                (λ before rest. refl) s2
                (λ n3 s3.
                  (rw (append-nil m.unknown) (
                    loop-end wire step n3
                      (record {
                        fields = record {
                          code = other x.code m.fields.code;
                          desc = other x.desc m.fields.desc;
                          records = m.fields.records ++ x.records;
                        };
                        unknown = m.unknown;
                      })
                      s3)))))))

  step-Shortens : Shortens wire step
  unfolding step
  step-Shortens tag x s x' rest e =
      case-shorter wire tag 1 8 s x' rest _ _ (omega arith)
        (field-shorter wire wire.int32 (λ v. record x { code = some v }) s x' rest)
        (λ e1.
          case-shorter wire tag 2 18 s x' rest _ _ (omega arith)
            (field-shorter wire wire.string (λ s. record x { desc = some s }) s x' rest)
            (λ e2.
              case-shorter wire tag 3 26 s x' rest _ _ (omega arith)
                (message-shorter wire merge_record (λ r. record x { records = x.records ++ r ∷ [] })
                  s x' rest)
                (λ e3. absurd cc) e2)
            e1)
        e

  -- The loop that reads a list of account records ends on every input, in at most as many turns as there
  -- are bytes and one more.
  pub merge_partial_account_list_total :
      (m : Parsed ListAccountRecordsResponse) (s : List ℕ) → merge_partial wire step m s ≢ no_fuel
  merge_partial_account_list_total m s = merge_partial-Ends wire step m s step-Shortens
