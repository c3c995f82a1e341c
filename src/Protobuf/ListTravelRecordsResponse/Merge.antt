-- ===== src/Protobuf/ListTravelRecordsResponse/Merge.antt =====
-- Reading what was written of a list of travel records.
use mathlib.Core.List.{append-nil}
use shared_bike_server.Base.{◌^◌, ◌<◌, ◌≡◌, refl, [], ◌++◌, arith}
use shared_bike_server.Protobuf.{Wire, Parsed, merged, merge_partial}
use shared_bike_server.Protobuf.Fields.{other}
use shared_bike_server.Protobuf.Loop.{Short, Small, Small64, loop-end, loop-field}
use shared_bike_server.Protobuf.Messages.{Each, loop-messages, Each-IsReadable}
use shared_bike_server.Protobuf.TravelRecord as Record
use shared_bike_server.Protobuf.TravelRecord.{TravelRecord}
use shared_bike_server.Protobuf.ListTravelRecordsResponse.{
  ListTravelRecordsResponse, merge_from, merge_record, step, serialize,
}

module _ (wire : Wire) where
  -- The bytes of a list of travel records, whichever of its fields are set, are read into a
  -- message as MergeFrom merges the two: its fields replace those that are there, and the others
  -- stay; its records follow those that are there. The condition is that its texts are shorter
  -- than 2 GB, its numbers have 32 or 64 bits and its records, shorter than 2 GB, have no unknown
  -- fields and numbers of 32 or 64 bits.
  pub merge_partial-merge_from_travel_list :
      (x : ListTravelRecordsResponse) (m : Parsed ListTravelRecordsResponse)
      → Small x.code
      → Short x.desc
      → Small64 x.mileage
      → Small64 x.discharge
      → Small64 x.calorie
      → Each (λ r. Record.IsPlain r × (Record.byte_size_long wire r < 2 ^ 31)) x.records
      → merge_partial wire (step wire) m (serialize wire (record { fields = x; unknown = [] }))
        ≡ merged (merge_from (record { fields = x; unknown = [] }) m) []
  unfolding merge_partial serialize step merge_from
  merge_partial-merge_from_travel_list x m h1 h2 h3 h4 h5 h6 =
      loop-field wire (step wire) wire.int32 1 x.code _ _
        (λ o. record m.fields { code = other o m.fields.code }) (omega arith) (omega arith) h1
        (λ rest. refl) (omega arith)
        (λ n1 s1.
          (loop-field wire (step wire) wire.string 2 x.desc _ _
            (λ o. record m.fields {
              code = other x.code m.fields.code;
              desc = other o m.fields.desc;
            })
            (omega arith) (omega arith) h2 (λ rest. refl) s1
            (λ n2 s2.
              (loop-field wire (step wire) wire.double 3 x.mileage _ _
                (λ o. record m.fields {
                  code = other x.code m.fields.code;
                  desc = other x.desc m.fields.desc;
                  mileage = other o m.fields.mileage;
                })
                (omega arith) (omega arith) h3 (λ rest. refl) s2
                (λ n3 s3.
                  (loop-field wire (step wire) wire.double 4 x.discharge _ _
                    (λ o. record m.fields {
                      code = other x.code m.fields.code;
                      desc = other x.desc m.fields.desc;
                      mileage = other x.mileage m.fields.mileage;
                      discharge = other o m.fields.discharge;
                    })
                    (omega arith) (omega arith) h4 (λ rest. refl) s3
                    (λ n4 s4.
                      (loop-field wire (step wire) wire.double 5 x.calorie _ _
                        (λ o. record m.fields {
                          code = other x.code m.fields.code;
                          desc = other x.desc m.fields.desc;
                          mileage = other x.mileage m.fields.mileage;
                          discharge = other x.discharge m.fields.discharge;
                          calorie = other o m.fields.calorie;
                        })
                        (omega arith) (omega arith) h5 (λ rest. refl) s4
                        (λ n5 s5.
                          (loop-messages wire (Record.byte_size_long wire) (Record.serialize wire)
                            (merge_record wire) (step wire) 6 x.records m.fields.records _ _
                            (λ o. record m.fields {
                              code = other x.code m.fields.code;
                              desc = other x.desc m.fields.desc;
                              mileage = other x.mileage m.fields.mileage;
                              discharge = other x.discharge m.fields.discharge;
                              calorie = other x.calorie m.fields.calorie;
                              records = o;
                            })
                            (omega arith) (omega arith) (Record.travel_record_byte_size_long wire)
                            (Each-IsReadable wire (Record.byte_size_long wire)
                              (Record.serialize wire) (merge_record wire) _ _
                              (λ r p. (Record.IsPlain-reads wire r p.0, p.1)) h6)
                            (λ before rest. refl) s5
                            (λ n6 s6.
                              (rw (append-nil m.unknown) (
                                loop-end wire (step wire) n6
                                  (record {
                                    fields = record {
                                      code = other x.code m.fields.code;
                                      desc = other x.desc m.fields.desc;
                                      mileage = other x.mileage m.fields.mileage;
                                      discharge = other x.discharge m.fields.discharge;
                                      calorie = other x.calorie m.fields.calorie;
                                      records = m.fields.records ++ x.records;
                                    };
                                    unknown = m.unknown;
                                  })
                                  s6)))))))))))))
