-- ===== src/Protobuf/Messages.antt =====
-- bike.pb.cpp: a repeated field that holds messages.
use mathlib.Core.List.{append-nil, append_assoc}
use shared_bike_server.Base.{
  ℕ, zero, suc, ◌+◌, ◌*◌, ◌^◌, ◌≤◌, ◌<◌, ◌≡◌, refl, ap, sym, ◌∙◌, List, [], ◌∷◌, ◌++◌, arith,
  length, length-append,
}
use shared_bike_server.Protobuf.{Wire, Parsed, Field, read, Merged, merged, set_field, loop}
use shared_bike_server.Protobuf.Loop.{loop-read}
use shared_bike_server.Protobuf.Total.{set_field-shorter}

abbrev pub Each : {A : Type 0} → (A → Type 0) → List A → Type 0
Each P [] = Unit
Each P (a ∷ l) = P a × Each P l

module _ (wire : Wire) {R : Type 0} (byte_size : Parsed R → ℕ) (serialize : Parsed R → List ℕ) where
  -- The messages of a repeated field, each with the size that ByteSizeLong has left in it.
  unfoldable pub write_messages : ℕ → List (Parsed R) → List ℕ
  write_messages number [] = []
  write_messages number (r ∷ rs) =
      wire.write_message number (byte_size r) (serialize r) ++ write_messages number rs

  unfoldable pub sizes : List (Parsed R) → ℕ
  sizes [] = 0
  sizes (r ∷ rs) = wire.message_size (byte_size r) + sizes rs

  -- One byte for each tag, and the sizes.
  abbrev pub messages_size : List (Parsed R) → ℕ
  messages_size rs = 1 * length rs + sizes rs

  pub length-write_messages :
      (number : ℕ) (rs : List (Parsed R))
      → number ≤ 15
      → ((r : Parsed R) → byte_size r ≡ length (serialize r))
      → length (write_messages number rs) ≡ messages_size rs
  unfolding write_messages sizes
  length-write_messages number [] last announced = refl
  length-write_messages number (r ∷ rs) last announced =
      let one = wire.length-write_message number (serialize r) last in
      let others = length-write_messages number rs last announced in
      rw (announced r) (
        omega (
          arith,
          length-append (wire.write_message number (length (serialize r)) (serialize r))
              (write_messages number rs),
          one,
          others,
        ))

  module _ (merge : List ℕ → Merged R) where
    -- The loop reads the message back from its bytes, which are fewer than 2 GB.
    abbrev pub IsReadable : Parsed R → Type 0
    IsReadable r = (merge (serialize r) ≡ merged r []) × (byte_size r < 2 ^ 31)

    pub Each-IsReadable :
        (P : Parsed R → Type 0) (rs : List (Parsed R))
        → ((r : Parsed R) → P r → IsReadable r)
        → Each P rs
        → Each IsReadable rs
    Each-IsReadable P [] readable each = tt
    Each-IsReadable P (r ∷ rs) readable (p, each) =
        (readable r p, Each-IsReadable P rs readable each)

    module _ {F : Type 0} (step : ℕ → F → List ℕ → Field F) where
      -- The messages are read behind those that are there, and then the rest of the loop.
      pub loop-messages :
          {fuel : ℕ} {result : Merged F} (number : ℕ) (rs before : List (Parsed R))
          (rest unknown : List ℕ) (set : List (Parsed R) → F)
          → 1 ≤ number
          → number ≤ 15
          → ((r : Parsed R) → byte_size r ≡ length (serialize r))
          → Each IsReadable rs
          → ((before' : List (Parsed R)) (value : List ℕ)
              → step (number * 8 + 2) (set before') value
                ≡ set_field (λ r. set (before' ++ r ∷ [])) (wire.read_message R merge value))
          → length (write_messages number rs ++ rest) < fuel
          → ((fuel' : ℕ)
              → length rest < fuel'
              → loop wire step fuel'
                  (record { fields = set (before ++ rs); unknown = unknown })
                  rest
                ≡ result)
          → loop wire step fuel
              (record { fields = set before; unknown = unknown })
              (write_messages number rs ++ rest)
            ≡ result
      unfolding write_messages
      loop-messages {fuel = fuel} number [] before rest unknown set first last announced each steps
            enough ends =
          ap (λ b. loop wire step fuel (record { fields = set b; unknown = unknown }) rest)
            (sym (append-nil before))
          ∙ ends fuel enough
      loop-messages {fuel = zero} number (r ∷ rs) before rest unknown set first last announced each
            steps enough ends =
          absurd (omega arith)
      loop-messages {fuel = suc fuel} number (r ∷ rs) before rest unknown set first last announced
            ((reads, small), each) steps enough ends =
          let body = serialize r in
          let more = write_messages number rs ++ rest in
          let front = wire.write_message number (length body) body in
          let same : write_messages number (r ∷ rs) ++ rest ≡ front ++ more =
            rw (announced r) (append_assoc front (write_messages number rs) rest) in
          let (value, tag, value-reads) =
            wire.message_lem R merge r number body more first last (omega (arith, announced r))
              reads in
          ap (loop wire step (suc fuel) (record { fields = set before; unknown = unknown })) same
          ∙ loop-read wire step fuel (number * 8 + 2) (front ++ more) value more unknown
              (set before) (set (before ++ r ∷ [])) tag
              (steps before value ∙ ap (set_field (λ s. set (before ++ s ∷ []))) value-reads)
          ∙ loop-messages number rs (before ++ r ∷ []) rest unknown set first last announced each
              steps
              (omega (
                arith,
                ap length same,
                length-append front more,
                wire.length-write_message number body last,
              ))
              (λ fuel' enough'.
                (ap (λ b. loop wire step fuel' (record { fields = set b; unknown = unknown }) rest)
                    (append_assoc before (r ∷ []) rs)
                  ∙ ends fuel' enough'))

module _ (wire : Wire) {F : Type 0} where
  pub message-shorter :
      {R : Type 0} (merge : List ℕ → Merged R) (add : Parsed R → F) (s : List ℕ) (x' : F)
      (rest : List ℕ)
      → set_field add (wire.read_message R merge s) ≡ read x' rest
      → length rest ≤ length s
  message-shorter {R = R} merge add s x' rest =
      set_field-shorter wire add s x' rest (wire.read_message R merge s)
        (λ r t. wire.read_message-shorter R merge s r t)
