-- ===== src/Net/Request/Header.antt =====
-- handle_request, lines 162 to 203: the header is put together from the pieces that arrive.
use mathlib.Core.List.{append-nil}
use shared_bike_server.Base.{
  ℕ, ◌+◌, ◌-◌, ◌≤◌, ◌<◌, ◌≡◌, refl, sym, ap, ◌∙◌, true, List, [], ◌∷◌, ◌++◌, some, arith, ◌==◌,
  length, take, drop, length-blit, length-take, length-append, take-blit, take-blit_before,
  take-append_add, drop-append_add, take-all, drop-all, take-nil, if◌then◌else◌, add32, sub32,
}
use shared_bike_server.Net.Io.{Bufferevent}
use shared_bike_server.Net.Session.{Session, message_header_len}
use shared_bike_server.Net.Request.{
  is_reading_header, put_header, accept_header, with_input, read_header,
}
use shared_bike_server.Net.Request.Invariant.{InHeader, received}

-- What arrived stands in the header array behind what was there.
put_header_lem :
    (cs : Session) (got : List ℕ) (n : ℕ)
    → length cs.header ≡ 11
    → cs.read_header_len + length got ≡ n
    → n ≤ 10
    → ((put_header cs got).read_header_len ≡ n)
      × (take n (put_header cs got).header ≡ take cs.read_header_len cs.header ++ got)
      × (length (put_header cs got).header ≡ 11)
put_header_lem cs got n size sum fits =
    let len : add32 cs.read_header_len (length got) ≡ n = omega arith in
    (
      len,
      rw len (
          take-blit_before _ n n (0 ∷ []) (omega arith)
          ∙ rw (← sum) (take-blit cs.header cs.read_header_len got (omega arith))),
      rw (length-blit, length-blit) size,
    )

pub received-InHeader :
    (cs : Session) → InHeader cs → received cs ≡ take cs.read_header_len cs.header
received-InHeader cs v = rw (v.no_buf, take-nil) (append-nil _)

length-received : (cs : Session) → InHeader cs → length (received cs) ≡ cs.read_header_len
length-received cs v =
    rw (received-InHeader cs v) (omega (arith, length-take cs.read_header_len cs.header, v.size))

module _ (io : Bufferevent) (cs : Session) (input : List ℕ) where
  abbrev room : ℕ
  room = message_header_len - cs.read_header_len

  -- The header stage with the calls of libevent replaced by what they do.
  read_header_step :
      InHeader cs
      → is_reading_header cs.req_stat ≡ true
      → read_header io cs input ≡ (
          let cs' = put_header cs (take room input) in
          if cs'.read_header_len == message_header_len
          then with_input (accept_header cs') (drop room input)
          else some (cs', drop room input))
  unfolding read_header
  read_header_step v reading =
      let e : sub32 message_header_len cs.read_header_len ≡ room = omega arith in
      rw (reading, io.read_lem, e)

  -- Fewer bytes than a header: all are taken, and the stage stays.
  pub read_header_partial :
      InHeader cs
      → is_reading_header cs.req_stat ≡ true
      → length (received cs ++ input) < message_header_len
      → (cs' : Session) × (read_header io cs input ≡ some (cs', []))
        × InHeader cs'
        × (received cs' ≡ received cs ++ input)
        × (cs'.session_stat ≡ cs.session_stat)
        × (cs'.req_stat ≡ cs.req_stat)
  read_header_partial v reading short =
      let few : length input < room =
        omega (arith, length-append (received cs) input, length-received cs v) in
      let all : take room input ≡ input = take-all room input (omega arith) in
      let nothing : drop room input ≡ [] = drop-all room input (omega arith) in
      let (len, prefix, size) =
        put_header_lem cs input (cs.read_header_len + length input) v.size refl (omega arith) in
      let v' : InHeader (put_header cs input) = record {
        size = size;
        partial = rw len (omega arith);
        no_buf = v.no_buf;
      } in
      (
        put_header cs input,
        read_header_step v reading ∙ rw (all, nothing) (ground (arith, len)),
        v',
        received-InHeader _ v'
            ∙ ap (λ k. take k (put_header cs input).header) len
            ∙ prefix
            ∙ ap (λ xs. xs ++ input) (sym (received-InHeader cs v)),
        refl,
        refl,
      )

  -- Enough bytes: the ten of the header are checked, and the rest stays in the input.
  pub read_header_whole :
      InHeader cs
      → is_reading_header cs.req_stat ≡ true
      → message_header_len ≤ length (received cs ++ input)
      → let s = received cs ++ input in
        let cs' = put_header cs (take room input) in
        (read_header io cs input ≡ with_input (accept_header cs') (drop message_header_len s))
        × (take message_header_len cs'.header ≡ take message_header_len s)
        × (length cs'.header ≡ 11)
        × (cs'.read_header_len ≡ message_header_len)
  read_header_whole v reading enough =
      let many : room ≤ length input =
        omega (arith, length-append (received cs) input, length-received cs v) in
      let (len, prefix, size) =
        put_header_lem cs (take room input) message_header_len v.size
          (omega (arith, length-take room input, v.partial)) (omega arith) in
      let taken : take message_header_len (received cs ++ input) ≡ received cs ++ take room input =
        take-append_add message_header_len room (received cs) input
          (omega (arith, length-received cs v, v.partial)) in
      let dropped : drop message_header_len (received cs ++ input) ≡ drop room input =
        drop-append_add message_header_len room (received cs) input
          (omega (arith, length-received cs v, v.partial)) in
      (
        read_header_step v reading ∙ rw dropped (ground (arith, len)),
        prefix ∙ ap (λ xs. xs ++ take room input) (sym (received-InHeader cs v)) ∙ sym taken,
        size,
        len,
      )
