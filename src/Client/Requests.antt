-- ===== src/Client/Requests.antt =====
-- The requests of the client as the server takes them apart.
use shared_bike_server.Base.{
  ℕ, suc, ◌+◌, ◌*◌, ◌/◌, ◌%◌, ◌≤◌, ◌<◌, ◌≡◌, ap, ◌∙◌, false, List, [], ◌∷◌, ◌++◌, arith, length,
  blit, take, bytes16, bytes32, take-all, drop-all, ltb, take-blit, length-blit, codes,
}
use shared_bike_server.Net.Request.{wrong_length}
use shared_bike_server.Net.Request.Deframe.{frame, deframe}
use shared_bike_server.Client.{request_bytes}

-- A request of the client: B I K E, the event id, the length and the body.
request_bytes_lem :
    (msg : List ℕ) (eid len : ℕ) (body : List ℕ)
    → length msg ≡ 1024
    → length body ≡ len
    → len + 10 ≤ 1024
    → request_bytes msg eid len body
      ≡ b'B' ∷ b'I' ∷ b'K' ∷ b'E' ∷ bytes16 eid ++ bytes32 len ++ body
unfolding request_bytes
request_bytes_lem msg eid len body size e fits =
    let magic = blit msg 0 (codes "BIKE") in
    let event = blit magic 4 (bytes16 eid) in
    let head = blit event 6 (bytes32 len) in
    let head_size : length head ≡ 1024 =
      length-blit event 6 (bytes32 len)
      ∙ length-blit magic 4 (bytes16 eid)
      ∙ length-blit msg 0 (codes "BIKE")
      ∙ size in
    let start : take 4 magic ≡ codes "BIKE" = take-blit msg 0 (codes "BIKE") (omega arith) in
    let middle : take 6 event ≡ take 4 magic ++ bytes16 eid =
      take-blit magic 4 (bytes16 eid) (omega (arith, length-blit msg 0 (codes "BIKE"))) in
    let header : take 10 head ≡ take 6 event ++ bytes32 len =
      take-blit event 6 (bytes32 len)
        (omega (arith, length-blit magic 4 (bytes16 eid), length-blit msg 0 (codes "BIKE"))) in
    let total : len + 10 ≡ 10 + length body = omega arith in
    ap (λ k. take k (blit head 10 body)) total
    ∙ take-blit head 10 body (omega arith)
    ∙ rw (header, middle, start)

-- Whatever the client's buffer of 1024 bytes held before, a request of at least one byte that fits
-- into it, with an event id of 16 bits, is read by the server as one request with that event id and
-- that body, and nothing behind it.
pub deframe-request_bytes :
    (msg : List ℕ) (eid len : ℕ) (body : List ℕ)
    → length msg ≡ 1024
    → length body ≡ len
    → 1 ≤ len
    → len + 10 ≤ 1024
    → eid < 65536
    → deframe (request_bytes msg eid len body) ≡ frame eid body []
unfolding deframe
deframe-request_bytes msg eid len body size e some_ fits small =
    let event : eid % 256 + 256 * (eid / 256 % 256) ≡ eid = omega arith in
    let announced : len % 256
          + 256 * (len / 256 % 256)
          + 65536 * (len / 65536 % 256)
          + 16777216 * (len / 16777216 % 256)
        ≡ len =
      omega arith in
    let fine : wrong_length len ≡ false = ground arith in
    let long : ltb (suc (suc (suc (suc (suc (suc (suc (suc (suc (suc (length body))))))))))) 10
        ≡ false =
      ground arith in
    let enough : ltb (length body) len ≡ false = ground arith in
    rw (
      request_bytes_lem msg eid len body size e fits,
      long,
      announced,
      fine,
      enough,
      event,
      take-all len body (omega arith),
      drop-all len body (omega arith),
    )
