-- ===== src/Dispatch/Answer/Frame.antt =====
-- The bytes of a response.
use shared_bike_server.Base.{
  ℕ, zero, suc, ◌+◌, ◌≡◌, refl, ap, List, [], ◌∷◌, ◌++◌, arith, length, replicate, blit, bytes32,
}
use shared_bike_server.Dispatch.Answer.{response_frame}

blit-replicate : (n a : ℕ) (body : List ℕ) → length body ≡ n → blit (replicate n a) 0 body ≡ body
blit-replicate zero a [] e = refl
blit-replicate zero a (x ∷ body) e = absurd (omega arith)
blit-replicate (suc n) a [] e = absurd (omega arith)
blit-replicate (suc n) a (x ∷ body) e = ap (◌∷◌ x) (blit-replicate n a body (omega arith))

-- A response whose body has the announced length len is B I K E, a zero, the event id 2 in one
-- byte, the length in four, and the body.
pub response_frame_bytes :
    (len : ℕ) (body : List ℕ)
    → length body ≡ len
    → response_frame len body ≡ b'B' ∷ b'I' ∷ b'K' ∷ b'E' ∷ 0 ∷ 2 ∷ bytes32 len ++ body
unfolding response_frame
response_frame_bytes len body e =
    let ten : len + 10 ≡ suc (suc (suc (suc (suc (suc (suc (suc (suc (suc len))))))))) =
      omega arith in
    rw ten
      (ap (λ t. b'B' ∷ b'I' ∷ b'K' ∷ b'E' ∷ 0 ∷ 2 ∷ bytes32 len ++ t) (blit-replicate len 0 body e))
