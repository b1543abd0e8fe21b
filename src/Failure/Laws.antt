-- ===== src/Failure/Laws.antt =====
-- How `IsInfraError` sorts errors: through any wrapping.
use central_auth.Common.{true, false, ◌≡◌, refl, ◌||◌, arith}
use central_auth.Failure.{
  Failure, wrap, redis_nil, canceled, deadline_exceeded, econnrefused, econnreset, epipe, eof,
  unexpected_eof, is, as_net, is_infra,
}

-- Wrapping an error with `fmt.Errorf("...: %w", err)` never changes whether it counts as a failure
-- of the infrastructure.
is_infra-wrap : (e : Failure) → is_infra (wrap e) ≡ is_infra e
unfolding is_infra is as_net
is_infra-wrap e = refl

-- A missing key and a cancelled caller never count, whatever else the error's tree holds.
is_infra-excluded : (e : Failure) → (is redis_nil e || is canceled e) ≡ true → is_infra e ≡ false
unfolding is_infra
is_infra-excluded e h = ground arith

-- A refused or reset connection, a broken pipe, an end of file or a deadline always counts, unless
-- the tree also holds a missing key or a cancellation.
is_infra-included :
    (e : Failure)
    → (is redis_nil e || is canceled e) ≡ false
    → (is econnrefused e
        || is econnreset e
        || is epipe e
        || is eof e
        || is unexpected_eof e
        || is deadline_exceeded e)
      ≡ true
    → is_infra e ≡ true
unfolding is_infra
is_infra-included e h k = ground arith
