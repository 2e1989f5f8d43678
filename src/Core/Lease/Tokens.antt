-- ===== src/Core/Lease/Tokens.antt =====
-- Which tokens a lease accepts, and until when.
use axonel.Prelude.{ℕ, ◌+◌, ◌≤◌, ◌<◌, ◌^◌, ◌≡◌, ◌↔◌, ◌⊎◌, ok, err, arith, ◌≢◌, ltb, if◌then◌else◌}
use axonel.Core.Ids.{AgentId, Instant, Duration}
use axonel.Core.Lease.{Lease, expired, generation_mismatch, renew, reassign, validate_token}

-- A token passes exactly when it is the lease's own and the lease has not run out; a wrong token
-- is reported as such even when the lease has run out too.
pub validate_token_iff :
    (lease : Lease) (token : ℕ) (now : Instant)
    → ((validate_token lease token now ≡ ok tt)
        ↔ ((lease.generation ≡ token) × (now < lease.expires_at)))
      × ((validate_token lease token now ≡ err (generation_mismatch lease.generation token))
          ↔ (lease.generation ≢ token))
unfolding validate_token
validate_token_iff lease token now =
    ((λ h. ground arith, λ h. ground arith), (λ h. ground arith, λ h. ground arith))

-- After a lease passes to another agent, whose it then is, its former token is refused whatever
-- the time, as long as the 64-bit counter does not wrap; the new token passes at once, where the
-- lease is granted for any time at all.
pub reassign_fences :
    (lease : Lease) (agent : AgentId) (ttl : Duration) (now later : Instant)
    → lease.generation + 1 < 2 ^ 64
    → let moved = reassign agent ttl now lease in
      (validate_token moved lease.generation later
        ≡ err (generation_mismatch (lease.generation + 1) lease.generation))
      × (moved.agent_id ≡ agent)
      × (validate_token moved (lease.generation + 1) now
          ≡ (if ltb 0 ttl then ok tt else err (expired moved.expires_at now)))
unfolding reassign validate_token
reassign_fences lease agent ttl now later h = ground arith

-- Renewing succeeds exactly before the lease runs out, and then keeps its token and its holder and
-- runs from the time of the call; an expired lease stays as it is.
pub renew_cases :
    (lease : Lease) (extension : Duration) (now : Instant)
    → let (l, r) = renew extension now lease in
      ((now < lease.expires_at)
        × (r ≡ ok tt)
        × (l.generation ≡ lease.generation)
        × (l.agent_id ≡ lease.agent_id)
        × (l.expires_at ≡ now + extension))
      ⊎ ((lease.expires_at ≤ now) × (r ≡ err (expired lease.expires_at now)) × (l ≡ lease))
unfolding renew
renew_cases lease extension now = ground arith
