-- ===== src/Rest/Locking.antt =====
-- The lock of the bucket through the attempts of a request of restapi.go.
use discordgo.Base.{
  ℕ, zero, suc, ◌≡◌, refl, ◌∙◌, ap, String, Bool, true, false, Option, none, some, List, [], ◌∷◌,
  ◌++◌, ◌==◌, if◌then◌else◌, arith,
}
use discordgo.State.Types.{Time}
use discordgo.Ratelimit.Buckets.{Bucket, RateLimiter, get_bucket, lock_bucket_object}
use discordgo.Ratelimit.Releasing.{Ending, released, parse_failed}
use discordgo.Rest.Requests.{
  RequestConfig, RequestOption, configure, request, request_raw, request_with_bucket_id, Attempt,
  malformed, unreachable, replied, Outcome, Effect, sends, sleeps, waits, locks, locking, releases,
  reports_rate_limit, on_decision, judge, Decoding, Reply, release_at, conclude, respond, attempt,
  request_with_locked_bucket,
}

-- The bucket's mutex, by the request that holds it.
pub data Mutex : Type 0 where
  held free misused : Mutex

-- A request is sent and waits for its bucket only under the lock, and sleeps for a rate limit
-- that the server reports only without it.
abbrev pub after_effect : Effect → Mutex → Mutex
after_effect (sends n) held = held
after_effect releases held = free
after_effect (waits n) held = held
after_effect locks free = held
after_effect reports_rate_limit free = free
after_effect (sleeps n) free = free
after_effect _ _ = misused

abbrev pub follow : List Effect → Mutex → Mutex
follow [] m = m
follow (e ∷ es) m = follow es (after_effect e m)

follow-append : (es fs : List Effect) (m : Mutex) → follow (es ++ fs) m ≡ follow fs (follow es m)
follow-append [] fs m = refl
follow-append (e ∷ es) fs m = follow-append es fs (after_effect e m)

abbrev pub left_by : Option Outcome → Mutex
left_by none = held
left_by (some o) = free

judge-free :
    (parse_retry : String → Option ℕ) (cfg : RequestConfig) (is_bot : Bool) (status : ℕ)
    (body : String) (sequence : ℕ)
    → follow (judge parse_retry cfg is_bot status body sequence).1 free ≡ free
unfolding judge
judge-free parse_retry cfg is_bot status body sequence = ground arith

locking_lem :
    (wait : ℕ) (more : List Effect) → follow (locking wait ++ more) free ≡ follow more held
unfolding locking
locking_lem zero more = refl
locking_lem (suc n) more = refl

-- An attempt that has released the lock, then the next one from its lock on.
follow_again :
    (es more : List Effect) (wait : ℕ) {m : Mutex}
    → follow es held ≡ free
    → follow more held ≡ m
    → follow (es ++ (locking wait ++ more)) held ≡ m
follow_again es more wait before after =
    rw (follow-append es (locking wait ++ more) held, before, locking_lem wait more) after

module _ (p : Decoding) (cfg : RequestConfig) (is_bot : Bool) where
  conclude-free :
      (status : ℕ) (e : Ending) (body : Option String) (sequence : ℕ)
      → follow (conclude p cfg is_bot status e body sequence).1 free ≡ free
  unfolding conclude
  conclude-free status parse_failed body sequence = refl
  conclude-free status released none sequence = refl
  conclude-free status released (some text) sequence =
      judge-free p.parse_retry cfg is_bot status text sequence

  respond-free :
      (reply : Reply) (a : Attempt) (sequence : ℕ) (b : Bucket) (r : RateLimiter)
      → follow (respond p cfg is_bot reply a sequence b r).1.0 held ≡ free
  unfolding respond
  respond-free malformed a sequence b r = refl
  respond-free unreachable a sequence b r = refl
  respond-free (replied status h body) a sequence b r =
      conclude-free status (release_at p (some h) a b r).0 body sequence

  -- From the lock on that the caller has taken.
  pub request_with_locked_bucket-follow :
      (attempts : ℕ → Attempt) (fuel i sequence : ℕ) (b : Bucket) (r : RateLimiter)
      → let out = request_with_locked_bucket p cfg is_bot attempts fuel i sequence b r in
        follow out.1.0 held ≡ left_by out.0
  unfolding request_with_locked_bucket
  request_with_locked_bucket-follow attempts zero i sequence b r = refl
  request_with_locked_bucket-follow attempts (suc fuel) i sequence b r =
      let a = attempts i in
      let out = attempt p cfg is_bot a sequence b r in
      on_decision
        (λ (o : Option Outcome × (List Effect × (Bucket × RateLimiter))).
          follow o.1.0 held ≡ left_by o.0)
        out.0 _ _ (λ o e. respond-free a.reply a sequence b r)
        (λ n e.
          follow_again out.1.0 _ _ (respond-free a.reply a sequence b r)
            (request_with_locked_bucket-follow attempts fuel (suc i) n _ _))

-- A request takes its bucket's lock before it is sent, gives it back exactly once for each time
-- that it takes it, and ends without it, however it ends. The wait that the bucket asks for is
-- under the lock; the sleep after a rate limit that the server reports is only without it.
pub request-follow :
    (p : Decoding) (marshals : Bool) (options : List RequestOption) (cfg : RequestConfig)
    (is_bot : Bool) (url : String) (attempts : ℕ → Attempt) (fuel : ℕ) (now₁ now₂ now : Time)
    (r : RateLimiter) (o : Outcome)
    → let out = request p marshals options cfg is_bot url attempts fuel now₁ now₂ now r in
      out.0 ≡ some o → follow out.1.0 free ≡ free
unfolding request request_raw request_with_bucket_id configure
request-follow p false options cfg is_bot url attempts fuel now₁ now₂ now r o e = refl
request-follow p true options cfg is_bot url attempts fuel now₁ now₂ now r o e =
    let key = p.before_query url in
    let (b, r') = get_bucket (if key == "" then key else key) r in
    let (wait, b') = lock_bucket_object r' b now₁ now₂ now in
    let cfg' = configure options cfg in
    locking_lem wait (request_with_locked_bucket p cfg' is_bot attempts fuel 0 0 b' r').1.0
    ∙ request_with_locked_bucket-follow p cfg' is_bot attempts fuel 0 0 b' r'
    ∙ ap left_by e
