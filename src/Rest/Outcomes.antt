-- ===== src/Rest/Outcomes.antt =====
-- The attempts of a request of restapi.go, and how its outcome comes from the last of them.
use mathlib.Core.Option.{some-injective}
use discordgo.Base.{
  ℕ, zero, suc, ◌+◌, ◌≤◌, ◌<◌, ◌≡◌, ◌≢◌, refl, String, Bool, true, false, Option, none, some, List,
  [], eqb, ltb, arith, on_if, on_option,
}
use discordgo.Ratelimit.Buckets.{Bucket, RateLimiter}
use discordgo.Ratelimit.Releasing.{Headers, Ending, released, parse_failed}
use discordgo.Rest.Requests.{
  RequestConfig, Attempt, Reply, malformed, unreachable, replied, Outcome, answered, failed,
  malformed_request, connection_failed, malformed_headers, unreadable_body, malformed_rate_limit,
  rate_limited, exceeded_retries, rest_error, Effect, on_decision, Decision, ends, again,
  is_success, is_unavailable, judge, Decoding, release_at, conclude, respond, attempt,
  request_with_locked_bucket,
}

module _ (p : Decoding) (cfg : RequestConfig) where
  -- The outcomes that a reply can end a request with, at a sequence number.
  pub data Explained : Reply → (sequence : ℕ) → Outcome → Type 0 where
    of_request : {s : ℕ} → Explained malformed s (failed malformed_request)
    of_connection : {s : ℕ} → Explained unreachable s (failed connection_failed)
    of_headers :
        {status s : ℕ} {h : Headers} {body : Option String} (a : Attempt) (b : Bucket)
        (r : RateLimiter)
        → (release_at p (some h) a b r).0 ≡ parse_failed
        → Explained (replied status h body) s (failed malformed_headers)
    of_body :
        {status s : ℕ} {h : Headers} → Explained (replied status h none) s (failed unreadable_body)
    of_success :
        {status s : ℕ} {h : Headers} {text : String}
        → is_success status ≡ true
        → Explained (replied status h (some text)) s (answered text)
    of_unavailable :
        {status s : ℕ} {h : Headers} {text : String}
        → is_unavailable status ≡ true
        → cfg.max_rest_retries ≤ s
        → Explained (replied status h (some text)) s (failed (exceeded_retries status))
    of_delay :
        {status s : ℕ} {h : Headers} {text : String}
        → status ≡ 429
        → p.parse_retry text ≡ none
        → Explained (replied status h (some text)) s (failed malformed_rate_limit)
    of_limit :
        {status s delay : ℕ} {h : Headers} {text : String}
        → status ≡ 429
        → p.parse_retry text ≡ some delay
        → cfg.should_retry_on_rate_limit ≡ false
        → Explained (replied status h (some text)) s (failed rate_limited)
    of_error :
        {status s : ℕ} {h : Headers} {text : String}
        → is_success status ≡ false
        → is_unavailable status ≡ false
        → status ≢ 429
        → Explained (replied status h (some text)) s (failed (rest_error status))

  -- The replies after which a request is sent again, with the sequence numbers before and after.
  pub data Continues : Reply → (sequence next : ℕ) → Type 0 where
    of_retry :
        {status s : ℕ} {h : Headers} {text : String}
        → is_unavailable status ≡ true
        → s < cfg.max_rest_retries
        → Continues (replied status h (some text)) s (s + 1)
    of_rate_limit :
        {status s delay : ℕ} {h : Headers} {text : String}
        → status ≡ 429
        → p.parse_retry text ≡ some delay
        → cfg.should_retry_on_rate_limit ≡ true
        → Continues (replied status h (some text)) s s

  -- From the `i`-th attempt on: each one is made because the one before it asks for it, and the
  -- last one ends the request with the outcome.
  pub data Run (attempts : ℕ → Attempt) : (i sequence : ℕ) → Outcome → Type 0 where
    run_ends : {i s : ℕ} {o : Outcome} → Explained (attempts i).reply s o → Run attempts i s o
    run_continues :
        {i s n : ℕ} {o : Outcome}
        → Continues (attempts i).reply s n
        → Run attempts (suc i) n o
        → Run attempts i s o

  pub Fits : Reply → (sequence : ℕ) → Decision → Type 0
  Fits reply s (ends o) = Explained reply s o
  Fits reply s (again n) = Continues reply s n

  Fits-ends :
      {reply : Reply} {s : ℕ} {d : Decision} {o o' : Outcome}
      → Fits reply s d
      → d ≡ ends o'
      → some o' ≡ some o
      → Explained reply s o
  unfolding Fits
  Fits-ends fits e same = rw (e, some-injective _ _ same) at fits

  Fits-again :
      {reply : Reply} {s n : ℕ} {d : Decision} → Fits reply s d → d ≡ again n → Continues reply s n
  unfolding Fits
  Fits-again fits e = rw e at fits

  judge-Fits :
      (is_bot : Bool) (status : ℕ) (h : Headers) (text : String) (s : ℕ)
      → Fits (replied status h (some text)) s (judge p.parse_retry cfg is_bot status text s).0
  unfolding judge Fits
  judge-Fits is_bot status h text s =
      let P = λ (out : Decision × List Effect). Fits (replied status h (some text)) s out.0 in
      on_if P (is_success status) _ _ (λ e. of_success e)
        (λ not_success.
          on_if P (is_unavailable status) _ _
            (λ e.
              on_if P (ltb s cfg.max_rest_retries) (again (s + 1), [])
                (ends (failed (exceeded_retries status)), []) (λ l. of_retry e (grind arith))
                (λ l. of_unavailable e (grind arith)))
            (λ available.
              on_if P (eqb status 429) _ _
                (λ limited.
                  on_option P (p.parse_retry text) _ _ (λ e. of_delay (grind arith) e)
                    (λ delay e'.
                      on_if P cfg.should_retry_on_rate_limit _ _
                        (λ e. of_rate_limit (grind arith) e' e) (λ e. of_limit (grind arith) e' e)))
                (λ e. of_error not_success available (grind arith))))

module _ (p : Decoding) (cfg : RequestConfig) (is_bot : Bool) where
  conclude-Fits :
      (status : ℕ) (h : Headers) (a : Attempt) (b : Bucket) (r : RateLimiter) (e : Ending)
      (body : Option String) (s : ℕ)
      → (release_at p (some h) a b r).0 ≡ e
      → Fits p cfg (replied status h body) s (conclude p cfg is_bot status e body s).0
  unfolding conclude Fits
  conclude-Fits status h a b r parse_failed body s fails = of_headers a b r fails
  conclude-Fits status h a b r released none s _ = of_body
  conclude-Fits status h a b r released (some text) s _ = judge-Fits p cfg is_bot status h text s

  respond-Fits :
      (reply : Reply) (a : Attempt) (s : ℕ) (b : Bucket) (r : RateLimiter)
      → Fits p cfg reply s (respond p cfg is_bot reply a s b r).0
  unfolding respond Fits
  respond-Fits malformed a s b r = of_request
  respond-Fits unreachable a s b r = of_connection
  respond-Fits (replied status h body) a s b r =
      conclude-Fits status h a b r (release_at p (some h) a b r).0 body s refl

  -- A request that returns something has made a run of attempts, one after the other: each but
  -- the last was answered with an unavailable status while retries were left, of which it takes
  -- one, or with status 429 and a delay where rate limits are retried; and what is returned is explained by the
  -- reply to the last attempt and the retries that were left then.
  pub request_with_locked_bucket-Run :
      (attempts : ℕ → Attempt) (fuel i sequence : ℕ) (b : Bucket) (r : RateLimiter) (o : Outcome)
      → (request_with_locked_bucket p cfg is_bot attempts fuel i sequence b r).0 ≡ some o
      → Run p cfg attempts i sequence o
  unfolding request_with_locked_bucket attempt Fits
  request_with_locked_bucket-Run attempts zero i sequence b r o e = absurd (cc)
  request_with_locked_bucket-Run attempts (suc fuel) i sequence b r o e₀ =
      let a = attempts i in
      let out = attempt p cfg is_bot a sequence b r in
      let fits = respond-Fits a.reply a sequence b r in
      on_decision
        (λ (x : Option Outcome × (List Effect × (Bucket × RateLimiter))).
          x.0 ≡ some o → Run p cfg attempts i sequence o)
        out.0 _ _ (λ o' e same. run_ends (Fits-ends p cfg fits e same))
        (λ n e same.
          run_continues (Fits-again p cfg fits e)
            (request_with_locked_bucket-Run attempts fuel (suc i) n _ _ o same))
        e₀
