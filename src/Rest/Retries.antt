-- ===== src/Rest/Retries.antt =====
-- The retries of a request of restapi.go: how many there are, and that they come to an end.
use discordgo.Base.{
  ℕ, zero, suc, ◌+◌, ◌-◌, ◌≤◌, ◌<◌, ◌≡◌, refl, Bool, true, false, Option, none, some, List, [], ◌∷◌,
  ◌++◌, arith, ap, sym,
}
use discordgo.Ratelimit.Buckets.{Bucket, RateLimiter}
use discordgo.Rest.Requests.{
  RequestConfig, Attempt, Outcome, Effect, sends, sleeps, waits, locks, locking, releases,
  reports_rate_limit, on_decision, Decision, again, Decoding, attempt, request_with_locked_bucket,
}
use discordgo.Rest.Attempts.{
  sent, reported, left, is_limited, respond-left, respond-sent, respond-reported,
  respond-unreported,
}

abbrev pub is_some : {A : Type 0} → Option A → Bool
is_some none = false
is_some (some a) = true

sent-append : (es fs : List Effect) → sent (es ++ fs) ≡ sent es + sent fs
sent-append [] fs = omega arith
sent-append (sends n ∷ es) fs = omega (arith, sent-append es fs)
sent-append (sleeps n ∷ es) fs = sent-append es fs
sent-append (waits n ∷ es) fs = sent-append es fs
sent-append (locks ∷ es) fs = sent-append es fs
sent-append (releases ∷ es) fs = sent-append es fs
sent-append (reports_rate_limit ∷ es) fs = sent-append es fs

reported-append : (es fs : List Effect) → reported (es ++ fs) ≡ reported es + reported fs
reported-append [] fs = omega arith
reported-append (sends n ∷ es) fs = reported-append es fs
reported-append (sleeps n ∷ es) fs = reported-append es fs
reported-append (waits n ∷ es) fs = reported-append es fs
reported-append (locks ∷ es) fs = reported-append es fs
reported-append (releases ∷ es) fs = reported-append es fs
reported-append (reports_rate_limit ∷ es) fs = omega (arith, reported-append es fs)

sent-locking : (wait : ℕ) (more : List Effect) → sent (locking wait ++ more) ≡ sent more
unfolding locking
sent-locking zero more = refl
sent-locking (suc n) more = refl

reported-locking : (wait : ℕ) (more : List Effect) → reported (locking wait ++ more) ≡ reported more
unfolding locking
reported-locking zero more = refl
reported-locking (suc n) more = refl

-- An attempt, then the next one from its lock on: the bound on what is sent carries over.
sent_again :
    (es more : List Effect) (wait left_before left_after : ℕ)
    → sent es ≤ 1
    → suc left_after ≤ left_before + reported es
    → sent more ≤ suc left_after + reported more
    → sent (es ++ (locking wait ++ more))
      ≤ suc left_before + reported (es ++ (locking wait ++ more))
sent_again es more wait left_before left_after once retried after = omega (
  arith,
  sent-append es (locking wait ++ more),
  reported-append es (locking wait ++ more),
  sent-locking wait more,
  reported-locking wait more,
)

-- An attempt after which another one follows has used up a retry, unless it was rate limited.
left_again :
    (most : ℕ) {d : Decision} (n bound : ℕ)
    → d ≡ again n
    → left most d ≤ bound
    → suc (most - n) ≤ bound
left_again most n bound e le = rw (sym (ap (left most) e)) le

-- The fuel of the attempts that are left, by an attempt and the next one. `most_left` and
-- `retries` are the retries that are left before and after it.
enough_again :
    (n i most_left retries reports fuel : ℕ)
    → suc retries ≤ most_left + reports
    → reports ≤ 1
    → (n ≤ i → reports ≡ 0)
    → (n - i) + most_left < suc fuel
    → (n - suc i) + retries < fuel
enough_again n i most_left retries reports fuel retried few quiet enough = grind arith

module _ (p : Decoding) (cfg : RequestConfig) (is_bot : Bool) where
  -- A request is sent at most once for its first attempt, once for each retry that is left, and
  -- once for each rate limit that is reported.
  pub request_with_locked_bucket-sent :
      (attempts : ℕ → Attempt) (fuel i sequence : ℕ) (b : Bucket) (r : RateLimiter)
      → let out = request_with_locked_bucket p cfg is_bot attempts fuel i sequence b r in
        sent out.1.0 ≤ suc (cfg.max_rest_retries - sequence) + reported out.1.0
  unfolding request_with_locked_bucket attempt
  request_with_locked_bucket-sent attempts zero i sequence b r = omega arith
  request_with_locked_bucket-sent attempts (suc fuel) i sequence b r =
      let a = attempts i in
      let most = cfg.max_rest_retries in
      let out = attempt p cfg is_bot a sequence b r in
      on_decision
        (λ (o : Option Outcome × (List Effect × (Bucket × RateLimiter))).
          sent o.1.0 ≤ suc (most - sequence) + reported o.1.0)
        out.0 _ _ (λ o e. omega (arith, respond-sent p cfg is_bot a.reply a sequence b r))
        (λ n e.
          sent_again out.1.0 _ _ _ _ (respond-sent p cfg is_bot a.reply a sequence b r)
            (left_again most n _ e (respond-left p cfg is_bot a.reply a sequence b r))
            (request_with_locked_bucket-sent attempts fuel (suc i) n _ _))

  -- If no attempt from the `n`-th on is answered with status 429, a request comes to an end: fuel
  -- for `n` attempts, for one more and for the retries that are left is enough.
  pub request_with_locked_bucket-ends :
      (attempts : ℕ → Attempt) (n : ℕ)
      → ((k : ℕ) → n ≤ k → is_limited (attempts k).reply ≡ false)
      → (fuel i sequence : ℕ) (b : Bucket) (r : RateLimiter)
      → (n - i) + (cfg.max_rest_retries - sequence) < fuel
      → is_some (request_with_locked_bucket p cfg is_bot attempts fuel i sequence b r).0 ≡ true
  unfolding request_with_locked_bucket attempt
  request_with_locked_bucket-ends attempts n quiet zero i sequence b r enough = absurd (omega arith)
  request_with_locked_bucket-ends attempts n quiet (suc fuel) i sequence b r enough =
      let a = attempts i in
      let most = cfg.max_rest_retries in
      let out = attempt p cfg is_bot a sequence b r in
      on_decision
        (λ (o : Option Outcome × (List Effect × (Bucket × RateLimiter))). is_some o.0 ≡ true) out.0
        _ _ (λ o e. refl)
        (λ n' e. request_with_locked_bucket-ends attempts n quiet fuel (suc i) n' _ _ (
          enough_again n i _ _ _ fuel
            (left_again most n' _ e (respond-left p cfg is_bot a.reply a sequence b r))
            (respond-reported p cfg is_bot a.reply a sequence b r)
            (λ le. respond-unreported p cfg is_bot a.reply a sequence b r (quiet i le)) enough))
