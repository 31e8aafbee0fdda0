-- ===== src/Rest/Attempts.antt =====
-- What one attempt of a request of restapi.go comes to: how often it sends, and when another one
-- follows.
use discordgo.Base.{
  ℕ, suc, ◌+◌, ◌-◌, ◌≤◌, ◌≡◌, refl, String, Bool, false, Option, none, some, List, [], ◌∷◌, eqb,
  arith,
}
use discordgo.Ratelimit.Buckets.{Bucket, RateLimiter}
use discordgo.Ratelimit.Releasing.{Ending, released, parse_failed}
use discordgo.Rest.Requests.{
  RequestConfig, Attempt, malformed, unreachable, replied, Effect, sends, reports_rate_limit, ends,
  again, Decision, judge, Decoding, Reply, release_at, conclude, respond,
}

-- How often a request is sent.
abbrev pub sent : List Effect → ℕ
sent [] = 0
sent (sends n ∷ es) = suc (sent es)
sent (_ ∷ es) = sent es

-- How often the application is told of a rate limit.
abbrev pub reported : List Effect → ℕ
reported [] = 0
reported (reports_rate_limit ∷ es) = suc (reported es)
reported (_ ∷ es) = reported es

abbrev pub is_limited : Reply → Bool
is_limited (replied status h body) = eqb status 429
is_limited _ = false

-- The retries that are left, by what follows an attempt.
abbrev pub left : ℕ → Decision → ℕ
left most (ends o) = 0
left most (again n) = suc (most - n)

module _ (parse_retry : String → Option ℕ) (cfg : RequestConfig) (is_bot : Bool)
    (body : String) where
  judge-left :
      (status sequence : ℕ)
      → let out = judge parse_retry cfg is_bot status body sequence in
        left cfg.max_rest_retries out.0 ≤ (cfg.max_rest_retries - sequence) + reported out.1
  unfolding judge
  judge-left status sequence = ground arith

  judge-sent :
      (status sequence : ℕ) → sent (judge parse_retry cfg is_bot status body sequence).1 ≡ 0
  unfolding judge
  judge-sent status sequence = ground arith

  judge-reported :
      (status sequence : ℕ) → reported (judge parse_retry cfg is_bot status body sequence).1 ≤ 1
  unfolding judge
  judge-reported status sequence = ground arith

  judge-unreported :
      (status sequence : ℕ)
      → eqb status 429 ≡ false
      → reported (judge parse_retry cfg is_bot status body sequence).1 ≡ 0
  unfolding judge
  judge-unreported status sequence e = ground arith

module _ (p : Decoding) (cfg : RequestConfig) (is_bot : Bool) where
  conclude-left :
      (status : ℕ) (e : Ending) (body : Option String) (sequence : ℕ)
      → let out = conclude p cfg is_bot status e body sequence in
        left cfg.max_rest_retries out.0 ≤ (cfg.max_rest_retries - sequence) + reported out.1
  unfolding conclude
  conclude-left status parse_failed body sequence = omega arith
  conclude-left status released none sequence = omega arith
  conclude-left status released (some text) sequence =
      judge-left p.parse_retry cfg is_bot text status sequence

  -- Each retry is one that is left, or one that a rate limit has been reported for.
  pub respond-left :
      (reply : Reply) (a : Attempt) (sequence : ℕ) (b : Bucket) (r : RateLimiter)
      → let out = respond p cfg is_bot reply a sequence b r in
        left cfg.max_rest_retries out.0 ≤ (cfg.max_rest_retries - sequence) + reported out.1.0
  unfolding respond
  respond-left malformed a sequence b r = omega arith
  respond-left unreachable a sequence b r = omega arith
  respond-left (replied status h body) a sequence b r =
      conclude-left status (release_at p (some h) a b r).0 body sequence

  conclude-sent :
      (status : ℕ) (e : Ending) (body : Option String) (sequence : ℕ)
      → sent (conclude p cfg is_bot status e body sequence).1 ≡ 0
  unfolding conclude
  conclude-sent status parse_failed body sequence = refl
  conclude-sent status released none sequence = refl
  conclude-sent status released (some text) sequence =
      judge-sent p.parse_retry cfg is_bot text status sequence

  pub respond-sent :
      (reply : Reply) (a : Attempt) (sequence : ℕ) (b : Bucket) (r : RateLimiter)
      → sent (respond p cfg is_bot reply a sequence b r).1.0 ≤ 1
  unfolding respond
  respond-sent malformed a sequence b r = omega arith
  respond-sent unreachable a sequence b r = omega arith
  respond-sent (replied status h body) a sequence b r =
      omega (arith, conclude-sent status (release_at p (some h) a b r).0 body sequence)

  conclude-reported :
      (status : ℕ) (e : Ending) (body : Option String) (sequence : ℕ)
      → reported (conclude p cfg is_bot status e body sequence).1 ≤ 1
  unfolding conclude
  conclude-reported status parse_failed body sequence = omega arith
  conclude-reported status released none sequence = omega arith
  conclude-reported status released (some text) sequence =
      judge-reported p.parse_retry cfg is_bot text status sequence

  pub respond-reported :
      (reply : Reply) (a : Attempt) (sequence : ℕ) (b : Bucket) (r : RateLimiter)
      → reported (respond p cfg is_bot reply a sequence b r).1.0 ≤ 1
  unfolding respond
  respond-reported malformed a sequence b r = omega arith
  respond-reported unreachable a sequence b r = omega arith
  respond-reported (replied status h body) a sequence b r =
      conclude-reported status (release_at p (some h) a b r).0 body sequence

  conclude-unreported :
      (status : ℕ) (e : Ending) (body : Option String) (sequence : ℕ)
      → eqb status 429 ≡ false
      → reported (conclude p cfg is_bot status e body sequence).1 ≡ 0
  unfolding conclude
  conclude-unreported status parse_failed body sequence e = refl
  conclude-unreported status released none sequence e = refl
  conclude-unreported status released (some text) sequence e =
      judge-unreported p.parse_retry cfg is_bot text status sequence e

  -- Only a response with status 429 is reported as a rate limit.
  pub respond-unreported :
      (reply : Reply) (a : Attempt) (sequence : ℕ) (b : Bucket) (r : RateLimiter)
      → is_limited reply ≡ false
      → reported (respond p cfg is_bot reply a sequence b r).1.0 ≡ 0
  unfolding respond
  respond-unreported malformed a sequence b r e = refl
  respond-unreported unreachable a sequence b r e = refl
  respond-unreported (replied status h body) a sequence b r e =
      conclude-unreported status (release_at p (some h) a b r).0 body sequence e
