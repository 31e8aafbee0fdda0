-- ===== src/Tests/RequestRuns.antt =====
-- Runs of requests.
use discordgo.Base.{ℕ, zero, suc, ◌+◌, ◌≤◌, ◌≡◌, refl, true, false, none, some, [], ◌∷◌, arith}
use discordgo.Ratelimit.Buckets.{
  Bucket, new_ratelimiter, new_bucket, epoch, lock_bucket_object, get_bucket,
}
use discordgo.Ratelimit.Releasing.{Headers, release}
use discordgo.Rest.Requests.{
  RequestConfig, Attempt, Reply, replied, answered, Decoding, request_with_locked_bucket, request,
  with_rest_retries,
}
use discordgo.Rest.Locking.{free, follow, request-follow}
use discordgo.Rest.Attempts.{sent, reported, is_limited}
use discordgo.Rest.Retries.{
  is_some, request_with_locked_bucket-sent, request_with_locked_bucket-ends,
}
use discordgo.Rest.Outcomes.{Run, request_with_locked_bucket-Run}

-- No header is given, and every rate limit lasts 7 ns.
abbrev decoding : Decoding
decoding = record {
  Float = ℕ;
  parse_float = λ s. none;
  whole = λ f. f;
  millis = λ f. 0;
  parse_time = λ s. none;
  parse_int = λ s. none;
  parse_retry = λ s. some 7;
  before_query = λ s. s;
}

abbrev no_headers : Headers
no_headers = record { remaining = ""; reset = ""; global = ""; reset_after = ""; date = "" }

abbrev meets : Reply → Attempt
meets reply = record {
  reply = reply;
  now₁ = epoch;
  now₂ = epoch;
  now₃ = epoch;
  lock₁ = epoch;
  lock₂ = epoch;
  lock = epoch;
}

-- A rate limit, a bad gateway, and then the answer.
abbrev attempts : ℕ → Attempt
attempts zero = meets (replied 429 no_headers (some "{}"))
attempts (suc zero) = meets (replied 502 no_headers (some ""))
attempts (suc (suc n)) = meets (replied 200 no_headers (some "pong"))

abbrev config : RequestConfig
config = record { should_retry_on_rate_limit = true; max_rest_retries = 3 }

abbrev bucket : Bucket
bucket = new_bucket "gateway" []

request_run :
    let out =
      request decoding true
        (with_rest_retries 1 ∷ [])
        config
        true
        "gateway"
        attempts
        5
        epoch
        epoch
        epoch
        new_ratelimiter in
    (out.0 ≡ some (answered "pong")) × (sent out.1.0 ≡ 3)
unfolding request release lock_bucket_object get_bucket
request_run = (refl, refl)

request-follow_example :
    follow
      (request decoding true
        (with_rest_retries 1 ∷ [])
        config
        true
        "gateway"
        attempts
        5
        epoch
        epoch
        epoch
        new_ratelimiter).1.0
      free
    ≡ free
unfolding request release lock_bucket_object get_bucket
request-follow_example =
    request-follow decoding true (with_rest_retries 1 ∷ []) config true "gateway" attempts 5 epoch
      epoch epoch new_ratelimiter (answered "pong") refl

request_with_locked_bucket-sent_example :
    let out =
      request_with_locked_bucket decoding config true attempts 5 0 0 bucket new_ratelimiter in
    sent out.1.0 ≤ suc 3 + reported out.1.0
request_with_locked_bucket-sent_example =
    request_with_locked_bucket-sent decoding config true attempts 5 0 0 bucket new_ratelimiter

attempts-quiet : (k : ℕ) → 1 ≤ k → is_limited (attempts k).reply ≡ false
attempts-quiet zero le = absurd (omega arith)
attempts-quiet (suc zero) le = refl
attempts-quiet (suc (suc n)) le = refl

request_with_locked_bucket-ends_example :
    is_some
      (request_with_locked_bucket decoding config true attempts 5 0 0 bucket new_ratelimiter).0
    ≡ true
request_with_locked_bucket-ends_example =
    request_with_locked_bucket-ends decoding config true attempts 1 attempts-quiet 5 0 0 bucket
      new_ratelimiter (omega arith)

request_with_locked_bucket-Run_example : Run decoding config attempts 0 0 (answered "pong")
unfolding request_with_locked_bucket release lock_bucket_object
request_with_locked_bucket-Run_example =
    request_with_locked_bucket-Run decoding config true attempts 5 0 0 bucket new_ratelimiter
      (answered "pong") refl
