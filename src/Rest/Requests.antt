-- ===== src/Rest/Requests.antt =====
-- restapi.go: `RequestWithLockedBucket` with its retries, and `RequestRaw`.
--
-- The server and the clock are parameters: what the `i`-th attempt meets, and the readings of the
-- clock around it. The decoding of headers and
-- bodies is a record of parameters, `parse_retry` that of the body of a response with status 429,
-- to the delay that it asks for.
use discordgo.Base.{
  ℕ, zero, suc, ◌+◌, ◌≡◌, refl, String, Bool, ◌&&◌, not, ◌||◌, ◌==◌, Option, none, some, List, [],
  ◌∷◌, ◌++◌, eqb, ltb, if◌then◌else◌,
}
use discordgo.State.Types.{Time}
use discordgo.Ratelimit.Buckets.{ℤ, Bucket, RateLimiter, lock_bucket_object, get_bucket, store}
use discordgo.Ratelimit.Releasing.{Headers, Ending, released, parse_failed, release}

-- The part of a `RequestConfig` that steers the retries.
pub record RequestConfig : Type 0 where
  pub should_retry_on_rate_limit : Bool
  -- A negative number acts as 0.
  pub max_rest_retries : ℕ

-- `WithClient`, `WithHeader` and `WithContext` change what the server is asked, which is part of
-- what an attempt meets.
pub data RequestOption : Type 0 where
  with_retry_on_ratelimit : Bool → RequestOption
  with_rest_retries : ℕ → RequestOption
  other_option : RequestOption

abbrev pub apply_option : RequestOption → RequestConfig → RequestConfig
apply_option (with_retry_on_ratelimit b) cfg = record cfg { should_retry_on_rate_limit = b }
apply_option (with_rest_retries n) cfg = record cfg { max_rest_retries = n }
apply_option other_option cfg = cfg

unfoldable pub configure : List RequestOption → RequestConfig → RequestConfig
configure [] cfg = cfg
configure (o ∷ os) cfg = configure os (apply_option o cfg)

-- What `http.NewRequest`, `Client.Do` and `ReadAll` come to; a body that cannot be read is `none`.
pub data Reply : Type 0 where
  malformed unreachable : Reply
  replied : ℕ → Headers → Option String → Reply

-- One attempt: its reply, the readings of its release, and those of the lock for the next one.
pub record Attempt : Type 0 where
  pub reply : Reply
  pub now₁ : Time
  pub now₂ : Time
  pub now₃ : Time
  pub lock₁ : Time
  pub lock₂ : Time
  pub lock : Time

pub data Failure : Type 0 where
  malformed_data malformed_request connection_failed malformed_headers unreadable_body : Failure
  malformed_rate_limit rate_limited unauthorized : Failure
  exceeded_retries rest_error : ℕ → Failure

pub data Outcome : Type 0 where
  answered : String → Outcome
  failed : Failure → Outcome

-- What is done besides, in order. `sends` carries the sequence number of the attempt; `waits` is
-- the sleep of `LockBucketObject`, and `sleeps` the one after status 429.
pub data Effect : Type 0 where
  sends sleeps waits : ℕ → Effect
  locks releases reports_rate_limit : Effect

-- `LockBucketObject`, which locks the bucket and then sleeps where it has to wait.
unfoldable pub locking : (wait : ℕ) → List Effect
locking zero = locks ∷ []
locking (suc n) = locks ∷ waits (suc n) ∷ []

pub data Decision : Type 0 where
  ends : Outcome → Decision
  again : ℕ → Decision

-- What holds of both branches of a match on a decision holds of the match.
pub on_decision :
    {B : Type 0} (P : B → Type 0) (d : Decision) (f : Outcome → B) (g : ℕ → B)
    → ((o : Outcome) → d ≡ ends o → P (f o))
    → ((n : ℕ) → d ≡ again n → P (g n))
    → P (elim d [ ends o ↦ f o | again n ↦ g n ])
on_decision P (ends o) f g h k = h o refl
on_decision P (again n) f g h k = k n refl

abbrev pub is_success : ℕ → Bool
is_success status = eqb status 200 || (eqb status 201 || eqb status 204)

-- The statuses after which the request is sent again: 500, 503, 504 and 502.
abbrev pub is_unavailable : ℕ → Bool
is_unavailable status = eqb status 500 || (eqb status 503 || (eqb status 504 || eqb status 502))

-- `err = new` where `err` has a value.
abbrev pub overwritten : Option Failure → Failure → Failure
overwritten old new = new

-- The switch over the status. At 401 `err` is `ErrUnauthorized` for a moment where the token is
-- not a bot's; the case falls through to the default, which sets `err` again.
unfoldable pub judge :
    (String → Option ℕ)
    → RequestConfig
    → (is_bot : Bool) → (status : ℕ) → (body : String) → (sequence : ℕ) → Decision × List Effect
judge parse_retry cfg is_bot status body sequence =
    if is_success status
    then (ends (answered body), [])
    else if is_unavailable status
    then (if ltb sequence cfg.max_rest_retries
        then (again (sequence + 1), [])
        else (ends (failed (exceeded_retries status)), []))
    else if eqb status 429
    then elim (parse_retry body) [
      | none ↦ (ends (failed malformed_rate_limit), [])
      | some delay ↦
          if cfg.should_retry_on_rate_limit
          then (again sequence, reports_rate_limit ∷ sleeps delay ∷ [])
          else (ends (failed rate_limited), [])
    ]
    else (let err = if eqb status 401 && not is_bot then some unauthorized else none in
        (ends (failed (overwritten err (rest_error status))), []))

-- What the program leaves to libraries: the decoding of headers, bodies and URLs.
pub record Decoding : Type 1 where
  pub Float : Type 0
  pub parse_float : String → Option Float
  pub whole : Float → ℕ
  pub millis : Float → ℕ
  pub parse_time : String → Option Time
  pub parse_int : String → Option ℤ
  pub parse_retry : String → Option ℕ
  -- `strings.SplitN(url, "?", 2)[0]`
  pub before_query : String → String

module _ (p : Decoding) where
  -- `bucket.Release(headers)` at the attempt's readings.
  abbrev pub release_at :
      Option Headers → Attempt → Bucket → RateLimiter → Ending × (Bucket × RateLimiter)
  release_at h a b r =
      release p.parse_float p.whole p.millis p.parse_time p.parse_int h b a.now₁ a.now₂ a.now₃ r

  -- From the end of the release on.
  unfoldable pub conclude :
      RequestConfig
      → Bool
      → (status : ℕ) → Ending
      → Option String
      → (sequence : ℕ) → Decision × List Effect
  unfolding judge
  conclude cfg is_bot status parse_failed body sequence = (ends (failed malformed_headers), [])
  conclude cfg is_bot status released none sequence = (ends (failed unreadable_body), [])
  conclude cfg is_bot status released (some text) sequence =
      judge p.parse_retry cfg is_bot status text sequence

  -- One call of `RequestWithLockedBucket` up to the call of itself.
  unfoldable pub respond :
      RequestConfig
      → Bool
      → Reply
      → Attempt
      → (sequence : ℕ) → Bucket
      → RateLimiter
      → Decision × (List Effect × (Bucket × RateLimiter))
  unfolding conclude
  respond cfg is_bot malformed a sequence b r =
      (ends (failed malformed_request), (releases ∷ [], (release_at none a b r).1))
  respond cfg is_bot unreachable a sequence b r =
      (ends (failed connection_failed), (sends sequence ∷ releases ∷ [], (release_at none a b r).1))
  respond cfg is_bot (replied status h body) a sequence b r =
      let (e, kept) = release_at (some h) a b r in
      let (d, es) = conclude cfg is_bot status e body sequence in
      (d, (sends sequence ∷ releases ∷ es, kept))

  unfoldable pub attempt :
      RequestConfig
      → Bool
      → Attempt
      → (sequence : ℕ) → Bucket
      → RateLimiter
      → Decision × (List Effect × (Bucket × RateLimiter))
  unfolding respond
  attempt cfg is_bot a sequence b r = respond cfg is_bot a.reply a sequence b r

  -- `RequestWithLockedBucket`, from the `i`-th attempt on; `none` where the fuel ran out.
  unfoldable pub request_with_locked_bucket :
      RequestConfig
      → Bool
      → (ℕ → Attempt)
      → (fuel i sequence : ℕ) → Bucket
      → RateLimiter
      → Option Outcome × (List Effect × (Bucket × RateLimiter))
  unfolding attempt locking
  request_with_locked_bucket cfg is_bot attempts zero i sequence b r = (none, ([], (b, r)))
  request_with_locked_bucket cfg is_bot attempts (suc fuel) i sequence b r =
      let a = attempts i in
      let (d, rest) = attempt cfg is_bot a sequence b r in
      let (es, kept) = rest in
      elim d [
        | ends o ↦ (some o, (es, kept))
        | again sequence' ↦
            let (wait, b') = lock_bucket_object kept.1 kept.0 a.lock₁ a.lock₂ a.lock in
            let (o, more) =
              request_with_locked_bucket cfg is_bot attempts fuel (suc i) sequence' b' kept.1 in
            (o, (es ++ (locking wait ++ more.0), more.1))
      ]

  -- `RequestRaw` with the lock of the bucket; `now₁`, `now₂` and `now` are that lock's readings.
  unfoldable pub request_raw :
      List RequestOption
      → RequestConfig
      → Bool
      → (url bucket_id : String) → (ℕ → Attempt)
      → (fuel sequence : ℕ) → (now₁ now₂ now : Time) → RateLimiter
      → Option Outcome × (List Effect × RateLimiter)
  unfolding request_with_locked_bucket configure locking
  request_raw options session is_bot url bucket_id attempts fuel sequence now₁ now₂ now r =
      let key = if bucket_id == "" then p.before_query url else bucket_id in
      let (b, r') = get_bucket key r in
      let (wait, b') = lock_bucket_object r' b now₁ now₂ now in
      let (o, more) =
        request_with_locked_bucket (configure options session) is_bot attempts fuel 0 sequence b'
          r' in
      (o, (locking wait ++ more.0, store more.1.0 more.1.1))

  -- `RequestWithBucketID`; `marshals` is whether the data, if there are any, can be encoded.
  unfoldable pub request_with_bucket_id :
      (marshals : Bool)
      → List RequestOption
      → RequestConfig
      → Bool
      → (url bucket_id : String) → (ℕ → Attempt)
      → (fuel : ℕ) → (now₁ now₂ now : Time) → RateLimiter
      → Option Outcome × (List Effect × RateLimiter)
  unfolding request_raw
  request_with_bucket_id marshals options session is_bot url bucket_id attempts fuel now₁ now₂ now
        r =
      let sent = request_raw options session is_bot url bucket_id attempts fuel 0 now₁ now₂ now r in
      if marshals then sent else (some (failed malformed_data), ([], r))

  -- `Request`
  unfoldable pub request :
      (marshals : Bool)
      → List RequestOption
      → RequestConfig
      → Bool
      → (url : String) → (ℕ → Attempt)
      → (fuel : ℕ) → (now₁ now₂ now : Time) → RateLimiter
      → Option Outcome × (List Effect × RateLimiter)
  unfolding request_with_bucket_id
  request marshals options session is_bot url attempts fuel now₁ now₂ now r =
      request_with_bucket_id marshals options session is_bot url (p.before_query url) attempts fuel
        now₁ now₂ now r
