-- ===== src/Ratelimit/Buckets.antt =====
-- ratelimit.go: `RateLimiter`, its buckets and the waits before a request.
--
-- A time is a number of nanoseconds since Go's zero time, and a wait a number of nanoseconds. A
-- duration that a header gives is a 64-bit word.
-- Where a method reads the clock more than once, each reading is an argument. A bucket is only
-- made by `GetBucket` and never dropped, so it is told by its key.
use Prim.Native.String.{len, slice}
use discordgo.Base.{
  ℕ, zero, suc, ◌+◌, ◌-◌, ◌*◌, ◌%◌, String, Bool, true, ◌&&◌, ◌==◌, Option, none, some, List, [],
  ◌∷◌, Map, no_keys, put, ltb, leb, if◌then◌else◌, find,
}
use discordgo.State.Types.{Time}

-- Go's int: `negsuc n` is `-(n + 1)`.
pub data ℤ : Type 0 where
  pos negsuc : ℕ → ℤ

-- `a < n` for a limit `n` that is not negative.
abbrev pub below : ℤ → ℕ → Bool
below (pos a) n = ltb a n
below (negsuc a) n = true

-- `a--`
abbrev pub minus_one : ℤ → ℤ
minus_one (pos zero) = negsuc 0
minus_one (pos (suc n)) = pos n
minus_one (negsuc n) = negsuc (suc n)

abbrev pub millisecond : ℕ
millisecond = 1000000

abbrev pub second : ℕ
second = 1000000000

-- A `time.Duration` as the 64-bit word of its nanoseconds.
abbrev pub int_64 : ℕ → ℕ
int_64 n = n % 18446744073709551616

-- `t.Add(d)` of a signed word `d`; a time before Go's zero time is 0.
unfoldable pub add_duration : Time → (d : ℕ) → Time
add_duration t d = if ltb d 9223372036854775808 then t + d else t - (18446744073709551616 - d)

-- `t.Sub(u)`, which stops at the least and the greatest duration.
unfoldable pub sub_time : Time → Time → ℕ
sub_time t u =
    if leb u t
    then (if ltb (t - u) 9223372036854775808 then t - u else 9223372036854775807)
    else if ltb (u - t) 9223372036854775808
    then 18446744073709551616 - (u - t)
    else 9223372036854775808

abbrev pub epoch : Time
epoch = 62135596800 * second

-- `time.Unix(0, n)` of a signed word `n`
abbrev pub unix : (n : ℕ) → Time
unix n = add_duration epoch n

-- `UnixNano`, an int64 that wraps around.
unfoldable pub unix_nano : Time → ℕ
unix_nano t = int_64 (t + 18446744073709551616 * 4 - epoch)

-- `strings.HasSuffix`
abbrev pub has_suffix : String → String → Bool
has_suffix s suffix = leb (len suffix) (len s) && (slice s (len s - len suffix) (len s) == suffix)

pub record CustomRateLimit : Type 0 where
  pub suffix : String
  pub requests : ℕ
  pub reset : ℕ

-- The fields that ratelimit.go reads or writes; the pointer to the global limit is the limiter's.
pub record Bucket : Type 0 where
  pub key : String
  pub remaining : ℤ
  pub reset : Time
  pub last_reset : Time
  pub custom_rate_limit : Option CustomRateLimit

pub record RateLimiter : Type 0 where
  pub global : ℕ
  pub buckets : Map Bucket
  pub custom_rate_limits : List CustomRateLimit

abbrev pub new_ratelimiter : RateLimiter
new_ratelimiter = record {
  global = 0;
  buckets = no_keys;
  custom_rate_limits =
      record { suffix = "//reactions//"; requests = 1; reset = 200 * millisecond } ∷ [];
}

abbrev pub new_bucket : String → List CustomRateLimit → Bucket
new_bucket key limits = record {
  key = key;
  remaining = pos 1;
  reset = 0;
  last_reset = 0;
  custom_rate_limit = find (λ limit. has_suffix key limit.suffix) limits;
}

unfoldable pub get_bucket : String → RateLimiter → Bucket × RateLimiter
get_bucket key r = elim (r.buckets key) [
  | some b ↦ (b, r)
  | none ↦
      let b = new_bucket key r.custom_rate_limits in (b, record r { buckets = put key b r.buckets })
]

-- `GetWaitTime`, where `now₁` and `now₂` are the readings for the bucket's own limit and `now` is
-- the one for the global limit. A negative duration, after which nobody waits, is 0.
unfoldable pub get_wait_time : RateLimiter → Bucket → ℕ → (now₁ now₂ now : Time) → ℕ
get_wait_time r b min_remaining now₁ now₂ now =
    if below b.remaining min_remaining && ltb now₁ b.reset
    then b.reset - now₂
    else (if ltb now (unix r.global) then unix r.global - now else 0)

-- `LockBucketObject`: how long it sleeps, and the bucket that it returns locked.
unfoldable pub lock_bucket_object : RateLimiter → Bucket → (now₁ now₂ now : Time) → ℕ × Bucket
unfolding get_wait_time
lock_bucket_object r b now₁ now₂ now =
    (get_wait_time r b 1 now₁ now₂ now, record b { remaining = minus_one b.remaining })

-- A bucket that was written to.
abbrev pub store : Bucket → RateLimiter → RateLimiter
store b r = record r { buckets = put b.key b r.buckets }

unfoldable pub lock_bucket : String → (now₁ now₂ now : Time) → RateLimiter → ℕ × RateLimiter
unfolding get_bucket lock_bucket_object
lock_bucket key now₁ now₂ now r =
    let (b, r') = get_bucket key r in
    let (wait, b') = lock_bucket_object r' b now₁ now₂ now in (wait, store b' r')
