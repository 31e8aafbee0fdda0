-- ===== src/Ratelimit/Waiting.antt =====
-- How long the rate limiter of ratelimit.go makes a request wait.
use discordgo.Base.{
  ℕ, ◌+◌, ◌-◌, ◌*◌, ◌≤◌, ◌<◌, ◌≡◌, refl, sym, ap, ◌∙◌, zero, suc, String, true, false, ◌==◌, Option,
  none, some, inl, inr, Bool-cases, leb, arith,
}
use discordgo.State.Types.{Time}
use discordgo.Ratelimit.Buckets.{
  ℤ, pos, negsuc, below, minus_one, epoch, unix, unix_nano, int_64, add_duration, second,
  millisecond, CustomRateLimit, Bucket, RateLimiter, get_wait_time, lock_bucket_object,
}
use discordgo.Ratelimit.Releasing.{
  Headers, released, release_custom, release_reset, release_remaining, release, reset_at,
}

-- A request that goes out at a time later than the readings of a clock, which does not run
-- backwards, by the wait at least: it is not before the bucket's reset if no request remains;
-- and it is not before the end of the global limit if one remains, or if the reset was over at
-- the first reading.
pub lock_bucket_object_lem :
    (r : RateLimiter) (b : Bucket) (now₁ now₂ now t : Time)
    → now₁ ≤ now₂
    → now₂ + (lock_bucket_object r b now₁ now₂ now).0 ≤ t
    → now + (lock_bucket_object r b now₁ now₂ now).0 ≤ t
    → (below b.remaining 1 ≡ true → b.reset ≤ t)
      × (below b.remaining 1 ≡ false → unix r.global ≤ t)
      × (b.reset ≤ now₁ → unix r.global ≤ t)
unfolding lock_bucket_object get_wait_time
lock_bucket_object_lem r b now₁ now₂ now t first own global =
    (λ e. ground arith, λ e. ground arith, λ e. ground arith)

-- But where no request remains and the bucket's reset is ahead, the wait does not look at the
-- global limit: a request that wakes up on time goes out while the global limit lasts.
pub lock_bucket_object_early :
    (r : RateLimiter) (b : Bucket) (now₁ now₂ now : Time)
    → below b.remaining 1 ≡ true
    → now₁ < b.reset
    → now₂ ≤ b.reset
    → b.reset < unix r.global
    → now₂ + (lock_bucket_object r b now₁ now₂ now).0 < unix r.global
unfolding lock_bucket_object get_wait_time
lock_bucket_object_early r b now₁ now₂ now e ahead ahead₂ held = ground arith

minus_one-below : (a : ℤ) → below a 2 ≡ true → below (minus_one a) 1 ≡ true
minus_one-below (pos zero) h = refl
minus_one-below (pos (suc n)) h = ground arith
minus_one-below (negsuc n) h = refl

below-more : (a : ℤ) → below a 1 ≡ true → below a 2 ≡ true
below-more (pos n) h = ground arith
below-more (negsuc n) h = refl

-- A release under a limit of one request per period, where no request is left.
release_custom-reset :
    (rl : CustomRateLimit) (b : Bucket) (now₁ now₂ now₃ : Time)
    → rl.requests ≡ 1
    → below b.remaining 1 ≡ true
    → let c = release_custom rl b now₁ now₂ now₃ in
      (below c.remaining 1 ≡ true)
      × (c.reset ≡ now₃ + rl.reset)
      × (c.custom_rate_limit ≡ b.custom_rate_limit)
unfolding release_custom
release_custom-reset rl b now₁ now₂ now₃ one left =
    elim (Bool-cases (leb (b.last_reset + rl.reset) now₁)) [
      | inl e ↦ rw (e, one) (refl, refl, refl)
      | inr e ↦ rw (e, left) (left, refl, refl)
    ]

-- The wait of a bucket whose requests are used up.
wait-reset :
    (r : RateLimiter) (c : Bucket) (end_ : Time)
    → below c.remaining 1 ≡ true
    → c.reset ≡ end_
    → (m₁ m₂ m t : Time) → m₁ ≤ m₂
    → m₂ + (lock_bucket_object r c m₁ m₂ m).0 ≤ t
    → m + (lock_bucket_object r c m₁ m₂ m).0 ≤ t
    → end_ ≤ t
wait-reset r c end_ none_left e m₁ m₂ m t first own global =
    rw (sym e) ((lock_bucket_object_lem r c m₁ m₂ m t first own global).0 none_left)

unix-unix_nano : (t : Time) → epoch ≤ t → t < epoch + 9223372036854775808 → unix (unix_nano t) ≡ t
unfolding add_duration unix_nano
unix-unix_nano t later near =
    let n : int_64 (t + 18446744073709551616 * 4 - epoch) ≡ t - epoch = omega arith in
    rw n (ground arith)

module _ {F : Type 0} (parse_float : String → Option F) (whole millis : F → ℕ)
    (parse_time : String → Option Time) (parse_int : String → Option ℤ) where
  -- A bucket with a limit of one request per period, which has at most one request left: once a
  -- request is locked and released it has at most one left again, keeps its limit, and lets the
  -- next request go out only when a period has passed since the release.
  pub release-lock_bucket_object :
      (rl : CustomRateLimit) (b : Bucket) (h : Option Headers) (r : RateLimiter)
      (l₁ l₂ l now₁ now₂ now₃ : Time)
      → b.custom_rate_limit ≡ some rl
      → rl.requests ≡ 1
      → below b.remaining 2 ≡ true
      → let b' = (lock_bucket_object r b l₁ l₂ l).1 in
        let c = (release parse_float whole millis parse_time parse_int h b' now₁ now₂ now₃ r).1.0 in
        (below c.remaining 2 ≡ true)
        × (c.custom_rate_limit ≡ some rl)
        × ((m₁ m₂ m t : Time)
            → m₁ ≤ m₂
            → m₂ + (lock_bucket_object r c m₁ m₂ m).0 ≤ t
            → m + (lock_bucket_object r c m₁ m₂ m).0 ≤ t
            → now₃ + rl.reset ≤ t)
  unfolding lock_bucket_object release
  release-lock_bucket_object rl b h r l₁ l₂ l now₁ now₂ now₃ e one left =
      let d = record b { remaining = minus_one b.remaining } in
      let (none_left, reset, kept) =
        release_custom-reset rl d now₁ now₂ now₃ one (minus_one-below b.remaining left) in
      rw e (
        below-more (release_custom rl d now₁ now₂ now₃).remaining none_left,
        kept ∙ e,
        wait-reset r (release_custom rl d now₁ now₂ now₃) (now₃ + rl.reset) none_left reset,
      )

  -- The two steps of a release by headers.
  release-steps :
      (h : Headers) (b b' : Bucket) (r r' : RateLimiter) (now₁ now₂ now₃ : Time)
      → b.custom_rate_limit ≡ none
      → release_reset parse_float whole millis parse_time parse_int h b now₁ r ≡ some (b', r')
      → release parse_float whole millis parse_time parse_int (some h) b now₁ now₂ now₃ r ≡ (
          let e = release_remaining parse_float whole millis parse_time parse_int h b' in
          (e.0, (e.1, r')))
  unfolding release
  release-steps h b b' r r' now₁ now₂ now₃ plain e = rw (release, plain, e) refl

  release_reset-global :
      (h : Headers) (f : F) (b : Bucket) (r : RateLimiter) (now : Time)
      → (h.reset_after == "") ≡ false
      → (h.global == "") ≡ false
      → parse_float h.reset_after ≡ some f
      → release_reset parse_float whole millis parse_time parse_int h b now r
        ≡ some (
          b,
          record r {
            global = unix_nano (reset_at parse_float whole millis parse_time parse_int now f);
          },
        )
  unfolding release_reset
  release_reset-global h f b r now after global parsed = rw (after, parsed, global) refl

  release_reset-own :
      (h : Headers) (f : F) (b : Bucket) (r : RateLimiter) (now : Time)
      → (h.reset_after == "") ≡ false
      → (h.global == "") ≡ true
      → parse_float h.reset_after ≡ some f
      → release_reset parse_float whole millis parse_time parse_int h b now r
        ≡ some
            (record b { reset = reset_at parse_float whole millis parse_time parse_int now f }, r)
  unfolding release_reset
  release_reset-own h f b r now after own parsed = rw (after, parsed, own) refl

  reset_at_lem :
      (now : Time) (f : F)
      → whole f * second < 9223372036854775808
      → millis f * millisecond < 9223372036854775808
      → reset_at parse_float whole millis parse_time parse_int now f
        ≡ now + whole f * second + millis f * millisecond
  unfolding reset_at add_duration
  reset_at_lem now f short short' = ground arith

  -- A response with `X-RateLimit-Global` and a delay that parses, on a bucket without a custom
  -- limit, holds up every bucket that has requests left: its next request goes out after the
  -- delay. The delay is not negative, its seconds and its milliseconds are durations of 64 bits,
  -- and its end, after a time that is not before the epoch, is one that `UnixNano` can tell.
  pub release_global :
      (h : Headers) (f : F) (b d : Bucket) (r : RateLimiter) (now₁ now₂ now₃ : Time)
      → b.custom_rate_limit ≡ none
      → (h.reset_after == "") ≡ false
      → (h.global == "") ≡ false
      → parse_float h.reset_after ≡ some f
      → whole f * second < 9223372036854775808
      → millis f * millisecond < 9223372036854775808
      → epoch ≤ now₁
      → now₁ + whole f * second + millis f * millisecond < epoch + 9223372036854775808
      → (m₁ m₂ m t : Time) → below d.remaining 1 ≡ false
      → m₁ ≤ m₂
      → m₂
          + (lock_bucket_object
              (release parse_float whole millis parse_time parse_int
                (some h)
                b
                now₁
                now₂
                now₃
                r).1.1
              d
              m₁
              m₂
              m).0
        ≤ t
      → m
          + (lock_bucket_object
              (release parse_float whole millis parse_time parse_int
                (some h)
                b
                now₁
                now₂
                now₃
                r).1.1
              d
              m₁
              m₂
              m).0
        ≤ t
      → now₁ + whole f * second + millis f * millisecond ≤ t
  release_global h f b d r now₁ now₂ now₃ plain after global parsed short short' later near m₁ m₂ m
        t left first own wait =
      let g = unix_nano (reset_at parse_float whole millis parse_time parse_int now₁ f) in
      let r' = record r { global = g } in
      let held : unix g ≤ t =
        (lock_bucket_object_lem r' d m₁ m₂ m t first (rw same at own) (rw same at wait)).1 left in
      let end_ = reset_at_lem now₁ f short short' in
      rw
        (
          unix-unix_nano (reset_at parse_float whole millis parse_time parse_int now₁ f)
              (omega arith) (omega arith),
          end_,
        )
        at held
    where
      same :
          (release parse_float whole millis parse_time parse_int (some h) b now₁ now₂ now₃ r).1.1
          ≡ record r {
            global = unix_nano (reset_at parse_float whole millis parse_time parse_int now₁ f);
          }
      same =
          ap (λ x. x.1.1)
            (release-steps h b b r _ now₁ now₂ now₃ plain
              (release_reset-global h f b r now₁ after global parsed))

  -- A response, on a bucket without a custom limit, that leaves no request and gives a delay for
  -- this bucket alone holds up the bucket's next request until the delay is over.
  pub release_exhausted :
      (h : Headers) (f : F) (n : ℤ) (b : Bucket) (r : RateLimiter) (now₁ now₂ now₃ : Time)
      → b.custom_rate_limit ≡ none
      → (h.reset_after == "") ≡ false
      → (h.global == "") ≡ true
      → (h.remaining == "") ≡ false
      → parse_float h.reset_after ≡ some f
      → parse_int h.remaining ≡ some n
      → below n 1 ≡ true
      → let out =
          release parse_float whole millis parse_time parse_int (some h) b now₁ now₂ now₃ r in
        (out.0 ≡ released)
        × ((m₁ m₂ m t : Time)
            → m₁ ≤ m₂
            → m₂ + (lock_bucket_object r out.1.0 m₁ m₂ m).0 ≤ t
            → m + (lock_bucket_object r out.1.0 m₁ m₂ m).0 ≤ t
            → reset_at parse_float whole millis parse_time parse_int now₁ f ≤ t)
  unfolding release_remaining
  release_exhausted h f n b r now₁ now₂ now₃ plain after own counted parsed parsed_int none_left =
      let b' = record b { reset = reset_at parse_float whole millis parse_time parse_int now₁ f } in
      rw
        (
          release-steps h b b' r r now₁ now₂ now₃ plain
              (release_reset-own h f b r now₁ after own parsed),
          counted,
          parsed_int,
        )
        (refl, wait-reset r (record b' { remaining = n }) _ none_left refl)
