-- ===== src/Ratelimit/Releasing.antt =====
-- ratelimit.go: `Bucket.Release`, which learns a bucket's limits from the headers of a response.
--
-- The parsers of strconv and net/http are parameters: `parse_float` is `ParseFloat`, whose
-- numbers are read by `whole`, the 64-bit word of the seconds before the point, and `millis`, that
-- of the whole milliseconds behind it; `parse_time` is `http.ParseTime` and `parse_int` is `ParseInt`.
use discordgo.Base.{
  ℕ, ◌+◌, ◌-◌, ◌*◌, String, not, ◌==◌, Option, none, some, leb, ltb, if◌then◌else◌,
}
use discordgo.State.Types.{Time}
use discordgo.Ratelimit.Buckets.{
  ℤ, pos, below, minus_one, millisecond, second, epoch, int_64, add_duration, sub_time, unix_nano,
  CustomRateLimit, Bucket, RateLimiter,
}

-- What `headers.Get` returns for the names that `Release` reads, "" for one that is missing.
pub record Headers : Type 0 where
  pub remaining : String
  pub reset : String
  pub global : String
  pub reset_after : String
  pub date : String

pub data Ending : Type 0 where
  released parse_failed : Ending

-- The branch for a bucket with a limit of its own.
unfoldable pub release_custom : CustomRateLimit → Bucket → (now₁ now₂ now₃ : Time) → Bucket
release_custom rl b now₁ now₂ now₃ =
    let b' =
      if leb (b.last_reset + rl.reset) now₁
      then record b { remaining = minus_one (pos rl.requests); last_reset = now₂ }
      else b in
    if below b'.remaining 1 then record b' { reset = now₃ + rl.reset } else b'

module _ {F : Type 0} (parse_float : String → Option F) (whole millis : F → ℕ)
    (parse_time : String → Option Time) (parse_int : String → Option ℤ) where
  -- `time.Duration(whole) * time.Second` and `time.Duration(frac*1000) * time.Millisecond`
  abbrev pub seconds_of : F → ℕ
  seconds_of f = int_64 (whole f * second)

  abbrev pub milliseconds_of : F → ℕ
  milliseconds_of f = int_64 (millis f * millisecond)

  -- `time.Unix(int64(whole), 0)`; one before Go's zero time is 0.
  abbrev pub unix_seconds : F → Time
  unix_seconds f =
      if ltb (whole f) 9223372036854775808
      then epoch + whole f * second
      else epoch - (18446744073709551616 - whole f) * second

  unfoldable pub reset_at : Time → F → Time
  unfolding add_duration
  reset_at now f = add_duration (add_duration now (seconds_of f)) (milliseconds_of f)

  -- The reset times, of all buckets or of this one; `none` is a header that does not parse.
  unfoldable pub release_reset :
      Headers → Bucket → Time → RateLimiter → Option (Bucket × RateLimiter)
  unfolding reset_at add_duration sub_time unix_nano
  release_reset h b now r =
      if not (h.reset_after == "")
      then elim (parse_float h.reset_after) [
        | none ↦ none
        | some f ↦
            if not (h.global == "")
            then some (b, record r { global = unix_nano (reset_at now f) })
            else some (record b { reset = reset_at now f }, r)
      ]
      else if not (h.reset == "")
      then elim (parse_time h.date) [
        | none ↦ none
        | some discord_time ↦ elim (parse_float h.reset) [
          | none ↦ none
          | some f ↦
              let time_ = add_duration (unix_seconds f) (milliseconds_of f) in
              let delta = int_64 (sub_time time_ discord_time + 250 * millisecond) in
              some (record b { reset = add_duration now delta }, r)
        ]
      ]
      else some (b, r)

  unfoldable pub release_remaining : Headers → Bucket → Ending × Bucket
  release_remaining h b =
      if h.remaining == "" then (released, b) else elim (parse_int h.remaining) [
        | none ↦ (parse_failed, b)
        | some n ↦ (released, record b { remaining = n })
      ]

  unfoldable pub release :
      Option Headers
      → Bucket
      → (now₁ now₂ now₃ : Time) → RateLimiter
      → Ending × (Bucket × RateLimiter)
  unfolding release_custom release_reset release_remaining
  release headers b now₁ now₂ now₃ r = elim b.custom_rate_limit [
    | some rl ↦ (released, (release_custom rl b now₁ now₂ now₃, r))
    | none ↦ elim headers [
      | none ↦ (released, (b, r))
      | some h ↦ elim (release_reset h b now₁ r) [
        | none ↦ (parse_failed, (b, r))
        | some (b', r') ↦ let (e, b'') = release_remaining h b' in (e, (b'', r'))
      ]
    ]
  ]
