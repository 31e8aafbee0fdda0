-- ===== src/Tests/LimitRuns.antt =====
-- Runs of the rate limiter.
use discordgo.Base.{ℕ, ◌+◌, ◌*◌, ◌≤◌, ◌≡◌, refl, String, true, false, Option, none, some, arith}
use discordgo.State.Types.{Time}
use discordgo.Ratelimit.Buckets.{
  ℤ, pos, below, epoch, unix, second, millisecond, CustomRateLimit, Bucket, RateLimiter,
  new_ratelimiter, new_bucket, lock_bucket_object,
}
use discordgo.Ratelimit.Releasing.{Headers, release}
use discordgo.Ratelimit.Registry.{WellKeyed}
use discordgo.Ratelimit.Waiting.{lock_bucket_object_lem, release-lock_bucket_object, release_global}

abbrev plain_bucket : Bucket
plain_bucket = new_bucket "guilds/10" new_ratelimiter.custom_rate_limits

-- No request remains until 9 s after the epoch.
abbrev exhausted : Bucket
exhausted = record plain_bucket { remaining = pos 0; reset = epoch + 9 * second }

-- The global limit lasts until 20 s after the epoch.
abbrev held : RateLimiter
held = record new_ratelimiter { global = 20 * second }

abbrev t₈ : Time
t₈ = epoch + 8 * second

abbrev t₉ : Time
t₉ = epoch + 9 * second

lock_bucket_object_lem_example :
    (true ≡ true → t₉ ≤ epoch + 30 * second)
    × (true ≡ false → unix held.global ≤ epoch + 30 * second)
    × (t₉ ≤ t₈ → unix held.global ≤ epoch + 30 * second)
unfolding lock_bucket_object
lock_bucket_object_lem_example =
    lock_bucket_object_lem held exhausted t₈ t₈ t₈ (epoch + 30 * second) (omega arith) (omega arith)
      (omega arith)

empty-WellKeyed : WellKeyed new_ratelimiter
empty-WellKeyed k b h = ground arith

abbrev reactions : Bucket
reactions = new_bucket "channels/30/messages//reactions//" new_ratelimiter.custom_rate_limits

abbrev reaction_limit : CustomRateLimit
reaction_limit = record { suffix = "//reactions//"; requests = 1; reset = 200 * millisecond }

-- Parsers for the texts of these runs: a number counts seconds.
abbrev parse_seconds : String → Option ℕ
parse_seconds s = some 5

abbrev seconds : ℕ → ℕ
seconds n = n

abbrev no_millis : ℕ → ℕ
no_millis n = 0

abbrev parse_date : String → Option Time
parse_date s = none

abbrev parse_count : String → Option ℤ
parse_count s = some (pos 0)

abbrev next_reaction : Bucket
next_reaction =
    (release parse_seconds seconds no_millis parse_date parse_count none
      (lock_bucket_object new_ratelimiter reactions t₈ t₈ t₈).1 t₉ t₉ t₉ new_ratelimiter).1.0

release-lock_bucket_object_example :
    (below next_reaction.remaining 2 ≡ true)
    × (next_reaction.custom_rate_limit ≡ some reaction_limit)
    × ((m₁ m₂ m t : Time)
        → m₁ ≤ m₂
        → m₂ + (lock_bucket_object new_ratelimiter next_reaction m₁ m₂ m).0 ≤ t
        → m + (lock_bucket_object new_ratelimiter next_reaction m₁ m₂ m).0 ≤ t
        → t₉ + 200 * millisecond ≤ t)
release-lock_bucket_object_example =
    release-lock_bucket_object parse_seconds seconds no_millis parse_date parse_count reaction_limit
      reactions none new_ratelimiter t₈ t₈ t₈ t₉ t₉ t₉ refl refl refl

abbrev slow_down : Headers
slow_down = record { remaining = "0"; reset = ""; global = ""; reset_after = "5"; date = "" }

abbrev slow_down_all : Headers
slow_down_all = record slow_down { global = "true" }

release_global_example : t₈ + 5 * second + 0 * millisecond ≤ epoch + 30 * second
unfolding release lock_bucket_object
release_global_example =
    release_global parse_seconds seconds no_millis parse_date parse_count slow_down_all 5
      plain_bucket plain_bucket new_ratelimiter t₈ t₈ t₈ refl refl refl refl (omega arith)
      (omega arith) (omega arith) (omega arith) t₉ t₉ t₉ (epoch + 30 * second) refl (omega arith)
      (omega arith) (omega arith)
