-- ===== src/Ratelimit/Registry.antt =====
-- The buckets of the rate limiter of ratelimit.go by their keys.
use discordgo.Base.{
  ◌≡◌, refl, String, false, ◌==◌, eq_iff, eq_refl, none, some, put, Option-cases, inl, inr, arith,
}
use discordgo.State.Types.{Time}
use discordgo.Ratelimit.Buckets.{
  minus_one, Bucket, RateLimiter, new_bucket, get_bucket, lock_bucket_object, lock_bucket,
}

-- A bucket stands under its own key.
abbrev pub WellKeyed : RateLimiter → Type 0
WellKeyed r = (k : String) (b : Bucket) → r.buckets k ≡ some b → b.key ≡ k

get_bucket-some :
    (key : String) (r : RateLimiter) (b : Bucket)
    → r.buckets key ≡ some b
    → get_bucket key r ≡ (b, r)
unfolding get_bucket
get_bucket-some key r b e = rw (get_bucket, e) refl

get_bucket-none :
    (key : String) (r : RateLimiter)
    → r.buckets key ≡ none
    → let b = new_bucket key r.custom_rate_limits in
      get_bucket key r ≡ (b, record r { buckets = put key b r.buckets })
unfolding get_bucket
get_bucket-none key r e = rw (get_bucket, e) refl

-- In a limiter whose buckets stand under their own keys, `GetBucket` returns the bucket of its
-- key, a new one with one request if there is none, and returns the same one the next time; the
-- other keys keep their buckets, and all stand under their own keys again.
pub get_bucket_lem :
    (key : String) (r : RateLimiter)
    → WellKeyed r
    → let out = get_bucket key r in
      (out.0.key ≡ key)
      × (out.0 ≡ elim (r.buckets key) [ some b ↦ b | none ↦ new_bucket key r.custom_rate_limits ])
      × (get_bucket key out.1 ≡ out)
      × ((k : String) → (key == k) ≡ false → out.1.buckets k ≡ r.buckets k)
      × WellKeyed out.1
get_bucket_lem key r v = elim (Option-cases (r.buckets key)) [
  | inl e ↦
      let b = new_bucket key r.custom_rate_limits in
      let t = record r { buckets = put key b r.buckets } in
      rw (get_bucket-none key r e, e)
        (
          refl,
          refl,
          get_bucket-some key t b (rw (eq_refl key) refl),
          λ k other. rw other refl,
          λ k b h. ground (arith, v k b, eq_iff key k),
        )
  | inr (b, e) ↦
      rw (get_bucket-some key r b e, e)
        (v key b e, refl, get_bucket-some key r b e, λ k other. refl, v)
]

get_bucket-global : (key : String) (r : RateLimiter) → (get_bucket key r).1.global ≡ r.global
unfolding get_bucket
get_bucket-global key r = ground arith

-- In a limiter whose buckets stand under their own keys, `LockBucket` takes one request off the
-- bucket of its key, which is made if it is missing, and leaves the other buckets and the global
-- limit alone; all stand under their own keys again.
pub lock_bucket_lem :
    (key : String) (now₁ now₂ now : Time) (r : RateLimiter)
    → WellKeyed r
    → let b = (get_bucket key r).0 in
      let t = (lock_bucket key now₁ now₂ now r).1 in
      (t.buckets key ≡ some (record b { remaining = minus_one b.remaining }))
      × ((k : String) → (key == k) ≡ false → t.buckets k ≡ r.buckets k)
      × (t.global ≡ r.global)
      × WellKeyed t
unfolding lock_bucket lock_bucket_object
lock_bucket_lem key now₁ now₂ now r v =
    let (own, same, again, others, keyed) = get_bucket_lem key r v in
    rw own (
      rw (eq_refl key) refl,
      λ k other. rw other (others k other),
      get_bucket-global key r,
      λ k b h. ground (arith, keyed k b, eq_iff key k),
    )
