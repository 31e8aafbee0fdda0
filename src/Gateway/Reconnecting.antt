-- ===== src/Gateway/Reconnecting.antt =====
-- wsapi.go: the loop of `reconnect`, without the voice connections that it starts again.
use discordgo.Base.{
  ℕ, zero, suc, ◌+◌, ◌*◌, ◌^◌, ◌<◌, ◌≡◌, ◌≢◌, refl, sym, ap, ◌∙◌, Bool, true, List, [], ◌∷◌, ltb,
  if◌then◌else◌, arith,
}
use native.Mathlib.Nat.{add-zero, zero-add, pow-suc}

-- How a call of `Open` ends; `open_failed` is any error but `ErrWSAlreadyOpen`.
pub data Opening : Type 0 where
  opened already_open open_failed : Opening

-- How the loop ends; `not_wanted` is without a try, and `tries_left` is the end of the fuel.
pub data Ending : Type 0 where
  connected connected_elsewhere not_wanted tries_left : Ending

-- `wait *= 2; if wait > 600 { wait = 600 }`
abbrev pub next_wait : ℕ → ℕ
next_wait wait = if ltb 600 (wait * 2) then 600 else wait * 2

-- The loop from its `i`-th try on: the waits in seconds, and how it ends. What the tries come to
-- is a parameter.
unfoldable pub reconnect_from : (ℕ → Opening) → (fuel i wait : ℕ) → List ℕ × Ending
reconnect_from opening zero i wait = ([], tries_left)
reconnect_from opening (suc fuel) i wait =
    let (waits, end_) = reconnect_from opening fuel (suc i) (next_wait wait) in
    elim (opening i) [
      | opened ↦ ([], connected)
      | already_open ↦ ([], connected_elsewhere)
      | open_failed ↦ (wait ∷ waits, end_)
    ]

unfoldable pub reconnect : Bool → (ℕ → Opening) → ℕ → List ℕ × Ending
unfolding reconnect_from
reconnect should_reconnect opening fuel =
    if should_reconnect then reconnect_from opening fuel 0 1 else ([], not_wanted)

-- The wait after the `k`-th try that fails.
abbrev pub backoff : ℕ → ℕ
backoff k = if ltb 600 (2 ^ k) then 600 else 2 ^ k

abbrev pub backoffs : ℕ → ℕ → List ℕ
backoffs i zero = []
backoffs i (suc n) = backoff i ∷ backoffs (suc i) n

abbrev ends : Opening → Ending
ends opened = connected
ends already_open = connected_elsewhere
ends open_failed = tries_left

next_wait-backoff : (k : ℕ) → next_wait (backoff k) ≡ backoff (suc k)
next_wait-backoff k = ground (arith, pow-suc 2 k)

reconnect_from-now :
    (opening : ℕ → Opening) (r : Opening) (i fuel : ℕ)
    → opening i ≡ r
    → ends r ≢ tries_left
    → reconnect_from opening (suc fuel) i (backoff i) ≡ ([], ends r)
unfolding reconnect_from
reconnect_from-now opening opened i fuel e final = rw (reconnect_from, e) refl
reconnect_from-now opening already_open i fuel e final = rw (reconnect_from, e) refl
reconnect_from-now opening open_failed i fuel e final = absurd (final refl)

-- From the `i`-th try on, with the wait that belongs to it.
reconnect_from_lem :
    (opening : ℕ → Opening) (r : Opening) (n i fuel : ℕ)
    → (opening (i + n) ≡ r)
    → (ends r ≢ tries_left)
    → ((k : ℕ) → k < n → opening (i + k) ≡ open_failed)
    → n < fuel
    → reconnect_from opening fuel i (backoff i) ≡ (backoffs i n, ends r)
unfolding reconnect_from
reconnect_from_lem opening r n i zero e final failed enough = absurd (omega arith)
reconnect_from_lem opening r zero i (suc fuel) e final failed enough =
    reconnect_from-now opening r i fuel (rw add-zero at e) final
reconnect_from_lem opening r (suc n) i (suc fuel) e final failed enough =
    rw
      (
        reconnect_from,
        first,
        next_wait-backoff i,
        reconnect_from_lem opening r n (suc i) fuel later final failed_later (omega arith),
      )
      refl
  where
    shifted : (k : ℕ) → suc i + k ≡ i + suc k
    shifted k = omega arith

    first : opening i ≡ open_failed
    first = sym (ap opening (add-zero i)) ∙ failed 0 (omega arith)

    later : opening (suc i + n) ≡ r
    later = ap opening (shifted n) ∙ e

    failed_later : (k : ℕ) → k < n → opening (suc i + k) ≡ open_failed
    failed_later k h = ap opening (shifted k) ∙ failed (suc k) (omega arith)

-- If the first `n` tries to open the connection fail and the next one ends otherwise, the loop
-- ends with that try, however much fuel is given beyond it, and waits after the `k`-th failure
-- for `2 ^ k` seconds, but for 600 at most.
pub reconnect_lem :
    (opening : ℕ → Opening) (n fuel : ℕ)
    → opening n ≢ open_failed
    → ((k : ℕ) → k < n → opening k ≡ open_failed)
    → n < fuel
    → reconnect true opening fuel ≡ (backoffs 0 n, ends (opening n))
unfolding reconnect
reconnect_lem opening n fuel final failed enough =
    reconnect_from_lem opening (opening n) n 0 fuel (ap opening (zero-add n))
      (ends-final (opening n) final) (λ k h. ap opening (zero-add k) ∙ failed k h) enough
  where
    ends-final : (r : Opening) → r ≢ open_failed → ends r ≢ tries_left
    ends-final opened h e = ground arith
    ends-final already_open h e = ground arith
    ends-final open_failed h e = absurd (h refl)
