-- ===== src/State/Keeps.antt =====
-- What an action keeps, for the steps that the actions of state.go are built of.
use discordgo.Base.{◌≡◌, refl, Bool, true, false, Option, none, some, if◌then◌else◌}
use discordgo.State.Store.{
  State, Outcome, done, fails, panics, Action, found, resume, settled, errored, attempt, error_of,
  finish, Error, ◌>>=◌,
}

-- Whatever the outcome, `P` holds afterwards if it held before.
abbrev pub Keeps {ℓ} : {A : Type ℓ} → (State → Type 0) → Action A → Type 0
Keeps P m = (s : State) → P s → P (m s).1

module _ (P : State → Type 0) where
  resume-Keeps {ℓ κ} :
      {A : Type ℓ} {B : Type κ} (r : Outcome A) (f : A → Action B) (s : State)
      → P s
      → ((a : A) → r ≡ done a → P (f a s).1)
      → P (resume r f s).1
  resume-Keeps (done a) f s h k = k a refl
  resume-Keeps (fails e) f s h k = h
  resume-Keeps panics f s h k = h

  -- The equation says what the first action returned.
  pub bind-keeps_eq {ℓ κ} :
      {A : Type ℓ} {B : Type κ} (m : Action A) (f : A → Action B) (s : State)
      → P (m s).1
      → ((a : A) → (m s).0 ≡ done a → P (f a (m s).1).1)
      → P ((m >>= f) s).1
  bind-keeps_eq m f s h k = resume-Keeps (m s).0 f (m s).1 h k

  pub bind-Keeps {ℓ κ} :
      {A : Type ℓ} {B : Type κ} (m : Action A) (f : A → Action B)
      → Keeps P m
      → ((a : A) → Keeps P (f a))
      → Keeps P (m >>= f)
  bind-Keeps m f km kf s h = bind-keeps_eq m f s (km s h) (λ a _. kf a (m s).1 (km s h))

  pub found-Keeps {ℓ κ} :
      {A : Type ℓ} {B : Type κ} (o : Option A) (f : A → Action B) (s : State)
      → P s
      → ((a : A) → o ≡ some a → P (f a s).1)
      → P ((found o >>= f) s).1
  found-Keeps none f s h k = h
  found-Keeps (some a) f s h k = k a refl

  pub found_only-Keeps {ℓ} : {A : Type ℓ} (o : Option A) → Keeps P (found o)
  found_only-Keeps none s h = h
  found_only-Keeps (some a) s h = h

  pub attempt-Keeps {ℓ} : {A : Type ℓ} (m : Action A) → Keeps P m → Keeps P (attempt m)
  attempt-Keeps {A} m km s h = go (m s) (km s h)
    where
      go : (r : Outcome A × State) → P r.1 → P (settled r).1
      go (done a, t) k = k
      go (fails e, t) k = k
      go (panics, t) k = k

  pub error_of-Keeps {ℓ} : {A : Type ℓ} (m : Action A) → Keeps P m → Keeps P (error_of m)
  error_of-Keeps {A} m km s h = go (m s) (km s h)
    where
      go : (r : Outcome A × State) → P r.1 → P (errored r).1
      go (done a, t) k = k
      go (fails e, t) k = k
      go (panics, t) k = k

  pub finish-Keeps : (o : Option Error) → Keeps P (finish o)
  finish-Keeps none s h = h
  finish-Keeps (some e) s h = h

  pub if-Keeps {ℓ} :
      {A : Type ℓ} (b : Bool) (m n : Action A)
      → Keeps P m
      → Keeps P n
      → Keeps P (if b then m else n)
  if-Keeps true m n km kn = km
  if-Keeps false m n km kn = kn
