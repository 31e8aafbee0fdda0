-- ===== src/Voice/Dave/Renewing.antt =====
-- voice_dave_controller_libdave.go: what a commit does to the ratchets.
use discordgo.Base.{
  ℕ, ◌≤◌, String, Bool, true, false, ◌==◌, eq_iff, ◌≡◌, ◌≢◌, inl, inr, refl, Option, none, some,
  List, [], ◌∷◌, map, eqb, arith, Bool-cases, Option-cases, if◌then◌else◌, on_if, on_option,
}
use discordgo.Voice.Bytes.{Bytes}
use discordgo.Voice.Dave.Controller.{
  LibdaveController, is_in, with_user, with_user_unless_empty, install_ratchet, fetch_ratchet,
  ensure_session, current_protocol_version,
}
use discordgo.Voice.Dave.Transitions.{
  add_users, with_roster, refresh_each, refresh_ratchets, ensure_outbound_ratchet, CommitResult,
  committed, handle_mls_commit_transition,
}

-- The user's ratchet is not older than the number.
abbrev pub Since : ℕ → LibdaveController → String → Type 0
Since n c u = (h : ℕ) × ((c.ratchets u ≡ some h) × (n ≤ h))

module _ (keys : String → Bool) (n : ℕ) where
  fetch_ratchet-next :
      (u : String) (c : LibdaveController)
      → n ≤ c.next_ratchet
      → n ≤ (fetch_ratchet keys u c).1.next_ratchet
  unfolding fetch_ratchet install_ratchet
  fetch_ratchet-next u c le = ground arith

  fetch_ratchet-Since :
      (u w : String) (c : LibdaveController)
      → n ≤ c.next_ratchet
      → (u == w) ≡ true
      → w ≢ ""
      → keys w ≡ true
      → Since n (fetch_ratchet keys u c).1 w
  unfolding fetch_ratchet install_ratchet
  fetch_ratchet-Since u w c le p m k =
      (c.next_ratchet, (ground (arith, eq_iff u w, eq_iff u ""), le))

  fetch_ratchet-keeps :
      (u w : String) (c : LibdaveController)
      → n ≤ c.next_ratchet
      → Since n c w
      → Since n (fetch_ratchet keys u c).1 w
  unfolding fetch_ratchet install_ratchet
  fetch_ratchet-keeps u w c le (h, (e, f)) =
      elim (Option-cases ((fetch_ratchet keys u c).1.ratchets w)) [
        | inl o ↦ absurd (ground arith)
        | inr (k, o) ↦ (k, (o, ground arith))
      ]

  refresh_each-keeps :
      (us : List String) (w : String) (c : LibdaveController)
      → n ≤ c.next_ratchet
      → Since n c w
      → Since n (refresh_each keys us c) w
  refresh_each-keeps [] w c le s = s
  refresh_each-keeps (u ∷ us) w c le s =
      refresh_each-keeps us w (fetch_ratchet keys u c).1 (fetch_ratchet-next u c le)
        (fetch_ratchet-keeps u w c le s)

  refresh_each-Since :
      (us : List String) (w : String) (c : LibdaveController)
      → n ≤ c.next_ratchet
      → w ≢ ""
      → keys w ≡ true
      → is_in w us ≡ true
      → Since n (refresh_each keys us c) w
  refresh_each-Since [] w c le m k i = absurd (ground arith)
  refresh_each-Since (u ∷ us) w c le m k i = elim (Bool-cases (u == w)) [
    | inl p ↦
        refresh_each-keeps us w (fetch_ratchet keys u c).1 (fetch_ratchet-next u c le)
          (fetch_ratchet-Since u w c le p m k)
    | inr o ↦
        refresh_each-Since us w (fetch_ratchet keys u c).1 (fetch_ratchet-next u c le) m k
          (ground arith)
  ]

  refresh_each-next :
      (us : List String) (c : LibdaveController)
      → n ≤ c.next_ratchet
      → n ≤ (refresh_each keys us c).next_ratchet
  refresh_each-next [] c le = le
  refresh_each-next (u ∷ us) c le =
      refresh_each-next us (fetch_ratchet keys u c).1 (fetch_ratchet-next u c le)

  ensure_outbound_ratchet-keeps :
      (user_id w : String) (c : LibdaveController)
      → n ≤ c.next_ratchet
      → Since n c w
      → Since n (ensure_outbound_ratchet keys user_id c) w
  unfolding ensure_outbound_ratchet
  ensure_outbound_ratchet-keeps user_id w c le s =
      let P = λ (x : LibdaveController). Since n x w in
      on_if P (user_id == "") _ _ (λ p. s)
        (λ q.
          on_option P (c.ratchets user_id) _ _
            (λ o. on_option P c.session _ _ (λ f. s) (λ v f. fetch_ratchet-keeps user_id w c le s))
            (λ h o. s))

-- A member of the roster is wanted.
with_roster-keeps :
    (format_uint : ℕ → String) (roster : List ℕ) (us : List String) (u : String)
    → is_in u us ≡ true
    → is_in u (with_roster (map format_uint roster) us) ≡ true
with_roster-keeps format_uint [] us u i = i
with_roster-keeps format_uint (r ∷ rs) us u i =
    with_roster-keeps format_uint rs (with_user (format_uint r) us) u
      (ground (arith, eq_iff (format_uint r) u))

with_roster-wants :
    (format_uint : ℕ → String) (roster : List ℕ) (us : List String) (u : String)
    → is_in u (map format_uint roster) ≡ true
    → is_in u (with_roster (map format_uint roster) us) ≡ true
with_roster-wants format_uint [] us u i = absurd (ground arith)
with_roster-wants format_uint (r ∷ rs) us u i = elim (Bool-cases (format_uint r == u)) [
  | inl p ↦
      with_roster-keeps format_uint rs (with_user (format_uint r) us) u
        (ground (arith, eq_iff (format_uint r) u))
  | inr q ↦ with_roster-wants format_uint rs (with_user (format_uint r) us) u (ground arith)
]

add_users-keeps :
    (ws : List (Option String)) (us : List String) (u : String)
    → is_in u us ≡ true
    → is_in u (add_users ws us) ≡ true
add_users-keeps [] us u i = i
add_users-keeps (none ∷ ws) us u i = add_users-keeps ws us u i
add_users-keeps (some w ∷ ws) us u i =
    add_users-keeps ws (with_user_unless_empty w us) u (ground (arith, eq_iff w u))

ensure_session-connected :
    (user_id : String) (parses : Bool) (n v : ℕ) (c : LibdaveController)
    → c.session ≡ some v
    → ((ensure_session user_id parses n c).0 ≡ true)
      × (((w : ℕ) × ((ensure_session user_id parses n c).1.session ≡ some w))
          × ((ensure_session user_id parses n c).1.next_ratchet ≡ c.next_ratchet))
unfolding ensure_session
ensure_session-connected user_id parses n v c e =
    (ground arith, (((if eqb n 0 then 1 else n), ground arith), ground arith))

renewed :
    (keys : String → Bool) (range : List String → List String) (format_uint : ℕ → String)
    → ((us : List String) (w : String) → is_in w us ≡ true → is_in w (range us) ≡ true)
    → (user_id : String) (roster : List ℕ) (u : String) (n : ℕ) (c : LibdaveController)
    → n ≤ c.next_ratchet
    → is_in u (map format_uint roster) ≡ true
    → keys u ≡ true
    → u ≢ ""
    → Since n
        (ensure_outbound_ratchet keys user_id (refresh_ratchets keys range format_uint roster c))
        u
unfolding refresh_ratchets
renewed keys range format_uint all user_id roster u n c le i k m =
    let us =
      range
        (add_users (map c.ssrc_users c.mapped_ssrcs) (with_roster (map format_uint roster) [])) in
    ensure_outbound_ratchet-keeps keys n user_id u (refresh_each keys us c)
      (refresh_each-next keys n us c le)
      (refresh_each-Since keys n us u c le m k (
        all _ u (
          add_users-keeps (map c.ssrc_users c.mapped_ssrcs) _ u
            (with_roster-wants format_uint roster [] u i))))

committed_lem :
    (keys : String → Bool) (range : List String → List String) (format_uint : ℕ → String)
    → (user_id : String) (parses : Bool) (process : Bytes → CommitResult) (b : ℕ) (bs : Bytes)
    → (roster : List ℕ) (w : ℕ) (c : LibdaveController)
    → (ensure_session user_id parses (current_protocol_version c) c).0 ≡ true
    → (ensure_session user_id parses (current_protocol_version c) c).1.session ≡ some w
    → process (b ∷ bs) ≡ committed roster
    → handle_mls_commit_transition keys range format_uint user_id parses process (b ∷ bs) c ≡ (
      (some true, false),
      ensure_outbound_ratchet keys user_id (
          refresh_ratchets keys range format_uint roster
            (ensure_session user_id parses (current_protocol_version c) c).1),
    )
unfolding handle_mls_commit_transition
committed_lem keys range format_uint user_id parses process b bs roster w c e f g =
    rw (e, f, g) refl

-- A commit that the session of a connected controller takes is answered, and gives each member of
-- its roster that the session has a ratchet for a new ratchet: one that did not exist before. This
-- is for any order in which Go ranges over the users, if it leaves none out.
pub handle_mls_commit_transition-Since :
    (keys : String → Bool) (range : List String → List String) (format_uint : ℕ → String)
    → (user_id : String) (parses : Bool) (process : Bytes → CommitResult) (b : ℕ) (bs : Bytes)
    → (roster : List ℕ) (v : ℕ) (u : String) (c : LibdaveController)
    → ((us : List String) (w : String) → is_in w us ≡ true → is_in w (range us) ≡ true)
    → c.session ≡ some v
    → process (b ∷ bs) ≡ committed roster
    → is_in u (map format_uint roster) ≡ true
    → keys u ≡ true
    → u ≢ ""
    → let out =
        handle_mls_commit_transition keys range format_uint user_id parses process (b ∷ bs) c in
      (out.0 ≡ (some true, false)) × Since c.next_ratchet out.1 u
handle_mls_commit_transition-Since keys range format_uint user_id parses process b bs roster v u c
      all e f i k m =
    let s = ensure_session user_id parses (current_protocol_version c) c in
    let (ok, ((w, g), t)) =
      ensure_session-connected user_id parses (current_protocol_version c) v c e in
    let fresh =
      renewed keys range format_uint all user_id roster u c.next_ratchet s.1 (omega (arith, t)) i k
        m in
    let same = committed_lem keys range format_uint user_id parses process b bs roster w c ok g f in
    rw same (refl, fresh)
