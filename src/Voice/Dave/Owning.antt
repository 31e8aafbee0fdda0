-- ===== src/Voice/Dave/Owning.antt =====
-- voice_dave_controller_libdave.go: which ratchets a controller has open, and which of them its
-- decryptors and its encryptor use.
use discordgo.Base.{
  ℕ, ◌<◌, String, Bool, true, eq_iff, eq_refl, ◌≡◌, ◌≢◌, sym, ap, ◌∙◌, Option, none, some, eqb,
  arith, Bool-cases, Option-cases, inl, inr,
}
use discordgo.Voice.Dave.Controller.{
  LibdaveController, Encryptor, Decryptor, is_in, install_ratchet, fetch_ratchet,
}

-- Each ratchet that is held is open and held for one user, and each that is open is held.
pub record Holding (c : LibdaveController) : Type 0 where
  pub is_live : (u : String) (h : ℕ) → c.ratchets u ≡ some h → c.live h ≡ true
  pub own : (u w : String) (h : ℕ) → c.ratchets u ≡ some h → c.ratchets w ≡ some h → u ≡ w
  pub held : (h : ℕ) → c.live h ≡ true → (u : String) × (c.ratchets u ≡ some h)
  pub below : (h : ℕ) → c.live h ≡ true → h < c.next_ratchet
  pub listed : (u : String) (h : ℕ) → c.ratchets u ≡ some h → is_in u c.ratchet_users ≡ true
  pub connected : (u : String) → c.session ≡ none → c.ratchets u ≡ none
  pub named : c.ratchets "" ≡ none

-- A decryptor belongs to a user and uses the ratchet that is held for that user.
pub record Tuned (c : LibdaveController) : Type 0 where
  pub mapped :
      (ssrc : ℕ) (d : Decryptor)
      → c.decryptors ssrc ≡ some d
      → (u : String) × (c.ssrc_users ssrc ≡ some u)
  pub current :
      (ssrc : ℕ) (u : String) (d : Decryptor)
      → c.ssrc_users ssrc ≡ some u
      → c.decryptors ssrc ≡ some d
      → c.ratchets u ≡ some d.ratchet

abbrev pub ratchet_of : Option Encryptor → Option ℕ
ratchet_of none = none
ratchet_of (some e) = e.ratchet

-- Once the encryptor was given a ratchet, it has the one that is held for the local user.
pub record Outbound (user_id : String) (c : LibdaveController) : Type 0 where
  pub local : c.local_user_id ≡ user_id
  pub ready :
      (h : ℕ)
      → c.outbound_ratchet_set ≡ true
      → c.ratchets user_id ≡ some h
      → ratchet_of c.encryptor ≡ some h

module _ (keys : String → Bool) (u : String) (c : LibdaveController) where
  pub fetch_ratchet-Holding :
      (v : ℕ) → c.session ≡ some v → u ≢ "" → Holding c → Holding (fetch_ratchet keys u c).1
  unfolding fetch_ratchet install_ratchet
  fetch_ratchet-Holding v linked nonempty i = record {
    is_live =
        λ w h e. ground (arith, eq_iff u w, eq_iff u "", i.is_live w h, i.below h, i.own u w h);
    own = λ w v h e f. ground (
      arith,
      eq_iff u w,
      eq_iff u v,
      eq_iff u "",
      i.own w v h,
      i.is_live w h,
      i.is_live v h,
      i.below h,
    );
    held = λ h e. elim (Bool-cases (eqb h c.next_ratchet)) [
      | inl p ↦ (u, ground (arith, eq_refl u, eq_iff u "", i.below h))
      | inr n ↦
          let (w, f) = i.held h (ground (arith, eq_iff u "")) in
          (w, ground (arith, eq_iff u w, eq_iff u "", i.is_live u))
    ];
    below = λ h e. ground (arith, i.below h);
    listed = λ w h e. ground (arith, eq_iff u w, eq_iff u "", i.listed w h);
    connected = λ w e. ground (arith, i.connected w, linked);
    named = ground (arith, eq_iff u "", i.named);
  }

  pub fetch_ratchet-Tuned : Tuned c → Tuned (fetch_ratchet keys u c).1
  unfolding fetch_ratchet install_ratchet
  fetch_ratchet-Tuned i = record {
    mapped = λ ssrc d e. elim (Option-cases (c.decryptors ssrc)) [
      | inl n ↦ absurd (ground arith)
      | inr (d', f) ↦ let (w, g) = i.mapped ssrc d' f in (w, ground arith)
    ];
    current = λ ssrc w d e f. elim (Option-cases (c.decryptors ssrc)) [
      | inl n ↦ absurd (ground arith)
      | inr (d', g) ↦ ground (arith, eq_iff w u, eq_iff u w, i.current ssrc w d')
    ];
  }

  pub fetch_ratchet-Outbound :
      (user_id : String) → Outbound user_id c → Outbound user_id (fetch_ratchet keys u c).1
  unfolding fetch_ratchet install_ratchet
  fetch_ratchet-Outbound user_id i = record {
    local = ground (arith, i.local);
    ready = λ h e f. ground (arith, i.local, i.ready h, eq_iff u c.local_user_id, eq_iff u user_id);
  }

-- Where the ratchets, and what is open, stay as they are.
pub Holding-same :
    (c c' : LibdaveController)
    → c.ratchets ≡ c'.ratchets
    → c.live ≡ c'.live
    → c.next_ratchet ≡ c'.next_ratchet
    → c.ratchet_users ≡ c'.ratchet_users
    → (c'.session ≡ none → c.session ≡ none)
    → Holding c
    → Holding c'
Holding-same c c' r l n t s i =
    let at = λ (u : String). ap (λ f. f u) r in
    let open_at = λ (h : ℕ). ap (λ f. f h) l in
    record {
      is_live = λ u h e. ground (arith, i.is_live u h, at u, open_at h);
      own = λ u w h e f. ground (arith, i.own u w h, at u, at w);
      held = λ h e. let (u, f) = i.held h (ground (arith, open_at h)) in (u, ground (arith, at u));
      below = λ h e. ground (arith, i.below h, open_at h, n);
      listed = λ u h e. ground (arith, i.listed u h, at u, t);
      connected = λ u e. ground (arith, i.connected u, s, at u);
      named = sym (at "") ∙ i.named;
    }

pub Tuned-same :
    (c c' : LibdaveController)
    → c.ratchets ≡ c'.ratchets
    → c.ssrc_users ≡ c'.ssrc_users
    → c.decryptors ≡ c'.decryptors
    → Tuned c
    → Tuned c'
Tuned-same c c' r s t i =
    let users_at = λ (n : ℕ). ap (λ f. f n) s in
    let decryptors_at = λ (n : ℕ). ap (λ f. f n) t in
    record {
      mapped = λ ssrc d e.
          let (u, f) = i.mapped ssrc d (ground (arith, decryptors_at ssrc)) in
          (u, ground (arith, users_at ssrc));
      current = λ ssrc u d e f.
          ground (arith, i.current ssrc u d, users_at ssrc, decryptors_at ssrc, ap (λ f. f u) r);
    }

-- What holds of a controller at any time.
pub record Sound (user_id : String) (c : LibdaveController) : Type 0 where
  pub holding : Holding c
  pub tuned : Tuned c
  pub outbound : Outbound user_id c

pub fetch_ratchet-session :
    (keys : String → Bool) (u : String) (c : LibdaveController)
    → (fetch_ratchet keys u c).1.session ≡ c.session
unfolding fetch_ratchet install_ratchet
fetch_ratchet-session keys u c = ground arith

pub fetch_ratchet-Sound :
    (keys : String → Bool) (u user_id : String) (c : LibdaveController) (v : ℕ)
    → c.session ≡ some v
    → u ≢ ""
    → Sound user_id c
    → Sound user_id (fetch_ratchet keys u c).1
fetch_ratchet-Sound keys u user_id c v e n i = record {
  holding = fetch_ratchet-Holding keys u c v e n i.holding;
  tuned = fetch_ratchet-Tuned keys u c i.tuned;
  outbound = fetch_ratchet-Outbound keys u c user_id i.outbound;
}
