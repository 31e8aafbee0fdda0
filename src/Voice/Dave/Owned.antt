-- ===== src/Voice/Dave/Owned.antt =====
-- voice_dave_controller_libdave.go: what each operation does to the ratchets that are open and in
-- use.
use discordgo.Base.{
  ℕ, ◌%◌, String, Bool, true, ◌==◌, eq_iff, ◌≡◌, refl, some, List, [], ◌∷◌, arith, Map, Bool-cases,
  Option-cases, inl, inr,
}
use discordgo.Voice.Dave.Controller.{
  LibdaveController, is_in, close_ratchet, close_ratchets, ensure_session, close_controller,
  new_default_dave_controller,
}
use discordgo.Voice.Dave.Transitions.{prepare_transition, client_disconnected}
use discordgo.Voice.Dave.Owning.{Holding-same, Tuned-same, Sound}

pub new_default_dave_controller-Sound :
    (user_id : String) → Sound user_id (new_default_dave_controller user_id)
unfolding new_default_dave_controller
new_default_dave_controller-Sound user_id = record {
  holding = record {
    is_live = λ u h e. ground arith;
    own = λ u w h e f. ground arith;
    held = λ h e. absurd (ground arith);
    below = λ h e. ground arith;
    listed = λ u h e. ground arith;
    connected = λ u e. refl;
    named = refl;
  };
  tuned = record {
    mapped = λ ssrc d e. absurd (ground arith);
    current = λ ssrc u d e f. ground arith;
  };
  outbound = record { local = refl; ready = λ h e f. ground arith };
}

pub ensure_session-Sound :
    (user_id : String) (parses : Bool) (n : ℕ) (c : LibdaveController)
    → Sound user_id c
    → Sound user_id (ensure_session user_id parses n c).1
unfolding ensure_session
ensure_session-Sound user_id parses n c i = record {
  holding =
      Holding-same c _ (ground arith) (ground arith) (ground arith) (ground arith)
        (λ e. ground arith) i.holding;
  tuned = Tuned-same c _ (ground arith) (ground arith) (ground arith) i.tuned;
  outbound = record {
    local = ground (arith, i.outbound.local);
    ready = λ h e f. ground (arith, i.outbound.ready h);
  };
}

pub prepare_transition-Sound :
    (user_id : String) (parses : Bool) (transition_id n : ℕ) (c : LibdaveController)
    → Sound user_id c
    → Sound user_id (prepare_transition user_id parses transition_id n c).1
unfolding prepare_transition
prepare_transition-Sound user_id parses transition_id n c j =
    let i = ensure_session-Sound user_id parses (n % 65536) c j in
    let c' = (ensure_session user_id parses (n % 65536) c).1 in
    record {
      holding =
          Holding-same c' _ (ground arith) (ground arith) (ground arith) (ground arith)
            (λ e. ground arith) i.holding;
      tuned = record {
        mapped = λ ssrc d e. elim (Option-cases (c'.decryptors ssrc)) [
          | inl n ↦ absurd (ground arith)
          | inr (d', f) ↦ let (u, g) = i.tuned.mapped ssrc d' f in (u, ground arith)
        ];
        current = λ ssrc u d e f. elim (Option-cases (c'.decryptors ssrc)) [
          | inl n ↦ absurd (ground arith)
          | inr (d', g) ↦ ground (arith, i.tuned.current ssrc u d')
        ];
      };
      outbound = record {
        local = ground (arith, i.outbound.local);
        ready = λ h e f. ground (arith, i.outbound.ready h);
      };
    }

pub client_disconnected-Sound :
    (user_id u : String) (c : LibdaveController)
    → Sound user_id c
    → Sound user_id (client_disconnected u c)
unfolding client_disconnected
client_disconnected-Sound user_id u c i = record {
  holding = record {
    is_live = λ w h e. ground (arith, eq_iff u w, i.holding.is_live w h, i.holding.own u w h);
    own = λ w v h e f. ground (arith, i.holding.own w v h);
    held = λ h e.
        let (w, f) = i.holding.held h (ground arith) in
        (w, ground (arith, eq_iff u w, i.holding.is_live u));
    below = λ h e. ground (arith, i.holding.below h);
    listed = λ w h e. ground (arith, i.holding.listed w h);
    connected = λ w e. ground (arith, i.holding.connected w);
    named = ground (arith, i.holding.named);
  };
  tuned = record {
    mapped = λ ssrc d e. let (w, f) = i.tuned.mapped ssrc d (ground arith) in (w, ground arith);
    current = λ ssrc w d e f. ground (arith, eq_iff w u, eq_iff u w, i.tuned.current ssrc w d);
  };
  outbound = record {
    local = ground (arith, i.outbound.local);
    ready = λ h e f. ground (arith, i.outbound.ready h);
  };
}

module _ (m : Map ℕ) where
  close_ratchets-closed :
      (us : List String) (live : ℕ → Bool) (h : ℕ)
      → close_ratchets m us live h ≡ true
      → live h ≡ true
  close_ratchets-closed [] live h e = e
  close_ratchets-closed (u ∷ us) live h e =
      let f = close_ratchets-closed us (close_ratchet (m u) live) h e in ground arith

  close_ratchets-closes :
      (us : List String) (live : ℕ → Bool) (h : ℕ) (u : String)
      → is_in u us ≡ true
      → m u ≡ some h
      → ¬ (close_ratchets m us live h ≡ true)
  close_ratchets-closes [] live h u i e f = ground arith
  close_ratchets-closes (w ∷ us) live h u i e f = elim (Bool-cases (w == u)) [
    | inl p ↦
        let g = close_ratchets-closed us (close_ratchet (m w) live) h f in
        ground (arith, eq_iff w u)
    | inr n ↦ close_ratchets-closes us (close_ratchet (m w) live) h u (ground arith) e f
  ]

pub close_controller-Sound :
    (user_id : String) (c : LibdaveController)
    → Sound user_id c
    → Sound user_id (close_controller c)
unfolding close_controller
close_controller-Sound user_id c i = record {
  holding = record {
    is_live = λ u h e. ground arith;
    own = λ u w h e f. ground arith;
    held = λ h e.
        let (u, f) =
          i.holding.held h (close_ratchets-closed c.ratchets c.ratchet_users c.live h e) in
        absurd (
          close_ratchets-closes c.ratchets c.ratchet_users c.live h u (i.holding.listed u h f) f e);
    below = λ h e. i.holding.below h (close_ratchets-closed c.ratchets c.ratchet_users c.live h e);
    listed = λ u h e. ground arith;
    connected = λ u e. refl;
    named = refl;
  };
  tuned = record {
    mapped = λ ssrc d e. absurd (ground arith);
    current = λ ssrc u d e f. ground arith;
  };
  outbound = record { local = i.outbound.local; ready = λ h e f. ground arith };
}
