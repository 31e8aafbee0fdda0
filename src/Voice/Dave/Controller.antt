-- ===== src/Voice/Dave/Controller.antt =====
-- voice_dave_controller_libdave.go: the state of `libdaveVoiceController`, the upkeep of its
-- session, and the ratchets that it takes from there.
--
-- A key ratchet is a native object, told by a number; `live` holds of those that are not closed.
-- Whether the session has a ratchet for a user is a parameter, `keys`. The controller locks
-- itself for each access; an operation is one step here.
use discordgo.Base.{
  ℕ, ◌+◌, String, Bool, true, false, ◌==◌, Option, none, some, List, [], ◌∷◌, Map, no_keys, put,
  write, eqb, has, if◌then◌else◌,
}

-- What the controller has told an encryptor: its ratchet, its mode, and the SSRC of its codec.
pub record Encryptor : Type 0 where
  pub ratchet : Option ℕ
  pub passthrough : Bool
  pub codec_ssrc : Option ℕ

-- A decryptor's ratchet, and its mode once the controller has set it.
pub record Decryptor : Type 0 where
  pub ratchet : ℕ
  pub passthrough : Option Bool

pub record LibdaveController : Type 0 where
  -- The protocol version that the session was given last.
  pub session : Option ℕ
  pub encryptor : Option Encryptor
  pub protocol_version : ℕ
  pub local_user_id : String
  pub ratchets : Map ℕ
  pub decryptors : ℕ → Option Decryptor
  pub ssrc_users : ℕ → Option String
  pub known_users : List String
  pub outbound_ratchet_set : Bool
  pub outbound_ssrc : ℕ
  -- The native ratchets that are open, and the number of the next.
  pub live : ℕ → Bool
  pub next_ratchet : ℕ
  -- The keys that `ratchets` and `ssrc_users` were given.
  pub ratchet_users : List String
  pub mapped_ssrcs : List ℕ

-- A Go map of empty structs is a list of its keys.
abbrev pub is_in : String → List String → Bool
is_in u = has (λ w. w == u)

abbrev pub with_user : String → List String → List String
with_user u us = if is_in u us then us else u ∷ us

abbrev pub with_user_unless_empty : String → List String → List String
with_user_unless_empty u us = if u == "" then us else with_user u us

abbrev pub with_users_unless_empty : List String → List String → List String
with_users_unless_empty [] us = us
with_users_unless_empty (w ∷ ws) us = with_users_unless_empty ws (with_user_unless_empty w us)

-- `newDefaultDAVEController`
unfoldable pub new_default_dave_controller : (user_id : String) → LibdaveController
new_default_dave_controller user_id = record {
  session = none;
  encryptor = none;
  protocol_version = 0;
  local_user_id = user_id;
  ratchets = no_keys;
  decryptors = λ ssrc. none;
  ssrc_users = λ ssrc. none;
  known_users = with_user_unless_empty user_id [];
  outbound_ratchet_set = false;
  outbound_ssrc = 0;
  live = λ h. false;
  next_ratchet = 0;
  ratchet_users = [];
  mapped_ssrcs = [];
}

-- `kr.Close()` of a ratchet that may be nil.
abbrev pub close_ratchet : Option ℕ → (ℕ → Bool) → ℕ → Bool
close_ratchet none live = live
close_ratchet (some h) live = write h false live

-- Whether a map of SSRCs leads from this one to the user.
abbrev pub belongs : Option String → String → Bool
belongs none u = false
belongs (some w) u = w == u

abbrev pub retune : Bool → ℕ → Option Decryptor → Option Decryptor
retune b h none = none
retune b h (some d) = if b then some (record d { ratchet = h }) else some d

-- `installRatchet` of a ratchet that is not nil
unfoldable pub install_ratchet : String → ℕ → LibdaveController → LibdaveController
install_ratchet user_id h c = if user_id == "" then c else record c {
  live = close_ratchet (c.ratchets user_id) c.live;
  ratchets = put user_id h c.ratchets;
  ratchet_users = user_id ∷ c.ratchet_users;
  outbound_ratchet_set = if user_id == c.local_user_id then false else c.outbound_ratchet_set;
  decryptors = λ ssrc. retune (belongs (c.ssrc_users ssrc) user_id) h (c.decryptors ssrc);
}

-- `session.GetKeyRatchet`
abbrev pub get_key_ratchet :
    (keys : String → Bool) → String → LibdaveController → Option ℕ × LibdaveController
get_key_ratchet keys user_id c =
    if keys user_id
    then (
      some c.next_ratchet,
      record c { live = write c.next_ratchet true c.live; next_ratchet = c.next_ratchet + 1 },
    )
    else (none, c)

-- A ratchet that the session has is installed.
unfoldable pub fetch_ratchet :
    (keys : String → Bool) → String → LibdaveController → Option ℕ × LibdaveController
unfolding install_ratchet
fetch_ratchet keys user_id c =
    let (kr, c') = get_key_ratchet keys user_id c in
    elim kr [ none ↦ (none, c') | some h ↦ (some h, install_ratchet user_id h c') ]

-- `ensureSession`; `false` is the error for a channel ID that does not parse, which keeps what
-- was learnt of the user.
unfoldable pub ensure_session :
    (user_id : String) (channel_parses : Bool) (protocol_version : ℕ)
    → LibdaveController
    → Bool × LibdaveController
ensure_session user_id channel_parses protocol_version c =
    let version = if eqb protocol_version 0 then 1 else protocol_version in
    let c' = record c {
      known_users = with_user_unless_empty user_id c.known_users;
      local_user_id = if user_id == "" then c.local_user_id else user_id;
    } in
    let opened = record c' { session = some version; protocol_version = version } in
    elim c.session [
      | none ↦ if channel_parses then (true, opened) else (false, c')
      | some old ↦ (true, opened)
    ]

abbrev pub current_protocol_version : LibdaveController → ℕ
current_protocol_version c = if eqb c.protocol_version 0 then 1 else c.protocol_version

abbrev pub close_ratchets : Map ℕ → List String → (ℕ → Bool) → ℕ → Bool
close_ratchets m [] live = live
close_ratchets m (u ∷ us) live = close_ratchets m us (close_ratchet (m u) live)

-- `Close`
unfoldable pub close_controller : LibdaveController → LibdaveController
close_controller c = record c {
  decryptors = λ ssrc. none;
  live = close_ratchets c.ratchets c.ratchet_users c.live;
  ratchets = no_keys;
  session = none;
  encryptor = none;
}
