-- ===== src/State/Store.antt =====
-- `State` of state.go with the memory that its pointers lead into, and the actions on it.
--
-- A method runs with the state's lock held where it reads or writes, so it is one action. The
-- test `s == nil` that every exported method begins with is `guarded`.
use discordgo.Base.{true, [], no_keys, ℕ, Bool, Option, none, some, Map, write}
use discordgo.State.Types.{
  Addr, User, Member, Presence, Message, Channel, Guild, Role, VoiceState, Ready,
}

-- The copy of the old value that an event carries to its handlers, `BeforeUpdate` or
-- `BeforeDelete`: an event has one at most.
pub data Before : Type 0 where
  unset : Before
  was_guild : Guild → Before
  was_member : Member → Before
  was_role : Role → Before
  was_channel : Channel → Before
  was_message : Message → Before
  was_voice_state : VoiceState → Before

pub record State : Type 0 where
  pub ready : Ready
  pub max_message_count : ℕ
  pub track_channels : Bool
  pub track_threads : Bool
  pub track_emojis : Bool
  pub track_stickers : Bool
  pub track_members : Bool
  pub track_thread_members : Bool
  pub track_roles : Bool
  pub track_voice : Bool
  pub track_presences : Bool
  pub guild_map : Map Addr
  pub channel_map : Map Addr
  pub member_map : Map (Map Addr)
  -- What the addresses hold, and the first member address that is not in use.
  pub users : Addr → User
  pub members : Addr → Member
  pub presences : Addr → Presence
  pub messages : Addr → Message
  pub channels : Addr → Channel
  pub guilds : Addr → Guild
  pub next_member : Addr
  -- The event that is handled.
  pub before : Before

pub data Error : Type 0 where
  nil_state state_not_found message_incomplete : Error

-- How a call ends. What was written before an error stays written.
pub data Outcome {ℓ} (A : Type ℓ) : Type ℓ where
  done : A → Outcome A
  fails : Error → Outcome A
  panics : Outcome A

abbrev pub Action {ℓ} : Type ℓ → Type ℓ
Action A = State → Outcome A × State

module _ {ℓ} {A : Type ℓ} where
  abbrev pub pure : A → Action A
  pure a s = (done a, s)

  abbrev pub fail : Error → Action A
  fail e s = (fails e, s)

  abbrev pub panic : Action A
  panic s = (panics, s)

  abbrev pub gets : (State → A) → Action A
  gets f s = (done (f s), s)

abbrev pub modify : (State → State) → Action (Unit {0})
modify f s = (done tt, f s)

abbrev pub skip : Action (Unit {0})
skip = pure tt

module _ {ℓ κ} {A : Type ℓ} {B : Type κ} where
  abbrev pub resume : Outcome A → (A → Action B) → State → Outcome B × State
  resume (done a) f s = f a s
  resume (fails e) f s = (fails e, s)
  resume panics f s = (panics, s)

  infixl 5 ◌>>=◌
  abbrev pub ◌>>=◌ : Action A → (A → Action B) → Action B
  ◌>>=◌ m f s = let (r, s') = m s in resume r f s'

infixl 5 ◌>>◌
abbrev pub ◌>>◌ {ℓ} : {B : Type ℓ} → Action (Unit {0}) → Action B → Action B
m >> k = m >>= λ _. k

-- `x, err := m()`: the error is a value, and the code goes on.
abbrev pub settled {ℓ} : {A : Type ℓ} → Outcome A × State → Outcome (Option A) × State
settled (done a, s) = (done (some a), s)
settled (fails e, s) = (done none, s)
settled (panics, s) = (panics, s)

abbrev pub attempt {ℓ} : {A : Type ℓ} → Action A → Action (Option A)
attempt m s = settled (m s)

-- `err = m()` where `err` is set again later: what is left of it.
abbrev pub errored {ℓ} : {A : Type ℓ} → Outcome A × State → Outcome (Option Error) × State
errored (done a, s) = (done none, s)
errored (fails e, s) = (done (some e), s)
errored (panics, s) = (panics, s)

abbrev pub error_of {ℓ} : {A : Type ℓ} → Action A → Action (Option Error)
error_of m s = errored (m s)

abbrev pub finish : Option Error → Action (Unit {0})
finish none = skip
finish (some e) = fail e

-- The guard at the head of each exported method.
pub guarded {ℓ} : {A : Type ℓ} → Action A → Option State → Outcome A × Option State
guarded m none = (fails nil_state, none)
guarded m (some s) = let (r, s') = m s in (r, some s')

abbrev pub found {ℓ} : {A : Type ℓ} → Option A → Action A
found none = fail state_not_found
found (some a) = pure a

-- Writes through a pointer.
abbrev pub set_user : Addr → User → State → State
set_user p u s = record s { users = write p u s.users }

abbrev pub set_member : Addr → Member → State → State
set_member p m s = record s { members = write p m s.members }

abbrev pub set_presence : Addr → Presence → State → State
set_presence p v s = record s { presences = write p v s.presences }

abbrev pub set_message : Addr → Message → State → State
set_message p m s = record s { messages = write p m s.messages }

abbrev pub set_channel : Addr → Channel → State → State
set_channel p c s = record s { channels = write p c s.channels }

abbrev pub set_guild : Addr → Guild → State → State
set_guild p g s = record s { guilds = write p g s.guilds }

-- `NewState`, over the memory of `mem`.
unfoldable pub new_state : State → State
new_state mem = record mem {
  ready = record {
    version = 0;
    session_id = "";
    user = none;
    shard = none;
    resume_gateway_url = "";
    application = none;
    guilds = [];
    private_channels = [];
  };
  max_message_count = 0;
  track_channels = true;
  track_threads = true;
  track_emojis = true;
  track_stickers = true;
  track_members = true;
  track_thread_members = true;
  track_roles = true;
  track_voice = true;
  track_presences = true;
  guild_map = no_keys;
  channel_map = no_keys;
  member_map = no_keys;
}
