-- ===== src/State/Types.antt =====
-- The structs of structs.go, message.go, user.go and events.go that state.go keeps.
--
-- A pointer is an address into the store. A field `other` stands for the fields of the struct
-- that no code modelled here reads or writes by name; a copy of the struct copies it whole.
-- A time is a number of nanoseconds since Go's zero time, so that the zero time is 0.
use discordgo.Base.{ℕ, String, Bool, Option, none, some, List, []}

abbrev pub Addr : Type 0
Addr = ℕ

abbrev pub Time : Type 0
Time = ℕ

-- A Go slice where the code tells nil from empty: `none` is nil.
abbrev pub Slice {ℓ} : Type ℓ → Type ℓ
Slice A = Option (List A)

abbrev pub items {ℓ} : {A : Type ℓ} → Slice A → List A
items none = []
items (some xs) = xs

-- An int64 that is only used as a set of flags, by its bits.
abbrev pub Bits : Type 0
Bits = ℕ → Bool

pub record User : Type 0 where
  pub id : String
  pub email : String
  pub username : String
  pub avatar : String
  pub discriminator : String
  pub global_name : String
  pub token : String
  pub other : ℕ

pub record Member : Type 0 where
  pub guild_id : String
  pub joined_at : Time
  pub nick : String
  pub user : Addr
  pub roles : Slice String
  pub other : ℕ

pub record ClientStatus : Type 0 where
  pub desktop : String
  pub mobile : String
  pub web : String

pub record Presence : Type 0 where
  pub user : Addr
  pub status : String
  pub activities : ℕ
  pub since : Option ℕ
  pub client_status : ClientStatus

pub record Role : Type 0 where
  pub id : String
  pub name : String
  pub mentionable : Bool
  pub color : ℕ
  -- A position is never negative on Discord.
  pub position : ℕ
  pub permissions : Bits
  pub other : ℕ

pub record Emoji : Type 0 where
  pub id : String
  pub name : String
  pub animated : Bool
  pub other : ℕ

pub record VoiceState : Type 0 where
  pub guild_id : String
  pub channel_id : String
  pub user_id : String
  pub session_id : String
  pub other : ℕ

pub data OverwriteType : Type 0 where
  role_overwrite member_overwrite : OverwriteType

pub record PermissionOverwrite : Type 0 where
  pub id : String
  pub type : OverwriteType
  pub deny : Bits
  pub allow : Bits

pub record ThreadMetadata : Type 0 where
  pub archived : Bool
  pub other : ℕ

pub record ThreadMember : Type 0 where
  pub id : String
  pub user_id : String
  pub other : ℕ

pub record Message : Type 0 where
  pub id : String
  pub channel_id : String
  pub content : String
  pub timestamp : Time
  pub edited_timestamp : Option Time
  pub author : Option Addr
  pub attachments : Slice ℕ
  pub components : Slice ℕ
  pub embeds : Slice ℕ
  pub mentions : Slice Addr
  pub member : Option Addr
  pub other : ℕ

pub record Channel : Type 0 where
  pub id : String
  pub guild_id : String
  pub name : String
  pub type : ℕ
  pub parent_id : String
  pub messages : Slice Addr
  pub permission_overwrites : Slice PermissionOverwrite
  pub thread_metadata : Option ThreadMetadata
  pub member : Option ThreadMember
  pub members : List ThreadMember
  pub member_count : ℕ
  pub other : ℕ

-- `member_count` is a 64-bit word.
pub record Guild : Type 0 where
  pub id : String
  pub owner_id : String
  pub member_count : ℕ
  pub roles : Slice Role
  pub emojis : Slice Emoji
  pub stickers : Slice ℕ
  pub members : Slice Addr
  pub presences : Slice Addr
  pub channels : Slice Addr
  pub threads : Slice Addr
  pub voice_states : Slice VoiceState
  pub other : ℕ

pub record Ready : Type 0 where
  pub version : ℕ
  pub session_id : String
  pub user : Option Addr
  pub shard : Option (ℕ × ℕ)
  pub resume_gateway_url : String
  pub application : Option ℕ
  pub guilds : List Addr
  pub private_channels : List Addr
