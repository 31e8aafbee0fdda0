-- ===== src/Tests.antt =====
-- A guild of two members, with a text channel and a thread of it, for the runs of the tests.
mod SendRuns
mod ComponentRuns
mod DaveRuns
mod StateRuns
mod ReadRuns
mod PermissionRuns
mod LimitRuns
mod HandlerRuns
mod GatewayRuns
mod ColorRuns
mod OpeningRuns
mod RequestRuns
mod VoiceRuns
mod ConnectionRuns
use discordgo.Base.{
  ℕ, String, true, false, Option, none, some, List, [], ◌∷◌, eqb, no_keys, put, if◌then◌else◌,
}
use discordgo.State.Types.{
  Addr, Bits, User, Member, ClientStatus, Presence, Role, VoiceState, role_overwrite,
  member_overwrite, PermissionOverwrite, ThreadMember, Message, Channel, Guild, Ready,
}
use discordgo.State.Store.{State, unset}
use discordgo.State.Permissions.{flags, no_bits}

abbrev pub person : String → User
person id = record {
  id = id;
  email = "";
  username = "ada";
  avatar = "";
  discriminator = "0";
  global_name = "";
  token = "";
  other = 0;
}

-- The user at an address: the first two, and a third that no guild knows.
abbrev pub people : Addr → User
people p = if eqb p 0 then person "1" else (if eqb p 1 then person "2" else person "3")

abbrev pub membership : Addr → Member
membership p = record {
  guild_id = "10";
  joined_at = 5;
  nick = "";
  user = p;
  roles = some ("20" ∷ []);
  other = 0;
}

abbrev pub presence_at : Addr → Presence
presence_at p = record {
  user = p;
  status = "online";
  activities = 0;
  since = none;
  client_status = record { desktop = "online"; mobile = ""; web = "" };
}

abbrev pub role_of : String → Bits → Role
role_of id p = record {
  id = id;
  name = "role";
  mentionable = true;
  color = 0;
  position = 1;
  permissions = p;
  other = 0;
}

-- Everyone may view a channel; the role "20" makes administrators.
abbrev pub everyone_role : Role
everyone_role = role_of "10" (flags (10 ∷ []))

abbrev pub administrator_role : Role
administrator_role = role_of "20" (flags (3 ∷ []))

abbrev pub overwrite_member : PermissionOverwrite
overwrite_member = record {
  id = "2";
  type = member_overwrite;
  deny = flags (11 ∷ 12 ∷ []);
  allow = flags (12 ∷ []);
}

abbrev pub channel_of : String → Channel
channel_of id = record {
  id = id;
  guild_id = "10";
  name = "general";
  type = 0;
  parent_id = "";
  messages = some (0 ∷ []);
  permission_overwrites = some (overwrite_member ∷ []);
  thread_metadata = none;
  member = none;
  members = [];
  member_count = 0;
  other = 0;
}

abbrev pub follower : String → ThreadMember
follower id = record { id = id; user_id = id; other = 0 }

abbrev pub thread_of : List ThreadMember → Channel
thread_of ms = record (channel_of "31") { type = 11; members = ms; parent_id = "30" }

abbrev pub message_at : Addr → Message
message_at p = record {
  id = if eqb p 0 then "40" else "41";
  channel_id = "30";
  content = "hello";
  timestamp = 7;
  edited_timestamp = none;
  author = some 0;
  attachments = none;
  components = none;
  embeds = none;
  mentions = none;
  member = none;
  other = 0;
}

abbrev pub voice_of : String → String → VoiceState
voice_of user channel_id = record {
  guild_id = "10";
  channel_id = channel_id;
  user_id = user;
  session_id = "s";
  other = 0;
}

abbrev pub club : Guild
club = record {
  id = "10";
  owner_id = "1";
  member_count = 2;
  roles = some (everyone_role ∷ administrator_role ∷ []);
  emojis = none;
  stickers = none;
  members = some (0 ∷ 1 ∷ []);
  presences = none;
  channels = some (0 ∷ []);
  threads = some (1 ∷ []);
  voice_states = some (voice_of "1" "50" ∷ []);
  other = 0;
}

abbrev pub no_ready : Ready
no_ready = record {
  version = 9;
  session_id = "";
  user = none;
  shard = none;
  resume_gateway_url = "";
  application = none;
  guilds = [];
  private_channels = [];
}

-- The members at 0 and 1 are cached, the one at 2 is allocated.
abbrev pub home : State
home = record {
  ready = no_ready;
  max_message_count = 1;
  track_channels = true;
  track_threads = true;
  track_emojis = true;
  track_stickers = true;
  track_members = true;
  track_thread_members = true;
  track_roles = true;
  track_voice = true;
  track_presences = true;
  guild_map = put "10" 0 no_keys;
  channel_map = put "31" 1 (put "30" 0 no_keys);
  member_map = put "10" (put "2" 1 (put "1" 0 no_keys)) no_keys;
  users = people;
  members = membership;
  presences = presence_at;
  messages = message_at;
  channels = λ p. if eqb p 1 then thread_of (follower "1" ∷ follower "2" ∷ []) else channel_of "30";
  guilds = λ p. club;
  next_member = 3;
  before = unset;
}
