-- ===== src/Lib.antt =====
-- A verification library for discordgo, Go bindings for Discord: the state cache that follows
-- the gateway's events, the permissions that are computed from it, the rate limiter of the REST
-- requests and the retries of a request, the registry of event handlers, the session at the
-- gateway, the voice connection with its audio packets and its encryption from end to end, the
-- JSON of message components, and the calls that send and delete messages.
--
-- How the program's parts interact: the gateway connection (wsapi.go) decodes an event and hands
-- it to handleEvent (event.go), which calls State.OnInterface (state.go) and then the handlers
-- of the application. Those read the cache by Guild, Member, Channel, Message and so on, and ask
-- for permissions (restapi.go), which are computed from the cached guild, channel and member;
-- what is not cached is fetched by a REST call. A REST request takes the lock of its bucket from
-- the rate limiter and gives it back with the response's headers. A voice connection is opened
-- by events of the gateway and then has a websocket, a UDP connection and loops of its own. It
-- passes the DAVE messages of its websocket and the audio of its packets to a controller, which
-- keeps the key ratchets of a native session. Message components are part of what is sent and
-- received.
--
-- Base            Boolean tests, lists under native numbers, Go maps and memory as functions;
--                 Base.Keys: lists whose entries are told apart by a text
-- State.Types     the structs of structs.go, message.go, user.go and events.go that are cached
-- State.Store     the struct State of state.go, its memory, and actions on it; NewState
-- State.Guilds    state.go: GuildAdd, GuildRemove, Guild, createMemberMap, presenceAdd,
--                 PresenceAdd, PresenceRemove, Presence
-- State.Members   state.go: memberAdd, MemberAdd, MemberRemove, Member, RoleAdd, RoleRemove,
--                 Role, Emoji, EmojiAdd, EmojisAdd, voiceStateUpdate, VoiceState
-- State.Channels  state.go: ChannelAdd, ChannelRemove, Channel, MessageAdd, MessageRemove,
--                 messageRemoveByID, Message
-- State.Threads   state.go: ThreadListSync, ThreadMembersUpdate, ThreadMemberUpdate
-- State.Events    state.go: onReady and OnInterface
-- State.Permissions  restapi.go: memberPermissions, Session.UserChannelPermissions; state.go:
--                 State.UserChannelPermissions, MessagePermissions; structs.go: the flags
-- State.Colors    state.go: firstRoleColorColor, UserColor, MessageColor
-- State.Keeps, State.Keyed  the invariant of the maps, one file for each file of operations
-- State.Laws      what a read returns after an operation
-- Ratelimit.Buckets    ratelimit.go: RateLimiter, Bucket, NewRatelimiter, GetBucket, GetWaitTime,
--                 LockBucket, LockBucketObject
-- Ratelimit.Releasing  ratelimit.go: Bucket.Release
-- Ratelimit.Waiting, Ratelimit.Registry  what they come to
-- Handlers.Registry  event.go: addEventHandler, addEventHandlerOnce, AddHandler, AddHandlerOnce,
--                 removeEventHandlerInstance, handle, handleEvent
-- Handlers.Removing, Handlers.Calls  what they come to
-- Gateway.Reconnecting  wsapi.go: reconnect
-- Gateway.Messages  wsapi.go: onEvent for a decoded message, and the choice of Open between a new
--                 session and a resumed one; event.go: Session.onReady
-- Rest.Requests   restapi.go: Request, RequestWithBucketID, RequestRaw, RequestWithLockedBucket, and
--                 the RequestOptions that steer the retries
-- Rest.Endpoints, Rest.Sending  endpoints.go, restapi.go, message.go: ChannelMessageSendComplex,
--                 ChannelMessageEditComplex, ChannelMessageDelete, ChannelMessagesBulkDelete, up to
--                 the request that they make; Rest.Sent: what they come to
-- Rest.Locking, Rest.Attempts, Rest.Retries, Rest.Outcomes  what they come to
-- Voice.Bytes     the numbers that encoding/binary writes and reads
-- Voice.Connection  voice.go: VoiceConnection, Close, Speaking, ChangeChannel, Disconnect, Resume,
--                 open, udpOpen, startHeartbeat
-- Voice.Messages  voice.go: onEvent for a decoded message, onBinaryEvent
-- Voice.Sessions  voice.go: wsListen where reading fails, the start of reconnect; wsapi.go:
--                 ChannelVoiceJoin, onVoiceStateUpdate, onVoiceServerUpdate; and histories of them
-- Voice.Lifetime, Voice.Keeping, Voice.Steps, Voice.History  what a connection opens and closes
-- Voice.Packets   voice.go: opusSender, transformOutboundOpus, transformInboundOpus
-- Voice.Receiving  voice.go: opusReceiver
-- Voice.Rounds, Voice.Numbering, Voice.Nonces, Voice.Sealed, Voice.Rtp, Voice.Delivery
--                  what they come to
-- Voice.Dave.Controller, Voice.Dave.Transitions, Voice.Dave.Audio
--                 voice_dave_controller_libdave.go: the state of the controller and its upkeep, what
--                 it does on messages, what it does on audio
-- Voice.Dave.Owning, Voice.Dave.Owned, Voice.Dave.Using, Voice.Dave.Answering, Voice.Dave.Calls,
-- Voice.Dave.Histories, Voice.Dave.Alive, Voice.Dave.Renewing  which ratchets are open and in use
-- Voice.Dave.Group  what the controller promises, as a machine without its caches;
--                 Voice.Dave.Refining, Voice.Dave.Modes, Voice.Dave.Promises: that it keeps this
-- Components.Json  encoding/json as far as it is used here
-- Components.Types, Components.Marshaling, Components.Unmarshaling, Components.Dispatching
--                 components.go: the components, MarshalJSON and Type, the fields, UnmarshalJSON and
--                 MessageComponentFromJSON
-- Components.Returning, Components.RoundTrip, Components.Typing  what they come to
-- Gateway.Opening  wsapi.go: Open, identify, CloseWithCode, the end of listen, the rounds of
--                 heartbeat
-- Gateway.Opened, Gateway.Blocked  what Open comes to
-- Tests           a concrete guild, and runs at concrete inputs
--
-- The correspondence. A pointer is an address, and State holds what the addresses lead to, so
-- that objects that two maps or slices share are shared here too. A method is a function from a
-- state to an outcome (done, an error, a panic) and a state; what is written before an error
-- stays written. A slice whose nil is told from empty is an Option of a list. A time is a number
-- of nanoseconds after Go's zero time. An int64 of permission flags is its bits, of which
-- 64 are compared by `p & mask == mask`. The counter MemberCount wraps at 2 ^ 64 as Go's int
-- does. No loop of state.go needs fuel: each is a
-- recursion over the list it ranges over. The loop of
-- ThreadMembersUpdate, which cuts entries out of the slice that it ranges over, keeps the
-- backing array and the length of the slice, and counts its rounds by the length at its start.
--
-- The rate limiter's clock: each reading is an argument, and a request goes out at any time that
-- is later than the readings by the wait at least. A bucket's Remaining may fall below 0. The
-- parsers of the response's headers are parameters, and so are the whole and the fractional part
-- of their numbers, as 64-bit words; durations and UnixNano wrap at 2 ^ 64 as the source's do, and
-- a time before Go's zero time is 0.
--
-- A handler's instance is an address, and what it does is opaque: an event's model is the list
-- of the calls that it makes. The loop that removes an instance keeps the array that it shifts.
--
-- A request's server and clock are a stream of attempts: what the attempt meets, and the readings
-- of the clock around it. The calls of RequestWithLockedBucket of itself run on fuel, one unit
-- for each attempt; a theorem says how much is enough where the rate limits end. A negative
-- number of retries acts as 0. The bucket is stored back when the request is over.
--
-- A byte is a number, and a slice a list. The sequence number of a voice packet wraps at 2 ^ 16,
-- its timestamp and its nonce counter at 2 ^ 32, as the source's types do. The loops of audio are
-- recursions over what the channels and the connection hand to them. The cipher and the DAVE
-- controller are records of functions. Of a datagram the receiver reads 2048 bytes. What a voice connection does to the network is a list of
-- effects, in which each websocket, UDP connection and close channel has a number; a step of a
-- history is one message, one failure or one call.
--
-- A key ratchet of the controller is a number, and the memory holds which are open. An encryptor
-- and a decryptor are what the controller has told them last. What the native session has a
-- ratchet for is a parameter of each call, as are its answers to proposals, commits and welcomes,
-- and the order in which Go ranges over a map. A call of the controller is one step, although it
-- lets its lock go inside some: the goroutines of the audio and of the websocket may interleave
-- there. The voice connection that is passed to it is not nil, and its user stays the same.
--
-- JSON is a tree, not a text; its numbers are whole, in the range of the field that they are read
-- into, and keys are told apart exactly, where encoding/json ignores case. A field that is left out
-- by omitempty is a none in the list of the fields. A message component of the application's own
-- making is left out.
--
-- A call that sends a message is modelled up to the request that it makes. The embeds are behind
-- pointers, none of which is nil, and the message is given back as the call leaves it.
--
-- The loop of reconnect runs on fuel over the results of its tries to open the connection; the
-- fuel is enough once it is more than the number of tries that fail first. The voice connections
-- that it starts again are left out. What onEvent does to the connection is a list of effects.
-- Open takes the session's lock and gives it back at its end; the operations of onEvent that take
-- it block within Open. The other calls of wsapi.go are steps in which the lock is not seen.
--
-- Not modelled. The mutex: an operation runs as a whole, and schedules in which two goroutines
-- interleave between a lookup and the write that follows it are left out. A nil *State is the
-- function `guarded`. Pointers that Discord always sends (a member's user, a presence's user)
-- are never nil. MaxMessageCount is not negative. After a panic the state is the one at the
-- panic. The REST calls of UserChannelPermissions are parameters. The status updates and
-- RequestGuildMembers of wsapi.go write one packet each. Of voice.go the websocket handshake,
-- wsHeartbeat, udpKeepAlive and the loop of reconnect are I/O on connections; the steps of a voice
-- connection run as a whole, as if it were locked. dave/ binds a native library. The other functions of restapi.go wrap one request each, and
-- the interactions, users, snowflakes and image addresses are not modelled; eventhandlers.go
-- is generated.
pub mod Base
pub mod State
pub mod Rest
pub mod Voice
pub mod Gateway
pub mod Components
pub mod Handlers
pub mod Ratelimit
pub mod Tests
