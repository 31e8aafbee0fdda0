-- ===== src/Tests/OpeningRuns.antt =====
-- Runs of `Open` at the gateway.
use discordgo.Base.{ℕ, ◌≡◌, refl, String, Bool, true, false, none, some}
use discordgo.Gateway.Messages.{WsMessage, gateway_of, other_struct}
use discordgo.Gateway.Opening.{GatewaySession, Contact, open_session, deadlocked, session_opened}
use discordgo.Gateway.Opened.{Settles, open_session-Settles}
use discordgo.Gateway.Blocked.{open_session-takes_lock}

abbrev known_type : String → Bool
known_type t = true

abbrev message_of : (operation : ℕ) → WsMessage
message_of operation = record {
  operation = operation;
  sequence = 7;
  type = "RESUMED";
  resumable = some false;
  struct = other_struct;
}

-- A session that has received events and lost its connection.
abbrev resumable_session : GatewaySession
resumable_session = record {
  token = "t";
  compress = true;
  shard_id = 0;
  shard_count = 1;
  identify_token = "";
  identify_compress = true;
  shard = none;
  gateway = "wss://gateway.example";
  ws_conn = none;
  listening = none;
  data_ready = false;
  last_heartbeat_ack = 0;
  lock_held = false;
  link = record { session_id = "s"; resume_gateway_url = "wss://resume.example"; sequence = 6 };
}

abbrev contact_of : WsMessage → Contact
contact_of first = record {
  found = none;
  dialed = some 1;
  hello = some (message_of 10);
  interval = some 41250;
  now = 5;
  packet_sent = true;
  first = some first;
  answers_fail = false;
  channel = 2;
}

resumed_run :
    (open_session known_type (contact_of (message_of 0)) resumable_session).0 ≡ session_opened
unfolding open_session gateway_of
resumed_run = refl

open_session-Settles_example :
    Settles false
      (contact_of (message_of 0))
      none
      0
      (open_session known_type (contact_of (message_of 0)) resumable_session)
open_session-Settles_example =
    open_session-Settles known_type (contact_of (message_of 0)) resumable_session

open_session-takes_lock_example :
    (open_session known_type (contact_of (message_of 9)) resumable_session).0 ≡ deadlocked
open_session-takes_lock_example =
    open_session-takes_lock known_type (contact_of (message_of 9)) resumable_session 1 41250
      (message_of 10) (message_of 9) refl refl refl refl refl refl refl refl refl refl
