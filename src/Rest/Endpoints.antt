-- ===== src/Rest/Endpoints.antt =====
-- endpoints.go: the addresses of messages, with the API version that is the default.
use Prim.Native.String.{String, ◌++◌}

abbrev pub api : String
api = "https://discord.com/api/v9/"

abbrev pub channel_messages : (channel_id : String) → String
channel_messages c = api ++ ("channels/" ++ (c ++ "/messages"))

abbrev pub channel_message : (channel_id message_id : String) → String
channel_message c m = api ++ ("channels/" ++ (c ++ ("/messages/" ++ m)))

abbrev pub channel_messages_bulk_delete : (channel_id : String) → String
channel_messages_bulk_delete c = api ++ ("channels/" ++ (c ++ "/messages/bulk-delete"))
