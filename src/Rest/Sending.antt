-- ===== src/Rest/Sending.antt =====
-- restapi.go: what the calls on messages send: `ChannelMessageSendComplex`,
-- `ChannelMessageEditComplex`, `ChannelMessageDelete` and `ChannelMessagesBulkDelete`.
--
-- A call is modelled up to the request that it makes, with its method, its address, its body and its
-- bucket; `Rest.Requests` is about the request itself. `encodes` says whether the body
-- can be encoded. The embeds are behind pointers, and so is the message, which the calls write to.
use discordgo.Base.{
  ℕ, String, Bool, ◌==◌, Option, none, some, List, [], ◌∷◌, length, take, ltb, write, map,
  if◌then◌else◌,
}
use discordgo.State.Types.{Addr, Slice, items}
use discordgo.Rest.Endpoints.{channel_messages, channel_message, channel_messages_bulk_delete}

-- A `MessageEmbed`
pub record Embed : Type 0 where
  pub type : String
  pub other : ℕ

-- A `MessageSend`, of which `other` is all that is passed on as it is.
pub record MessageSend : Type 0 where
  pub embed : Option Addr
  pub embeds : Slice Addr
  pub file : Option ℕ
  pub files : Slice ℕ
  pub sticker_ids : Slice String
  pub other : ℕ

pub record MessageEdit : Type 0 where
  pub id : String
  pub channel : String
  pub embed : Option Addr
  pub embeds : Option (List Addr)
  pub files : List ℕ
  pub other : ℕ

pub data Refusal : Type 0 where
  embed_and_embeds file_and_files too_many_stickers not_encoded : Refusal

-- The embeds of the body, as they are when it is sent.
pub record Body : Type 0 where
  pub embeds : List Embed
  pub files : List ℕ
  pub sticker_ids : List String
  pub other : ℕ

pub data Asked : Type 0 where
  refuses : Refusal → Asked
  nothing : Asked
  asks : (method uri : String) → Body → (bucket : String) → Asked

-- `embed.Type = "rich"` for each that has none.
unfoldable pub enrich : List Addr → (Addr → Embed) → Addr → Embed
enrich [] mem = mem
enrich (p ∷ ps) mem =
    let e = mem p in
    enrich ps (if e.type == "" then write p (record e { type = "rich" }) mem else mem)

-- `Embed` is taken for `Embeds` where these are nil.
abbrev pub merge_embeds : Option Addr → Slice Addr → Option (Slice Addr)
merge_embeds none ps = some ps
merge_embeds (some p) none = some (some (p ∷ []))
merge_embeds (some p) (some ps) = none

abbrev pub merge_files : Option ℕ → Slice ℕ → Option (List ℕ)
merge_files none fs = some (items fs)
merge_files (some f) none = some (f ∷ [])
merge_files (some f) (some fs) = none

-- `RequestRaw` of a multipart body where there are files, `RequestWithBucketID` of a JSON body else;
-- either body may fail to be encoded.
abbrev pub ask : Bool → (method uri : String) → Body → (bucket : String) → Asked
ask encodes method uri body bucket =
    if encodes then asks method uri body bucket else refuses not_encoded

abbrev pub body_of : List Addr → List ℕ → List String → ℕ → (Addr → Embed) → Body
body_of ps fs ids other mem = record {
  embeds = map mem ps;
  files = fs;
  sticker_ids = ids;
  other = other;
}

unfoldable pub channel_message_send_complex :
    (encodes : Bool)
    → (channel_id : String) → MessageSend
    → (Addr → Embed)
    → Asked × (MessageSend × (Addr → Embed))
unfolding enrich
channel_message_send_complex encodes channel_id m mem = elim (merge_embeds m.embed m.embeds) [
  | none ↦ (refuses embed_and_embeds, (m, mem))
  | some ps ↦
      let m' = record m { embeds = ps } in
      let mem' = enrich (items ps) mem in
      elim (merge_files m.file m.files) [
        | none ↦ (refuses file_and_files, (m', mem'))
        | some fs ↦
            if ltb 3 (length (items m.sticker_ids))
            then (refuses too_many_stickers, (m', mem'))
            else (
              ask encodes "POST" (channel_messages channel_id)
                  (body_of (items ps) fs (items m.sticker_ids) m.other mem')
                  (channel_messages channel_id),
              (m', mem'),
            )
      ]
]

unfoldable pub channel_message_edit_complex :
    (encodes : Bool) → MessageEdit → (Addr → Embed) → Asked × (MessageEdit × (Addr → Embed))
unfolding enrich
channel_message_edit_complex encodes m mem = elim (merge_embeds m.embed m.embeds) [
  | none ↦ (refuses embed_and_embeds, (m, mem))
  | some ps ↦
      let m' = record m { embeds = ps } in
      let mem' = enrich (items ps) mem in
      (
        ask encodes "PATCH" (channel_message m.channel m.id)
            (body_of (items ps) m.files [] m.other mem') (channel_message m.channel ""),
        (m', mem'),
      )
]

-- The messages that a deletion is about, in one request at most.
pub data Deletion : Type 0 where
  no_request : Deletion
  deletes_one : (uri bucket : String) → Deletion
  deletes_many : (uri : String) → (messages : List String) → (bucket : String) → Deletion

abbrev pub channel_message_delete : (channel_id message_id : String) → Deletion
channel_message_delete c m = deletes_one (channel_message c m) (channel_message c "")

unfoldable pub channel_messages_bulk_delete_call : (channel_id : String) → List String → Deletion
channel_messages_bulk_delete_call c [] = no_request
channel_messages_bulk_delete_call c (m ∷ []) = channel_message_delete c m
channel_messages_bulk_delete_call c (m ∷ n ∷ ms) =
    let all = m ∷ n ∷ ms in
    deletes_many (channel_messages_bulk_delete c)
      (if ltb 100 (length all) then take 100 all else all) (channel_messages_bulk_delete c)
