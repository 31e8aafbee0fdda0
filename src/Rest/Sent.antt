-- ===== src/Rest/Sent.antt =====
-- restapi.go: what is sent for a message, and what a deletion is about.
use discordgo.Base.{
  ℕ, String, Bool, true, false, ◌==◌, eq_iff, ◌≡◌, refl, Option, none, some, List, [], ◌∷◌, length,
  take, ltb, eqb, has, write, map, if◌then◌else◌, arith, Option-cases, Bool-cases, inl, inr,
  take-all,
}
use discordgo.Components.Json.{map_option}
use discordgo.State.Types.{Addr, Slice, items}
use discordgo.Rest.Endpoints.{channel_messages, channel_message}
use discordgo.Rest.Sending.{
  Embed, MessageSend, Asked, refuses, enrich, merge_embeds, merge_files, asks, not_encoded,
  channel_message_send_complex, channel_message_edit_complex, MessageEdit, Deletion, no_request,
  deletes_one, deletes_many, channel_messages_bulk_delete_call, embed_and_embeds, file_and_files,
  too_many_stickers,
}

-- An embed as it is sent.
abbrev pub enriched : Embed → Embed
enriched e = if e.type == "" then record e { type = "rich" } else e

-- A message that is in the list is enriched once, another stays as it is.
enrich_lem :
    (ps : List Addr) (mem : Addr → Embed) (p : Addr)
    → enrich ps mem p ≡ (if has (λ q. eqb q p) ps then enriched (mem p) else mem p)
unfolding enrich
enrich_lem [] mem p = refl
enrich_lem (q ∷ ps) mem p = ground (
  arith,
  eq_iff "rich" "",
  enrich_lem ps (if (mem q).type == "" then write q (record (mem q) { type = "rich" }) mem else mem)
      p,
)

map-enrich :
    (all ps : List Addr) (mem : Addr → Embed)
    → ((p : Addr) → has (λ q. eqb q p) ps ≡ true → has (λ q. eqb q p) all ≡ true)
    → map (enrich all mem) ps ≡ map (λ p. enriched (mem p)) ps
map-enrich all [] mem h = refl
map-enrich all (p ∷ ps) mem h =
    ground (arith, enrich_lem all mem p, h p, map-enrich all ps mem (λ q e. h q (ground arith)))

-- What the body is to have in it: the single embed or file where the lists are nil, and the lists
-- else.
abbrev pub all_of {ℓ} : {A : Type ℓ} → Option A → Slice A → List A
all_of none xs = items xs
all_of (some x) xs = x ∷ []

-- A message is sent without a single embed beside a list of them.
abbrev pub one_kind {ℓ} : {A : Type ℓ} → Option A → Slice A → Bool
one_kind (some x) (some xs) = false
one_kind _ _ = true

-- What is to be sent, or why nothing is.
abbrev pub to_send : (encodes : Bool) → (channel_id : String) → MessageSend → (Addr → Embed) → Asked
to_send encodes channel_id m mem =
    if one_kind m.embed m.embeds
    then if one_kind m.file m.files
      then if ltb 3 (length (items m.sticker_ids))
        then refuses too_many_stickers
        else if encodes
        then asks "POST" (channel_messages channel_id)
            (record {
              embeds = map (λ p. enriched (mem p)) (all_of m.embed m.embeds);
              files = all_of m.file m.files;
              sticker_ids = items m.sticker_ids;
              other = m.other;
            })
            (channel_messages channel_id)
        else refuses not_encoded
      else refuses file_and_files
    else refuses embed_and_embeds

merge_embeds_lem :
    (p : Option Addr) (ps : Slice Addr)
    → map_option items (merge_embeds p ps) ≡ (if one_kind p ps then some (all_of p ps) else none)
merge_embeds_lem none ps = refl
merge_embeds_lem (some p) none = refl
merge_embeds_lem (some p) (some ps) = refl

merge_files_lem :
    (f : Option ℕ) (fs : Slice ℕ)
    → merge_files f fs ≡ (if one_kind f fs then some (all_of f fs) else none)
merge_files_lem none fs = refl
merge_files_lem (some f) none = refl
merge_files_lem (some f) (some fs) = refl

-- `ChannelMessageSendComplex` sends one request, with the embeds, of which those without a type are
-- rich, the files and the stickers of the message; unless it has an embed and a list of embeds, a
-- file and a list of files, more than three stickers, or a body that cannot be encoded, in this
-- order.
pub channel_message_send_complex_lem :
    (encodes : Bool) (channel_id : String) (m : MessageSend) (mem : Addr → Embed)
    → (channel_message_send_complex encodes channel_id m mem).0 ≡ to_send encodes channel_id m mem
unfolding channel_message_send_complex
channel_message_send_complex_lem encodes channel_id m mem = elim (Option-cases m.embed) [
  | inl n ↦ ground (
    arith,
    merge_files_lem m.file m.files,
    map-enrich (items m.embeds) (items m.embeds) mem (λ p e. e),
  )
  | inr (p, e) ↦ elim (Option-cases m.embeds) [
    | inl n ↦
        ground (arith, merge_files_lem m.file m.files, map-enrich (p ∷ []) (p ∷ []) mem (λ p e. e))
    | inr (ps, f) ↦ ground arith
  ]
]

-- `ChannelMessageEditComplex` sends one request, with the embeds, of which those without a type are
-- rich, and the files of the edit, in the bucket of all messages of the channel; unless it has an
-- embed and a list of embeds, or a body that cannot be encoded.
pub channel_message_edit_complex_lem :
    (encodes : Bool) (m : MessageEdit) (mem : Addr → Embed)
    → (channel_message_edit_complex encodes m mem).0 ≡ (
        if one_kind m.embed m.embeds
        then if encodes
          then asks "PATCH"
              (channel_message m.channel m.id)
              (record {
                embeds = map (λ p. enriched (mem p)) (all_of m.embed m.embeds);
                files = m.files;
                sticker_ids = [];
                other = m.other;
              })
              (channel_message m.channel "")
          else refuses not_encoded
        else refuses embed_and_embeds)
unfolding channel_message_edit_complex
channel_message_edit_complex_lem encodes m mem = elim (Option-cases m.embed) [
  | inl n ↦ ground (arith, map-enrich (items m.embeds) (items m.embeds) mem (λ p e. e))
  | inr (p, e) ↦ elim (Option-cases m.embeds) [
    | inl n ↦ ground (arith, map-enrich (p ∷ []) (p ∷ []) mem (λ p e. e))
    | inr (ps, f) ↦ ground arith
  ]
]

-- A message that is sent with a single embed and no list of embeds is changed so that the same
-- message is refused when it is sent again.
pub channel_message_send_complex-refuses :
    (encodes again : Bool) (channel_id : String) (m : MessageSend) (mem : Addr → Embed) (p : Addr)
    → m.embed ≡ some p
    → m.embeds ≡ none
    → let (m', mem') = (channel_message_send_complex encodes channel_id m mem).1 in
      (channel_message_send_complex again channel_id m' mem').0 ≡ refuses embed_and_embeds
unfolding channel_message_send_complex
channel_message_send_complex-refuses encodes again channel_id m mem p e f = ground arith

-- The messages that a deletion is about.
abbrev pub Deletes : (channel_id : String) → Deletion → List String → Type 0
Deletes c no_request ms = ms ≡ []
Deletes c (deletes_one uri bucket) ms = (m : String) × ((ms ≡ m ∷ []) × (uri ≡ channel_message c m))
Deletes c (deletes_many uri xs bucket) ms = ms ≡ xs

-- `ChannelMessagesBulkDelete` makes one request at most, which deletes the first hundred messages,
-- or all of them if they are fewer.
pub channel_messages_bulk_delete_call-take :
    (c : String) (ms : List String)
    → Deletes c (channel_messages_bulk_delete_call c ms) (take 100 ms)
unfolding channel_messages_bulk_delete_call
channel_messages_bulk_delete_call-take c [] = refl
channel_messages_bulk_delete_call-take c (m ∷ []) = (m, (refl, refl))
channel_messages_bulk_delete_call-take c (m ∷ n ∷ ms) =
    elim (Bool-cases (ltb 100 (length (m ∷ n ∷ ms)))) [
      | inl e ↦ ground arith
      | inr e ↦ ground (arith, take-all 98 ms (ground arith))
    ]
