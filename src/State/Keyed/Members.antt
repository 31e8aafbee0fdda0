-- ===== src/State/Keyed/Members.antt =====
-- The operations of state.go on members, roles, emojis and voice states keep the maps keyed.
use discordgo.Base.{
  ℕ, ◌<◌, ◌≡◌, refl, sym, ◌∙◌, String, none, some, List, [], ◌∷◌, Map, no_keys, put, delete, inl,
  inr, on_option, has, ◌==◌, arith,
}
use native.Mathlib.Nat.{le_trans}
use discordgo.State.Types.{Addr, items, Member, Role, Emoji, VoiceState}
use discordgo.State.Store.{State}
use discordgo.State.Guilds.{guild}
use discordgo.State.Members.{
  member_user, append_member, replace_member, member_add, member_remove, role_add, role_remove,
  emoji_add, emojis_add, voice_state_update,
}
use discordgo.State.Keeps.{Keeps, found-Keeps, bind-Keeps, if-Keeps}
use discordgo.State.Keyed.{Keyed, write-id, put-keyed, set_guild-Keyed, set_member-Keyed}
use discordgo.State.Keyed.Guilds.{put-cases, put_table-Keyed, no_keys-keyed}

-- A table of the member map, or the empty one.
abbrev table_of : Map (Map Addr) → String → Map Addr
table_of m id = elim (m id) [ some ms ↦ ms | none ↦ no_keys ]

table_of-cases :
    (P : String → Addr → Type 0) (m : Map (Map Addr)) (id : String)
    → ((ms : Map Addr) (u : String) (p : Addr) → m id ≡ some ms → ms u ≡ some p → P u p)
    → (u : String) (p : Addr) → table_of m id u ≡ some p
    → P u p
table_of-cases P m id h =
    on_option (λ (t : Map Addr). (u : String) (p : Addr) → t u ≡ some p → P u p) (m id) _ _
      (λ _. no_keys-keyed P) (λ ms e u p i. h ms u p e i)

append_member-Keyed :
    (n : ℕ) (g p : Addr) (s : State) → p < n → Keyed n s → Keyed n (append_member g p s)
unfolding append_member
append_member-Keyed n g p s fresh v =
    let id = (s.members p).guild_id in
    let user = member_user s p in
    set_guild-Keyed g _ refl (
      put_table-Keyed id (put user p (table_of s.member_map id))
        (put-keyed (member_user s) (table_of s.member_map id) user p
          (table_of-cases (λ u q. member_user s q ≡ u) s.member_map id
            (λ ms u q e h. v.members_keyed id u ms q e h))
          refl)
        (λ u q h. elim (put-cases user u p q (table_of s.member_map id) h) [
          | inl (_, e) ↦ rw e (le_trans fresh v.grown)
          | inr e ↦
              table_of-cases (λ u q. q < s.next_member) s.member_map id
                (λ ms u q e h. v.members_allocated id u ms q e h) u q e
        ])
        v)

replace_member-Keyed :
    (n : ℕ) (q p : Addr) (s : State)
    → member_user s q ≡ member_user s p
    → Keyed n s
    → Keyed n (replace_member q p s)
unfolding replace_member
replace_member-Keyed n q p s same v =
    set_member-Keyed q _
      (sym (write-id (λ (x : Member). (s.users x.user).id) s.members p q _ refl ∙ same))
      (set_member-Keyed p _ refl v)

pub member_add-Keyed : (n : ℕ) (p : Addr) → p < n → Keeps (Keyed n) (member_add p)
unfolding member_add
member_add-Keyed n p fresh s v =
    found-Keeps (Keyed n) (s.guild_map (s.members p).guild_id) _ s v λ g _.
      found-Keeps (Keyed n) (s.member_map (s.members p).guild_id) _ s v λ table e.
        on_option (λ (f : State → State). Keyed n (f s)) (table (member_user s p)) _ _
          (λ _. append_member-Keyed n g p s fresh v)
          (λ q h. replace_member-Keyed n q p s (v.members_keyed _ (member_user s p) table q e h) v)

delete-some : (m : Map Addr) (id k : String) (p : Addr) → delete id m k ≡ some p → m k ≡ some p
delete-some m id k p h = ground arith

pub member_remove-Keyed : (n : ℕ) (p : Addr) → Keeps (Keyed n) (member_remove p)
unfolding member_remove guild
member_remove-Keyed n p s v =
    let id = (s.members p).guild_id in
    let user = member_user s p in
    found-Keeps (Keyed n) (s.guild_map id) _ s v λ g _.
      found-Keeps (Keyed n) (s.member_map id) _ s v λ table e.
        found-Keeps (Keyed n) (table user) _ s v λ _ _.
          if-Keeps (Keyed n) (has (λ q. member_user s q == user) (items (s.guilds g).members)) _ _
            (λ t w. set_guild-Keyed g _ refl w) (λ t w. w) _
            (put_table-Keyed id (delete user table)
              (λ u q h. v.members_keyed id u table q e (delete-some table user u q h))
              (λ u q h. v.members_allocated id u table q e (delete-some table user u q h)) v)

pub role_add-Keyed : (n : ℕ) (id : String) (r : Role) → Keeps (Keyed n) (role_add id r)
unfolding role_add guild
role_add-Keyed n id r s v =
    found-Keeps (Keyed n) (s.guild_map id) _ s v λ g _. set_guild-Keyed g _ refl v

pub role_remove-Keyed : (n : ℕ) (id role_id : String) → Keeps (Keyed n) (role_remove id role_id)
unfolding role_remove guild
role_remove-Keyed n id role_id s v = found-Keeps (Keyed n) (s.guild_map id) _ s v λ g _.
    if-Keeps (Keyed n) (has (λ r. r.id == role_id) (items (s.guilds g).roles)) _ _
      (λ t w. set_guild-Keyed g _ refl w) (λ t w. w) s v

pub emoji_add-Keyed : (n : ℕ) (id : String) (e : Emoji) → Keeps (Keyed n) (emoji_add id e)
unfolding emoji_add guild
emoji_add-Keyed n id e s v =
    found-Keeps (Keyed n) (s.guild_map id) _ s v λ g _. set_guild-Keyed g _ refl v

-- `EmojisAdd` is no event's handler; it keeps the maps keyed as well.
pub emojis_add-Keyed : (n : ℕ) (id : String) (es : List Emoji) → Keeps (Keyed n) (emojis_add id es)
unfolding emojis_add
emojis_add-Keyed n id [] s v = v
emojis_add-Keyed n id (e ∷ es) s v =
    bind-Keeps (Keyed n) (emoji_add id e) _ (emoji_add-Keyed n id e) (λ _. emojis_add-Keyed n id es)
      s v

pub voice_state_update-Keyed : (n : ℕ) (u : VoiceState) → Keeps (Keyed n) (voice_state_update u)
unfolding voice_state_update guild
voice_state_update-Keyed n u s v =
    found-Keeps (Keyed n) (s.guild_map u.guild_id) _ s v λ g _. set_guild-Keyed g _ (ground arith) v
