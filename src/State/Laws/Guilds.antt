-- ===== src/State/Laws/Guilds.antt =====
-- Reads of guilds after `GuildAdd` and `GuildRemove` of state.go.
use discordgo.Base.{
  ℕ, zero, suc, ◌≡◌, refl, ap, ◌∙◌, eqb, String, false, ◌==◌, eq_refl, Option, none, some,
  Option-cases, inl, inr, if◌then◌else◌, arith,
}
use discordgo.State.Types.{Addr, Slice, items, Guild}
use discordgo.State.Store.{State, done}
use discordgo.State.Guilds.{
  index_channels, preserve, or_old, ensure_members, enter_guild, guild_add, guild, guild_remove,
}
use discordgo.State.Members.{member}
use discordgo.State.Channels.{channel}

-- A slice that is nil is taken from the old guild or channel.
abbrev pub Completes {ℓ} : {A : Type ℓ} (new old result : Slice A) → Type ℓ
Completes none old result = result ≡ old
Completes (some xs) old result = result ≡ some xs

abbrev pub Counted : (new old result : ℕ) → Type 0
Counted zero old result = result ≡ old
Counted (suc n) old result = result ≡ suc n

-- A guild that takes the place of an old one.
pub record Completed (new old result : Guild) : Type 0 where
  pub id : result.id ≡ new.id
  pub owner_id : result.owner_id ≡ new.owner_id
  pub member_count : Counted new.member_count old.member_count result.member_count
  pub roles : Completes new.roles old.roles result.roles
  pub emojis : Completes new.emojis old.emojis result.emojis
  pub stickers : result.stickers ≡ new.stickers
  pub members : Completes new.members old.members result.members
  pub presences : Completes new.presences old.presences result.presences
  pub channels : Completes new.channels old.channels result.channels
  pub threads : Completes new.threads old.threads result.threads
  pub voice_states : Completes new.voice_states old.voice_states result.voice_states
  pub other : result.other ≡ new.other

-- What the state is to hold for a guild that is entered.
abbrev pub Entered : (known : Option Addr) → State → (new result : Guild) → Type 0
Entered none s new result = result ≡ new
Entered (some q) s new result = Completed new (s.guilds q) result

pub or_old-Completes {ℓ} : {A : Type ℓ} (new old : Slice A) → Completes new old (or_old new old)
or_old-Completes none old = refl
or_old-Completes (some xs) old = refl

Counted_lem : (new old : ℕ) → Counted new old (if eqb new 0 then old else new)
Counted_lem zero old = refl
Counted_lem (suc n) old = ground arith

preserve-Completed : (new old : Guild) → Completed new old (preserve new old)
unfolding preserve
preserve-Completed new old = record {
  id = refl;
  owner_id = refl;
  member_count = Counted_lem new.member_count old.member_count;
  roles = or_old-Completes new.roles old.roles;
  emojis = or_old-Completes new.emojis old.emojis;
  stickers = refl;
  members = or_old-Completes new.members old.members;
  presences = or_old-Completes new.presences old.presences;
  channels = or_old-Completes new.channels old.channels;
  threads = or_old-Completes new.threads old.threads;
  voice_states = or_old-Completes new.voice_states old.voice_states;
  other = refl;
}

abbrev entered : State → Guild → Guild
entered s g = elim (s.guild_map g.id) [ none ↦ g | some q ↦ preserve g (s.guilds q) ]

entered-Entered : (s : State) (g : Guild) → Entered (s.guild_map g.id) s g (entered s g)
entered-Entered s g = go (s.guild_map g.id)
  where
    go :
        (known : Option Addr)
        → Entered known s g (elim known [ none ↦ g | some q ↦ preserve g (s.guilds q) ])
    go none = refl
    go (some q) = preserve-Completed g (s.guilds q)

abbrev pub guild_value : State → String → Option Guild
guild_value s id = elim (s.guild_map id) [ none ↦ none | some q ↦ some (s.guilds q) ]

entered-same :
    (s t : State) (g : Guild)
    → ((k : String) → t.guild_map k ≡ s.guild_map k)
    → ((q : Addr) → t.guilds q ≡ s.guilds q)
    → entered t g ≡ entered s g
entered-same s t g maps values = elim (Option-cases (s.guild_map g.id)) [
  | inl e ↦ ground (arith, maps g.id)
  | inr (q, e) ↦ ground (arith, maps g.id, values q)
]

enter_guild-value :
    (p : Addr) (s : State) (g : Guild)
    → s.guilds p ≡ g
    → guild_value (enter_guild p g s) g.id ≡ some (entered s g)
unfolding enter_guild
enter_guild-value p s g e = ground (arith, eq_refl g.id)

enter_guild-other :
    (p : Addr) (s : State) (g : Guild) (k : String)
    → (g.id == k) ≡ false
    → (enter_guild p g s).guild_map k ≡ s.guild_map k
unfolding enter_guild
enter_guild-other p s g k other = ground arith

ensure_members-maps :
    (g : Guild) (s : State) (k : String) (q : Addr)
    → ((ensure_members g s).guild_map k ≡ s.guild_map k)
      × ((ensure_members g s).guilds q ≡ s.guilds q)
unfolding ensure_members
ensure_members-maps g s k q = ground arith

-- After `GuildAdd` the guild's ID leads to the new guild, in which, where the state had one, each
-- nil slice of roles, emojis, members, presences, channels, threads or voice states and a member
-- count of 0 are those of the old one; every other ID leads where it led before.
pub guild_add-guild :
    (p : Addr) (s : State)
    → let g = s.guilds p in
      let t = (guild_add p s).1 in
      ((x : Guild) × ((guild_value t g.id ≡ some x) × Entered (s.guild_map g.id) s g x))
      × ((k : String) → (g.id == k) ≡ false → t.guild_map k ≡ s.guild_map k)
unfolding guild_add
guild_add-guild p s =
    let g = s.guilds p in
    let channel_map =
      index_channels s.channels (items g.threads)
        (index_channels s.channels (items g.channels) s.channel_map) in
    let t = record s { channel_map = channel_map } in
    let u = ensure_members g t in
    let same = λ (k : String) (q : Addr). ensure_members-maps g t k q in
    (
      (
        entered s g,
        (
          enter_guild-value p u g (same g.id p).1
              ∙ ap some (entered-same s u g (λ k. (same k p).0) (λ q. (same g.id q).1)),
          entered-Entered s g,
        ),
      ),
      λ k other. enter_guild-other p u g k other ∙ (same k p).0,
    )

-- After `GuildRemove` of a known guild its ID is not found and every other ID leads where it led;
-- but the members and the channels of the removed guild are still found.
pub guild_remove-leftovers :
    (p : Addr) (s : State) (q : Addr)
    → s.guild_map (s.guilds p).id ≡ some q
    → let r = guild_remove p s in
      (r.0 ≡ done tt)
      × ((k : String) → r.1.guild_map k ≡ (if (s.guilds p).id == k then none else s.guild_map k))
      × ((user : String) → (member (s.guilds p).id user r.1).0 ≡ (member (s.guilds p).id user s).0)
      × ((k : String) → (channel k r.1).0 ≡ (channel k s).0)
unfolding guild_remove guild member channel
guild_remove-leftovers p s q known =
    (ground arith, λ k. ground arith, λ user. ground arith, λ k. ground arith)
