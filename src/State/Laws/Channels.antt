-- ===== src/State/Laws/Channels.antt =====
-- Reads of channels after `ChannelAdd` and `ChannelRemove` of state.go.
use mathlib.Core.Path.{subst}
use discordgo.Base.{
  ◌≡◌, refl, sym, ◌∙◌, String, Bool, true, false, ◌==◌, eq_refl, Option, none, some, if◌then◌else◌,
  arith, [], ◌∷◌, ◌++◌, has, write, eqb, Option-cases, Bool-cases, inl, inr,
}
use discordgo.State.Types.{Addr, items, Channel, Guild}
use discordgo.State.Store.{State, Outcome, done, fails, state_not_found}
use discordgo.State.Guilds.{guild}
use discordgo.State.Channels.{
  is_private, is_thread, list_channel, channel, channel_add, channel_remove, merge_channel,
  new_channel,
}
use discordgo.State.Laws.Guilds.{Completes, or_old-Completes}

abbrev pub Kept {ℓ} : {A : Type ℓ} (new old result : Option A) → Type ℓ
Kept none old result = result ≡ old
Kept (some x) old result = result ≡ some x

Kept_lem {ℓ} :
    {A : Type ℓ} (new old : Option A) → Kept new old (elim new [ some t ↦ some t | none ↦ old ])
Kept_lem none old = refl
Kept_lem (some x) old = refl

-- A channel that takes the place of an old one.
pub record Merged (new old result : Channel) : Type 0 where
  pub id : result.id ≡ new.id
  pub guild_id : result.guild_id ≡ new.guild_id
  pub name : result.name ≡ new.name
  pub type : result.type ≡ new.type
  pub parent_id : result.parent_id ≡ new.parent_id
  pub messages : Completes new.messages old.messages result.messages
  pub permission_overwrites :
      Completes new.permission_overwrites old.permission_overwrites result.permission_overwrites
  pub thread_metadata : Kept new.thread_metadata old.thread_metadata result.thread_metadata
  pub member : result.member ≡ new.member
  pub members : result.members ≡ new.members
  pub member_count : result.member_count ≡ new.member_count
  pub other : result.other ≡ new.other

-- The list of the guild that a channel is put into, by whether it is a thread.
abbrev pub Listed : (thread : Bool) → Addr → (old new : Guild) → Type 0
Listed true p old new =
    (new.threads ≡ some (items old.threads ++ p ∷ [])) × (new.channels ≡ old.channels)
Listed false p old new =
    (new.channels ≡ some (items old.channels ++ p ∷ [])) × (new.threads ≡ old.threads)

-- A new channel, which is private or not, in its guild, which is known or not.
abbrev pub New :
    (private : Bool) → (known : Option Addr) → Addr → State → Outcome (Unit {0}) × State → Type 0
New true known p s (o, t) =
    (o ≡ done tt)
    × (t.channel_map (s.channels p).id ≡ some p)
    × (t.ready.private_channels ≡ s.ready.private_channels ++ p ∷ [])
    × ((g : Addr) → t.guilds g ≡ s.guilds g)
New false none p s (o, t) = (o ≡ fails state_not_found) × (t ≡ s)
New false (some g) p s (o, t) =
    (o ≡ done tt)
    × (t.channel_map (s.channels p).id ≡ some p)
    × (t.ready.private_channels ≡ s.ready.private_channels)
    × Listed (has (eqb (s.channels p).type) (10 ∷ 11 ∷ 12 ∷ [])) p (s.guilds g) (t.guilds g)

abbrev pub Added : (known : Option Addr) → Addr → State → Outcome (Unit {0}) × State → Type 0
Added (some q) p s (o, t) =
    (o ≡ done tt)
    × (t.channel_map (s.channels p).id ≡ some q)
    × Merged (s.channels p) (s.channels q) (t.channels q)
Added none p s r =
    New (has (eqb (s.channels p).type) (1 ∷ 3 ∷ [])) (s.guild_map (s.channels p).guild_id) p s r

merge_channel-Merged : (new old : Channel) → Merged new old (merge_channel new old)
unfolding merge_channel
merge_channel-Merged new old = record {
  id = refl;
  guild_id = refl;
  name = refl;
  type = refl;
  parent_id = refl;
  messages = or_old-Completes new.messages old.messages;
  permission_overwrites = or_old-Completes new.permission_overwrites old.permission_overwrites;
  thread_metadata = Kept_lem new.thread_metadata old.thread_metadata;
  member = refl;
  members = refl;
  member_count = refl;
  other = refl;
}

write-same {ℓ} : {A : Type ℓ} (p : Addr) (x : A) (f : Addr → A) → write p x f p ≡ x
write-same p x f = ground arith

private_types : (c : Channel) → is_private c ≡ has (eqb c.type) (1 ∷ 3 ∷ [])
private_types c = ground arith

-- The threads' types in another order.
thread_types : (c : Channel) → is_thread c ≡ has (eqb c.type) (10 ∷ 11 ∷ 12 ∷ [])
unfolding is_thread
thread_types c = ground arith

list_channel-Listed :
    (p : Addr) (c : Channel) (g : Guild) → Listed (is_thread c) p g (list_channel p c g)
unfolding list_channel
list_channel-Listed p c g = elim (Bool-cases (is_thread c)) [
  | inl e ↦ rw (list_channel, e) (refl, refl)
  | inr e ↦ rw (list_channel, e) (refl, refl)
]

new_channel-New :
    (p : Addr) (s : State)
    → let c = s.channels p in
      New (has (eqb c.type) (1 ∷ 3 ∷ [])) (s.guild_map c.guild_id) p s (new_channel p c s)
unfolding new_channel
new_channel-New p s = elim (Bool-cases (is_private c)) [
  | inl e ↦
      subst (λ b. New b (s.guild_map c.guild_id) p s (new_channel p c s)) (sym e ∙ private_types c)
        (rw (new_channel, e) (refl, ground (arith, eq_refl c.id), refl, λ g. refl))
  | inr e ↦
      subst (λ b. New b (s.guild_map c.guild_id) p s (new_channel p c s)) (sym e ∙ private_types c)
        (elim (Option-cases (s.guild_map c.guild_id)) [
          | inl n ↦ rw (new_channel, e, n) (refl, refl)
          | inr (g, f) ↦ rw (new_channel, e, f) (refl, ground (arith, eq_refl c.id), refl, listed g)
        ])
]
  where
    c : Channel
    c = s.channels p

    listed :
        (g : Addr)
        → Listed
            (has (eqb c.type) (10 ∷ 11 ∷ 12 ∷ []))
            p
            (s.guilds g)
            (write g (list_channel p c (s.guilds g)) s.guilds g)
    listed g =
        rw (sym (thread_types c), write-same g (list_channel p c (s.guilds g)) s.guilds)
          (list_channel-Listed p c (s.guilds g))

-- `ChannelAdd` of a known channel replaces it, and takes the messages, the overwrites and the
-- metadata of the thread from the old one where the new one has none. A new channel is entered
-- if it is private, and listed with the private ones, or if its guild is known, and is then listed
-- behind the threads or the channels of the guild, by its type; else the call fails and the state is as before. No
-- other channel ID is affected.
pub channel_add-channel :
    (p : Addr) (s : State)
    → let c = s.channels p in
      let r = channel_add p s in
      Added (s.channel_map c.id) p s r
      × ((k : String) → (c.id == k) ≡ false → r.1.channel_map k ≡ s.channel_map k)
unfolding channel_add new_channel
channel_add-channel p s = (
  elim (Option-cases (s.channel_map (s.channels p).id)) [
    | inl e ↦ rw (channel_add, e) (new_channel-New p s)
    | inr (q, e) ↦
        rw (channel_add, e)
          (
            refl,
            e,
            rw
                (write-same q (merge_channel (s.channels p) (s.channels q))
                  (write p (merge_channel (s.channels p) (s.channels q)) s.channels))
                (merge_channel-Merged (s.channels p) (s.channels q)),
          )
  ],
  λ k other. ground arith,
)

-- A channel that `ChannelRemove` removes is not found any more, and all others are as before.
pub channel_remove-channel :
    (p : Addr) (s : State)
    → (channel_remove p s).0 ≡ done tt
    → (k : String)
    → (channel k (channel_remove p s).1).0
      ≡ (if (s.channels p).id == k then fails state_not_found else (channel k s).0)
unfolding channel_remove channel guild
channel_remove-channel p s ok k = ground arith
