-- ===== src/State/Keyed/Histories.antt =====
-- The lives of a `State` of state.go: it starts as `NewState` makes it; events are decoded into
-- fresh memory; `OnInterface` handles them.
use discordgo.Base.{ℕ, ◌≤◌, ◌≡◌, ◌∙◌, String, Bool, some, Map, arith}
use discordgo.State.Types.{Addr}
use discordgo.State.Store.{State, new_state}
use discordgo.State.Members.{member_user}
use discordgo.State.Events.{Event, on_interface}
use discordgo.State.Keyed.{Keyed}
use discordgo.State.Keyed.Events.{Fits, on_interface-Keyed}

-- New objects in memory, or writes to settings, that leave alone what the maps lead to.
pub record Extends (s t : State) : Type 0 where
  pub guild_map_stays : t.guild_map ≡ s.guild_map
  pub channel_map_stays : t.channel_map ≡ s.channel_map
  pub member_map_stays : t.member_map ≡ s.member_map
  pub next_member_grows : s.next_member ≤ t.next_member
  pub guilds_stay :
      (k : String) (p : Addr) → s.guild_map k ≡ some p → (t.guilds p).id ≡ (s.guilds p).id
  pub channels_stay :
      (k : String) (p : Addr) → s.channel_map k ≡ some p → (t.channels p).id ≡ (s.channels p).id
  pub members_stay :
      (k u : String) (ms : Map Addr) (p : Addr)
      → s.member_map k ≡ some ms
      → ms u ≡ some p
      → member_user t p ≡ member_user s p

pub data Reachable : State → Type 0 where
  started : (mem : State) → Reachable (new_state mem)
  decoded : {s : State} (t : State) → Reachable s → Extends s t → Reachable t
  handled :
      {s : State} (enabled : Bool) (e : Event)
      → Reachable s
      → Fits s.next_member s e
      → Reachable (on_interface enabled e s).1

new_state-Keyed : (mem : State) → Keyed 0 (new_state mem)
unfolding new_state
new_state-Keyed mem = record {
  grown = omega arith;
  guilds_keyed = λ k p h. ground arith;
  channels_keyed = λ k p h. ground arith;
  members_keyed = λ k u ms p h i. ground arith;
  members_allocated = λ k u ms p h i. ground arith;
}

-- The invariant for the members that are allocated by now.
raise : {n : ℕ} {s : State} → Keyed n s → Keyed s.next_member s
raise v = record {
  grown = omega arith;
  guilds_keyed = v.guilds_keyed;
  channels_keyed = v.channels_keyed;
  members_keyed = v.members_keyed;
  members_allocated = v.members_allocated;
}

Extends-Keyed : {s t : State} → Keyed s.next_member s → Extends s t → Keyed t.next_member t
Extends-Keyed {s} {t} v x = record {
  grown = omega arith;
  guilds_keyed =
      λ k p h. let h' = rw x.guild_map_stays at h in x.guilds_stay k p h' ∙ v.guilds_keyed k p h';
  channels_keyed = λ k p h.
      let h' = rw x.channel_map_stays at h in x.channels_stay k p h' ∙ v.channels_keyed k p h';
  members_keyed = λ k u ms p h i.
      let h' = rw x.member_map_stays at h in
      x.members_stay k u ms p h' i ∙ v.members_keyed k u ms p h' i;
  members_allocated = λ k u ms p h i.
      let below = v.members_allocated k u ms p (rw x.member_map_stays at h) i in
      let grows = x.next_member_grows in omega arith;
}

-- In every state that a new state can come to, whatever the events and their order, whether
-- their handlers succeed, fail or panic: if each event was decoded into memory that the maps did
-- not lead to, each guild, channel and member that a map leads to carries the ID that it is
-- found under, and no member is one that memory has not handed out.
pub Reachable-Keyed : {s : State} → Reachable s → Keyed s.next_member s
Reachable-Keyed (started mem) = raise (new_state-Keyed mem)
Reachable-Keyed (decoded t r x) = Extends-Keyed (Reachable-Keyed r) x
Reachable-Keyed (handled {s} enabled e r fits) =
    raise (on_interface-Keyed enabled e s fits (Reachable-Keyed r))
