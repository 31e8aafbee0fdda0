-- ===== src/Tests/StateRuns.antt =====
-- Runs of `OnInterface` on the guild of the tests.
use discordgo.Base.{◌<◌, ◌≡◌, refl, sym, String, true, some, no_keys, put, Map, arith}
use discordgo.State.Types.{Addr}
use discordgo.State.Store.{State, new_state}
use discordgo.State.Members.{member_user}
use discordgo.State.Events.{guild_create, guild_member_add, on_interface}
use discordgo.State.Keyed.{Keyed, put-keyed}
use discordgo.State.Keyed.Events.{on_interface-Keyed}
use discordgo.State.Keyed.Histories.{started, handled, Reachable-Keyed}
use discordgo.Tests.{home}

nothing-keyed : (read : Addr → String) (k : String) (p : Addr) → no_keys k ≡ some p → read p ≡ k
nothing-keyed read k p h = ground arith

abbrev cached : Map Addr
cached = put "2" 1 (put "1" 0 no_keys)

home-members : (k : String) (ms : Map Addr) → home.member_map k ≡ some ms → cached ≡ ms
home-members k ms h = ground arith

cached_below : (u : String) (p : Addr) → cached u ≡ some p → p < 3
cached_below u p h = ground arith

home-Keyed : Keyed home.next_member home
home-Keyed = record {
  grown = ground arith;
  guilds_keyed = put-keyed (λ p. (home.guilds p).id) no_keys "10" 0 (nothing-keyed _) refl;
  channels_keyed =
      put-keyed (λ p. (home.channels p).id) _ "31" 1
        (put-keyed (λ p. (home.channels p).id) no_keys "30" 0 (nothing-keyed _) refl) refl;
  members_keyed = λ k u ms p h i.
      put-keyed (member_user home) _ "2" 1
        (put-keyed (member_user home) no_keys "1" 0 (nothing-keyed _) refl) refl u p
        (rw (sym (home-members k ms h)) at i);
  members_allocated = λ k u ms p h i. cached_below u p (rw (sym (home-members k ms h)) at i);
}

on_interface-Keyed_example : Keyed 3 (on_interface true (guild_member_add 2) home).1
on_interface-Keyed_example =
    on_interface-Keyed true (guild_member_add 2) home (omega arith) home-Keyed

abbrev first_guild : State
first_guild = (on_interface true (guild_create 0) (new_state home)).1

Reachable-Keyed_example : Keyed first_guild.next_member first_guild
unfolding new_state
Reachable-Keyed_example =
    Reachable-Keyed (handled true (guild_create 0) (started home) (omega arith, (omega arith, tt)))
