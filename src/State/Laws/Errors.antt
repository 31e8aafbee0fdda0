-- ===== src/State/Laws/Errors.antt =====
-- The errors of the handlers of `OnInterface` in state.go.
use discordgo.Base.{◌≡◌, String, true, none, arith}
use discordgo.State.Types.{Role}
use discordgo.State.Store.{State, done, fails, state_not_found}
use discordgo.State.Guilds.{guild}
use discordgo.State.Members.{role, role_add, role_remove}
use discordgo.State.Events.{
  guild_role_create, guild_role_update, guild_role_delete, dispatch, on_interface,
}

-- For a guild that the state does not know, the creation of a role reports the error, while an
-- update or a deletion of a role reports success: the error is kept in a shadowed variable.
pub role_errors :
    (s : State) (id role_id : String) (r : Role)
    → s.track_roles ≡ true
    → s.guild_map id ≡ none
    → ((on_interface true (guild_role_create id r) s).0 ≡ fails state_not_found)
      × ((on_interface true (guild_role_update id r) s).0 ≡ done tt)
      × ((on_interface true (guild_role_delete id role_id) s).0 ≡ done tt)
unfolding on_interface dispatch role role_add role_remove guild
role_errors s id role_id r track unknown = ground arith
