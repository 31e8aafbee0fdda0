-- ===== src/State/Laws/Lists.antt =====
-- Roles and voice states of a guild in state.go: what a read returns after a write.
use discordgo.Base.{◌≡◌, String, ◌==◌, eq_iff, some, if◌then◌else◌, arith}
use discordgo.Base.Keys.{DistinctKeys, lookup-replace_or_append, lookup-remove_first, has-lookup}
use discordgo.State.Types.{Addr, items, Role, VoiceState}
use discordgo.State.Store.{State, done, fails, state_not_found}
use discordgo.State.Guilds.{guild}
use discordgo.State.Members.{role, role_add, role_remove, voice_state, voice_state_update}

module _ (s : State) (id : String) (g : Addr) (known : s.guild_map id ≡ some g) where
  -- In a known guild a role that is added is found under its ID, in place of an older one; the
  -- others stay.
  pub role-role_add :
      (r : Role) (k : String)
      → (role id k (role_add id r s).1).0 ≡ (if r.id == k then done r else (role id k s).0)
  unfolding role role_add guild
  role-role_add r k =
      ground (arith, lookup-replace_or_append (λ x. x.id) r (items (s.guilds g).roles) k)

  -- In a known guild in which no role ID stands twice, a removed role is gone and the others
  -- stay; the removal fails just where the role is not there.
  pub role-role_remove :
      (id' k : String)
      → DistinctKeys (λ r. r.id) (items (s.guilds g).roles)
      → ((role id k (role_remove id id' s).1).0
          ≡ (if id' == k then fails state_not_found else (role id k s).0))
        × ((role_remove id id' s).0
            ≡ elim (role id id' s).0 [ done r ↦ done tt | _ ↦ fails state_not_found ])
  unfolding role role_remove guild
  role-role_remove id' k d = ground (
    arith,
    has-lookup (λ x. x.id) id' (items (s.guilds g).roles),
    eq_iff id' k,
    lookup-remove_first (λ x. x.id) id' (items (s.guilds g).roles) k d,
  )

module _ (s : State) (u : VoiceState) (g : Addr) (known : s.guild_map u.guild_id ≡ some g)
    (distinct : DistinctKeys (λ v. v.user_id) (items (s.guilds g).voice_states)) where
  -- In a known guild with one voice state for each user at most: an update with a channel is
  -- what a read returns for its user, one without a channel ends the user's voice state, and no
  -- other user's changes.
  pub voice_state-voice_state_update :
      (user : String)
      → (voice_state u.guild_id user (voice_state_update u s).1).0 ≡ (
          if u.user_id == user
          then (if u.channel_id == "" then fails state_not_found else done u)
          else (voice_state u.guild_id user s).0)
  unfolding voice_state voice_state_update guild
  voice_state-voice_state_update user = ground (
    arith,
    has-lookup (λ v. v.user_id) u.user_id (items (s.guilds g).voice_states),
    eq_iff u.user_id user,
    lookup-remove_first (λ v. v.user_id) u.user_id (items (s.guilds g).voice_states) user distinct,
    lookup-replace_or_append (λ v. v.user_id) u (items (s.guilds g).voice_states) user,
  )
