-- ===== src/Tests/PermissionRuns.antt =====
-- The permissions of the two members of the tests.
use discordgo.Base.{◌≡◌, refl, String, ◌==◌, ◌||◌, ◌&&◌, [], ◌∷◌, has, arith}
use discordgo.State.Types.{Channel}
use discordgo.State.Permissions.{
  Fetched, fetched, request_failed, member_permissions, user_channel_permissions,
}
use discordgo.State.Permissions.Bitwise.{of_channel}
use discordgo.State.Permissions.Precedence.{member_bit, member_permissions-bit}
use discordgo.State.Permissions.Fetching.{user_channel_permissions_lem}
use discordgo.Tests.{home, club, channel_of, membership}

abbrev lobby : Channel
lobby = channel_of "30"

member_permissions-bit_example : member_permissions club lobby "2" ("20" ∷ []) 12 ≡ (
    member_bit club lobby "2" ("20" ∷ []) 12
    || (member_bit club lobby "2" ("20" ∷ []) 3 && of_channel 12))
member_permissions-bit_example = member_permissions-bit club lobby "2" ("20" ∷ []) 12

twice : (x : String) → has (λ id. x == id) ("20" ∷ []) ≡ has (λ id. x == id) ("20" ∷ "20" ∷ [])
twice x = ground arith

abbrev offline {ℓ} : {A : Type ℓ} → String → Fetched A
offline id = request_failed

user_channel_permissions_lem_example :
    user_channel_permissions offline offline (λ id. offline) "2" "30" home
    ≡ fetched (member_permissions club lobby "2" ("20" ∷ []))
user_channel_permissions_lem_example =
    user_channel_permissions_lem offline offline (λ id. offline) home "2" "30" lobby club refl refl
      (membership 1) refl
