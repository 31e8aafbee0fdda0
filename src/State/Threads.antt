-- ===== src/State/Threads.antt =====
-- state.go: threads and their members.
use discordgo.Base.{
  ℕ, zero, suc, ◌+◌, ◌-◌, String, Bool, true, false, not, ◌==◌, Option, none, some, List, [], ◌∷◌,
  ◌++◌, put, delete, ltb, if◌then◌else◌, has, length, get_elem?, take, drop,
}
use discordgo.State.Types.{Addr, items, Channel, ThreadMetadata, ThreadMember}
use discordgo.State.Store.{State, Action, panic, pure, skip, gets, modify, ◌>>=◌, ◌>>◌}
use discordgo.State.Guilds.{guild, presence_add}
use discordgo.State.Members.{update_guild, member_add}
use discordgo.State.Channels.{channel, update_channel}

pub record ThreadListSync : Type 0 where
  pub guild_id : String
  -- `none` is a nil slice.
  pub channel_ids : Option (List String)
  pub threads : List Addr
  pub members : List ThreadMember

-- Whether the loop of `ThreadListSync` keeps a thread of the guild.
unfoldable pub keeps : Option (List String) → Channel → ThreadMetadata → Bool
keeps none t meta = false
keeps (some ids) t meta = if meta.archived then false else not (has (λ v. t.parent_id == v) ids)

abbrev pub unmap_channel : String → State → State
unmap_channel id s = record s { channel_map = delete id s.channel_map }

-- One round: a thread without metadata is a nil pointer that is followed.
unfoldable pub visit : Option (List String) → Addr → Action Bool
unfolding keeps
visit ids p s = elim (s.channels p).thread_metadata [
  | none ↦ panic s
  | some meta ↦
      if keeps ids (s.channels p) meta
      then pure true s
      else pure false (unmap_channel (s.channels p).id s)
]

unfoldable pub keep_threads : Option (List String) → List Addr → Action (List Addr)
unfolding visit
keep_threads ids [] = pure []
keep_threads ids (t ∷ ts) = do
  kept ← visit ids t
  rest ← keep_threads ids ts
  pure (if kept then t ∷ rest else rest)

-- The loops over `tls.Threads` and `tls.Members`.
unfoldable pub add_threads : Addr → List Addr → State → State
add_threads g [] s = s
add_threads g (t ∷ ts) s = add_threads g ts (
    update_guild g (λ x. record x { threads = some (items x.threads ++ t ∷ []) })
      (record s { channel_map = put (s.channels t).id t s.channel_map }))

unfoldable pub set_own_members : List ThreadMember → State → State
set_own_members [] s = s
set_own_members (m ∷ ms) s = set_own_members ms (elim (s.channel_map m.id) [
  | some c ↦ update_channel c (λ x. record x { member = some m }) s
  | none ↦ s
])

unfoldable pub thread_list_sync : ThreadListSync → Action (Unit {0})
unfolding guild keep_threads add_threads set_own_members
thread_list_sync tls = do
  g ← guild tls.guild_id
  old ← gets (λ s. items (s.guilds g).threads)
  kept ← keep_threads tls.channel_ids old
  modify (update_guild g (λ x. record x { threads = some kept }))
  modify (add_threads g tls.threads)
  modify (set_own_members tls.members)

pub record AddedThreadMember : Type 0 where
  pub thread_member : ThreadMember
  pub member : Option Addr
  pub presence : Option Addr

pub record ThreadMembersUpdate : Type 0 where
  pub id : String
  pub guild_id : String
  pub member_count : ℕ
  pub added_members : List AddedThreadMember
  pub removed_members : List String

-- `append(xs[:i], xs[i+1:]...)` on a slice of length `n` over the array `xs`: the entries behind
-- `i` move down inside the array, and the entries from `n - 1` on stay. It panics if `i + 1`
-- lies behind the end of the slice.
unfoldable pub cut : {A : Type 0} → List A → ℕ → ℕ → Option (List A)
cut xs n i =
    if ltb n (i + 1)
    then none
    else some (take i xs ++ (drop (i + 1) (take n xs) ++ drop (n - 1) xs))

-- The loop over `thread.Members`, whose range is the slice as it was before the loop: round `i`
-- reads the array that the earlier rounds have written, and `n` is the length of
-- `thread.Members` by now. The first argument counts the rounds that are left.
unfoldable pub drop_removed :
    ℕ → List String → List ThreadMember → ℕ → ℕ → Option (List ThreadMember)
unfolding cut
drop_removed zero removed xs n i = some (take n xs)
drop_removed (suc rounds) removed xs n i = elim (get_elem? xs i) [
  | none ↦ none
  | some m ↦ elim (has (λ r. m.id == r) removed) [
    | false ↦ drop_removed rounds removed xs n (i + 1)
    | true ↦ elim (cut xs n i) [
      | none ↦ none
      | some ys ↦ drop_removed rounds removed ys (n - 1) (i + 1)
    ]
  ]
]

abbrev pub when_some : Option Addr → (Addr → Action (Unit {0})) → Action (Unit {0})
when_some none f = skip
when_some (some p) f = f p

unfoldable pub add_thread_members : String → Addr → List AddedThreadMember → Action (Unit {0})
unfolding member_add presence_add
add_thread_members guild_id c [] = skip
add_thread_members guild_id c (a ∷ rest) = do
  modify (update_channel c (λ x. record x { members = x.members ++ a.thread_member ∷ [] }))
  when_some a.member member_add
  when_some a.presence (presence_add guild_id)
  add_thread_members guild_id c rest

-- The members of the thread where the loop ends or panics.
unfoldable pub left_over : ℕ → List String → List ThreadMember → ℕ → ℕ → List ThreadMember
unfolding cut
left_over zero removed xs n i = take n xs
left_over (suc rounds) removed xs n i = elim (get_elem? xs i) [
  | none ↦ take n xs
  | some m ↦ elim (has (λ r. m.id == r) removed) [
    | false ↦ left_over rounds removed xs n (i + 1)
    | true ↦ elim (cut xs n i) [
      | none ↦ take n xs
      | some ys ↦ left_over rounds removed ys (n - 1) (i + 1)
    ]
  ]
]

-- A panic of the loop, after which the thread has the members that are left over.
abbrev pub or_panic :
    Addr → (left : List ThreadMember) → Option (List ThreadMember) → Action (List ThreadMember)
or_panic c left none s = panic (update_channel c (λ x. record x { members = left }) s)
or_panic c left (some ms) s = pure ms s

unfoldable pub thread_members_update : ThreadMembersUpdate → Action (Unit {0})
unfolding channel drop_removed left_over add_thread_members
thread_members_update tmu = do
  c ← channel tmu.id
  ms ← gets (λ s. (s.channels c).members)
  left ←
      or_panic c (left_over (length ms) tmu.removed_members ms (length ms) 0)
        (drop_removed (length ms) tmu.removed_members ms (length ms) 0)
  modify (update_channel c (λ x. record x { members = left }))
  add_thread_members tmu.guild_id c tmu.added_members
  modify (update_channel c (λ x. record x { member_count = tmu.member_count }))

-- `ThreadMemberUpdate`, by the member that it carries.
unfoldable pub thread_member_update : ThreadMember → Action (Unit {0})
unfolding channel
thread_member_update m = do
  c ← channel m.id
  modify (update_channel c (λ x. record x { member = some m }))
