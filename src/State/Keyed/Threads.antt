-- ===== src/State/Keyed/Threads.antt =====
-- The operations of state.go on threads keep the maps keyed.
use discordgo.Base.{
  ℕ, ◌≡◌, refl, String, Bool, Option, none, some, List, [], ◌∷◌, put, on_option, on_if, ◌<◌, length,
}
use discordgo.State.Types.{Addr, items, ThreadMember}
use discordgo.State.Store.{State, Action, Outcome, modify}
use discordgo.State.Guilds.{guild, presence_add}
use discordgo.State.Members.{member_add}
use discordgo.State.Channels.{channel, update_channel}
use discordgo.State.Threads.{
  ThreadListSync, keeps, visit, keep_threads, add_threads, set_own_members, thread_list_sync,
  AddedThreadMember, ThreadMembersUpdate, drop_removed, left_over, when_some, or_panic,
  add_thread_members, thread_members_update, thread_member_update,
}
use discordgo.State.Keeps.{Keeps, bind-Keeps}
use discordgo.State.Keyed.{Keyed, put-keyed, set_guild-Keyed, set_channel-Keyed}
use discordgo.State.Keyed.Guilds.{channel_map-Keyed, guild-Keeps, presence_add-Keyed}
use discordgo.State.Keyed.Members.{member_add-Keyed}
use discordgo.State.Keyed.Channels.{channel-Keeps, delete_channel-Keyed}

visit-Keyed : (n : ℕ) (ids : Option (List String)) (p : Addr) → Keeps (Keyed n) (visit ids p)
unfolding visit
visit-Keyed n ids p s v =
    on_option (λ (r : Outcome Bool × State). Keyed n r.1) (s.channels p).thread_metadata _ _
      (λ _. v)
      (λ meta _.
        on_if (λ (r : Outcome Bool × State). Keyed n r.1) (keeps ids (s.channels p) meta) _ _
          (λ _. v) (λ _. delete_channel-Keyed _ v))

keep_threads-Keyed :
    (n : ℕ) (ids : Option (List String)) (ts : List Addr) → Keeps (Keyed n) (keep_threads ids ts)
unfolding keep_threads
keep_threads-Keyed n ids [] s v = v
keep_threads-Keyed n ids (t ∷ ts) s v =
    bind-Keeps (Keyed n) (visit ids t) _ (visit-Keyed n ids t)
      (λ kept.
        bind-Keeps (Keyed n) (keep_threads ids ts) _ (keep_threads-Keyed n ids ts) (λ rest t w. w))
      s v

add_threads-Keyed :
    (n : ℕ) (g : Addr) (ts : List Addr) (s : State) → Keyed n s → Keyed n (add_threads g ts s)
unfolding add_threads
add_threads-Keyed n g [] s v = v
add_threads-Keyed n g (t ∷ ts) s v = add_threads-Keyed n g ts _ (
    set_guild-Keyed g _ refl (
      channel_map-Keyed (put (s.channels t).id t s.channel_map)
        (put-keyed (λ x. (s.channels x).id) s.channel_map (s.channels t).id t v.channels_keyed refl)
        v))

set_own_members-Keyed :
    (n : ℕ) (ms : List ThreadMember) (s : State) → Keyed n s → Keyed n (set_own_members ms s)
unfolding set_own_members
set_own_members-Keyed n [] s v = v
set_own_members-Keyed n (m ∷ ms) s v =
    set_own_members-Keyed n ms _
      (on_option (Keyed n) (s.channel_map m.id) _ _ (λ _. v) (λ c _. set_channel-Keyed c _ refl v))

pub thread_list_sync-Keyed : (n : ℕ) (tls : ThreadListSync) → Keeps (Keyed n) (thread_list_sync tls)
unfolding thread_list_sync
thread_list_sync-Keyed n tls =
    bind-Keeps (Keyed n) (guild tls.guild_id) _ (guild-Keeps (Keyed n) tls.guild_id) λ g s v.
      bind-Keeps (Keyed n) (keep_threads tls.channel_ids (items (s.guilds g).threads)) _
        (keep_threads-Keyed n tls.channel_ids (items (s.guilds g).threads))
        (λ kept t w.
          set_own_members-Keyed n tls.members _
            (add_threads-Keyed n g tls.threads _ (set_guild-Keyed g _ refl w)))
        s v

-- The members that come with a thread have been allocated.
abbrev pub Added : ℕ → List AddedThreadMember → Type 0
Added n [] = Unit
Added n (a ∷ as_) = ((p : Addr) → a.member ≡ some p → p < n) × Added n as_

when_some-Keeps :
    (P : State → Type 0) (o : Option Addr) (f : Addr → Action (Unit {0}))
    → ((p : Addr) → o ≡ some p → Keeps P (f p))
    → Keeps P (when_some o f)
when_some-Keeps P none f h s k = k
when_some-Keeps P (some p) f h s k = h p refl s k

add_thread_members-Keyed :
    (n : ℕ) (id : String) (c : Addr) (added : List AddedThreadMember)
    → Added n added
    → Keeps (Keyed n) (add_thread_members id c added)
unfolding add_thread_members
add_thread_members-Keyed n id c [] fits s v = v
add_thread_members-Keyed n id c (a ∷ rest) fits s v =
    bind-Keeps (Keyed n) (when_some a.member member_add) _
      (when_some-Keeps (Keyed n) a.member member_add (λ p e. member_add-Keyed n p (fits.0 p e)))
      (λ _.
        bind-Keeps (Keyed n) (when_some a.presence (presence_add id)) _
          (when_some-Keeps (Keyed n) a.presence (presence_add id)
            (λ q _. presence_add-Keyed n id q))
          (λ _. add_thread_members-Keyed n id c rest fits.1))
      _ (set_channel-Keyed c _ refl v)

or_panic-Keyed :
    (n : ℕ) (c : Addr) (left : List ThreadMember) (o : Option (List ThreadMember))
    → Keeps (Keyed n) (or_panic c left o)
or_panic-Keyed n c left none s h =
    set_channel-Keyed c (record (s.channels c) { members = left }) refl h
or_panic-Keyed n c left (some ms) s h = h

pub thread_members_update-Keyed :
    (n : ℕ) (tmu : ThreadMembersUpdate)
    → Added n tmu.added_members
    → Keeps (Keyed n) (thread_members_update tmu)
unfolding thread_members_update
thread_members_update-Keyed n tmu fits =
    bind-Keeps (Keyed n) (channel tmu.id) _ (channel-Keeps (Keyed n) tmu.id) λ c s v.
      let ms = (s.channels c).members in
      let left = left_over (length ms) tmu.removed_members ms (length ms) 0 in
      let whole = drop_removed (length ms) tmu.removed_members ms (length ms) 0 in
      bind-Keeps (Keyed n) {B = Unit {0}} (or_panic c left whole) _ (or_panic-Keyed n c left whole)
        (λ xs t w.
          bind-Keeps (Keyed n) {B = Unit {0}} (add_thread_members tmu.guild_id c tmu.added_members)
            (λ _. modify (update_channel c (λ x. record x { member_count = tmu.member_count })))
            (add_thread_members-Keyed n tmu.guild_id c tmu.added_members fits)
            (λ _ u x. set_channel-Keyed c _ refl x) _
            (set_channel-Keyed c (record (t.channels c) { members = xs }) refl w))
        s v

pub thread_member_update-Keyed :
    (n : ℕ) (m : ThreadMember) → Keeps (Keyed n) (thread_member_update m)
unfolding thread_member_update
thread_member_update-Keyed n m =
    bind-Keeps (Keyed n) (channel m.id) _ (channel-Keeps (Keyed n) m.id)
      λ c s v. set_channel-Keyed c _ refl v
