-- ===== src/State/Keyed.antt =====
-- The invariant of the maps of `State`: an object stands under its own ID, and every member that
-- is reachable has been allocated.
pub mod Guilds
pub mod Members
pub mod Channels
pub mod Threads
pub mod Shared
pub mod Events
pub mod Histories
use discordgo.Base.{
  ℕ, ◌<◌, ◌≤◌, ◌≡◌, refl, ◌∙◌, String, eq_iff, Option, none, some, Map, put, delete, write, List,
  [], ◌∷◌, arith,
}
use discordgo.State.Types.{Addr, Ready, User, Guild, Channel, Member}
use discordgo.State.Store.{State, set_user, set_member, set_channel, set_guild}
use discordgo.State.Members.{member_user}

-- Addresses of members below `n` were allocated before.
pub record Keyed (n : ℕ) (s : State) : Type 0 where
  pub grown : n ≤ s.next_member
  pub guilds_keyed : (k : String) (p : Addr) → s.guild_map k ≡ some p → (s.guilds p).id ≡ k
  pub channels_keyed : (k : String) (p : Addr) → s.channel_map k ≡ some p → (s.channels p).id ≡ k
  pub members_keyed :
      (k u : String) (ms : Map Addr) (p : Addr)
      → s.member_map k ≡ some ms
      → ms u ≡ some p
      → member_user s p ≡ u
  pub members_allocated :
      (k u : String) (ms : Map Addr) (p : Addr)
      → s.member_map k ≡ some ms
      → ms u ≡ some p
      → p < s.next_member

-- A map with one more entry, and with one entry less, over any reading of the addresses.
pub put-keyed :
    (read : Addr → String) (m : Map Addr) (id : String) (q : Addr)
    → ((k : String) (p : Addr) → m k ≡ some p → read p ≡ k)
    → read q ≡ id
    → (k : String) (p : Addr) → put id q m k ≡ some p
    → read p ≡ k
put-keyed read m id q keyed e k p h = ground (arith, keyed k p, eq_iff id k)

pub delete-keyed :
    (read : Addr → String) (m : Map Addr) (id : String)
    → ((k : String) (p : Addr) → m k ≡ some p → read p ≡ k)
    → (k : String) (p : Addr) → delete id m k ≡ some p
    → read p ≡ k
delete-keyed read m id keyed k p h = ground (arith, keyed k p)

-- A write that leaves the ID of the object as it is leaves all IDs as they are.
pub write-id :
    {A : Type 0} (id : A → String) (f : Addr → A) (q p : Addr) (a : A)
    → id a ≡ id (f q)
    → id (write q a f p) ≡ id (f p)
write-id id f q p a e = ground arith

-- A step that leaves the maps alone and every ID as it is.
pub steady :
    {n : ℕ} {s : State} (t : State)
    → Keyed n s
    → ((p : Addr) → (t.guilds p).id ≡ (s.guilds p).id)
    → ((p : Addr) → (t.channels p).id ≡ (s.channels p).id)
    → ((p : Addr) → member_user t p ≡ member_user s p)
    → t.guild_map ≡ s.guild_map
    → t.channel_map ≡ s.channel_map
    → t.member_map ≡ s.member_map
    → t.next_member ≡ s.next_member
    → Keyed n t
steady t v g c m eg ec em en = record {
  grown = rw en v.grown;
  guilds_keyed = λ k p h. g p ∙ v.guilds_keyed k p (rw eg at h);
  channels_keyed = λ k p h. c p ∙ v.channels_keyed k p (rw ec at h);
  members_keyed = λ k u ms p h i. m p ∙ v.members_keyed k u ms p (rw em at h) i;
  members_allocated = λ k u ms p h i. rw en (v.members_allocated k u ms p (rw em at h) i);
}

-- Writes through pointers that leave the ID as it is.
pub set_guild-Keyed :
    {n : ℕ} {s : State} (q : Addr) (g : Guild)
    → g.id ≡ (s.guilds q).id
    → Keyed n s
    → Keyed n (set_guild q g s)
set_guild-Keyed {n} {s} q g e v =
    steady (set_guild q g s) v (λ p. write-id (λ (x : Guild). x.id) s.guilds q p g e) (λ p. refl)
      (λ p. refl) refl refl refl refl

pub set_channel-Keyed :
    {n : ℕ} {s : State} (q : Addr) (c : Channel)
    → c.id ≡ (s.channels q).id
    → Keyed n s
    → Keyed n (set_channel q c s)
set_channel-Keyed {n} {s} q c e v =
    steady (set_channel q c s) v (λ p. refl)
      (λ p. write-id (λ (x : Channel). x.id) s.channels q p c e) (λ p. refl) refl refl refl refl

pub set_user-Keyed :
    {n : ℕ} {s : State} (q : Addr) (u : User)
    → u.id ≡ (s.users q).id
    → Keyed n s
    → Keyed n (set_user q u s)
set_user-Keyed {n} {s} q u e v =
    steady (set_user q u s) v (λ p. refl) (λ p. refl)
      (λ p. write-id (λ (x : User). x.id) s.users q (s.members p).user u e) refl refl refl refl

pub set_member-Keyed :
    {n : ℕ} {s : State} (q : Addr) (m : Member)
    → (s.users m.user).id ≡ member_user s q
    → Keyed n s
    → Keyed n (set_member q m s)
set_member-Keyed {n} {s} q m e v =
    steady (set_member q m s) v (λ p. refl) (λ p. refl)
      (λ p. write-id (λ (x : Member). (s.users x.user).id) s.members q p m e) refl refl refl refl

pub ready-Keyed : {n : ℕ} {s : State} (r : Ready) → Keyed n s → Keyed n (record s { ready = r })
ready-Keyed {n} {s} r v =
    steady (record s { ready = r }) v (λ p. refl) (λ p. refl) (λ p. refl) refl refl refl refl

-- The members of a list have been allocated.
abbrev pub Allocated : ℕ → List Addr → Type 0
Allocated n [] = Unit
Allocated n (p ∷ ps) = (p < n) × Allocated n ps
