-- ===== src/State/Keyed/Guilds.antt =====
-- The operations of state.go on guilds and presences keep the maps keyed.
use discordgo.Base.{
  ℕ, ◌<◌, ◌≡◌, refl, sym, ◌∙◌, String, ◌==◌, eq_iff, some, List, [], ◌∷◌, Map, no_keys, put, ◌⊎◌,
  inl, inr, Bool, true, Bool-cases, on_option, find, has, arith,
}
use native.Mathlib.Nat.{le_trans}
use discordgo.State.Types.{Addr, items, User, Member, Channel, Guild}
use discordgo.State.Store.{State, set_presence}
use discordgo.State.Guilds.{
  index_channels, index_members, create_member_map, ensure_members, enter_guild, preserve,
  guild_add, guild, guild_remove, presence_user, merge_presence, presence_add, presence_remove,
}
use discordgo.State.Members.{member_user}
use discordgo.State.Keeps.{Keeps, found-Keeps, found_only-Keeps, if-Keeps}
use discordgo.State.Keyed.{
  Keyed, put-keyed, delete-keyed, steady, set_guild-Keyed, set_user-Keyed, write-id, ready-Keyed,
  Allocated,
}

-- The channel map after the loop over a list of channels.
pub index_channels-keyed :
    (channels : Addr → Channel) (cs : List Addr) (m : Map Addr)
    → ((k : String) (p : Addr) → m k ≡ some p → (channels p).id ≡ k)
    → (k : String) (p : Addr) → index_channels channels cs m k ≡ some p
    → (channels p).id ≡ k
unfolding index_channels
index_channels-keyed channels [] m h = h
index_channels-keyed channels (c ∷ cs) m h =
    index_channels-keyed channels cs (put (channels c).id c m)
      (put-keyed (λ p. (channels p).id) m (channels c).id c h refl)

index_members-keyed :
    (users : Addr → User) (members : Addr → Member) (ps : List Addr) (m : Map Addr)
    → ((u : String) (p : Addr) → m u ≡ some p → (users (members p).user).id ≡ u)
    → (u : String) (p : Addr) → index_members users members ps m u ≡ some p
    → (users (members p).user).id ≡ u
unfolding index_members
index_members-keyed users members [] m h = h
index_members-keyed users members (q ∷ ps) m h =
    index_members-keyed users members ps _
      (put-keyed (λ p. (users (members p).user).id) m _ q h refl)

index_members-Allocated :
    (n : ℕ) (users : Addr → User) (members : Addr → Member) (ps : List Addr) (m : Map Addr)
    → Allocated n ps
    → ((u : String) (p : Addr) → m u ≡ some p → p < n)
    → (u : String) (p : Addr) → index_members users members ps m u ≡ some p
    → p < n
unfolding index_members
index_members-Allocated n users members [] m a h = h
index_members-Allocated n users members (q ∷ ps) m a h =
    index_members-Allocated n users members ps _ a.1 λ u p e. ground (arith, h u p, a.0)

-- An entry of a map is the one just written, or was there before.
pub put-cases :
    {V : Type 0} (id k : String) (new v : V) (m : Map V)
    → put id new m k ≡ some v
    → ((id ≡ k) × (v ≡ new)) ⊎ (m k ≡ some v)
put-cases id k new v m h = ground (arith, eq_iff id k)

-- A new table of members.
pub put_table-Keyed :
    {n : ℕ} {s : State} (id : String) (table : Map Addr)
    → ((u : String) (p : Addr) → table u ≡ some p → member_user s p ≡ u)
    → ((u : String) (p : Addr) → table u ≡ some p → p < s.next_member)
    → Keyed n s
    → Keyed n (record s { member_map = put id table s.member_map })
put_table-Keyed {n} {s} id table keyed allocated v = record {
  grown = v.grown;
  guilds_keyed = v.guilds_keyed;
  channels_keyed = v.channels_keyed;
  members_keyed = λ k u ms p h i. elim (put-cases id k table ms s.member_map h) [
    | inl (_, e) ↦ keyed u p (rw e at i)
    | inr e ↦ v.members_keyed k u ms p e i
  ];
  members_allocated = λ k u ms p h i. elim (put-cases id k table ms s.member_map h) [
    | inl (_, e) ↦ allocated u p (rw e at i)
    | inr e ↦ v.members_allocated k u ms p e i
  ];
}

pub no_keys-keyed :
    (P : String → Addr → Type 0) (u : String) (p : Addr) → no_keys u ≡ some p → P u p
no_keys-keyed P u p h = absurd (ground arith)

pub create_member_map-Keyed :
    {n : ℕ} {s : State} (g : Guild)
    → Allocated n (items g.members)
    → Keyed n s
    → Keyed n (create_member_map g s)
unfolding create_member_map
create_member_map-Keyed {n} {s} g a v =
    put_table-Keyed g.id (index_members s.users s.members (items g.members) no_keys)
      (index_members-keyed s.users s.members (items g.members) no_keys (no_keys-keyed _))
      (λ u p h.
        le_trans
          (index_members-Allocated n s.users s.members (items g.members) no_keys a (no_keys-keyed _)
            u p h)
          v.grown)
      v

-- New entries in the channel map.
pub channel_map-Keyed :
    {n : ℕ} {s : State} (m : Map Addr)
    → ((k : String) (p : Addr) → m k ≡ some p → (s.channels p).id ≡ k)
    → Keyed n s
    → Keyed n (record s { channel_map = m })
channel_map-Keyed m h v = record {
  grown = v.grown;
  guilds_keyed = v.guilds_keyed;
  channels_keyed = h;
  members_keyed = v.members_keyed;
  members_allocated = v.members_allocated;
}

pub guild_map-Keyed :
    {n : ℕ} {s : State} (m : Map Addr)
    → ((k : String) (p : Addr) → m k ≡ some p → (s.guilds p).id ≡ k)
    → Keyed n s
    → Keyed n (record s { guild_map = m })
guild_map-Keyed m h v = record {
  grown = v.grown;
  guilds_keyed = h;
  channels_keyed = v.channels_keyed;
  members_keyed = v.members_keyed;
  members_allocated = v.members_allocated;
}

ensure_members-Keyed :
    {n : ℕ} {s : State} (g : Guild)
    → Allocated n (items g.members)
    → Keyed n s
    → Keyed n (ensure_members g s)
unfolding ensure_members
ensure_members-Keyed {n} {s} g a v =
    on_option (Keyed n) g.members _ _
      (λ _.
        on_option (Keyed n) (s.member_map g.id) _ _
          (λ _. put_table-Keyed g.id no_keys (no_keys-keyed _) (no_keys-keyed _) v) (λ _ _. v))
      (λ ms e. create_member_map-Keyed g a v)

enter_guild-Keyed :
    {n : ℕ} {s : State} (p : Addr) (g : Guild)
    → g.id ≡ (s.guilds p).id
    → Keyed n s
    → Keyed n (enter_guild p g s)
unfolding enter_guild preserve
enter_guild-Keyed {n} {s} p g same v =
    on_option (Keyed n) (s.guild_map g.id) _ _
      (λ _.
        guild_map-Keyed (put g.id p s.guild_map)
          (put-keyed (λ x. (s.guilds x).id) s.guild_map g.id p v.guilds_keyed (sym same))
          (ready-Keyed _ v))
      (λ q e.
        set_guild-Keyed q _
          (sym (write-id (λ (x : Guild). x.id) s.guilds p q _ same ∙ v.guilds_keyed g.id q e))
          (set_guild-Keyed p _ same v))

ensure_members-guilds :
    (g : Guild) (s : State) (p : Addr) → ((ensure_members g s).guilds p).id ≡ (s.guilds p).id
unfolding ensure_members
ensure_members-guilds g s p = ground arith

enter_ensured-Keyed :
    {n : ℕ} {s : State} (p : Addr) (g : Guild)
    → g.id ≡ (s.guilds p).id
    → Allocated n (items g.members)
    → Keyed n s
    → Keyed n (enter_guild p g (ensure_members g s))
enter_ensured-Keyed {n} {s} p g same a v =
    enter_guild-Keyed p g (same ∙ sym (ensure_members-guilds g s p)) (ensure_members-Keyed g a v)

pub guild_add-Keyed :
    (n : ℕ) (p : Addr) (s : State)
    → Allocated n (items (s.guilds p).members)
    → Keyed n s
    → Keyed n (guild_add p s).1
unfolding guild_add
guild_add-Keyed n p s a v = enter_ensured-Keyed p (s.guilds p) refl a (
    channel_map-Keyed _
      (index_channels-keyed s.channels (items (s.guilds p).threads) _
        (index_channels-keyed s.channels (items (s.guilds p).channels) _ v.channels_keyed))
      v)

pub guild-Keeps : (P : State → Type 0) (id : String) → Keeps P (guild id)
unfolding guild
guild-Keeps P id s h = found_only-Keeps P (s.guild_map id) s h

pub guild_remove-Keyed : (n : ℕ) (p : Addr) → Keeps (Keyed n) (guild_remove p)
unfolding guild_remove guild
guild_remove-Keyed n p s v = found-Keeps (Keyed n) (s.guild_map (s.guilds p).id) _ s v λ _ _.
    guild_map-Keyed _
      (delete-keyed (λ x. (s.guilds x).id) s.guild_map (s.guilds p).id v.guilds_keyed)
      (ready-Keyed _ v)

merge_presence-Keyed :
    (n : ℕ) (p q : Addr) (s : State)
    → presence_user s q ≡ presence_user s p
    → Keyed n s
    → Keyed n (merge_presence p q s)
unfolding merge_presence
merge_presence-Keyed n p q s same v =
    set_user-Keyed (s.presences p).user _ same
      (steady (set_presence p _ s) v (λ x. refl) (λ x. refl) (λ x. refl) refl refl refl refl)

pub find-passes {ℓ} :
    {A : Type ℓ} (test : A → Bool) (xs : List A) (x : A) → find test xs ≡ some x → test x ≡ true
find-passes test [] x h = absurd (ground arith)
find-passes test (y ∷ xs) x h = elim (Bool-cases (test y)) [
  | inl e ↦ ground arith
  | inr e ↦ find-passes test xs x (ground arith)
]

pub presence_add-Keyed : (n : ℕ) (id : String) (q : Addr) → Keeps (Keyed n) (presence_add id q)
unfolding presence_add
presence_add-Keyed n id q s v = found-Keeps (Keyed n) (s.guild_map id) _ s v λ g _.
    on_option (λ (f : State → State). Keyed n (f s))
      (find (λ p. presence_user s p == presence_user s q) (items (s.guilds g).presences)) _ _
      (λ _. set_guild-Keyed g _ refl v)
      (λ p e.
        merge_presence-Keyed n p q s
          (sym (
            (eq_iff (presence_user s p) (presence_user s q)).0 (
              find-passes (λ x. presence_user s x == presence_user s q)
                (items (s.guilds g).presences) p e)))
          v)

pub presence_remove-Keyed :
    (n : ℕ) (id : String) (q : Addr) → Keeps (Keyed n) (presence_remove id q)
unfolding presence_remove guild
presence_remove-Keyed n id q s v = found-Keeps (Keyed n) (s.guild_map id) _ s v λ g _.
    if-Keeps (Keyed n)
      (has (λ p. presence_user s p == presence_user s q) (items (s.guilds g).presences)) _ _
      (λ t w. set_guild-Keyed g _ refl w) (λ t w. w) s v
