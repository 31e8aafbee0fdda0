-- ===== src/State/Laws/Messages.antt =====
-- The message cache of a channel in state.go.
use discordgo.Base.{
  ℕ, zero, suc, ◌-◌, ◌≤◌, ◌<◌, ◌≡◌, refl, String, Bool, true, ◌==◌, eq_refl, eq_iff, none, some,
  List, [], ◌∷◌, ◌++◌, length, drop, find, write, ltb, length-append, length-drop, Option-cases,
  inl, inr, Bool-cases, arith,
}
use discordgo.State.Types.{Addr, items, Message}
use discordgo.State.Store.{State, done, set_message}
use discordgo.State.Keyed.Guilds.{find-passes}
use discordgo.State.Channels.{channel, message_id, merge_message, newest, message_add, message}

length-newest : {A : Type 0} (max : ℕ) (ms : List A) → length (newest max ms) ≤ max
unfolding newest
length-newest max ms = elim (Bool-cases (ltb max (length ms))) [
  | inl e ↦ rw e (omega (arith, length-drop (length ms - max) ms, below))
  | inr e ↦ rw e (ground arith)
]
  where
    below : ltb max (length ms) ≡ true → max < length ms
    below h = ground arith

find-drop_last :
    {A : Type 0} (test : A → Bool) (ms : List A) (p : A) (k : ℕ)
    → find test ms ≡ none
    → test p ≡ true
    → k ≤ length ms
    → find test (drop k (ms ++ p ∷ [])) ≡ some p
find-drop_last test [] p zero h e le = rw e
find-drop_last test [] p (suc k) h e le = absurd (omega arith)
find-drop_last test (m ∷ ms) p zero h e le = ground (arith, find-drop_last test ms p zero)
find-drop_last test (m ∷ ms) p (suc k) h e le =
    find-drop_last test ms p k (ground arith) e (omega arith)

find-newest :
    {A : Type 0} (test : A → Bool) (ms : List A) (p : A) (max : ℕ)
    → find test ms ≡ none
    → test p ≡ true
    → 0 < max
    → find test (newest max (ms ++ p ∷ [])) ≡ some p
unfolding newest
find-newest test ms p max h e pos = elim (Bool-cases (ltb max (length (ms ++ p ∷ [])))) [
  | inl b ↦ rw b (
      find-drop_last test ms p (length (ms ++ p ∷ []) - max) h e
        (omega (arith, length-append ms (p ∷ []))))
  | inr b ↦ rw b (find-drop_last test ms p 0 h e (omega arith))
]

-- A merge leaves the message under its ID.
find-merged :
    (q : Addr) (new : Message) (f : Addr → Message) (id : String) (ms : List Addr)
    → find (λ x. (write q (merge_message new (f q)) f x).id == id) ms
      ≡ find (λ x. (f x).id == id) ms
unfolding merge_message
find-merged q new f id [] = refl
find-merged q new f id (m ∷ ms) = ground (arith, find-merged q new f id ms)

module _ (s : State) (p c : Addr) (known : s.channel_map (s.messages p).channel_id ≡ some c)
    (pos : 0 < s.max_message_count)
    (bounded : length (items (s.channels c).messages) ≤ s.max_message_count) where
  message_add_merged :
      (q : Addr)
      → find (λ x. message_id s x == (s.messages p).id) (items (s.channels c).messages) ≡ some q
      → (message_add p s).1 ≡ set_message q (merge_message (s.messages p) (s.messages q)) s
  unfolding message_add channel
  message_add_merged q e = rw known (rw e refl)

  -- In a known channel, where `MaxMessageCount` is positive and the channel's messages are not
  -- more than it: after `MessageAdd` the message is found by its ID in its channel, and the
  -- channel holds at most `MaxMessageCount` messages.
  pub message-message_add :
      let m = s.messages p in
      let t = (message_add p s).1 in
      ((q : Addr) × ((message m.channel_id m.id t).0 ≡ done q) × ((t.messages q).id ≡ m.id))
      × (length (items (t.channels c).messages) ≤ t.max_message_count)
  unfolding message_add message channel merge_message
  message-message_add =
      let m = s.messages p in
      let same = λ (q : Addr). message_id s q == m.id in
      let ms = items (s.channels c).messages in
      elim (Option-cases (find same ms)) [
        | inl e ↦ (
          (
            p,
            ground (arith, find-newest same ms p s.max_message_count e (eq_refl m.id) pos),
            ground arith,
          ),
          ground (arith, length-newest s.max_message_count (ms ++ p ∷ [])),
        )
        | inr (q, e) ↦ merged q e
      ]
    where
      merged :
          (q : Addr)
          → find (λ x. message_id s x == (s.messages p).id) (items (s.channels c).messages) ≡ some q
          → ((r : Addr) × ((message
                  (s.messages p).channel_id
                  (s.messages p).id
                  (message_add p s).1).0
                ≡ done r)
              × (((message_add p s).1.messages r).id ≡ (s.messages p).id))
            × (length (items ((message_add p s).1.channels c).messages)
                ≤ (message_add p s).1.max_message_count)
      merged q e =
          let m = s.messages p in
          let ms = items (s.channels c).messages in
          rw (message_add_merged q e) (
            (
              q,
              rw (known, find-merged q m s.messages m.id ms, e) refl,
              ground (
                arith,
                find-passes (λ x. message_id s x == m.id) ms q e,
                eq_iff (s.messages q).id m.id,
              ),
            ),
            bounded,
          )
