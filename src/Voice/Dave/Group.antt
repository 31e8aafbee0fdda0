-- ===== src/Voice/Dave/Group.antt =====
-- voice_dave_controller_libdave.go: what a controller promises, without the decryptors, the
-- encryptor and the flags that it keeps: a frame takes the ratchet that is held for its user at
-- the time, or the one that the session has if none is held yet.
use discordgo.Base.{
  ℕ, ◌+◌, ◌%◌, String, Bool, true, false, ◌==◌, Option, none, some, List, [], ◌∷◌, Map, put, delete,
  write, eqb, map, if◌then◌else◌, ◌≡◌,
}
use discordgo.Voice.Bytes.{Bytes}
use discordgo.Voice.Dave.Controller.{LibdaveController, close_controller}
use discordgo.Voice.Dave.Transitions.{
  CommitResult, nil_result, commit_failed, commit_ignored, committed, unless_belongs, add_users,
  with_roster, prepare_transition, client_disconnected, handle_mls_commit_transition,
}
use discordgo.Voice.Dave.Audio.{
  Sealing, unsealed, no_ratchet, encrypts, Unsealing, as_it_is, no_decryptor, decrypts, name_of,
  encrypt_opus, decrypt_opus, handle_speaking_update,
}

-- What a frame becomes: it stays as it is, is refused, or takes a ratchet.
pub data Treatment : Type 0 where
  quiet refused : Treatment
  plain : Bytes → Treatment
  seals opens : (ratchet : Option ℕ) → Bytes → Treatment

pub record Group : Type 0 where
  pub session : Option ℕ
  pub protocol_version : ℕ
  pub ratchets : Map ℕ
  pub ssrc_users : ℕ → Option String
  pub mapped_ssrcs : List ℕ
  pub next_ratchet : ℕ

abbrev pub view : LibdaveController → Group
view c = record {
  session = c.session;
  protocol_version = c.protocol_version;
  ratchets = c.ratchets;
  ssrc_users = c.ssrc_users;
  mapped_ssrcs = c.mapped_ssrcs;
  next_ratchet = c.next_ratchet;
}

abbrev pub group_fetch : (keys : String → Bool) → String → Group → Option ℕ × Group
group_fetch keys u g =
    if keys u
    then (
      some g.next_ratchet,
      (if u == "" then record g { next_ratchet = g.next_ratchet + 1 } else record g {
        ratchets = put u g.next_ratchet g.ratchets;
        next_ratchet = g.next_ratchet + 1;
      }),
    )
    else (none, g)

-- The ratchet of a user, and the group that holds it then.
abbrev pub group_ratchet : (keys : String → Bool) → String → Group → Option ℕ × Group
group_ratchet keys u g = elim (g.ratchets u) [
  | some h ↦ (some h, g)
  | none ↦
      if u == ""
      then (none, g)
      else elim g.session [ none ↦ (none, g) | some v ↦ group_fetch keys u g ]
]

abbrev pub with_ratchet : (Option ℕ → Treatment) → Option ℕ → Treatment
with_ratchet f none = refused
with_ratchet f (some h) = f (some h)

abbrev pub group_ensure : (parses : Bool) (n : ℕ) → Group → Bool × Group
group_ensure parses n g =
    let version = if eqb n 0 then 1 else n in
    let opened = record g { session = some version; protocol_version = version } in
    elim g.session [
      | none ↦ if parses then (true, opened) else (false, g)
      | some old ↦ (true, opened)
    ]

pub data DaveCall : Type 0 where
  transition : (parses : Bool) (transition_id n : ℕ) → DaveCall
  disconnected : String → DaveCall
  commit :
      (keys : String → Bool) (parses : Bool) (process : Bytes → CommitResult) → Bytes → DaveCall
  speaking : (keys : String → Bool) (ssrc : ℕ) → String → DaveCall
  encrypt decrypt : (keys : String → Bool) (ssrc : ℕ) → Bytes → DaveCall
  close : DaveCall

abbrev pub sealing : Sealing → Treatment
sealing (unsealed opus) = plain opus
sealing no_ratchet = refused
sealing (encrypts e ssrc opus) = seals e.ratchet opus

abbrev pub unsealing : Unsealing → Treatment
unsealing (as_it_is opus) = plain opus
unsealing no_decryptor = refused
unsealing (decrypts d opus) = opens (some d.ratchet) opus

-- What the encryptor or the decryptor that a frame is given to was told of passthrough, in which it
-- leaves the frame as it is; a new decryptor was told nothing.
pub data Mode : Type 0 where
  no_mode : Mode
  encryptor_mode : Bool → Mode
  decryptor_mode : Option Bool → Mode

abbrev pub sealing_mode : Sealing → Mode
sealing_mode (encrypts e ssrc opus) = encryptor_mode e.passthrough
sealing_mode _ = no_mode

abbrev pub unsealing_mode : Unsealing → Mode
unsealing_mode (decrypts d opus) = decryptor_mode d.passthrough
unsealing_mode _ = no_mode

-- The modes that the group keeps for its encryptor and its decryptors, where it has them.
pub record Modes : Type 0 where
  pub encryptor : Option Bool
  pub decryptors : ℕ → Option (Option Bool)

abbrev pub no_modes : Modes
no_modes = record { encryptor = none; decryptors = λ ssrc. none }

abbrev pub or_off : Option Bool → Bool
or_off none = false
or_off (some b) = b

abbrev pub or_untold : Option (Option Bool) → Option Bool
or_untold none = none
or_untold (some mode) = mode

abbrev pub told {ℓ} : {A : Type ℓ} → A → Option A → Option A
told x none = none
told x (some y) = some x

abbrev pub with_encryptor : Option ℕ → Modes → Modes
with_encryptor none m = m
with_encryptor (some h) m = record m { encryptor = some (or_off m.encryptor) }

abbrev pub with_decryptor : (ssrc : ℕ) → Option ℕ → Modes → Modes
with_decryptor ssrc none m = m
with_decryptor ssrc (some h) m = record m {
  decryptors = write ssrc (some (or_untold (m.decryptors ssrc))) m.decryptors;
}

abbrev pub group_refresh : (keys : String → Bool) → List String → Group → Group
group_refresh keys [] g = g
group_refresh keys (u ∷ us) g = group_refresh keys us (group_fetch keys u g).1

abbrev pub group_outbound : (user_id : String) (keys : String → Bool) → Group → Group
group_outbound user_id keys g = if user_id == "" then g else elim (g.ratchets user_id) [
  | some h ↦ g
  | none ↦ elim g.session [ none ↦ g | some v ↦ (group_fetch keys user_id g).1 ]
]

module _ (range : List String → List String) (format_uint : ℕ → String) (user_id : String) where
  -- A call of the controller.
  abbrev pub dave_step : DaveCall → LibdaveController → Treatment × LibdaveController
  dave_step (transition parses transition_id n) c =
      (quiet, (prepare_transition user_id parses transition_id n c).1)
  dave_step (disconnected u) c = (quiet, client_disconnected u c)
  dave_step (commit keys parses process bs) c =
      (quiet, (handle_mls_commit_transition keys range format_uint user_id parses process bs c).1)
  dave_step (speaking keys ssrc u) c = (quiet, handle_speaking_update keys ssrc u c)
  dave_step (encrypt keys ssrc opus) c =
      let (x, c') = encrypt_opus keys user_id ssrc opus c in (sealing x, c')
  dave_step (decrypt keys ssrc opus) c =
      let (x, c') = decrypt_opus keys ssrc opus c in (unsealing x, c')
  dave_step close c = (quiet, close_controller c)

  abbrev pub group_renew : (keys : String → Bool) → List ℕ → Group → Group
  group_renew keys roster g =
      let want =
        add_users (map g.ssrc_users g.mapped_ssrcs) (with_roster (map format_uint roster) []) in
      group_outbound user_id keys (group_refresh keys (range want) g)

  abbrev pub group_apply : (keys : String → Bool) → CommitResult → Group → Group
  group_apply keys nil_result g = g
  group_apply keys commit_failed g = g
  group_apply keys commit_ignored g = group_outbound user_id keys g
  group_apply keys (committed roster) g = group_renew keys roster g

  abbrev pub group_commit :
      (keys : String → Bool) (parses : Bool) (process : Bytes → CommitResult)
      → Bytes
      → Group
      → Group
  group_commit keys parses process [] g = g
  group_commit keys parses process (b ∷ bs) g =
      let (ok, g') =
        group_ensure parses (if eqb g.protocol_version 0 then 1 else g.protocol_version) g in
      if ok
      then elim g'.session [ none ↦ g' | some v ↦ group_apply keys (process (b ∷ bs)) g' ]
      else g'

  abbrev pub group_step : DaveCall → Group → Treatment × Group
  group_step (transition parses transition_id n) g =
      let version = n % 65536 in
      let (ok, g') = group_ensure parses version g in
      (quiet, (if ok then record g' { protocol_version = version } else g'))
  group_step (disconnected u) g = (
    quiet,
    (if u == "" then g else record g {
      ratchets = delete u g.ratchets;
      ssrc_users = λ ssrc. unless_belongs (g.ssrc_users ssrc) u (g.ssrc_users ssrc);
    }),
  )
  group_step (commit keys parses process bs) g = (quiet, group_commit keys parses process bs g)
  group_step (speaking keys ssrc u) g =
      let short = ssrc % 4294967296 in
      let g' = record g {
        ssrc_users = write short (some u) g.ssrc_users;
        mapped_ssrcs = short ∷ g.mapped_ssrcs;
      } in
      (quiet, (if eqb ssrc 0 then g else if u == "" then g else (group_ratchet keys u g').1))
  group_step (encrypt keys ssrc opus) g =
      let (kr, g') = group_ratchet keys user_id g in
      if eqb g.protocol_version 0
      then (plain opus, g)
      else (with_ratchet (λ h. seals h opus) kr, g')
  group_step (decrypt keys ssrc opus) g =
      let u = name_of (g.ssrc_users ssrc) in
      let (kr, g') = group_ratchet keys u g in
      if eqb g.protocol_version 0
      then (plain opus, g)
      else (with_ratchet (λ h. opens h opus) kr, g')
  group_step close g = (quiet, record g { session = none; ratchets = λ u. none })

  abbrev pub dave_mode : DaveCall → LibdaveController → Mode
  dave_mode (encrypt keys ssrc opus) c = sealing_mode (encrypt_opus keys user_id ssrc opus c).0
  dave_mode (decrypt keys ssrc opus) c = unsealing_mode (decrypt_opus keys ssrc opus c).0
  dave_mode _ c = no_mode

  abbrev pub group_mode : DaveCall → Group → Modes → Mode
  group_mode (encrypt keys ssrc opus) g m =
      if eqb g.protocol_version 0 then no_mode else elim (group_ratchet keys user_id g).0 [
        | none ↦ no_mode
        | some h ↦ encryptor_mode (or_off m.encryptor)
      ]
  group_mode (decrypt keys ssrc opus) g m =
      if eqb g.protocol_version 0
      then no_mode
      else elim (group_ratchet keys (name_of (g.ssrc_users ssrc)) g).0 [
        | none ↦ no_mode
        | some h ↦ decryptor_mode (or_untold (m.decryptors ssrc))
      ]
  group_mode _ g m = no_mode

  -- The modes after a call of the group. Only a transition changes a mode, to passthrough if it is
  -- one to version 0.
  abbrev pub mode_step : DaveCall → Group → Modes → Modes
  mode_step (transition parses transition_id n) g m =
      if (group_ensure parses (n % 65536) g).0
      then record {
        encryptor = told (eqb n 0) m.encryptor;
        decryptors = λ ssrc. told (some (eqb n 0)) (m.decryptors ssrc);
      }
      else m
  mode_step (disconnected u) g m = if u == "" then m else record m {
    decryptors = λ ssrc. unless_belongs (g.ssrc_users ssrc) u (m.decryptors ssrc);
  }
  mode_step (commit keys parses process bs) g m = m
  mode_step (speaking keys ssrc u) g m =
      let short = ssrc % 4294967296 in
      let g' = record g {
        ssrc_users = write short (some u) g.ssrc_users;
        mapped_ssrcs = short ∷ g.mapped_ssrcs;
      } in
      if eqb ssrc 0
      then m
      else if u == ""
      then m
      else with_decryptor short (group_ratchet keys u g').0 m
  mode_step (encrypt keys ssrc opus) g m =
      if eqb g.protocol_version 0 then m else with_encryptor (group_ratchet keys user_id g).0 m
  mode_step (decrypt keys ssrc opus) g m =
      if eqb g.protocol_version 0
      then m
      else with_decryptor ssrc (group_ratchet keys (name_of (g.ssrc_users ssrc)) g).0 m
  mode_step close g m = no_modes

  -- What the calls of a list do to the frames.
  abbrev pub dave_run : List DaveCall → LibdaveController → List (Treatment × Mode)
  dave_run [] c = []
  dave_run (x ∷ xs) c = let (t, c') = dave_step x c in (t, dave_mode x c) ∷ dave_run xs c'

  abbrev pub group_run : List DaveCall → Group → Modes → List (Treatment × Mode)
  group_run [] g m = []
  group_run (x ∷ xs) g m =
      let (t, g') = group_step x g in (t, group_mode x g m) ∷ group_run xs g' (mode_step x g m)

  -- No SSRC goes to another user before its own is gone.
  abbrev pub Steady : DaveCall → Group → Type 0
  Steady (speaking keys ssrc u) g = (w : String) → g.ssrc_users (ssrc % 4294967296) ≡ some w → w ≡ u
  Steady _ g = Unit

  abbrev pub SteadyRun : List DaveCall → Group → Type 0
  SteadyRun [] g = Unit
  SteadyRun (x ∷ xs) g = Steady x g × SteadyRun xs (group_step x g).1
