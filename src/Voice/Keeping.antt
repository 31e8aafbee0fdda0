-- ===== src/Voice/Keeping.antt =====
-- voice.go: what a step of a voice connection does to what it has opened.
use discordgo.Base.{ℕ, ◌≤◌, ◌≡◌, refl, Option, none, some, List, [], ◌∷◌, ◌++◌, arith}
use discordgo.Voice.Bytes.{Bytes}
use discordgo.Voice.Connection.{
  VoiceConnection, VoiceEffect, opens_ws, closes_ws, drops_ws, opens_udp, closes_udp, opens_channel,
  closes_channel, starts_heartbeat, DaveController, on_controller, calls_controller,
}
use discordgo.Voice.Messages.{
  prepare_transition_effects, prepare_epoch_effects, binary_effects, starts_audio,
}
use discordgo.Voice.Lifetime.{
  Kind, websocket, udp, channel, opens, shuts, beat, sum_of, sum_of-append, held, active, Balanced,
  Beating,
}

-- What effects and a change of the connection do together.
pub record Kept (es : List VoiceEffect) (v v' : VoiceConnection) : Type 0 where
  pub balanced : (k : Kind) → Balanced k es v v'
  pub beating : Beating es v v'

-- The effects that open, close or start a heartbeat.
abbrev pub noise : VoiceEffect → ℕ
noise (opens_ws n) = 1
noise (closes_ws n) = 1
noise (drops_ws n) = 1
noise (opens_udp n) = 1
noise (closes_udp n) = 1
noise (opens_channel n) = 1
noise (closes_channel n) = 1
noise (starts_heartbeat w c) = 1
noise _ = 0

opens-noise : (k : Kind) (e : VoiceEffect) → opens k e ≤ noise e
opens-noise websocket e = ground arith
opens-noise udp e = ground arith
opens-noise channel e = ground arith

shuts-noise : (k : Kind) (e : VoiceEffect) → shuts k e ≤ noise e
shuts-noise websocket e = ground arith
shuts-noise udp e = ground arith
shuts-noise channel e = ground arith

beat-noise : (e : VoiceEffect) → beat e ≤ noise e
beat-noise e = ground arith

sum_of_below :
    (f g : VoiceEffect → ℕ)
    → ((e : VoiceEffect) → f e ≤ g e)
    → (es : List VoiceEffect) → sum_of f es ≤ sum_of g es
sum_of_below f g le [] = omega arith
sum_of_below f g le (e ∷ es) = omega (arith, le e, sum_of_below f g le es)

abbrev pub Silent : List VoiceEffect → Type 0
Silent es = sum_of noise es ≡ 0

pub Kept-append :
    (es fs : List VoiceEffect) (v v' v'' : VoiceConnection)
    → Kept es v v'
    → Kept fs v' v''
    → Kept (es ++ fs) v v''
Kept-append es fs v v' v'' a b = record {
  balanced = λ k. omega (
    arith,
    a.balanced k,
    b.balanced k,
    sum_of-append (opens k) es fs,
    sum_of-append (shuts k) es fs,
  );
  beating = omega (
    arith,
    a.beating,
    b.beating,
    sum_of-append beat es fs,
    sum_of-append (opens websocket) es fs,
  );
}

pub Silent-Kept :
    (es : List VoiceEffect) (v v' : VoiceConnection)
    → Silent es
    → ((k : Kind) → held k v ≡ held k v')
    → active v ≡ active v'
    → Kept es v v'
Silent-Kept es v v' s same same' = record {
  balanced = λ k. omega (
    arith,
    sum_of_below (opens k) noise (opens-noise k) es,
    sum_of_below (shuts k) noise (shuts-noise k) es,
    same k,
  );
  beating = omega (arith, sum_of_below beat noise beat-noise es, same');
}

pub on_controller-Silent :
    (c : Option DaveController) → Silent (on_controller (calls_controller ∷ []) c)
on_controller-Silent none = refl
on_controller-Silent (some c) = refl

pub Silent-append : (es fs : List VoiceEffect) → Silent es → Silent fs → Silent (es ++ fs)
Silent-append es fs a b = omega (arith, sum_of-append noise es fs)

pub prepare_transition-Silent :
    (c : Option DaveController) (t version : ℕ) → Silent (prepare_transition_effects c t version)
unfolding prepare_transition_effects
prepare_transition-Silent c t version = ground arith

pub prepare_epoch-Silent :
    (ws : Option ℕ) (c : Option DaveController) (t version epoch : ℕ)
    → Silent (prepare_epoch_effects ws c t version epoch)
unfolding prepare_epoch_effects
prepare_epoch-Silent ws c t version epoch = ground arith

pub binary-Silent :
    (ws : Option ℕ) (opcode : ℕ) (payload : Bytes) (c : Option DaveController)
    → Silent (binary_effects ws opcode payload c)
unfolding binary_effects
binary-Silent ws opcode payload c = ground arith

pub starts_audio-Silent : (v : VoiceConnection) → Silent (starts_audio v)
starts_audio-Silent v = ground arith
