-- ===== src/Voice/Lifetime.antt =====
-- voice.go: what a voice connection opens and closes.
use discordgo.Base.{
  ℕ, zero, suc, ◌+◌, ◌≤◌, ◌≡◌, refl, Bool, false, Option, none, some, List, [], ◌∷◌, ◌++◌, ap,
  on_if, on_option, if◌then◌else◌, arith,
}
use discordgo.Voice.Connection.{
  VoiceConnection, VoiceEffect, opens_ws, closes_ws, drops_ws, opens_udp, closes_udp, opens_channel,
  closes_channel, starts_heartbeat, close_connection, Dialing, open_voice, Discovery, discover,
  udp_refused, udp_open, start_heartbeat,
}

-- What is opened and closed.
pub data Kind : Type 0 where
  websocket udp channel : Kind

abbrev pub opens : Kind → VoiceEffect → ℕ
opens websocket (opens_ws n) = 1
opens udp (opens_udp n) = 1
opens channel (opens_channel n) = 1
opens _ _ = 0

-- A websocket that the server has closed is dropped.
abbrev pub shuts : Kind → VoiceEffect → ℕ
shuts websocket (closes_ws n) = 1
shuts websocket (drops_ws n) = 1
shuts udp (closes_udp n) = 1
shuts channel (closes_channel n) = 1
shuts _ _ = 0

abbrev pub beat : VoiceEffect → ℕ
beat (starts_heartbeat w c) = 1
beat _ = 0

-- How often the effects open such a thing, close one, and start a heartbeat.
abbrev pub sum_of : (VoiceEffect → ℕ) → List VoiceEffect → ℕ
sum_of f [] = 0
sum_of f (e ∷ es) = f e + sum_of f es

pub sum_of-append :
    (f : VoiceEffect → ℕ) (es fs : List VoiceEffect)
    → sum_of f (es ++ fs) ≡ sum_of f es + sum_of f fs
sum_of-append f [] fs = omega arith
sum_of-append f (e ∷ es) fs = omega (arith, sum_of-append f es fs)

abbrev pub one : {A : Type 0} → Option A → ℕ
one none = 0
one (some a) = 1

abbrev pub held : Kind → VoiceConnection → ℕ
held websocket v = one v.ws_conn
held udp v = one v.udp_conn
held channel v = one v.close_channel

abbrev pub active : VoiceConnection → ℕ
active v = if v.voice_heartbeat_active then 1 else 0

-- What effects open is closed by them or held afterwards, and so is what was held before.
abbrev pub Balanced : Kind → List VoiceEffect → VoiceConnection → VoiceConnection → Type 0
Balanced k es v v' = sum_of (opens k) es + held k v ≡ sum_of (shuts k) es + held k v'

pub close_connection-Balanced :
    (k : Kind) (v : VoiceConnection) → let (es, v') = close_connection v in Balanced k es v v'
unfolding close_connection
close_connection-Balanced websocket v = ground arith
close_connection-Balanced udp v = ground arith
close_connection-Balanced channel v = ground arith

discover-opens :
    (k : Kind) (d : Discovery) (n : ℕ) (v : VoiceConnection)
    → sum_of (opens k) (discover d n v).1 ≡ 0
unfolding discover
discover-opens websocket d n v = ground arith
discover-opens udp d n v = ground arith
discover-opens channel d n v = ground arith

discover-shuts :
    (k : Kind) (d : Discovery) (n : ℕ) (v : VoiceConnection)
    → sum_of (shuts k) (discover d n v).1 ≡ 0
unfolding discover
discover-shuts websocket d n v = ground arith
discover-shuts udp d n v = ground arith
discover-shuts channel d n v = ground arith

udp_refused-udp_conn :
    (d : Discovery) (v : VoiceConnection) → udp_refused d v ≡ false → v.udp_conn ≡ none
udp_refused-udp_conn d v h = ground arith

udp_dialled-Balanced :
    (k : Kind) (d : Discovery) (n : ℕ) (v : VoiceConnection)
    → v.udp_conn ≡ none
    → Balanced k (opens_udp n ∷ (discover d n v).1) v (record v { udp_conn = some n })
udp_dialled-Balanced websocket d n v h =
    omega (arith, discover-opens websocket d n v, discover-shuts websocket d n v)
udp_dialled-Balanced udp d n v h =
    omega (arith, ap one h, discover-opens udp d n v, discover-shuts udp d n v)
udp_dialled-Balanced channel d n v h =
    omega (arith, discover-opens channel d n v, discover-shuts channel d n v)

pub unchanged-Balanced : (k : Kind) (v : VoiceConnection) → Balanced k [] v v
unchanged-Balanced websocket v = refl
unchanged-Balanced udp v = refl
unchanged-Balanced channel v = refl

pub udp_open-Balanced :
    (k : Kind) (d : Discovery) (v : VoiceConnection)
    → let (es, v') = (udp_open d v).1 in Balanced k es v v'
unfolding udp_open
udp_open-Balanced k d v =
    let P : Bool × (List VoiceEffect × VoiceConnection) → Type 0 =
      λ out. Balanced k out.1.0 v out.1.1 in
    on_if P (udp_refused d v) (false, ([], v)) _ (λ _. unchanged-Balanced k v)
      (λ h.
        on_option P d.connected (false, ([], v)) _ (λ _. unchanged-Balanced k v)
          (λ n _. udp_dialled-Balanced k d n v (udp_refused-udp_conn d v h)))

-- `open` makes a new channel, so that it must not find one.
pub open_voice-Balanced :
    (k : Kind) (d : Dialing) (v : VoiceConnection)
    → v.close_channel ≡ none
    → let (es, v') = (open_voice d v).1 in Balanced k es v v'
unfolding open_voice
open_voice-Balanced websocket d v h = ground arith
open_voice-Balanced udp d v h = ground arith
open_voice-Balanced channel d v h = ground arith

-- Each websocket that is opened allows one more heartbeat.
abbrev pub Beating : List VoiceEffect → VoiceConnection → VoiceConnection → Type 0
Beating es v v' = sum_of beat es + active v ≤ sum_of (opens websocket) es + active v'

pub close_connection-Beating :
    (v : VoiceConnection) → let (es, v') = close_connection v in Beating es v v'
unfolding close_connection
close_connection-Beating v = ground arith

discover-beat : (d : Discovery) (n : ℕ) (v : VoiceConnection) → sum_of beat (discover d n v).1 ≡ 0
unfolding discover
discover-beat d n v = ground arith

pub udp_open-Beating :
    (d : Discovery) (v : VoiceConnection) → let (es, v') = (udp_open d v).1 in Beating es v v'
unfolding udp_open
udp_open-Beating d v =
    let P : Bool × (List VoiceEffect × VoiceConnection) → Type 0 =
      λ out. Beating out.1.0 v out.1.1 in
    on_if P (udp_refused d v) (false, ([], v)) _ (λ _. omega arith)
      (λ h.
        on_option P d.connected (false, ([], v)) _ (λ _. omega arith)
          (λ n _. omega (arith, discover-beat d n v, discover-opens websocket d n v)))

pub open_voice-Beating :
    (d : Dialing) (v : VoiceConnection) → let (es, v') = (open_voice d v).1 in Beating es v v'
unfolding open_voice
open_voice-Beating d v = ground arith

pub start_heartbeat-Beating :
    (interval : ℕ) (v : VoiceConnection)
    → let (es, v') = start_heartbeat interval v in Beating es v v'
unfolding start_heartbeat
start_heartbeat-Beating zero v = omega arith
start_heartbeat-Beating (suc n) v = ground arith

pub start_heartbeat-Balanced :
    (k : Kind) (interval : ℕ) (v : VoiceConnection)
    → let (es, v') = start_heartbeat interval v in Balanced k es v v'
unfolding start_heartbeat
start_heartbeat-Balanced k zero v = unchanged-Balanced k v
start_heartbeat-Balanced websocket (suc n) v = ground arith
start_heartbeat-Balanced udp (suc n) v = ground arith
start_heartbeat-Balanced channel (suc n) v = ground arith
