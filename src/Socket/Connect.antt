-- ===== src/Socket/Connect.antt =====
-- What `Connect` leaves: a new connection on which nothing has been sent, or none.
use mvclight.Wire.{Bytes}
use mvclight.Base.{ℕ, ◌≡◌, refl, Bool, true, false, List, [], ◌∷◌, Option, none, some}
use mvclight.Socket.{
  Channel, Dial, unresolved, resolved, LightSocket, close, first_open, open_channel, dial,
  dial_next, connect,
}

abbrev pub Dialled : LightSocket × Bool → Type 0
Dialled (s, true) = (s.sent ≡ []) × (s.m_connected ≡ true)
Dialled (s, false) = s.m_connected ≡ false

open_channel-Dialled :
    (s : LightSocket) (c : Option Channel) → s.m_connected ≡ false → Dialled (open_channel s c)
unfolding open_channel
open_channel-Dialled s none e = e
open_channel-Dialled s (some c) e = (refl, refl)

dial-Dialled : (s : LightSocket) (d : Dial) → s.m_connected ≡ false → Dialled (dial s d)
unfolding dial
dial-Dialled s unresolved e = e
dial-Dialled s (resolved attempts) e = open_channel-Dialled s (first_open attempts) e

dial_next-Dialled :
    (s : LightSocket) (dials : List (Bytes → ℕ → Dial)) (host : Bytes) (port : ℕ)
    → s.m_connected ≡ false
    → Dialled (dial_next s dials host port)
unfolding dial_next
dial_next-Dialled s [] host port e = e
dial_next-Dialled s (answer ∷ ds) host port e =
    dial-Dialled (record s { dials = ds }) (answer host port) e

pub connect-Dialled : (s : LightSocket) (host : Bytes) (port : ℕ) → Dialled (connect s host port)
unfolding connect
connect-Dialled s host port = dial_next-Dialled (close s) s.dials host port (unfold close in refl)
