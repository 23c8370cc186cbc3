-- ===== src/Go/Channel.antt =====
-- Channels: what was sent, in order, and whether the channel is open. A send of the model is a
-- send that a receiver has taken; the program's channels are unbuffered, and it waits for that.
use cain.Prelude.{Bool, true, false, List, [], ◌∷◌, ◌++◌}
use cain.Go.Text.{text}
use cain.Go.Exec.{Exec, returns, panics}

pub record Channel {ℓ} (A : Type ℓ) : Type ℓ where
  pub is_open : Bool
  pub sent : List A

module _ {ℓ} {A : Type ℓ} where
  abbrev pub make_channel : Channel A
  make_channel = record { is_open = true; sent = [] }

  abbrev pub send : A → Channel A → Exec (Channel A)
  send a c = elim c.is_open [
    | true ↦ returns (record { is_open = true; sent = c.sent ++ a ∷ [] })
    | false ↦ panics (text "send on closed channel")
  ]

  abbrev pub close : Channel A → Exec (Channel A)
  close c = elim c.is_open [
    | true ↦ returns (record { is_open = false; sent = c.sent })
    | false ↦ panics (text "close of closed channel")
  ]
