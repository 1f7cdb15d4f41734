-- ===== src/Node/Threads.antt =====
-- The channel of the irrigation hold, while the threads of the unit come between each other's steps.
use wqm.Prelude.{ℕ, ◌≡◌, ◌⊎◌, true, none, List, [], ◌∷◌}
use wqm.Relay
use wqm.Relay.{check_channel}
use wqm.Rules
use wqm.Hold.Config.{armed}
use wqm.Hold
use wqm.Hold.{Hold, owns, reserved_channels}
use wqm.Node.{Node, reload, Event, reloads, happen}
use wqm.Node.Fine.{Fine}

-- New settings come when no request is between its check and its act and no pass is under way, or they
-- neither arm nor disarm the hold nor give it another relay.
unfoldable pub IsCalm : Event → Node → Type 0
IsCalm (reloads now cfg) n =
    ((n.under_way ≡ []) × (n.pass ≡ none))
    ⊎ ((armed (reload now cfg n).hold.cfg ≡ armed n.hold.cfg)
        × ((reload now cfg n).hold.cfg.relay ≡ n.hold.cfg.relay))
IsCalm _ n = Unit

unfoldable pub AllCalm : List Event → Node → Type 0
AllCalm [] n = Unit
AllCalm (e ∷ es) n = IsCalm e n × AllCalm es (happen e n)

-- A unit as it comes up, with lines that work.
abbrev pub fresh : ℕ → Node
fresh max_on = record {
  relays = Relay.init (λ _. true) max_on;
  rules = Rules.init none;
  hold = Hold.init none;
  under_way = [];
  pass = none;
}
