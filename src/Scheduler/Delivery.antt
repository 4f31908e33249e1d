-- ===== src/Scheduler/Delivery.antt =====
-- crates/lucy-scheduler/src/delivery.rs: what delivers a task's message. A handler changes the state W of
-- the outside; the two senders' channels are the record Outbox, and the webhook handlers' HTTP client is
-- no part of the model.
pub mod Routes
use lucy.Prelude.{ℕ, Bool, Option, none, some, List, [], ◌∷◌, ◌++◌, if◌then◌else◌, Result, ok, err}
use lucy.Prelude.Maps.{Map, lookup, insert}
use lucy.Text.{Text, codes}
use lucy.Text.Equality.{text_key}
use lucy.Scheduler.Registry.{DeliveryChannel, DeliveryConfig, tui, gateway, webhook}

abbrev pub to_gateway : Text → DeliveryConfig
to_gateway destination = record { channel = gateway; destination = destination }

abbrev pub to_webhook : Text → DeliveryConfig
to_webhook url = record { channel = webhook url; destination = url }

pub record DeliveryMessage : Type 0 where
  pub task_id : Text
  pub output : Text
  pub success : Bool
  pub timestamp : ℕ
  pub destination : Text

pub data DeliveryError : Type 0 where
  channel_closed : DeliveryError
  webhook_failed : Text → DeliveryError
  no_handler : Text → DeliveryError

-- the answer of a delivery, and what it leaves
abbrev pub Delivered : Type 0 → Type 0
Delivered W = Result DeliveryError Unit × W

abbrev pub DeliveryHandler : Type 0 → Type 0
DeliveryHandler W = DeliveryMessage → W → Delivered W

-- a sender of an unbounded channel: whether its receiver is there, and what was sent
pub record Outbox : Type 0 where
  pub receiving : Bool
  pub queue : List DeliveryMessage

-- `TuiDelivery::deliver` and `GatewayDelivery::deliver`
unfoldable pub send : DeliveryMessage → Outbox → Delivered Outbox
send message box =
    if box.receiving
    then (ok tt, record box { queue = box.queue ++ message ∷ [] })
    else (err channel_closed, box)

pub record DeliveryRouter (W : Type 0) : Type 0 where
  pub for_tui : Option (DeliveryHandler W)
  pub for_gateway : Option (DeliveryHandler W)
  pub webhooks : Map Text (DeliveryHandler W)

module _ {W : Type 0} where
  abbrev pub new_router : DeliveryRouter W
  new_router = record { for_tui = none; for_gateway = none; webhooks = [] }

  abbrev pub with_tui : DeliveryHandler W → DeliveryRouter W → DeliveryRouter W
  with_tui handler r = record r { for_tui = some handler }

  abbrev pub with_gateway : DeliveryHandler W → DeliveryRouter W → DeliveryRouter W
  with_gateway handler r = record r { for_gateway = some handler }

  unfoldable pub with_webhook : Text → DeliveryHandler W → DeliveryRouter W → DeliveryRouter W
  unfolding insert
  with_webhook url handler r = record r { webhooks = insert url handler r.webhooks }

  abbrev by_handler : Option (DeliveryHandler W) → Text → DeliveryMessage → W → Delivered W
  by_handler none name message w = (err (no_handler name), w)
  by_handler (some handler) name message w = handler message w

  abbrev pub to_channel : DeliveryRouter W → DeliveryChannel → DeliveryMessage → W → Delivered W
  to_channel r tui = by_handler r.for_tui (codes "tui")
  to_channel r gateway = by_handler r.for_gateway (codes "gateway")
  to_channel r (webhook url) = by_handler (lookup url r.webhooks) (codes "webhook: " ++ url)

  unfoldable pub deliver : DeliveryRouter W → DeliveryConfig → DeliveryMessage → W → Delivered W
  unfolding lookup
  deliver r config message w = to_channel r config.channel message w
