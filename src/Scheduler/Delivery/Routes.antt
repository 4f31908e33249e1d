-- ===== src/Scheduler/Delivery/Routes.antt =====
-- What a router of deliveries does with a message.
use mathlib.Core.List.{append-nil, append_assoc}
use lucy.Prelude.{sym, ap, ◌∙◌, ◌≡◌, ◌++◌, refl, arith, if◌then◌else◌, true, List, [], ◌∷◌}
use lucy.Prelude.Maps.{lookup-insert}
use lucy.Text.{Text, text_eq}
use lucy.Text.Equality.{text_key}
use lucy.Scheduler.Registry.{DeliveryConfig, DeliveryChannel, tui, gateway, webhook}
use lucy.Scheduler.Delivery.{
  DeliveryRouter, DeliveryHandler, DeliveryMessage, deliver, with_webhook, to_webhook, new_router,
  Outbox, send, to_channel,
}

module _ {W : Type 0} where
  -- Deliveries to a webhook go to the handler that was registered for its address last; registering one
  -- changes no other address, and an address without a handler is refused and changes nothing.
  deliver-with_webhook :
      (r : DeliveryRouter W) (handler : DeliveryHandler W) (url other : Text)
      (message : DeliveryMessage) (w : W)
      → deliver (with_webhook url handler r) (to_webhook other) message w
        ≡ (if text_eq url other then handler message w else deliver r (to_webhook other) message w)
  unfolding deliver with_webhook
  deliver-with_webhook r handler url other message w =
      ground (arith, lookup-insert url other handler r.webhooks)

  deliver-new_router :
      (config : DeliveryConfig) (message : DeliveryMessage) (w : W)
      → (deliver new_router config message w).1 ≡ w
  unfolding deliver
  deliver-new_router config message w = nothing config.channel
    where
      nothing : (c : DeliveryChannel) → (to_channel new_router c message w).1 ≡ w
      nothing tui = refl
      nothing gateway = refl
      nothing (webhook url) = refl

abbrev send_all : List DeliveryMessage → Outbox → Outbox
send_all [] box = box
send_all (a ∷ more) box = send_all more (send a box).1

send-open :
    (a : DeliveryMessage) (box : Outbox)
    → box.receiving ≡ true
    → (send a box).1 ≡ record box { queue = box.queue ++ a ∷ [] }
unfolding send
send-open a box h = simp h refl

-- While its receiver is there, a channel gets every message, in the order in which they are sent.
send_all-queue :
    (sent : List DeliveryMessage) (box : Outbox)
    → box.receiving ≡ true
    → (send_all sent box).queue ≡ box.queue ++ sent
unfolding send
send_all-queue [] box h = sym (append-nil box.queue)
send_all-queue (a ∷ more) box h =
    ap (λ (b : Outbox). (send_all more b).queue) (send-open a box h)
    ∙ send_all-queue more (record box { queue = box.queue ++ a ∷ [] }) h
    ∙ append_assoc box.queue (a ∷ []) more
