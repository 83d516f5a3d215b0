-- ===== src/Tests/Payloads.antt =====
-- The payloads of message/payload_*.go.
use ike.Base.{[], arith, inl, ok, panic, refl, ◌%◌, ◌+◌, ◌<◌, ◌>>=◌, ◌↔◌, ◌∷◌, ◌≡◌, ◌≤◌}
use ike.Message.Notification
use ike.Message.Notification.{Notification, notification-panic_iff, notification_round_trip}
use ike.Message.Delete
use ike.Message.Delete.{Delete}
use ike.Message.Delete.Laws.{delete-panic_iff}
use ike.Message.TrafficSelector.{IndividualTrafficSelector}
use ike.Message.TrafficSelector.Laws.{SelectorFits}
use ike.Message.TrafficSelectorInitiator
use ike.Message.TrafficSelectorInitiator.{TrafficSelectorInitiator, initiator_selectors_round_trip}
use ike.Message.Configuration
use ike.Message.Configuration.{Configuration}
use ike.Message.Configuration.Laws.{configuration_round_trip}
use ike.Message.Configuration.Safety.{unmarshal_wrapped_length}

abbrev a_notification : Notification
a_notification = record {
  protocol_id = 3;
  notify_message_type = 16393;
  spi = 1 ∷ 2 ∷ 3 ∷ 4 ∷ [];
  notification_data = 5 ∷ [];
}

notification_round_trip_example :
    (Notification.marshal a_notification >>= Notification.unmarshal Notification.empty)
    ≡ ok a_notification
notification_round_trip_example = notification_round_trip a_notification (omega arith)

notification-panic_iff_example :
    (Notification.unmarshal Notification.empty (0 ∷ 252 ∷ 0 ∷ 0 ∷ []) ≡ panic)
    ↔ (4 ≤ 4) × (252 ≤ 252)
notification-panic_iff_example =
    notification-panic_iff Notification.empty (0 ∷ 252 ∷ 0 ∷ 0 ∷ [])
      (omega arith, (omega arith, (omega arith, (omega arith, tt))))

delete-panic_iff_example :
    (Delete.unmarshal Delete.empty (3 ∷ 1 ∷ 0 ∷ 1 ∷ 9 ∷ []) (8 ∷ []) ≡ panic)
    ↔ (0 < 5 % 4) × (5 % 4 + 1 < 4)
delete-panic_iff_example =
    delete-panic_iff Delete.empty (3 ∷ 1 ∷ 0 ∷ 1 ∷ 9 ∷ []) (8 ∷ []) (omega arith) (omega arith)

abbrev a_selector : IndividualTrafficSelector
a_selector = record {
  ts_type = 7;
  ip_protocol_id = 17;
  start_port = 0;
  end_port = 65535;
  start_address = 10 ∷ 0 ∷ 0 ∷ 1 ∷ [];
  end_address = 10 ∷ 0 ∷ 0 ∷ 255 ∷ [];
}

a_selector-Fits : SelectorFits a_selector
a_selector-Fits = inl (
  refl,
  record { start_fits = omega arith; end_fits = omega arith; start_size = refl; end_size = refl },
)

initiator_selectors_round_trip_example :
    (TrafficSelectorInitiator.marshal (record { traffic_selectors = a_selector ∷ [] })
      >>= TrafficSelectorInitiator.unmarshal TrafficSelectorInitiator.empty)
    ≡ ok (record { traffic_selectors = a_selector ∷ [] })
initiator_selectors_round_trip_example =
    initiator_selectors_round_trip (record { traffic_selectors = a_selector ∷ [] }) (omega arith)
      (a_selector-Fits, tt)

abbrev a_configuration : Configuration
a_configuration = record {
  configuration_type = 1;
  attributes =
      (record { kind = 1; value = [] }) ∷ (record { kind = 2; value = 255 ∷ 255 ∷ [] }) ∷ [];
}

configuration_round_trip_example :
    (Configuration.marshal a_configuration >>= Configuration.unmarshal Configuration.empty)
    ≡ ok a_configuration
configuration_round_trip_example =
    configuration_round_trip a_configuration
      ((omega arith, omega arith), ((omega arith, omega arith), tt))

unmarshal_wrapped_length_example :
    Configuration.unmarshal Configuration.empty (1 ∷ 0 ∷ 0 ∷ 0 ∷ 0 ∷ 1 ∷ 255 ∷ 255 ∷ 5 ∷ []) ≡ panic
unmarshal_wrapped_length_example =
    unmarshal_wrapped_length Configuration.empty 1 0 0 0 0 1 255 255 (5 ∷ []) (omega arith)
      (omega arith) (omega arith) (omega arith)
