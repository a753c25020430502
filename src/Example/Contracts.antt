-- ===== src/Example/Contracts.antt =====
-- gohex-example/contracts/contracts.go: the integration events and commands that cross a service
-- boundary, and the topics they travel on. encoding/json stands between them and text.
use gohex.Prelude.{ℤ, pos}
use gohex.Prelude.Text.{Text, lit}

abbrev pub topic_ordering_events : Text
topic_ordering_events = lit "ordering.events"

abbrev pub topic_billing_events : Text
topic_billing_events = lit "billing.events"

abbrev pub topic_inventory_events : Text
topic_inventory_events = lit "inventory.events"

abbrev pub topic_shipping_events : Text
topic_shipping_events = lit "shipping.events"

abbrev pub topic_billing_commands : Text
topic_billing_commands = lit "billing.commands"

abbrev pub topic_inventory_commands : Text
topic_inventory_commands = lit "inventory.commands"

abbrev pub topic_shipping_commands : Text
topic_shipping_commands = lit "shipping.commands"

pub record OrderPlacedV1 : Type 0 where
  pub order_id : Text
  pub customer_id : Text
  pub cents : ℤ  -- int64
  pub currency : Text
  pub qty : ℤ  -- int

pub record PaymentCapturedV1 : Type 0 where
  pub order_id : Text
  pub cents : ℤ

pub record PaymentFailedV1 : Type 0 where
  pub order_id : Text
  pub reason : Text

pub record PaymentRefundedV1 : Type 0 where
  pub order_id : Text

pub record StockReservedV1 : Type 0 where
  pub order_id : Text
  pub qty : ℤ

pub record StockRejectedV1 : Type 0 where
  pub order_id : Text
  pub reason : Text

pub record ShipmentDispatchedV1 : Type 0 where
  pub order_id : Text

-- A value of the interface broker.IntegrationEvent.
pub data ContractEvent : Type 0 where
  order_placed_v1 : OrderPlacedV1 → ContractEvent
  payment_captured_v1 : PaymentCapturedV1 → ContractEvent
  payment_failed_v1 : PaymentFailedV1 → ContractEvent
  payment_refunded_v1 : PaymentRefundedV1 → ContractEvent
  stock_reserved_v1 : StockReservedV1 → ContractEvent
  stock_rejected_v1 : StockRejectedV1 → ContractEvent
  shipment_dispatched_v1 : ShipmentDispatchedV1 → ContractEvent

unfoldable pub contract_event_name : ContractEvent → Text
contract_event_name (order_placed_v1 e) = lit "ordering.order_placed"
contract_event_name (payment_captured_v1 e) = lit "billing.payment_captured"
contract_event_name (payment_failed_v1 e) = lit "billing.payment_failed"
contract_event_name (payment_refunded_v1 e) = lit "billing.payment_refunded"
contract_event_name (stock_reserved_v1 e) = lit "inventory.stock_reserved"
contract_event_name (stock_rejected_v1 e) = lit "inventory.stock_rejected"
contract_event_name (shipment_dispatched_v1 e) = lit "shipping.shipment_dispatched"

unfoldable pub contract_event_version : ContractEvent → ℤ
contract_event_version e = pos 1

pub record CapturePayment : Type 0 where
  pub order_id : Text
  pub cents : ℤ

pub record RefundPayment : Type 0 where
  pub order_id : Text

pub record ReserveStock : Type 0 where
  pub order_id : Text
  pub qty : ℤ

pub record CreateShipment : Type 0 where
  pub order_id : Text

-- A value of the interface cqrs.Command, of one of the contracts' types.
pub data ContractCommand : Type 0 where
  capture_payment_cmd : CapturePayment → ContractCommand
  refund_payment_cmd : RefundPayment → ContractCommand
  reserve_stock_cmd : ReserveStock → ContractCommand
  create_shipment_cmd : CreateShipment → ContractCommand

unfoldable pub contract_command_name : ContractCommand → Text
contract_command_name (capture_payment_cmd c) = lit "billing.capture_payment"
contract_command_name (refund_payment_cmd c) = lit "billing.refund_payment"
contract_command_name (reserve_stock_cmd c) = lit "inventory.reserve_stock"
contract_command_name (create_shipment_cmd c) = lit "shipping.create_shipment"
