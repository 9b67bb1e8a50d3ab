-- ===== src/Broker/Ibkr/Ticks.antt =====
-- The kinds of tick, which are ibapi's, told apart as its constants are, and what the callbacks make of
-- each (internal/broker/ibkr/wrapper.go).
use optix.Base.{Bool, true, false}

pub data TickType : Type 0 where
  bid ask last close mark_price delayed_bid delayed_ask delayed_last delayed_close : TickType
  model_option last_option_computation bid_option_computation ask_option_computation : TickType
  delayed_model_option delayed_last_option delayed_bid_option delayed_ask_option : TickType
  volume delayed_volume option_call_volume option_put_volume : TickType
  open_interest tick_86 option_call_open_interest option_put_open_interest other_tick : TickType

-- The cases of the `switch` in `setPrice`.
pub data PriceField : Type 0 where
  to_bid to_ask to_mark to_last to_close to_none : PriceField

unfoldable pub price_field : TickType → PriceField
price_field t = elim t [
  | bid ↦ to_bid
  | delayed_bid ↦ to_bid
  | ask ↦ to_ask
  | delayed_ask ↦ to_ask
  | mark_price ↦ to_mark
  | last ↦ to_last
  | delayed_last ↦ to_last
  | close ↦ to_close
  | delayed_close ↦ to_close
  | _ ↦ to_none
]

-- The cases of the `switch` in `setOptionComputation`.
pub data IvField : Type 0 where
  from_model from_last from_bid from_ask from_none : IvField

unfoldable pub iv_field : TickType → IvField
iv_field t = elim t [
  | model_option ↦ from_model
  | delayed_model_option ↦ from_model
  | last_option_computation ↦ from_last
  | delayed_last_option ↦ from_last
  | bid_option_computation ↦ from_bid
  | delayed_bid_option ↦ from_bid
  | ask_option_computation ↦ from_ask
  | delayed_ask_option ↦ from_ask
  | _ ↦ from_none
]

abbrev pub is_model : IvField → Bool
is_model f = elim f [ from_model ↦ true | _ ↦ false ]

-- The cases of the `switch` in `TickSize` for a quote.
pub data SizeField : Type 0 where
  to_volume to_call_volume to_put_volume : SizeField
  to_interest to_call_interest to_put_interest to_no_size : SizeField

unfoldable pub size_field : TickType → SizeField
size_field t = elim t [
  | volume ↦ to_volume
  | delayed_volume ↦ to_volume
  | option_call_volume ↦ to_call_volume
  | option_put_volume ↦ to_put_volume
  | open_interest ↦ to_interest
  | tick_86 ↦ to_interest
  | option_call_open_interest ↦ to_call_interest
  | option_put_open_interest ↦ to_put_interest
  | _ ↦ to_no_size
]
