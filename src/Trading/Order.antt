-- ===== src/Trading/Order.antt =====
-- The shared vocabulary of engine/backtest/domain/types.go. A side, a type and a status of an
-- order are strings in the source: `other` is any string but the named ones.
use text.Mathlib.Text.{◌==◌ as str_eq}
use erebor.Prelude.{ℕ, Bool, true, false, String, if◌then◌else◌}

pub data Side : Type 0 where
  buy sell other : Side

-- side == SideBuy.
abbrev pub is_buy : Side → Bool
is_buy buy = true
is_buy sell = false
is_buy other = false

-- The strings of the constants; the text of `other` is not kept.
unfoldable pub side_text : Side → String
side_text buy = "Buy"
side_text sell = "Sell"
side_text other = ""

unfoldable pub side_of_text : String → Side
side_of_text s = if str_eq s "Buy" then buy else if str_eq s "Sell" then sell else other

pub data OrderType : Type 0 where
  limit market other_type : OrderType

unfoldable pub order_type_text : OrderType → String
order_type_text limit = "Limit"
order_type_text market = "Market"
order_type_text other_type = ""

unfoldable pub order_type_of_text : String → OrderType
order_type_of_text s =
    if str_eq s "Limit" then limit else if str_eq s "Market" then market else other_type

pub data OrderStatus : Type 0 where
  pending opened partially_filled filled cancelled other_status : OrderStatus

unfoldable pub order_status_text : OrderStatus → String
order_status_text pending = "Pending"
order_status_text opened = "Open"
order_status_text partially_filled = "PartiallyFilled"
order_status_text filled = "Filled"
order_status_text cancelled = "Cancelled"
order_status_text other_status = ""

unfoldable pub order_status_of_text : String → OrderStatus
order_status_of_text s =
    if str_eq s "Pending"
    then pending
    else if str_eq s "Open"
    then opened
    else if str_eq s "PartiallyFilled"
    then partially_filled
    else if str_eq s "Filled"
    then filled
    else if str_eq s "Cancelled"
    then cancelled
    else other_status

pub record OrderEvent (A : Type 0) : Type 0 where
  pub run_id : String
  pub symbol : String
  pub event_time : ℕ
  pub order_id : String
  pub side : Side
  pub type : OrderType
  pub price : A
  pub quantity : A
  pub status : OrderStatus
  pub fill_price : A
  pub fill_qty : A
  pub fee : A
  pub signal_name : String
