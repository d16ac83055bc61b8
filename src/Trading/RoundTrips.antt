-- ===== src/Trading/RoundTrips.antt =====
-- `tradeMetrics` of engine/backtest/metrics/computer.go: buys and sells are paired first in first
-- out per symbol, and each pair is a win or a loss.
pub mod Conservation
use erebor.Prelude.{
  ℕ, Option, none, some, String, List, [], ◌∷◌, ◌++◌, if◌then◌else◌, ◌+◌, ◌==◌, length,
}
use erebor.Prelude.Int.{pos}
use erebor.Prelude.Assoc.{lookup, insert}
use erebor.Decimal.{Decimal, zero_amount}
use erebor.Trading.Order.{Side, buy, sell, other}

-- backtest/domain TradeRecord.
pub record Trade (A : Type 0) : Type 0 where
  pub run_id : String
  pub symbol : String
  pub event_time : ℕ
  pub trade_id : String
  pub side : Side
  pub fill_price : A
  pub fill_qty : A
  pub fee : A
  pub signal_name : String

-- The costs of the open buys of each symbol, oldest first, and the profits so far.
pub record Pairing (A : Type 0) : Type 0 where
  pub open_costs : List (String × List A)
  pub wins : List A
  pub losses : List A

pub record TradeMetrics (A : Type 0) : Type 0 where
  pub hit_rate : A
  pub avg_win : A
  pub avg_loss : A
  pub trade_count : ℕ

module _ (𝒟 : Decimal) where
  open 𝒟 use {Amount, of_int, add, sub, mul, div, is_positive}

  -- A missing key reads as an empty queue.
  abbrev pub queue : List (String × List Amount) → String → List Amount
  queue costs symbol = elim (lookup symbol costs) [ some q ↦ q | none ↦ [] ]

  unfoldable pub close_oldest : Pairing Amount → Trade Amount → List Amount → Pairing Amount
  close_oldest p t [] = p
  close_oldest p t (cost ∷ costs) =
      let pnl = sub (sub (mul t.fill_qty t.fill_price) t.fee) cost in
      let closed = record p { open_costs = insert t.symbol costs p.open_costs } in
      if is_positive pnl
      then record closed { wins = p.wins ++ pnl ∷ [] }
      else record closed { losses = p.losses ++ pnl ∷ [] }

  unfoldable pub pair_trade : Side → Pairing Amount → Trade Amount → Pairing Amount
  unfolding close_oldest
  pair_trade buy p t =
      let cost = add (mul t.fill_qty t.fill_price) t.fee in
      record p {
        open_costs = insert t.symbol (queue p.open_costs t.symbol ++ cost ∷ []) p.open_costs;
      }
  pair_trade sell p t = close_oldest p t (queue p.open_costs t.symbol)
  pair_trade other p t = p

  unfoldable pub pair_trades : Pairing Amount → List (Trade Amount) → Pairing Amount
  unfolding pair_trade
  pair_trades p [] = p
  pair_trades p (t ∷ trades) = pair_trades (pair_trade t.side p t) trades

  abbrev pub no_pairs : Pairing Amount
  no_pairs = record { open_costs = []; wins = []; losses = [] }

  unfoldable pub sum_decimals : List Amount → Amount → Amount
  sum_decimals [] total = total
  sum_decimals (d ∷ ds) total = sum_decimals ds (add total d)

  -- The average of profits, zero if there is none.
  abbrev pub average : List Amount → Amount
  average [] = zero_amount 𝒟
  average (d ∷ ds) = div (sum_decimals (d ∷ ds) (zero_amount 𝒟)) (of_int (pos (length (d ∷ ds))))

  unfoldable pub trade_metrics : List (Trade Amount) → TradeMetrics Amount
  unfolding pair_trades
  trade_metrics trades =
      let p = pair_trades no_pairs trades in
      let total = length p.wins + length p.losses in
      if total == 0
      then record {
        hit_rate = zero_amount 𝒟;
        avg_win = zero_amount 𝒟;
        avg_loss = zero_amount 𝒟;
        trade_count = 0;
      }
      else record {
        hit_rate = mul (div (of_int (pos (length p.wins))) (of_int (pos total))) (of_int (pos 100));
        avg_win = average p.wins;
        avg_loss = average p.losses;
        trade_count = total;
      }
