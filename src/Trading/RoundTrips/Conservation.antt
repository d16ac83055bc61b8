-- ===== src/Trading/RoundTrips/Conservation.antt =====
-- Every buy is counted once: `tradeMetrics` of engine/backtest/metrics/computer.go.
use text.Mathlib.TextEquality.{eq_iff}
use erebor.Prelude.{
  ℕ, ◌+◌, ◌≡◌, refl, none, String, List, [], ◌∷◌, ◌++◌, length, length-append, arith,
}
use erebor.Prelude.Assoc.{lookup, erase, insert, DistinctKeys, insert-DistinctKeys}
use erebor.Decimal.{Decimal}
use erebor.Trading.Order.{Side, buy, sell, other}
use erebor.Trading.RoundTrips.{
  Trade, Pairing, queue, close_oldest, pair_trade, pair_trades, no_pairs, trade_metrics,
}

module _ (𝒟 : Decimal) where
  open 𝒟 use {Amount, add, sub, mul, is_positive}

  -- The number of open buys of all symbols.
  abbrev pub open_count : List (String × List Amount) → ℕ
  open_count [] = 0
  open_count ((s, costs) ∷ m) = length costs + open_count m

  abbrev pub buys : List (Trade Amount) → ℕ
  buys [] = 0
  buys (t ∷ trades) = elim t.side [
    | buy ↦ 1 + buys trades
    | sell ↦ buys trades
    | other ↦ buys trades
  ]

  erase_fresh :
      (k : String) (m : List (String × List Amount))
      → lookup k m ≡ none
      → open_count (erase k m) ≡ open_count m
  unfolding lookup erase
  erase_fresh k [] h = refl
  erase_fresh k ((s, costs) ∷ m) h = ground (arith, erase_fresh k m)

  open_count-erase :
      (k : String) (m : List (String × List Amount))
      → DistinctKeys m
      → open_count (erase k m) + length (queue 𝒟 m k) ≡ open_count m
  unfolding lookup erase
  open_count-erase k [] d = refl
  open_count-erase k ((s, costs) ∷ m) d =
      ground (arith, eq_iff s k, open_count-erase k m, erase_fresh k m)

  abbrev pub counted : Pairing Amount → ℕ
  counted p = length p.wins + length p.losses + open_count p.open_costs

  close_oldest-counted :
      (p : Pairing Amount) (t : Trade Amount) (q : List Amount)
      → queue 𝒟 p.open_costs t.symbol ≡ q
      → DistinctKeys p.open_costs
      → (counted (close_oldest 𝒟 p t q) ≡ counted p)
        × DistinctKeys (close_oldest 𝒟 p t q).open_costs
  unfolding close_oldest insert
  close_oldest-counted p t [] e d = (refl, d)
  close_oldest-counted p t (cost ∷ costs) e d =
      let pnl = sub (sub (mul t.fill_qty t.fill_price) t.fee) cost in
      ground (
        arith,
        open_count-erase t.symbol p.open_costs,
        insert-DistinctKeys t.symbol costs p.open_costs d,
        length-append p.wins (pnl ∷ []),
        length-append p.losses (pnl ∷ []),
      )

  pair_trade-counted :
      (side : Side) (p : Pairing Amount) (t : Trade Amount)
      → DistinctKeys p.open_costs
      → (counted (pair_trade 𝒟 side p t) ≡ counted p + elim side [ buy ↦ 1 | sell ↦ 0 | other ↦ 0 ])
        × DistinctKeys (pair_trade 𝒟 side p t).open_costs
  unfolding pair_trade insert
  pair_trade-counted buy p t d =
      let cost = add (mul t.fill_qty t.fill_price) t.fee in
      let q = queue 𝒟 p.open_costs t.symbol in
      ground (
        arith,
        open_count-erase t.symbol p.open_costs,
        insert-DistinctKeys t.symbol (q ++ cost ∷ []) p.open_costs d,
        length-append q (cost ∷ []),
      )
  pair_trade-counted sell p t d =
      ground (arith, close_oldest-counted p t (queue 𝒟 p.open_costs t.symbol) refl d)
  pair_trade-counted other p t d = ground (arith, d)

  pair_trades-counted :
      (p : Pairing Amount) (trades : List (Trade Amount))
      → DistinctKeys p.open_costs
      → counted (pair_trades 𝒟 p trades) ≡ counted p + buys trades
  unfolding pair_trades
  pair_trades-counted p [] d = ground arith
  pair_trades-counted p (t ∷ trades) d =
      let (one, d') = pair_trade-counted t.side p t d in
      ground (arith, one, pair_trades-counted (pair_trade 𝒟 t.side p t) trades d')

  -- The trade count of the metrics and the buys that are still open make up the buys of the run:
  -- each buy is closed by exactly one counted sell or is open at the end.
  pub trade_count_lem :
      (trades : List (Trade Amount))
      → (trade_metrics 𝒟 trades).trade_count
          + open_count (pair_trades 𝒟 (no_pairs 𝒟) trades).open_costs
        ≡ buys trades
  unfolding trade_metrics
  trade_count_lem trades = ground (arith, pair_trades-counted (no_pairs 𝒟) trades tt)
