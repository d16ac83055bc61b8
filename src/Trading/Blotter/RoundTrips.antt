-- ===== src/Trading/Blotter/RoundTrips.antt =====
-- A position opened and closed again, and a fill that is delivered twice:
-- engine/execution/blotter/blotter.go over engine/execution/repository/repository.go.
use text.Mathlib.TextEquality.{eq_iff}
use erebor.Prelude.{◌≡◌, refl, sym, ap, ◌∙◌, true, List, ◌∷◌, if◌then◌else◌, arith}
use erebor.Decimal.{Decimal, IsExact, zero_amount}
use erebor.Decimal.Laws.{sub_self, zero-add}
use erebor.Trading.Order.{buy, sell, is_buy}
use erebor.Trading.Blotter.{
  FillRequest, SymbolPosition, FillStore, Blotter, apply_fill, position_of, record_fill,
  TradeRecord, has_trade, tables_record_fill, repository,
}
use erebor.Trading.Blotter.Laws.{net_qty-apply_fill, record_fill-stored, position_of-insert}

module _ (𝒟 : Decimal) (ℒ : IsExact 𝒟) (F : FillStore 𝒟.Amount) where
  open 𝒟 use {Amount, add, sub, mul, is_zero, is_positive}

  opened :
      (pos : SymbolPosition Amount) (fill : FillRequest Amount)
      → is_zero pos.net_qty ≡ true
      → fill.side ≡ buy
      → ((apply_fill 𝒟 pos fill).0
          ≡ record { net_qty = fill.fill_qty; avg_entry = fill.fill_price })
        × ((apply_fill 𝒟 pos fill).1 ≡ zero_amount 𝒟)
  unfolding apply_fill
  opened pos fill z s = ground (
    arith,
    ℒ.zero_iff pos.net_qty,
    ℒ.negative_lem pos.net_qty,
    ℒ.lt_irrefl (zero_amount 𝒟),
    zero-add 𝒟 ℒ fill.fill_qty,
  )

  closed :
      (pos : SymbolPosition Amount) (fill : FillRequest Amount)
      → is_positive pos.net_qty ≡ true
      → fill.side ≡ sell
      → fill.fill_qty ≡ pos.net_qty
      → ((apply_fill 𝒟 pos fill).0 ≡ record { net_qty = zero_amount 𝒟; avg_entry = zero_amount 𝒟 })
        × ((apply_fill 𝒟 pos fill).1 ≡ mul (sub fill.fill_price pos.avg_entry) fill.fill_qty)
  unfolding apply_fill
  closed pos fill l s q =
      ground (
        arith,
        sub_self 𝒟 ℒ pos.net_qty,
        ℒ.positive_lem (zero_amount 𝒟),
        ℒ.lt_irrefl (zero_amount 𝒟),
      )

  -- A long position that is opened from flat and sold whole, with both fills stored, changes the
  -- equity by the price difference times the quantity less the two fees, and leaves the symbol
  -- flat with no entry price.
  pub long_round_trip :
      (b : Blotter 𝒟 F) (enter exit : FillRequest Amount)
      → is_zero (position_of 𝒟 F b enter.symbol).net_qty ≡ true
      → enter.side ≡ buy
      → exit.side ≡ sell
      → exit.symbol ≡ enter.symbol
      → exit.fill_qty ≡ enter.fill_qty
      → is_positive enter.fill_qty ≡ true
      → (record_fill 𝒟 F b enter).1 ≡ true
      → (record_fill 𝒟 F (record_fill 𝒟 F b enter).0 exit).1 ≡ true
      → let b' = (record_fill 𝒟 F (record_fill 𝒟 F b enter).0 exit).0 in
        (b'.equity
          ≡ sub
              (add
                (sub b.equity enter.fee)
                (mul (sub exit.fill_price enter.fill_price) exit.fill_qty))
              exit.fee)
        × (position_of 𝒟 F b' exit.symbol
            ≡ record { net_qty = zero_amount 𝒟; avg_entry = zero_amount 𝒟 })
  long_round_trip b enter exit z buys sells same qty positive stored stored' =
      let b1 = (record_fill 𝒟 F b enter).0 in
      let b2 = (record_fill 𝒟 F b1 exit).0 in
      let (pos1, pnl1) = opened (position_of 𝒟 F b enter.symbol) enter z buys in
      let (equity1, positions1) = record_fill-stored 𝒟 F b enter stored in
      let at1 : position_of 𝒟 F b1 exit.symbol
          ≡ record { net_qty = enter.fill_qty; avg_entry = enter.fill_price } =
        ap (position_of 𝒟 F b1) same
        ∙ position_of-insert 𝒟 F b b1 enter.symbol _ positions1
        ∙ pos1 in
      let (pos2, pnl2) =
        closed (position_of 𝒟 F b1 exit.symbol) exit
          (ap (λ p. is_positive p.net_qty) at1 ∙ positive) sells
          (qty ∙ sym (ap (λ p. p.net_qty) at1)) in
      let (equity2, positions2) = record_fill-stored 𝒟 F b1 exit stored' in
      let start : b1.equity ≡ sub b.equity enter.fee =
        equity1
        ∙ ap (λ t. sub (add b.equity t) enter.fee) pnl1
        ∙ ap (λ t. sub t enter.fee) (ℒ.add-zero b.equity) in
      (
        equity2
            ∙ ap (λ t. sub (add t (apply_fill 𝒟 (position_of 𝒟 F b1 exit.symbol) exit).1) exit.fee)
                start
            ∙ ap (λ t. sub (add (sub b.equity enter.fee) t) exit.fee)
                (pnl2 ∙ ap (λ p. mul (sub exit.fill_price p.avg_entry) exit.fill_qty) at1),
        position_of-insert 𝒟 F b1 b2 exit.symbol _ positions2 ∙ pos2,
      )

module _ (𝒟 : Decimal) where
  open 𝒟 use {Amount, add, sub}

  abbrev F : FillStore Amount
  F = repository Amount true

  -- One fill more.
  abbrev pub moved : FillRequest Amount → Amount → Amount
  moved fill qty = if is_buy fill.side then add qty fill.fill_qty else sub qty fill.fill_qty

  inserted :
      (t : TradeRecord Amount) (ts : List (TradeRecord Amount)) (pnl : Amount)
      → has_trade
          (if has_trade ts t.session_id t.fill.signal_stream_id then ts else t ∷ ts)
          t.session_id
          t.fill.signal_stream_id
        ≡ true
  unfolding has_trade
  inserted t ts pnl = ground (
    arith,
    eq_iff t.session_id t.session_id,
    eq_iff t.fill.signal_stream_id t.fill.signal_stream_id,
  )

  stored_once :
      (b : Blotter 𝒟 F) (fill : FillRequest Amount)
      → let b1 = (record_fill 𝒟 F b fill).0 in
        ((record_fill 𝒟 F b fill).1 ≡ true)
        × (b1.session_id ≡ b.session_id)
        × (has_trade b1.store.trades b.session_id fill.signal_stream_id ≡ true)
  unfolding record_fill tables_record_fill
  stored_once b fill = (
    refl,
    refl,
    inserted (record { session_id = b.session_id; realised_pnl = _; fill = fill }) b.store.trades
        (zero_amount 𝒟),
  )

  known_trade :
      (b : Blotter 𝒟 F) (fill : FillRequest Amount)
      → has_trade b.store.trades b.session_id fill.signal_stream_id ≡ true
      → (record_fill 𝒟 F b fill).0.store.trades ≡ b.store.trades
  unfolding record_fill tables_record_fill
  known_trade b fill h = ground arith

  quantity_after :
      (b : Blotter 𝒟 F) (fill : FillRequest Amount)
      → (position_of 𝒟 F (record_fill 𝒟 F b fill).0 fill.symbol).net_qty
        ≡ moved fill (position_of 𝒟 F b fill.symbol).net_qty
  quantity_after b fill =
      let b1 = (record_fill 𝒟 F b fill).0 in
      let (equity, positions) = record_fill-stored 𝒟 F b fill (stored_once b fill).0 in
      ap (λ p. p.net_qty) (position_of-insert 𝒟 F b b1 fill.symbol _ positions)
      ∙ net_qty-apply_fill 𝒟 (position_of 𝒟 F b fill.symbol) fill

  -- A fill that is delivered twice is one trade in the table, but moves the position twice: the
  -- second delivery adds no trade, and changes the net quantity as the first did.
  pub redelivered_fill_counts_twice :
      (b : Blotter 𝒟 F) (fill : FillRequest Amount)
      → let b1 = (record_fill 𝒟 F b fill).0 in
        let b2 = (record_fill 𝒟 F b1 fill).0 in
        (b2.store.trades ≡ b1.store.trades)
        × ((position_of 𝒟 F b2 fill.symbol).net_qty
            ≡ moved fill (moved fill (position_of 𝒟 F b fill.symbol).net_qty))
  redelivered_fill_counts_twice b fill =
      let b1 = (record_fill 𝒟 F b fill).0 in
      let (done, session, known) = stored_once b fill in
      (
        known_trade b1 fill
            (ap (λ id. has_trade b1.store.trades id fill.signal_stream_id) session ∙ known),
        quantity_after b1 fill ∙ ap (moved fill) (quantity_after b fill),
      )
