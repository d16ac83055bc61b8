-- ===== src/Backtest/Repository/Trades.antt =====
-- The trades and the equity of a run (engine/backtest/repository/repository.go).
use text.Mathlib.Text.{◌==◌ as str_eq}
use erebor.Prelude.{
  ℕ, suc, ◌≤◌, ◌≡◌, refl, sym, ◌∙◌, Bool, true, false, ◌&&◌, ◌⊎◌, inl, inr, some, String, List, [],
  ◌∷◌, if◌then◌else◌, ltb, ltb→lt, keep_if, All, arith, if_cases,
}
use text.Mathlib.TextEquality.{eq_iff}
use erebor.Trading.RoundTrips.{Trade}
use erebor.Backtest.Repository.{
  insert_by, order_by, RunTables, has_trade, write_trade, query_trades,
}

module _ {ℓ} {E : Type ℓ} (time : E → ℕ) where
  -- The times do not go back.
  abbrev pub Ascending : List E → Type 0
  Ascending [] = Unit
  Ascending (x ∷ xs) = All (λ y. time x ≤ time y) xs × Ascending xs

  All-insert_by :
      (P : E → Type 0) (x : E) (xs : List E) → P x → All P xs → All P (insert_by time x xs)
  All-insert_by P x [] p a = (p, tt)
  All-insert_by P x (y ∷ ys) p (q, a) =
      if_cases (All P) (ltb (time x) (time y)) (λ e. (p, (q, a)))
        (λ e. (q, All-insert_by P x ys p a))

  All_later : (m n : ℕ) (xs : List E) → m ≤ n → All (λ y. n ≤ time y) xs → All (λ y. m ≤ time y) xs
  All_later m n [] h a = tt
  All_later m n (x ∷ xs) h (le, a) = (omega (arith, h, le), All_later m n xs h a)

  insert_by-Ascending : (x : E) (xs : List E) → Ascending xs → Ascending (insert_by time x xs)
  insert_by-Ascending x [] s = (tt, tt)
  insert_by-Ascending x (y ∷ ys) (a, s) =
      if_cases Ascending (ltb (time x) (time y))
        (λ e.
          let le : time x ≤ time y = ground (arith, e) in
          ((le, All_later (time x) (time y) ys le a), (a, s)))
        (λ e. (
          All-insert_by (λ z. time y ≤ time z) x ys (ground (arith, e)) a,
          insert_by-Ascending x ys s,
        ))

  order_by-Ascending : (xs : List E) → Ascending (order_by time xs)
  order_by-Ascending [] = tt
  order_by-Ascending (x ∷ xs) = insert_by-Ascending x (order_by time xs) (order_by-Ascending xs)

  -- How many elements of a list pass a test.
  abbrev pub count : (E → Bool) → List E → ℕ
  count p [] = 0
  count p (x ∷ xs) = let n = count p xs in if p x then suc n else n

  count-insert_by :
      (p : E → Bool) (x : E) (xs : List E) → count p (insert_by time x xs) ≡ count p (x ∷ xs)
  count-insert_by p x [] = refl
  count-insert_by p x (y ∷ ys) = ground (arith, count-insert_by p x ys)

  count-order_by : (p : E → Bool) (xs : List E) → count p (order_by time xs) ≡ count p xs
  count-order_by p [] = refl
  count-order_by p (x ∷ xs) =
      count-insert_by p x (order_by time xs) ∙ ground (arith, count-order_by p xs)

  count-keep_if :
      (p q : E → Bool) (xs : List E) → count p (keep_if q xs) ≡ count (λ x. q x && p x) xs
  count-keep_if p q [] = refl
  count-keep_if p q (x ∷ xs) = ground (arith, count-keep_if p q xs)

module _ (A M : Type 0) where
  abbrev pub is_trade : String → String → Trade A → Bool
  is_trade run_id trade_id trade = str_eq trade.run_id run_id && str_eq trade.trade_id trade_id

  -- How many rows hold the trade of a run.
  abbrev pub trade_rows : RunTables A M → String → String → ℕ
  trade_rows t run_id trade_id =
      count (λ (trade : Trade A). trade.event_time) (is_trade run_id trade_id) t.trades

  has_trade_lem :
      (trades : List (Trade A)) (run_id trade_id : String)
      → has_trade A M trades run_id trade_id
        ≡ ltb 0 (count (λ (trade : Trade A). trade.event_time) (is_trade run_id trade_id) trades)
  unfolding has_trade
  has_trade_lem [] run_id trade_id = refl
  has_trade_lem (trade ∷ trades) run_id trade_id =
      ground (arith, has_trade_lem trades run_id trade_id)

  trades-write_trade :
      (t t' : RunTables A M) (trade : Trade A)
      → write_trade A M t trade ≡ some t'
      → ((has_trade A M t.trades trade.run_id trade.trade_id ≡ true) × (t'.trades ≡ t.trades))
        ⊎ ((has_trade A M t.trades trade.run_id trade.trade_id ≡ false)
            × (t'.trades ≡ trade ∷ t.trades))
  unfolding write_trade
  trades-write_trade t t' trade w = ground (arith, w)

  count_new :
      (trade : Trade A) (trades : List (Trade A)) (run_id trade_id : String)
      → has_trade A M trades trade.run_id trade.trade_id ≡ false
      → count (λ (x : Trade A). x.event_time) (is_trade run_id trade_id) trades ≤ 1
      → count (λ (x : Trade A). x.event_time) (is_trade run_id trade_id) (trade ∷ trades) ≤ 1
  count_new trade trades run_id trade_id h le = ground (
    arith,
    h,
    le,
    eq_iff trade.run_id run_id,
    eq_iff trade.trade_id trade_id,
    has_trade_lem trades run_id trade_id,
  )

  -- A write that succeeds, also a repeated one, leaves its trade in exactly one row and adds no
  -- row to another trade, if no trade had more than one row.
  pub write_trade_once :
      (t t' : RunTables A M) (trade : Trade A)
      → ((run_id trade_id : String) → trade_rows t run_id trade_id ≤ 1)
      → write_trade A M t trade ≡ some t'
      → (trade_rows t' trade.run_id trade.trade_id ≡ 1)
        × ((run_id trade_id : String) → trade_rows t' run_id trade_id ≤ 1)
  write_trade_once t t' trade once w = elim (trades-write_trade t t' trade w) [
    | inl (h, e) ↦ rw e (
      omega (
        arith,
        ltb→lt 0 (trade_rows t trade.run_id trade.trade_id)
            (sym (has_trade_lem t.trades trade.run_id trade.trade_id) ∙ h),
        once trade.run_id trade.trade_id,
      ),
      once,
    )
    | inr (h, e) ↦ rw e (
      ground (
        arith,
        h,
        eq_iff trade.run_id trade.run_id,
        eq_iff trade.trade_id trade.trade_id,
        has_trade_lem t.trades trade.run_id trade.trade_id,
      ),
      (λ run_id trade_id. count_new trade t.trades run_id trade_id h (once run_id trade_id)),
    )
  ]

  -- The trades of a run come in the order of their times, and each of them as often as the table
  -- has it.
  pub query_trades_lem :
      (t : RunTables A M) (run_id : String) (p : Trade A → Bool)
      → let time : Trade A → ℕ = λ trade. trade.event_time in
        Ascending time (query_trades A M t run_id)
        × (count time p (query_trades A M t run_id)
            ≡ count time (λ trade. str_eq trade.run_id run_id && p trade) t.trades)
  unfolding query_trades
  query_trades_lem t run_id p =
      let time : Trade A → ℕ = λ trade. trade.event_time in
      let mine = keep_if (λ (trade : Trade A). str_eq trade.run_id run_id) t.trades in
      (order_by-Ascending time mine, count-order_by time p mine ∙ count-keep_if time p _ t.trades)
