-- ===== src/Pnl/Tests.antt =====
-- A ledger of three rows, and the theorems at concrete inputs.
use personal_fin_hub.Base.{
  ◌*ℤ◌, ℕ, ◌≡◌, refl, none, some, List, [], ◌∷◌, ◌++◌, pos, ◌*◌, arith, length, ◌⊎◌, ◌/◌, pos_part,
}
use personal_fin_hub.Pnl.Convert.{RateProvider}
use personal_fin_hub.Pnl.Lots.{
  PnlLot, TransactionType, investment_buy, investment_sell, Floats, consume,
}
use personal_fin_hub.Pnl.Lots.Shares.{shares, consume-done}
use personal_fin_hub.Pnl.Fifo.{NativeSale, Row, Queues, queue_at, fifo_row, compute_fifo}
use personal_fin_hub.Pnl.Fifo.Ledger.{sold, bought, compute_fifo-shares, fifo_row-taken}

-- Whole numbers: a product is exact, a quotient is cut off, and nothing is left to round.
abbrev whole : Floats
whole = record {
  mul = λ a b. pos (pos_part a * pos_part b);
  div = λ a b. pos (pos_part a / pos_part b);
  round4 = λ a. a;
}

abbrev row : ℕ → TransactionType → ℕ → ℕ → Row
row id type_ quantity total = record {
  transaction_id = id;
  portfolio_asset_id = 7;
  entity_id = some 1;
  entity_name = none;
  market_code = some 7;
  ticker = none;
  name = none;
  type_ = type_;
  timestamp = id;
  quantity = some (pos quantity);
  unit_price = none;
  total_value = some (pos total);
  currency = 1;
  payment_currency = none;
  fx_rate = none;
  fiscal_rule = none;
  fiscal_exemption_id = none;
}

abbrev ledger : List Row
ledger =
    row 1 investment_buy 10 100 ∷ row 2 investment_buy 5 100 ∷ row 3 investment_sell 12 300 ∷ []

ledger_queue :
    queue_at (7, some 1) (compute_fifo whole ledger).remaining
    ≡ record { quantity = 3; unit_cost = pos 20; buy_date = 2; transaction_id = some 2 } ∷ []
unfolding compute_fifo fifo_row consume
ledger_queue = refl

compute_fifo-shares_example :
    let r = compute_fifo whole ledger in
    shares (sold (7, some 1) r.sales) ++ shares (queue_at (7, some 1) r.remaining)
    ≡ shares (bought whole (7, some 1) ledger)
compute_fifo-shares_example = compute_fifo-shares whole (7, some 1) ledger

abbrev queues : Queues
queues =
    (
      (7, some 1),
      record { quantity = 3; unit_cost = pos 20; buy_date = 2; transaction_id = some 2 } ∷ [],
    )
    ∷ []

fifo_row-taken_example :
    length (shares (sold (7, some 1) (fifo_row whole (row 4 investment_sell 5 90) queues).0)) ≡ 3
fifo_row-taken_example =
    fifo_row-taken whole (row 4 investment_sell 5 90) 4 (pos 90) queues refl refl refl

consume-done_example :
    let c = consume 2 (queue_at (7, some 1) queues) 5 in
    (c.remaining_to_consume ≡ 0) ⊎ (c.queue ≡ [])
consume-done_example = consume-done 2 (queue_at (7, some 1) queues) 5 (omega arith)

abbrev by_hand : Floats
by_hand = record { mul = λ a b. a *ℤ b; div = λ a b. a; round4 = λ a. a }

abbrev silent : RateProvider
silent = record { historical = λ code base at. none; latest_rate = λ code base. none }

abbrev lot : PnlLot
lot = record { quantity = 10; unit_cost = pos 10; buy_date = 1; transaction_id = none }

abbrev sold_lots : NativeSale
sold_lots = record {
  transaction_id = 3;
  portfolio_asset_id = 7;
  market_code = some 7;
  ticker = none;
  name = none;
  sell_date = 5;
  sell_date_raw = 5;
  sell_quantity = 20;
  sell_price = pos 15;
  sell_total = pos 300;
  currency = 1;
  payment_currency = none;
  fx_rate = none;
  fiscal_rule = none;
  fiscal_exemption_id = none;
  lots = lot ∷ lot ∷ [];
  cost_basis = pos 200;
  realized_pl = pos 100;
  entity_id = some 1;
  entity_name = none;
}
