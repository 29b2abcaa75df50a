-- ===== src/Pnl/Lots.antt =====
-- The data of backend/services/pnl_rules.py, and the loop of `compute_fifo` that consumes lots.
-- Quantities are whole units of a fixed-point scale and amounts are signed fixed-point numbers, so
-- sums, differences and comparisons are exact. What Python's floats do in a product, a quotient and
-- `round(x, 4)` is a parameter.
pub mod Shares
use personal_fin_hub.Base.{
  ℕ, zero, suc, ◌-◌, min, Bool, Option, none, some, List, [], ◌∷◌, ltb, leb, if◌then◌else◌, ℤ, pos,
  ◌+ℤ◌,
}

-- `TransactionType` of backend/models/enums.py
pub data TransactionType : Type 0 where
  income money_out investment_buy investment_sell transfer transfer_in transfer_out
        balance_adjustment :
      TransactionType

pub record Floats : Type 0 where
  pub mul : ℤ → ℤ → ℤ
  pub div : ℤ → ℤ → ℤ
  pub round4 : ℤ → ℤ

pub record PnlLot : Type 0 where
  pub quantity : ℕ
  pub unit_cost : ℤ
  pub buy_date : ℕ
  pub transaction_id : Option ℕ

-- What the loop has when it stops: the lots consumed, the queue, and what is left to consume.
pub record Consumed : Type 0 where
  pub lots : List PnlLot
  pub queue : List PnlLot
  pub remaining_to_consume : ℕ

-- The part of a lot that a sale takes.
abbrev pub part : PnlLot → ℕ → PnlLot
part lot take = record {
  quantity = take;
  unit_cost = lot.unit_cost;
  buy_date = lot.buy_date;
  transaction_id = none;
}

abbrev pub put_front : PnlLot → Consumed → Consumed
put_front lot c = record c { lots = lot ∷ c.lots }

-- `while remaining_to_consume > 0 and sell_queue`, on fuel.
unfoldable pub consume : ℕ → List PnlLot → ℕ → Consumed
consume zero queue remaining = record { lots = []; queue = queue; remaining_to_consume = remaining }
consume (suc fuel) [] remaining = record { lots = []; queue = []; remaining_to_consume = remaining }
consume (suc fuel) (lot ∷ rest) remaining =
    let take = min lot.quantity remaining in
    let popped = consume fuel rest (remaining - take) in
    let shrunk =
      consume fuel (record lot { quantity = lot.quantity - take } ∷ rest) (remaining - take) in
    if ltb 0 remaining
    then put_front (part lot take) (if leb lot.quantity take then popped else shrunk)
    else record { lots = []; queue = lot ∷ rest; remaining_to_consume = remaining }
