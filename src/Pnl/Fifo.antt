-- ===== src/Pnl/Fifo.antt =====
-- `compute_fifo` of backend/services/pnl_rules.py: the ledger's rows, the queues of lots by asset and
-- entity, and the sales. Dates and currency codes are numbers, since they are only compared and
-- passed on, and so are the labels that a sale carries along (market code, ticker, names).
pub mod Ledger
use personal_fin_hub.Base.{
  ℕ, suc, ◌+◌, Bool, true, false, ◌&&◌, Option, none, some, List, [], ◌∷◌, ◌++◌, ◌==◌, length,
  if◌then◌else◌, ℤ, pos, negsuc, ◌+ℤ◌, ◌-ℤ◌,
}
use personal_fin_hub.FiscalPeriods.Table.{RuleKey}
use personal_fin_hub.Pnl.Lots.{
  TransactionType, investment_buy, investment_sell, Floats, PnlLot, Consumed, consume,
}

pub record Row : Type 0 where
  pub transaction_id : ℕ
  pub portfolio_asset_id : ℕ
  pub entity_id : Option ℕ
  pub entity_name : Option ℕ
  pub market_code : Option ℕ
  pub ticker : Option ℕ
  pub name : Option ℕ
  pub type_ : TransactionType
  pub timestamp : ℕ
  pub quantity : Option ℤ
  pub unit_price : Option ℤ
  pub total_value : Option ℤ
  pub currency : ℕ
  pub payment_currency : Option ℕ
  pub fx_rate : Option ℤ
  pub fiscal_rule : Option RuleKey
  pub fiscal_exemption_id : Option ℕ

pub record NativeSale : Type 0 where
  pub transaction_id : ℕ
  pub portfolio_asset_id : ℕ
  pub market_code : Option ℕ
  pub ticker : Option ℕ
  pub name : Option ℕ
  pub sell_date : ℕ
  pub sell_date_raw : ℕ
  pub sell_quantity : ℕ
  pub sell_price : ℤ
  pub sell_total : ℤ
  pub currency : ℕ
  pub payment_currency : Option ℕ
  pub fx_rate : Option ℤ
  pub fiscal_rule : Option RuleKey
  pub fiscal_exemption_id : Option ℕ
  pub lots : List PnlLot
  pub cost_basis : ℤ
  pub realized_pl : ℤ
  pub entity_id : Option ℕ
  pub entity_name : Option ℕ

-- (portfolio asset, entity)
abbrev pub Key : Type 0
Key = ℕ × Option ℕ

abbrev pub same_entity : Option ℕ → Option ℕ → Bool
same_entity none none = true
same_entity none (some b) = false
same_entity (some a) none = false
same_entity (some a) (some b) = a == b

abbrev pub same_key : Key → Key → Bool
same_key j k = j.0 == k.0 && same_entity j.1 k.1

abbrev pub key_of : Row → Key
key_of r = (r.portfolio_asset_id, r.entity_id)

-- `queues`, a dict
abbrev pub Queues : Type 0
Queues = List (Key × List PnlLot)

-- `queues.get(key)`; no queue and an empty queue are treated alike
abbrev pub queue_at : Key → Queues → List PnlLot
queue_at k [] = []
queue_at k ((j, q) ∷ qs) = if same_key j k then q else queue_at k qs

-- the queue under `key` after it was changed
abbrev pub set_queue : Key → List PnlLot → Queues → Queues
set_queue k q [] = (k, q) ∷ []
set_queue k q ((j, p) ∷ qs) = if same_key j k then (j, q) ∷ qs else (j, p) ∷ set_queue k q qs

-- The quantity and the total of a row that `continue` does not skip at the top of the loop.
abbrev pub traded : Option ℤ → Option ℤ → Option (ℕ × ℤ)
traded (some (pos (suc n))) (some total_val) = some (suc n, total_val)
traded _ _ = none

pub record FifoResult : Type 0 where
  pub sales : List NativeSale
  pub remaining : Queues

module _ (f : Floats) where
  abbrev pub buy_lot : Row → ℕ → ℤ → PnlLot
  buy_lot r qty total_val = record {
    quantity = qty;
    unit_cost = f.div total_val (pos qty);
    buy_date = r.timestamp;
    transaction_id = some r.transaction_id;
  }

  -- Python's `sum` over the lots, from the left
  unfoldable pub cost_from : ℤ → List PnlLot → ℤ
  cost_from acc [] = acc
  cost_from acc (lot ∷ lots) = cost_from (acc +ℤ f.mul (pos lot.quantity) lot.unit_cost) lots

  price_or : Option ℤ → ℤ → ℤ
  price_or none p = p
  price_or (some p) _ = p

  unfoldable pub sale_of : Row → ℕ → ℤ → List PnlLot → NativeSale
  unfolding cost_from price_or
  sale_of r qty total_val consumed = record {
    transaction_id = r.transaction_id;
    portfolio_asset_id = r.portfolio_asset_id;
    market_code = r.market_code;
    ticker = r.ticker;
    name = r.name;
    sell_date = r.timestamp;
    sell_date_raw = r.timestamp;
    sell_quantity = qty;
    sell_price = price_or r.unit_price (f.div total_val (pos qty));
    sell_total = total_val;
    currency = r.currency;
    payment_currency = r.payment_currency;
    fx_rate = r.fx_rate;
    fiscal_rule = r.fiscal_rule;
    fiscal_exemption_id = r.fiscal_exemption_id;
    lots = consumed;
    cost_basis = f.round4 (cost_from (pos 0) consumed);
    realized_pl = f.round4 (total_val -ℤ cost_from (pos 0) consumed);
    entity_id = r.entity_id;
    entity_name = r.entity_name;
  }

  -- `if not consumed: continue`, and the sale
  record_sale : Row → ℕ → ℤ → List PnlLot → List NativeSale
  unfolding sale_of
  record_sale r qty total_val [] = []
  record_sale r qty total_val (lot ∷ lots) = sale_of r qty total_val (lot ∷ lots) ∷ []

  -- One more unit of fuel than there are lots is enough for the loop.
  sell : Row → ℕ → ℤ → List PnlLot → Queues → List NativeSale × Queues
  unfolding record_sale
  sell r qty total_val [] queues = ([], queues)
  sell r qty total_val (lot ∷ lots) queues =
      let c = consume (suc (suc (length lots))) (lot ∷ lots) qty in
      (record_sale r qty total_val c.lots, set_queue (key_of r) c.queue queues)

  trade : TransactionType → Row → ℕ → ℤ → Queues → List NativeSale × Queues
  unfolding sell
  trade investment_buy r qty total_val queues =
      ([], set_queue (key_of r) (queue_at (key_of r) queues ++ buy_lot r qty total_val ∷ []) queues)
  trade investment_sell r qty total_val queues =
      sell r qty total_val (queue_at (key_of r) queues) queues
  trade _ r qty total_val queues = ([], queues)

  trade_if : Row → Queues → Option (ℕ × ℤ) → List NativeSale × Queues
  unfolding trade
  trade_if r queues none = ([], queues)
  trade_if r queues (some (qty, total_val)) = trade r.type_ r qty total_val queues

  -- the body of the loop over the rows: the sale that it appends, if any, and the queues
  unfoldable pub fifo_row : Row → Queues → List NativeSale × Queues
  unfolding trade_if
  fifo_row r queues = trade_if r queues (traded r.quantity r.total_value)

  fifo_rows : List Row → Queues → List NativeSale × Queues
  unfolding fifo_row
  fifo_rows [] queues = ([], queues)
  fifo_rows (r ∷ rows) queues =
      let (sale, queues') = fifo_row r queues in
      let (sales, left) = fifo_rows rows queues' in (sale ++ sales, left)

  unfoldable pub compute_fifo : List Row → FifoResult
  unfolding fifo_rows
  compute_fifo rows =
      let (sales, queues) = fifo_rows rows [] in record { sales = sales; remaining = queues }
