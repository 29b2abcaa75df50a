-- ===== src/Pnl/Fifo/Ledger.antt =====
-- The lots of a whole ledger: what `compute_fifo` (backend/services/pnl_rules.py) attributes to sales
-- and leaves in the queues, against the purchases in the order of the rows.
use mathlib.Core.List.{append_assoc, append-nil}
use personal_fin_hub.Base.{
  ℕ, suc, ◌<◌, ◌≡◌, refl, sym, ap, ◌∙◌, inl, inr, Bool, true, false, ◌&&◌, Option, none, some, List,
  [], ◌∷◌, ◌++◌, arith, length, length-append, min, if◌then◌else◌, ℤ, pos, Bool-cases,
}
use personal_fin_hub.Pnl.Lots.{
  TransactionType, investment_buy, investment_sell, Floats, PnlLot, consume,
}
use personal_fin_hub.Pnl.Lots.Shares.{
  shares, shares-append, consume-shares, consume-count, consume-done,
}
use personal_fin_hub.Pnl.Fifo.{
  Row, NativeSale, Key, same_key, key_of, Queues, queue_at, set_queue, traded, buy_lot, sale_of,
  record_sale, sell, trade, trade_if, fifo_row, fifo_rows, compute_fifo,
}

queue_at-set_queue :
    (k j : Key) (q : List PnlLot) (qs : Queues)
    → queue_at j (set_queue k q qs) ≡ (if same_key k j then q else queue_at j qs)
queue_at-set_queue k j q [] = refl
queue_at-set_queue k j q ((i, p) ∷ qs) = ground (arith, queue_at-set_queue k j q qs)

queue_at-same : (k j : Key) (qs : Queues) → same_key k j ≡ true → queue_at k qs ≡ queue_at j qs
queue_at-same k j [] e = refl
queue_at-same k j ((i, p) ∷ qs) e = ground (arith, queue_at-same k j qs e)

same_key_refl : (k : Key) → same_key k k ≡ true
same_key_refl (a, none) = ground arith
same_key_refl (a, some e) = ground arith

traded_lem :
    {q t : Option ℤ} {n : ℕ} {total : ℤ}
    → q ≡ some (pos (suc n))
    → t ≡ some total
    → traded q t ≡ some (suc n, total)
traded_lem q t = rw (q, t) refl

-- The lots that sales under a key consumed, in the order of the sales.
abbrev pub sold : Key → List NativeSale → List PnlLot
sold k [] = []
sold k (s ∷ ss) =
    (if same_key (s.portfolio_asset_id, s.entity_id) k then s.lots else []) ++ sold k ss

abbrev pub is_buy : TransactionType → Bool
is_buy investment_buy = true
is_buy _ = false

module _ (f : Floats) where
  abbrev pub lot_of : Key → Row → Option (ℕ × ℤ) → List PnlLot
  lot_of k r none = []
  lot_of k r (some (qty, total_val)) =
      if is_buy r.type_ && same_key (key_of r) k then buy_lot f r qty total_val ∷ [] else []

  -- The lots that rows buy under a key, in the order of the rows.
  abbrev pub bought : Key → List Row → List PnlLot
  bought k [] = []
  bought k (r ∷ rows) = lot_of k r (traded r.quantity r.total_value) ++ bought k rows

  -- One step neither loses a share nor changes the order of the shares.
  abbrev Steps : Key → Queues → List PnlLot → List NativeSale × Queues → Type 0
  Steps k qs new (sales, qs') =
      shares (sold k sales) ++ shares (queue_at k qs') ≡ shares (queue_at k qs) ++ shares new

  sold-record_sale :
      (k : Key) (r : Row) (qty : ℕ) (total : ℤ) (lots : List PnlLot)
      → sold k (record_sale f r qty total lots) ≡ (if same_key (key_of r) k then lots else [])
  unfolding record_sale sale_of
  sold-record_sale k r qty total [] = ground arith
  sold-record_sale k r qty total (lot ∷ lots) = append-nil _

  buy-Steps :
      (k : Key) (r : Row) (lot : PnlLot) (qs : Queues)
      → Steps k qs
          (if same_key (key_of r) k then lot ∷ [] else [])
          ([], set_queue (key_of r) (queue_at (key_of r) qs ++ lot ∷ []) qs)
  buy-Steps k r lot qs =
      rw (queue_at-set_queue (key_of r) k (queue_at (key_of r) qs ++ lot ∷ []) qs)
        (elim (Bool-cases (same_key (key_of r) k)) [
          | inl same ↦
              rw (same, queue_at-same (key_of r) k qs same)
                (shares-append (queue_at k qs) (lot ∷ []))
          | inr other ↦ rw other (sym (append-nil _))
        ])

  record_sale-Steps :
      (k : Key) (r : Row) (qty : ℕ) (total : ℤ) (lots queue : List PnlLot) (qs : Queues)
      → shares lots ++ shares queue ≡ shares (queue_at (key_of r) qs)
      → Steps k qs [] (record_sale f r qty total lots, set_queue (key_of r) queue qs)
  record_sale-Steps k r qty total lots queue qs e =
      rw (sold-record_sale k r qty total lots, queue_at-set_queue (key_of r) k queue qs)
        (elim (Bool-cases (same_key (key_of r) k)) [
          | inl same ↦
              rw same (e ∙ ap shares (queue_at-same (key_of r) k qs same) ∙ sym (append-nil _))
          | inr other ↦ rw other (sym (append-nil _))
        ])

  sell-Steps :
      (k : Key) (r : Row) (qty : ℕ) (total : ℤ) (queue : List PnlLot) (qs : Queues)
      → queue ≡ queue_at (key_of r) qs
      → Steps k qs [] (sell f r qty total queue qs)
  unfolding sell
  sell-Steps k r qty total [] qs e = sym (append-nil _)
  sell-Steps k r qty total (lot ∷ lots) qs e =
      let c = consume (suc (suc (length lots))) (lot ∷ lots) qty in
      record_sale-Steps k r qty total c.lots c.queue qs
        (consume-shares (suc (suc (length lots))) (lot ∷ lots) qty ∙ ap shares e)

  trade-Steps :
      (k : Key) (r : Row) (type_ : TransactionType) (qty : ℕ) (total : ℤ) (qs : Queues)
      → Steps k qs
          (if is_buy type_ && same_key (key_of r) k then buy_lot f r qty total ∷ [] else [])
          (trade f type_ r qty total qs)
  unfolding trade
  trade-Steps k r investment_buy qty total qs = buy-Steps k r (buy_lot f r qty total) qs
  trade-Steps k r investment_sell qty total qs =
      sell-Steps k r qty total (queue_at (key_of r) qs) qs refl
  trade-Steps k r _ qty total qs = sym (append-nil _)

  row-Steps :
      (k : Key) (r : Row) (qs : Queues)
      → Steps k qs (lot_of k r (traded r.quantity r.total_value)) (fifo_row f r qs)
  unfolding fifo_row
  row-Steps k r qs = go (traded r.quantity r.total_value)
    where
      go : (t : Option (ℕ × ℤ)) → Steps k qs (lot_of k r t) (trade_if f r qs t)
      go none = sym (append-nil _)
      go (some (qty, total)) = trade-Steps k r r.type_ qty total qs

  sold-append : (k : Key) (xs ys : List NativeSale) → sold k (xs ++ ys) ≡ sold k xs ++ sold k ys
  sold-append k [] ys = refl
  sold-append k (x ∷ xs) ys =
      rw (sold-append k xs ys) (sym (append_assoc _ (sold k xs) (sold k ys)))

  rows-Steps :
      (k : Key) (rows : List Row) (qs : Queues) → Steps k qs (bought k rows) (fifo_rows f rows qs)
  unfolding fifo_rows
  rows-Steps k [] qs = sym (append-nil _)
  rows-Steps k (r ∷ rows) qs =
      let new = lot_of k r (traded r.quantity r.total_value) in
      let sale = fifo_row f r qs in
      let rest = fifo_rows f rows sale.1 in
      ap (λ l. shares l ++ shares (queue_at k rest.1)) (sold-append k sale.0 rest.0)
      ∙ ap (λ l. l ++ shares (queue_at k rest.1)) (shares-append (sold k sale.0) (sold k rest.0))
      ∙ append_assoc (shares (sold k sale.0)) _ _
      ∙ ap (λ l. shares (sold k sale.0) ++ l) (rows-Steps k rows sale.1)
      ∙ sym (append_assoc (shares (sold k sale.0)) _ _)
      ∙ ap (λ l. l ++ shares (bought k rows)) (row-Steps k r qs)
      ∙ append_assoc (shares (queue_at k qs)) _ _
      ∙ ap (λ l. shares (queue_at k qs) ++ l) (sym (shares-append new (bought k rows)))

  -- First in, first out, for each asset and entity: the shares that the sales consumed, in the order of the
  -- sales, followed by the shares left in the queue, are exactly the shares bought, in the order of
  -- the purchases. So no share is lost, invented, sold twice or sold out of turn.
  pub compute_fifo-shares :
      (k : Key) (rows : List Row)
      → let r = compute_fifo f rows in
        shares (sold k r.sales) ++ shares (queue_at k r.remaining) ≡ shares (bought k rows)
  unfolding compute_fifo
  compute_fifo-shares k rows = rows-Steps k rows []

  consume-taken :
      (fuel : ℕ) (queue : List PnlLot) (qty : ℕ)
      → length queue < fuel
      → length (shares (consume fuel queue qty).lots) ≡ min qty (length (shares queue))
  consume-taken fuel queue qty lt =
      let c = consume fuel queue qty in
      let whole = ap length (consume-shares fuel queue qty) in
      elim (consume-done fuel queue qty lt) [
        | inl none_left ↦ omega (
          arith,
          none_left,
          whole,
          consume-count fuel queue qty,
          length-append (shares c.lots) (shares c.queue),
        )
        | inr no_queue ↦ omega (
          arith,
          ap (λ (q : List PnlLot). length (shares q)) no_queue,
          whole,
          consume-count fuel queue qty,
          length-append (shares c.lots) (shares c.queue),
        )
      ]

  sell-taken :
      (r : Row) (qty : ℕ) (total : ℤ) (queue : List PnlLot) (qs : Queues)
      → length (shares (sold (key_of r) (sell f r qty total queue qs).0))
        ≡ min qty (length (shares queue))
  unfolding sell
  sell-taken r qty total [] qs = omega arith
  sell-taken r qty total (lot ∷ lots) qs =
      let fuel = suc (suc (length lots)) in
      let c = consume fuel (lot ∷ lots) qty in
      ap (λ (l : List PnlLot). length (shares l))
        (sold-record_sale (key_of r) r qty total c.lots
          ∙ ap (λ b. if b then c.lots else []) (same_key_refl (key_of r)))
      ∙ consume-taken fuel (lot ∷ lots) qty (omega arith)

  -- A sale takes its whole quantity if the queue of its asset and entity holds as many shares, and
  -- all that the queue holds otherwise.
  pub fifo_row-taken :
      (r : Row) (n : ℕ) (total : ℤ) (qs : Queues)
      → r.type_ ≡ investment_sell
      → r.quantity ≡ some (pos (suc n))
      → r.total_value ≡ some total
      → length (shares (sold (key_of r) (fifo_row f r qs).0))
        ≡ min (suc n) (length (shares (queue_at (key_of r) qs)))
  unfolding fifo_row trade
  fifo_row-taken r n total qs ty q t =
      ap (λ o. length (shares (sold (key_of r) (trade_if f r qs o).0))) (traded_lem q t)
      ∙ ap (λ y. length (shares (sold (key_of r) (trade f y r (suc n) total qs).0))) ty
      ∙ sell-taken r (suc n) total (queue_at (key_of r) qs) qs
