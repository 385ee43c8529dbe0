-- ===== src/Transaction.antt =====
-- The column `transactions.type`: the thirteen tags that migrations/021_cash_transfer_types.sql permits,
-- and any other string that code may be given.
use wealth.Prelude.{Text}

pub data TxType : Type 0 where
  buy sell dividend interest deposit withdrawal fee tax transfer savings_plan : TxType
  transfer_out cash_transfer_in cash_transfer_out : TxType
  other : Text → TxType
