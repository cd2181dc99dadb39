-- ===== src/Knowledge/Tx.antt =====
-- The transactions of the API's knowledge module. The errors are those of knowledge/errors.py and
-- cleanup.py, with the built-in exceptions that the module raises.
use serviq.Common.{ℕ}
use serviq.Common.Tx.{Tx as TxOver, Result as ResultOver}
pub use serviq.Common.Tx.{
  ok, err, ◌>>=◌, ◌>>◌, pure, gets, modify, raise, raise_if, transaction, raise_if_inv, bind_inv,
  transaction_cases, raise_if_pass, bind_lem, raise_if_err, bind_err, if_inv,
}
use serviq.Knowledge.Rows.{Db}

pub data Error : Type 0 where
  forbidden source_not_found source_disabled : Error
  source_quota_exceeded storage_quota_exceeded quota_unavailable : Error
  concurrency_limited : ℕ → Error
  cleanup_unavailable : Error
  value_error runtime_error integrity_error : Error

abbrev pub Result : Type 0 → Type 0
Result A = ResultOver Error A

-- The body of a transaction on the module's tables.
abbrev pub Tx : Type 0 → Type 0
Tx A = TxOver Db Error A
