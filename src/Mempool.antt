-- ===== src/Mempool.antt =====
-- mempool/mod.rs and mempool/entry.rs: the unconfirmed transactions. The map of transactions is a list
-- of pairs, in the order in which its iteration yields them, and the index of spent outpoints a
-- function. Floating point arithmetic is a parameter.
pub mod Remove
pub mod Accept
pub mod Accounting
pub mod Limit
pub mod Index
use ironcat.Base.{
  ℕ, zero, suc, ◌+◌, ◌-◌, ◌*◌, ◌%◌, List, [], ◌∷◌, Bool, Option, none, some, leb, length,
  if◌then◌else◌,
}
use ironcat.Network.Cursor.{Bytes}
use ironcat.Types.Hash.{Hash256, bytes_eq}
use ironcat.Types.Transaction.{OutPoint, TxIn, TxOut, Transaction, outpoint_eq}

abbrev pub max_mempool_size : ℕ
max_mempool_size = 50 * 1024 * 1024

abbrev pub max_relay_tx_size : ℕ
max_relay_tx_size = 100 * 1024

-- The operations on f64 that the source uses: `fee as f64 / size as f64`, whether a rate is below
-- 1.0, and whether `partial_cmp` says that one is greater than the other.
pub record Floats : Type 1 where
  pub F64 : Type 0
  pub rate_of : ℕ → ℕ → F64
  pub below_minimum : F64 → Bool
  pub greater : F64 → F64 → Bool

-- The fee rate is computed from the fee and the size. The time of the arrival is left out.
pub record MempoolEntry : Type 0 where
  pub tx : Transaction
  pub fee : ℕ
  pub size : ℕ

abbrev pub TxEntries : Type 0
TxEntries = List (Hash256 × MempoolEntry)

abbrev pub Spends : Type 0
Spends = OutPoint → Option Hash256

pub record Mempool : Type 0 where
  pub txs : TxEntries
  pub spends : Spends
  pub total_size : ℕ
  pub max_size : ℕ

unfoldable pub with_max_size : ℕ → Mempool
with_max_size n = record { txs = []; spends = λ o. none; total_size = 0; max_size = n }

unfoldable pub find_tx : Hash256 → TxEntries → Option MempoolEntry
find_tx txid [] = none
find_tx txid ((k, e) ∷ rest) = if bytes_eq k txid then some e else find_tx txid rest

unfoldable pub erase_tx : Hash256 → TxEntries → TxEntries
erase_tx txid [] = []
erase_tx txid ((k, e) ∷ rest) = if bytes_eq k txid then rest else (k, e) ∷ erase_tx txid rest

abbrev pub set_spend : OutPoint → Option Hash256 → Spends → Spends
set_spend p v spends o = if outpoint_eq o p then v else spends o

-- The loop over the inputs of an entry that leaves, and of one that enters.
unfoldable pub set_spends : Option Hash256 → List TxIn → Spends → Spends
set_spends v [] spends = spends
set_spends v (i ∷ is) spends = set_spends v is (set_spend i.prev_output v spends)

-- A sum over the entries.
unfoldable pub sum_entries : (MempoolEntry → ℕ) → TxEntries → ℕ
sum_entries w [] = 0
sum_entries w ((k, e) ∷ rest) = w e + sum_entries w rest
