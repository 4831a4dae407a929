-- ===== src/BTree/Pages.antt =====
-- What the B-tree asks of its transaction. A page that was handed out is named by its frame.
use frostfire.Prelude.{ℕ, Result}
use frostfire.Bytes.{Bytes}

pub record Pages : Type 1 where
  pub State : Type 0
  -- Txn.Get, Txn.AllocatePage and Txn.FreePage
  pub get : ℕ → State → Result ℕ × State
  pub allocate : State → Result ℕ × State
  pub free : ℕ → State → Result (Unit {0}) × State
  -- Page.Unpin
  pub unpin : ℕ → State → Result (Unit {0}) × State
  -- `page.pageId` and `page.data`
  pub id_of : ℕ → State → ℕ
  pub bytes_of : ℕ → State → Bytes
  pub set_bytes : ℕ → Bytes → State → State
