-- ===== src/Txn/Pager.antt =====
-- What transactions ask of the buffer pool. A page that is handed out is named by its frame.
use frostfire.Prelude.{ℕ, List, Result}
use frostfire.Bytes.{Bytes}

pub record Pager : Type 1 where
  pub State : Type 0
  -- Get, GetForWrite and AllocatePage
  pub get : ℕ → State → Result ℕ × State
  pub get_for_write : ℕ → State → Result ℕ × State
  pub allocate_page : ℕ → State → Result ℕ × State
  -- `clear(page.data)`
  pub clear : ℕ → State → State
  pub mark_clean : ℕ → State → State
  -- FlushPage, FlushPages, FlushAll and Sync
  pub flush_page : ℕ → State → Result (Unit {0}) × State
  pub flush_pages : List ℕ → State → Result (Unit {0}) × State
  pub flush_all : State → Result (Unit {0}) × State
  pub sync : State → Result (Unit {0}) × State
  -- Page.Unpin, ID and Data of the page in a frame
  pub unpin : ℕ → State → Result (Unit {0}) × State
  pub page_id : ℕ → State → ℕ
  pub bytes : ℕ → State → Bytes
  pub set_bytes : ℕ → Bytes → State → State
