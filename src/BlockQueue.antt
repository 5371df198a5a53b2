-- ===== src/BlockQueue.antt =====
-- The queue of blocks and logs (src/blockchain/block-and-logs-queue.ts). A block that is added comes
-- before its logs, a block that is removed after them; the second of the two enqueues both, and one
-- worker takes what is enqueued in order.
pub mod Pairs
mod Tests
use augur_node.Prelude.{ℕ, Bool, true, Option, none, some, List, [], ◌∷◌, ◌++◌, ◌==◌}
use augur_node.Prelude.Tables.{first_where, delete_where, insert_row}

-- `BlockDirection`
pub data BlockDirection : Type 0 where
  add remove : BlockDirection

-- `BlockDetail`, whose numerals are read as numbers; a block may lack its timestamp.
pub record BlockDetail : Type 0 where
  pub hash : ℕ
  pub number : ℕ
  pub timestamp : Option ℕ

pub record Entry (A : Type 0) : Type 0 where
  pub key : ℕ
  pub value : A

abbrev pub at_key : {A : Type 0} → ℕ → Entry A → Bool
at_key k e = e.key == k

abbrev pub value_in : {A : Type 0} → Option (Entry A) → Option A
value_in none = none
value_in (some e) = some e.value

-- An object with one property for each block hash: `queue[hash]`, `delete queue[hash]` and
-- `queue[hash] = value`.
unfoldable pub look_up : {A : Type 0} → ℕ → List (Entry A) → Option A
look_up k q = value_in (first_where (at_key k) q)

unfoldable pub drop_key : {A : Type 0} → ℕ → List (Entry A) → List (Entry A)
drop_key k q = delete_where (at_key k) q

unfoldable pub assign : {A : Type 0} → ℕ → A → List (Entry A) → List (Entry A)
assign k v q = insert_row (record { key = k; value = v }) (delete_where (at_key k) q)

-- What the processor is called on; either part may be `undefined`.
pub record Task (Log : Type 0) : Type 0 where
  pub direction : BlockDirection
  pub block : Option BlockDetail
  pub logs : Option (List Log)

-- `logsQueue.remove`, `blockQueue.add` and `processQueue`; the other two objects stay empty.
pub record BlockAndLogsQueue (Log : Type 0) : Type 0 where
  pub remove_logs : List (Entry (List Log))
  pub add_blocks : List (Entry BlockDetail)
  pub process_queue : List (Task Log)
  pub paused : Bool

module _ {Log : Type 0} where
  pub enqueue_block_processing :
      BlockDirection
      → Option BlockDetail
      → Option (List Log)
      → BlockAndLogsQueue Log
      → BlockAndLogsQueue Log
  enqueue_block_processing direction block logs q = record q {
    process_queue =
        q.process_queue ++ record { direction = direction; block = block; logs = logs } ∷ [];
  }

  pub accept_add_logs : ℕ → List Log → BlockAndLogsQueue Log → BlockAndLogsQueue Log
  accept_add_logs block_hash logs q =
      let block = look_up block_hash q.add_blocks in
      enqueue_block_processing add block (some logs)
        (record q { add_blocks = drop_key block_hash q.add_blocks })

  pub accept_remove_logs : ℕ → List Log → BlockAndLogsQueue Log → BlockAndLogsQueue Log
  accept_remove_logs block_hash logs q = record q {
    remove_logs = assign block_hash logs q.remove_logs;
  }

  pub accept_add_block : BlockDetail → BlockAndLogsQueue Log → BlockAndLogsQueue Log
  accept_add_block block q = record q { add_blocks = assign block.hash block q.add_blocks }

  pub accept_remove_block : BlockDetail → BlockAndLogsQueue Log → BlockAndLogsQueue Log
  accept_remove_block block q =
      let logs = look_up block.hash q.remove_logs in
      enqueue_block_processing remove (some block) logs
        (record q { remove_logs = drop_key block.hash q.remove_logs })

  -- `stop`
  pub stop : BlockAndLogsQueue Log → BlockAndLogsQueue Log
  stop q = record q { paused = true }
