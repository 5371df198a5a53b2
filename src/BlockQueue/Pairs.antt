-- ===== src/BlockQueue/Pairs.antt =====
-- Blocks meet their own logs, whatever comes between (src/blockchain/block-and-logs-queue.ts).
use augur_node.Prelude.{
  ℕ, ◌≡◌, ◌≢◌, refl, ap, ◌∙◌, true, false, Option, none, some, List, [], ◌∷◌, ◌++◌, ◌==◌, ==_refl,
  arith, if◌then◌else◌,
}
use augur_node.Prelude.Tables.{first_where, delete_where}
use augur_node.Prelude.TableLaws.{first-insert, first-delete, first_or, none-delete}
use augur_node.BlockQueue.{
  BlockDetail, Entry, at_key, value_in, look_up, drop_key, assign, BlockAndLogsQueue, add, remove,
  enqueue_block_processing, accept_add_logs, accept_remove_logs, accept_add_block,
  accept_remove_block,
}

-- What the block stream reports.
pub data StreamEvent (Log : Type 0) : Type 0 where
  block_added block_removed : BlockDetail → StreamEvent Log
  logs_added logs_removed : ℕ → List Log → StreamEvent Log

unfoldable pub hash_of : {Log : Type 0} → StreamEvent Log → ℕ
hash_of (block_added b) = b.hash
hash_of (block_removed b) = b.hash
hash_of (logs_added h logs) = h
hash_of (logs_removed h logs) = h

pub accept : {Log : Type 0} → StreamEvent Log → BlockAndLogsQueue Log → BlockAndLogsQueue Log
accept (block_added b) q = accept_add_block b q
accept (block_removed b) q = accept_remove_block b q
accept (logs_added h logs) q = accept_add_logs h logs q
accept (logs_removed h logs) q = accept_remove_logs h logs q

pub accept_all :
    {Log : Type 0} → List (StreamEvent Log) → BlockAndLogsQueue Log → BlockAndLogsQueue Log
accept_all [] q = q
accept_all (e ∷ es) q = accept_all es (accept e q)

-- No event of the list is about the block.
unfoldable pub IsSilentOn : {Log : Type 0} → ℕ → List (StreamEvent Log) → Type 0
IsSilentOn h [] = Unit {0}
IsSilentOn h (e ∷ es) = (hash_of e ≢ h) × IsSilentOn h es

apart : (a k h : ℕ) → h ≢ k → (a == k) ≡ true → (a == h) ≡ false
apart a k h n e = ground arith

ne_eq : (a b : ℕ) → a ≢ b → (a == b) ≡ false
ne_eq a b n = ground arith

module _ {A : Type 0} where
  look_up-drop_key : (k h : ℕ) (q : List (Entry A)) → h ≢ k → look_up k (drop_key h q) ≡ look_up k q
  unfolding look_up drop_key
  look_up-drop_key k h q n =
      ap value_in (first-delete (at_key k) (at_key h) q (λ e. apart e.key k h n))

  look_up-assign_other :
      (k h : ℕ) (v : A) (q : List (Entry A)) → h ≢ k → look_up k (assign h v q) ≡ look_up k q
  unfolding look_up assign
  look_up-assign_other k h v q n = ap value_in (
      first-insert (at_key k) (record { key = h; value = v }) (delete_where (at_key h) q)
      ∙ rw (ne_eq h k n) (or_none _)
      ∙ first-delete (at_key k) (at_key h) q (λ e. apart e.key k h n))
    where
      or_none : (o : Option (Entry A)) → first_or o none ≡ o
      or_none none = refl
      or_none (some e) = refl

  look_up-assign : (k : ℕ) (v : A) (q : List (Entry A)) → look_up k (assign k v q) ≡ some v
  unfolding look_up assign
  look_up-assign k v q =
      ap value_in (
        first-insert (at_key k) (record { key = k; value = v }) (delete_where (at_key k) q) ∙ found)
    where
      found :
          first_or
            (first_where (at_key k) (delete_where (at_key k) q))
            (if k == k then some (record { key = k; value = v }) else none)
          ≡ some (record { key = k; value = v })
      found = rw (none-delete (at_key k) q, ==_refl k) refl

module _ {Log : Type 0} where
  -- The waiting block and the waiting logs of a hash outlast every event about other blocks.
  accept-keeps :
      (h : ℕ) (e : StreamEvent Log) (q : BlockAndLogsQueue Log)
      → hash_of e ≢ h
      → (look_up h (accept e q).add_blocks ≡ look_up h q.add_blocks)
        × (look_up h (accept e q).remove_logs ≡ look_up h q.remove_logs)
  unfolding accept accept_add_block accept_remove_block accept_add_logs accept_remove_logs
      enqueue_block_processing hash_of
  accept-keeps h (block_added b) q n = (look_up-assign_other h b.hash b q.add_blocks n, refl)
  accept-keeps h (block_removed b) q n = (refl, look_up-drop_key h b.hash q.remove_logs n)
  accept-keeps h (logs_added k logs) q n = (look_up-drop_key h k q.add_blocks n, refl)
  accept-keeps h (logs_removed k logs) q n = (refl, look_up-assign_other h k logs q.remove_logs n)

  accept_all-keeps :
      (h : ℕ) (es : List (StreamEvent Log)) (q : BlockAndLogsQueue Log)
      → IsSilentOn h es
      → (look_up h (accept_all es q).add_blocks ≡ look_up h q.add_blocks)
        × (look_up h (accept_all es q).remove_logs ≡ look_up h q.remove_logs)
  unfolding accept_all IsSilentOn
  accept_all-keeps h [] q s = (refl, refl)
  accept_all-keeps h (e ∷ es) q s =
      let rest = accept_all-keeps h es (accept e q) s.1 in
      let first = accept-keeps h e q s.0 in (rest.0 ∙ first.0, rest.1 ∙ first.1)

  -- Whatever events about other blocks come between, in any order: when a block is added and then
  -- its logs, the task that is enqueued last is to add that block with those logs; when the logs
  -- of a block are removed and then the block, it is to remove that block with those logs. In both
  -- cases the tasks enqueued before it stay, and nothing waits under the hash any more.
  pub accept_pairs :
      (b : BlockDetail) (logs : List Log) (es : List (StreamEvent Log)) (q : BlockAndLogsQueue Log)
      → IsSilentOn b.hash es
      → let q' = accept_all es (accept_add_block b q) in
        let q'' = accept_all es (accept_remove_logs b.hash logs q) in
        ((accept_add_logs b.hash logs q').process_queue
          ≡ q'.process_queue ++ record { direction = add; block = some b; logs = some logs } ∷ [])
        × (look_up b.hash (accept_add_logs b.hash logs q').add_blocks ≡ none)
        × ((accept_remove_block b q'').process_queue
            ≡ q''.process_queue
              ++ record { direction = remove; block = some b; logs = some logs } ∷ [])
        × (look_up b.hash (accept_remove_block b q'').remove_logs ≡ none)
  unfolding accept_add_block accept_remove_block accept_add_logs accept_remove_logs
      enqueue_block_processing look_up drop_key
  accept_pairs b logs es q s = (
    ap
        (λ o.
          (accept_all es (accept_add_block b q)).process_queue
          ++ record { direction = add; block = o; logs = some logs } ∷ [])
        ((accept_all-keeps b.hash es (accept_add_block b q) s).0
          ∙ look_up-assign b.hash b q.add_blocks),
    ap value_in (none-delete (at_key b.hash) _),
    ap
        (λ o.
          (accept_all es (accept_remove_logs b.hash logs q)).process_queue
          ++ record { direction = remove; block = some b; logs = o } ∷ [])
        ((accept_all-keeps b.hash es (accept_remove_logs b.hash logs q) s).1
          ∙ look_up-assign b.hash logs q.remove_logs),
    ap value_in (none-delete (at_key b.hash) _),
  )
