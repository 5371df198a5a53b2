-- ===== src/BlockQueue/Tests.antt =====
-- The queue of blocks and logs at a concrete stream.
use augur_node.Prelude.{ℕ, ◌≡◌, some, none, List, [], ◌∷◌, ◌++◌, false, arith}
use augur_node.BlockQueue.{
  BlockDetail, BlockAndLogsQueue, add, remove, look_up, accept_add_logs, accept_remove_logs,
  accept_add_block, accept_remove_block,
}
use augur_node.BlockQueue.Pairs.{
  StreamEvent, block_added, logs_added, logs_removed, hash_of, IsSilentOn, accept_all, accept_pairs,
}

abbrev block_seven : BlockDetail
block_seven = record { hash = 7; number = 100; timestamp = some 1500 }

abbrev block_eight : BlockDetail
block_eight = record { hash = 8; number = 101; timestamp = some 1515 }

abbrev empty_queue : BlockAndLogsQueue ℕ
empty_queue = record { remove_logs = []; add_blocks = []; process_queue = []; paused = false }

abbrev between : List (StreamEvent ℕ)
between = block_added block_eight ∷ logs_added 8 (5 ∷ []) ∷ logs_removed 9 (6 ∷ []) ∷ []

between-IsSilentOn : IsSilentOn 7 between
unfolding IsSilentOn hash_of
between-IsSilentOn =
    ((λ h. omega (arith, h)), ((λ h. omega (arith, h)), ((λ h. omega (arith, h)), tt)))

accept_pairs_example :
    let q' = accept_all between (accept_add_block block_seven empty_queue) in
    let q'' = accept_all between (accept_remove_logs 7 (1 ∷ 2 ∷ []) empty_queue) in
    ((accept_add_logs 7 (1 ∷ 2 ∷ []) q').process_queue
      ≡ q'.process_queue
        ++ record { direction = add; block = some block_seven; logs = some (1 ∷ 2 ∷ []) } ∷ [])
    × (look_up 7 (accept_add_logs 7 (1 ∷ 2 ∷ []) q').add_blocks ≡ none)
    × ((accept_remove_block block_seven q'').process_queue
        ≡ q''.process_queue
          ++ record { direction = remove; block = some block_seven; logs = some (1 ∷ 2 ∷ []) } ∷ [])
    × (look_up 7 (accept_remove_block block_seven q'').remove_logs ≡ none)
accept_pairs_example = accept_pairs block_seven (1 ∷ 2 ∷ []) between empty_queue between-IsSilentOn
