-- ===== src/Chain/Transactions/Tests.antt =====
-- A transaction that is applied, and offered again after two blocks.
use wenode.Base.{ℕ, ◌≡◌, refl, true, false, [], ◌∷◌, ok, arith}
use wenode.Chain.Table.{insert_by}
use wenode.Chain.Transactions.{
  Skip, Chain, State, is_known, expires_before, check_expiration, apply_transaction,
  clear_expired_transactions, Later, now, pass,
}
use wenode.Chain.Transactions.Replay.{apply_transaction-once}

-- A world is its time and its number of blocks, a transaction its id and its expiration.
abbrev toy : Chain (ℕ × ℕ) (ℕ × ℕ)
toy = record {
  id = λ t. t.0;
  expiration = λ t. t.1;
  time = λ w. w.0;
  head_block_num = λ w. w.1;
  has_hardfork_0_9 = λ w. true;
  validate = λ t. ok tt;
  verify_authority = λ t w. ok tt;
  tapos_ok = λ t w. true;
  apply_operations = λ t w. ok w;
}

abbrev all_checks : Skip
all_checks = record {
  validation = false;
  dupe_check = false;
  authority_check = false;
  tapos_check = false;
}

abbrev before : State (ℕ × ℕ)
before = record { world = (100, 5); transactions = record { trx_id = 8; expiration = 101 } ∷ [] }

abbrev after_it : State (ℕ × ℕ)
after_it = record {
  world = (100, 5);
  transactions =
      record { trx_id = 8; expiration = 101 } ∷ record { trx_id = 9; expiration = 110 } ∷ [];
}

first : apply_transaction toy all_checks (9, 110) before ≡ ok after_it
unfolding apply_transaction is_known check_expiration insert_by expires_before
first = refl

abbrev one_block : State (ℕ × ℕ)
one_block = clear_expired_transactions toy (record after_it { world = (103, 6) })

abbrev two_blocks : State (ℕ × ℕ)
two_blocks = clear_expired_transactions toy (record one_block { world = (106, 7) })

blocks : Later toy after_it two_blocks
unfolding clear_expired_transactions
blocks =
    pass after_it one_block (106, 7) (pass after_it after_it (103, 6) (now after_it) (omega arith))
      (omega arith)

apply_transaction-once_example :
    ¬ ((s : State (ℕ × ℕ)) × (apply_transaction toy all_checks (9, 110) two_blocks ≡ ok s))
unfolding clear_expired_transactions
apply_transaction-once_example =
    apply_transaction-once toy all_checks all_checks (9, 110) before after_it two_blocks first refl
      blocks refl (omega arith)
