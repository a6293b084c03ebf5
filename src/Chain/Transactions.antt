-- ===== src/Chain/Transactions.antt =====
-- How a transaction enters the chain: `_apply_transaction` and `clear_expired_transactions` of
-- libraries/chain/database.cpp, with the index of the transactions in the order of their
-- expiration. What the transaction does to the rest of the state, its validation, the check of its
-- signatures and that of its reference block are parameters: the model of each is in its own
-- module or, of the block summaries, left out.
pub mod Replay
mod Tests
use wenode.Base.{
  ℕ, ◌+◌, ◌<◌, ◌≡◌, Bool, true, false, ◌&&◌, ◌||◌, not, List, [], ◌∷◌, ltb, leb, ◌==◌,
  if◌then◌else◌, Result, ok, assert, ◌>>=◌, ◌>>◌,
}
use wenode.Chain.Table.{insert_by}

-- `transaction_object`, less the packed transaction.
pub record Known : Type 0 where
  pub trx_id : ℕ
  pub expiration : ℕ

-- The flags of a node that the code reads.
pub record Skip : Type 0 where
  pub validation : Bool
  pub dupe_check : Bool
  pub authority_check : Bool
  pub tapos_check : Bool

abbrev pub max_time_until_expiration : ℕ
max_time_until_expiration = 3600

unfoldable pub is_known : ℕ → List Known → Bool
is_known id [] = false
is_known id (k ∷ ks) = id == k.trx_id || is_known id ks

unfoldable pub expires_before : Known → Known → Bool
expires_before a b = ltb a.expiration b.expiration

-- `clear_expired_transactions`, of the index.
unfoldable pub clear_from : ℕ → List Known → List Known
clear_from now [] = []
clear_from now (k ∷ ks) =
    let rest = clear_from now ks in if ltb k.expiration now then rest else k ∷ ks

-- What the code takes from the rest of the chain: `Trx` is a signed transaction, `World` all of the
-- state but the transactions.
pub record Chain (Trx World : Type 0) : Type 0 where
  pub id : Trx → ℕ
  pub expiration : Trx → ℕ
  pub time : World → ℕ
  pub head_block_num : World → ℕ
  pub has_hardfork_0_9 : World → Bool
  pub validate : Trx → Result (Unit {0})
  pub verify_authority : Trx → World → Result (Unit {0})
  pub tapos_ok : Trx → World → Bool
  pub apply_operations : Trx → World → Result World

pub record State (World : Type 0) : Type 0 where
  pub world : World
  pub transactions : List Known

module _ {Trx World : Type 0} (chain : Chain Trx World) where
  -- The checks of the reference block and of the expiration, which block 1 goes without.
  unfoldable pub check_expiration : Skip → Trx → World → Result (Unit {0})
  check_expiration skip t w =
      if ltb 0 (chain.head_block_num w)
      then (do
        assert (skip.tapos_check || chain.tapos_ok t w)
        assert (leb (chain.expiration t) (chain.time w + max_time_until_expiration))
        assert (not (chain.has_hardfork_0_9 w) || ltb (chain.time w) (chain.expiration t))
        assert (leb (chain.time w) (chain.expiration t)))
      else ok tt

  unfoldable pub apply_transaction : Skip → Trx → State World → Result (State World)
  apply_transaction skip t s = do
    if skip.validation then ok tt else chain.validate t
    assert (skip.dupe_check || not (is_known (chain.id t) s.transactions))
    if skip.authority_check then ok tt else chain.verify_authority t s.world
    check_expiration skip t s.world
    let known : Known = record { trx_id = chain.id t; expiration = chain.expiration t }
    w ← chain.apply_operations t s.world
    ok (record {
      world = w;
      transactions =
          if skip.dupe_check then s.transactions else insert_by expires_before known s.transactions;
    })

  unfoldable pub clear_expired_transactions : State World → State World
  clear_expired_transactions s = record s {
    transactions = clear_from (chain.time s.world) s.transactions;
  }

  -- Transactions are applied, by which the head block's time is the same, and blocks pass: the
  -- time of each is after that of the one before, which `validate_block_header` tests.
  pub data Later : State World → State World → Type 0 where
    now : (s : State World) → Later s s
    apply :
        (skip : Skip) (t : Trx) (s s' s'' : State World)
        → Later s s'
        → apply_transaction skip t s' ≡ ok s''
        → chain.time s''.world ≡ chain.time s'.world
        → Later s s''
    pass :
        (s s' : State World) (w : World)
        → Later s s'
        → chain.time s'.world < chain.time w
        → Later s (clear_expired_transactions (record s' { world = w }))
