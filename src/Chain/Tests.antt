-- ===== src/Chain/Tests.antt =====
-- Runs of the ledger on small inputs: an escrow is opened and, its deadline past, is refunded;
-- one that both parties have approved is released.
use wenode.Base.{◌⊎◌, ◌≡◌, refl, true, false, [], ◌∷◌, ok}
use wenode.Base.Int.{◌+ℤ◌, ◌-ℤ◌}
use wenode.Protocol.Names.{name_eq}
use wenode.Protocol.Asset.Machine.{wrapping, checked, in_range}
use wenode.Protocol.Operations.{
  symbol_coin, symbol_usd, validate_account_name, not_negative, is_positive, validate_metadata,
}
use wenode.Protocol.Operations.Escrow.{EscrowTransfer, EscrowRelease, validate_escrow_transfer}
use wenode.Chain.Ledger.{Account, Ledger, get_account, adjust_balance, accrue, assert_ge}
use wenode.Chain.Sample.{account, ann, bob, eve, always, tsd, tme, start, value_or}
use wenode.Chain.Ledger.Held.{excess, amount_in, account_holds, supply}
use wenode.Chain.Table.{total, find_by, replace_by, insert_by, erase_by, move_by}
use wenode.Protocol.Authority.{
  is_valid_account_name, labels_ok, split_label, label_ok, tail_ok, is_inner, is_letter,
  is_letter_or_digit,
}
use wenode.Protocol.Asset.{add_asset, asset_ge, asset_lt, negate_asset, sub_asset}
use wenode.Chain.Escrow.{
  escrow_transfer, escrow_spent, create_escrow, is_escrow, escrow_precedes, is_approved,
  expire_escrow_ratification, expire_from, refund_escrow, remove_escrow, put_escrow, escrow_release,
  get_escrow, may_release,
}
use wenode.Chain.Escrow.Release.{Permitted, in_escrow, amount_released, escrow_release-Permitted}
use wenode.Chain.Ledger.Adjust.{adjust_balance-excess}
use wenode.Chain.Escrow.Fees.{FeesPaid}
use wenode.Chain.Operations.Run.{Reaches-excess}
use wenode.Chain.Operations.{
  escrow_transfer_operation, apply_operations, validate, validate_all, apply_operation, apply_all,
  Hardforks, Reaches, stay, go_on, transact, next_block, expire_escrows,
}

abbrev all_hardforks : Hardforks
all_hardforks = record { hardfork_0_6__127 = true; hardfork_0_16__551 = true }

abbrev offer : EscrowTransfer
offer = record {
  from = ann;
  to = bob;
  agent = eve;
  escrow_id = 30;
  tsd_amount = tsd 0;
  tme_amount = tme 5;
  fee = tme 1;
  ratification_deadline = 60;
  escrow_expiration = 200;
  json = [];
}

abbrev opened : Ledger
opened =
    value_or
      (apply_operations wrapping checked always always all_hardforks
        (escrow_transfer_operation offer ∷ []) start)
      start

opened-applied :
    apply_operations wrapping checked always always all_hardforks
      (escrow_transfer_operation offer ∷ [])
      start
    ≡ ok opened
unfolding apply_operations validate_all validate apply_all apply_operation validate_escrow_transfer
    validate_account_name is_valid_account_name labels_ok split_label label_ok tail_ok is_inner
    is_letter is_letter_or_digit not_negative is_positive name_eq validate_metadata escrow_transfer
    get_account find_by escrow_spent add_asset assert_ge asset_ge asset_lt negate_asset
    adjust_balance accrue replace_by create_escrow is_escrow insert_by escrow_precedes is_approved
    in_range ◌+ℤ◌ ◌-ℤ◌
opened-applied = refl

-- The escrow's deadline has passed.
abbrev later : Ledger
later = record opened {
  properties = record (opened.properties) { head_block_number = 8; time = 100 };
}

abbrev refunded : Ledger
refunded = value_or (expire_escrow_ratification wrapping checked later) later

refunded-expired : expire_escrow_ratification wrapping checked later ≡ ok refunded
unfolding apply_operations validate_all validate apply_all apply_operation validate_escrow_transfer
    validate_account_name is_valid_account_name labels_ok split_label label_ok tail_ok is_inner
    is_letter is_letter_or_digit not_negative is_positive name_eq validate_metadata escrow_transfer
    get_account find_by escrow_spent add_asset assert_ge asset_ge asset_lt negate_asset
    adjust_balance accrue replace_by create_escrow is_escrow insert_by escrow_precedes is_approved
    in_range ◌+ℤ◌ ◌-ℤ◌ expire_escrow_ratification expire_from refund_escrow remove_escrow erase_by
refunded-expired = refl

run : Reaches wrapping checked always always start refunded
run =
    go_on start later refunded
      (go_on start opened later
        (go_on start start opened (stay start) (
          transact all_hardforks (escrow_transfer_operation offer ∷ []) start opened
            opened-applied))
        (next_block 8 100 opened))
      (expire_escrows later refunded refunded-expired)

no_escrows : FeesPaid start
unfolding FeesPaid
no_escrows = refl

Reaches-excess_example :
    (excess symbol_coin refunded ≡ excess symbol_coin start) × FeesPaid refunded
Reaches-excess_example =
    Reaches-excess wrapping checked always always symbol_coin start refunded run no_escrows

abbrev agreed : Ledger
agreed = record start {
  escrows =
      record {
        id = 0;
        escrow_id = 30;
        from = ann;
        to = bob;
        agent = eve;
        ratification_deadline = 60;
        escrow_expiration = 200;
        tsd_balance = tsd 0;
        tme_balance = tme 5;
        pending_fee = tme 0;
        to_approved = true;
        agent_approved = true;
        disputed = false;
      }
      ∷ [];
}

abbrev payment : EscrowRelease
payment = record {
  from = ann;
  to = bob;
  agent = eve;
  who = ann;
  receiver = bob;
  escrow_id = 30;
  tsd_amount = tsd 0;
  tme_amount = tme 3;
}

abbrev released : Ledger
released = value_or (escrow_release wrapping checked payment agreed) agreed

released-done : escrow_release wrapping checked payment agreed ≡ ok released
unfolding escrow_release get_account find_by get_escrow is_escrow name_eq assert_ge asset_ge
    asset_lt is_approved may_release adjust_balance add_asset sub_asset in_range ◌+ℤ◌ ◌-ℤ◌
    replace_by accrue remove_escrow erase_by put_escrow move_by insert_by escrow_precedes
released-done = refl

bob_there : get_account bob agreed ≡ ok (account bob 60 20)
unfolding get_account find_by name_eq
bob_there = refl

escrow_release-Permitted_example :
    Permitted payment agreed
    × ((a : Account) × (get_account bob released ≡ ok a)
        × (((bob ≡ bob)
              × (account_holds symbol_coin a -ℤ supply symbol_coin released.properties
                  ≡ account_holds symbol_coin (account bob 60 20)
                    -ℤ supply symbol_coin agreed.properties
                    +ℤ amount_released symbol_coin payment))
            ⊎ ((name_eq bob bob ≡ false) × (a ≡ account bob 60 20))))
    × (total (in_escrow symbol_coin) released.escrows +ℤ amount_released symbol_coin payment
        ≡ total (in_escrow symbol_coin) agreed.escrows)
escrow_release-Permitted_example =
    escrow_release-Permitted wrapping checked symbol_coin payment agreed bob (account bob 60 20)
      released-done bob_there

abbrev richer : Ledger
richer = value_or (adjust_balance wrapping checked bob (tsd 7) start) start

richer-done : adjust_balance wrapping checked bob (tsd 7) start ≡ ok richer
unfolding adjust_balance get_account find_by name_eq accrue add_asset in_range ◌+ℤ◌ ◌-ℤ◌ replace_by
richer-done = refl

adjust_balance-excess_example :
    excess symbol_usd richer ≡ excess symbol_usd start +ℤ amount_in symbol_usd (tsd 7)
adjust_balance-excess_example =
    adjust_balance-excess wrapping checked symbol_usd bob (tsd 7) start richer-done
