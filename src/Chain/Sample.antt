-- ===== src/Chain/Sample.antt =====
-- A small ledger for runs on concrete inputs: three accounts, 100 TME and 20 TSD.
use wenode.Base.{ℕ, true, false, Bool, List, [], ◌∷◌, Result, ok, err}
use wenode.Base.Int.{pos}
use wenode.Protocol.Names.{Name}
use wenode.Protocol.Asset.{Asset}
use wenode.Protocol.Operations.{symbol_coin, symbol_usd}
use wenode.Chain.Ledger.{Deposit, Account, Ledger}

abbrev pub ann : Name
ann = b'a' ∷ b'n' ∷ b'n' ∷ []

abbrev pub bob : Name
bob = b'b' ∷ b'o' ∷ b'b' ∷ []

abbrev pub eve : Name
eve = b'e' ∷ b'v' ∷ b'e' ∷ []

abbrev pub always : List ℕ → Bool
always s = true

abbrev pub tsd : ℕ → Asset
tsd n = record { amount = pos n; symbol = symbol_usd }

abbrev pub tme : ℕ → Asset
tme n = record { amount = pos n; symbol = symbol_coin }

abbrev pub deposit : ℕ → Deposit
deposit n = record {
  balance = tsd n;
  seconds = 0;
  seconds_last_update = 50;
  last_interest_payment = 50;
}

abbrev pub account : Name → ℕ → ℕ → Account
account name n m = record {
  name = name;
  active_challenged = false;
  last_active_proved = 0;
  balance = tme n;
  tme_savings_balance = tme 0;
  tsd = deposit m;
  tsd_savings = deposit 0;
  savings_withdraw_requests = 0;
  tme_reward_balance = tme 0;
  tsd_reward_balance = tsd 0;
}

abbrev pub start : Ledger
start = record {
  properties = record {
    head_block_number = 7;
    time = 50;
    current_supply = tme 100;
    virtual_supply = tme 100;
    current_tsd_supply = tsd 20;
    total_tme_fund_for_score = tme 0;
    tsd_interest_rate = 1000;
  };
  current_median_history = record { base = tsd 1; quote = tme 1 };
  accounts = account ann 40 0 ∷ account bob 60 20 ∷ account eve 0 0 ∷ [];
  escrows = [];
  savings_withdraws = [];
  limit_orders = [];
  convert_requests = [];
  next_convert_request_id = 0;
  next_escrow_object_id = 0;
  next_order_id = 0;
}

abbrev pub value_or : Result Ledger → Ledger → Ledger
value_or (err thrown) l = l
value_or (ok l) k = l
