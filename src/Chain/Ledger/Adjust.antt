-- ===== src/Chain/Ledger/Adjust.antt =====
-- What `adjust_balance` and the functions beside it do to the books: all that enters an account is
-- held in excess of the supply, and interest is in the supply.
use wenode.Base.{Bool, false, not, if◌then◌else◌, ℕ, ◌≡◌, refl, ◌&&◌, ltb, ◌==◌, ok, fc_assert}
use wenode.Base.Returns.{Returns, threw, gives, follows, after, after_assert, after_if}
use wenode.Base.Int.{ℤ, pos, parts, ◌+ℤ◌, ◌-ℤ◌, int_laws, ltb_ℤ, eqb_ℤ}
use wenode.Protocol.Names.{Name}
use wenode.Protocol.Asset.{
  Asset, Price, SafeInt, UInt128, add_asset, negate_asset, asset_ge, asset_times_price,
}
use wenode.Protocol.Operations.{symbol_coin, symbol_usd, percent_100}
use wenode.Chain.Ledger.{
  Deposit, Properties, Ledger, get_account, pay_interest, accrue, adjust_balance, seconds_per_year,
  tsd_interest_compound_interval_sec, adjust_savings_balance, adjust_reward_balance, adjust_supply,
  pay_fee, seven_days_of_blocks,
}
use wenode.Chain.Ledger.Held.{
  amount_in, account_holds, supply, excess, locked, Moved, put_account-Moved, Put, put, Put-Moved,
  add_asset-amount_in,
}

raise :
    (b t u f i b' u' : ℤ) → b' ≡ b +ℤ i → u' ≡ u +ℤ i → b' -ℤ (t +ℤ u' -ℤ f) ≡ b -ℤ (t +ℤ u -ℤ f)
raise b t u f i b' u' e h = omega (int_laws, parts e, parts h)

module _ (wide : UInt128) (safe : SafeInt) (s : ℕ) where
  -- A deposit with its account's part of the supply.
  Even : Properties → Deposit → Deposit × Properties → Type 0
  Even p d r =
      (amount_in s r.0.balance -ℤ supply s r.1 ≡ amount_in s d.balance -ℤ supply s p)
      × (r.1.time ≡ p.time)

  pay_interest-Even :
      (median : Price) (p : Properties) (n : ℕ) (d : Deposit)
      → Returns (Even p d) (pay_interest wide safe median p n d)
  unfolding pay_interest supply Even
  pay_interest-Even median p n d =
      let interest =
        wide.divide (wide.times (wide.divide n seconds_per_year) p.tsd_interest_rate) percent_100 in
      let paid : Asset = record { amount = wide.to_share interest; symbol = symbol_usd } in
      after (add_asset safe d.balance paid) _ (λ balance credited.
        after (add_asset safe p.current_tsd_supply paid) _ (λ current issued.
          after (asset_times_price wide paid median) _ (λ value valued.
            after (add_asset safe p.virtual_supply value) _ (λ virtual counted. gives _ (
              raise (amount_in s d.balance) (amount_in s p.current_supply)
                  (amount_in s p.current_tsd_supply) (amount_in s p.total_tme_fund_for_score)
                  (amount_in s paid) (amount_in s balance) (amount_in s current)
                  (add_asset-amount_in safe s d.balance paid credited)
                  (add_asset-amount_in safe s p.current_tsd_supply paid issued),
              refl,
            )))))

  accrue-Even :
      (median : Price) (p : Properties) (d : Deposit)
      → Returns (Even p d) (accrue wide safe median p d)
  unfolding accrue Even
  accrue-Even median p d =
      let elapsed = pos p.time -ℤ pos d.seconds_last_update in
      let seconds =
        wide.plus d.seconds (wide.times (wide.of_int64 d.balance.amount) (wide.of_int64 elapsed)) in
      let since_payment = pos p.time -ℤ pos d.last_interest_payment in
      after_if (d.seconds_last_update == p.time) _ _ (λ e. gives _ (refl, refl))
        (λ e.
          after_if (ltb 0 seconds && ltb_ℤ (pos tsd_interest_compound_interval_sec) since_payment) _
            _ (λ f. pay_interest-Even median p seconds d) (λ f. gives _ (refl, refl)))

  pub adjust_balance-Put :
      (name : Name) (delta : Asset) (l : Ledger)
      → Returns (Put s name (amount_in s delta) l) (adjust_balance wide safe name delta l)
  unfolding adjust_balance account_holds Even
  adjust_balance-Put name delta l = after (get_account name l) _ (λ a found.
      after_if (delta.symbol == symbol_coin) _ _
        (λ coin. after (add_asset safe a.balance delta) _ (λ balance added.
          let credit = add_asset-amount_in safe s a.balance delta added in
          gives _ (
            put a (record a { balance = balance }) l.properties found refl
              (omega (int_laws, parts credit)) refl)))
        (λ not_coin.
          after_if (delta.symbol == symbol_usd) _ _
            (λ usd.
              after (accrue wide safe l.current_median_history l.properties a.tsd) _ (λ r accrued.
                after (add_asset safe r.0.balance delta) _ (λ balance added.
                  let credit = add_asset-amount_in safe s r.0.balance delta added in
                  let (interest, same_time) =
                    (accrue-Even l.current_median_history l.properties a.tsd).returned accrued in
                  gives _ (
                    put a (record a { tsd = record (r.0) { balance = balance } }) (r.1) found refl
                      (omega (int_laws, parts credit, parts interest)) same_time))))
            (λ other. threw fc_assert)))

  pub adjust_balance-Moved :
      (name : Name) (delta : Asset) (l : Ledger)
      → Returns (Moved s (amount_in s delta) l) (adjust_balance wide safe name delta l)
  adjust_balance-Moved name delta l =
      follows (adjust_balance-Put name delta l) (λ l'. Put-Moved s name (amount_in s delta) l l')

  pub adjust_savings_balance-Moved :
      (name : Name) (delta : Asset) (l : Ledger)
      → Returns (Moved s (amount_in s delta) l) (adjust_savings_balance wide safe name delta l)
  unfolding adjust_savings_balance account_holds Even
  adjust_savings_balance-Moved name delta l = after (get_account name l) _ (λ a found.
      after_if (delta.symbol == symbol_coin) _ _
        (λ coin. after (add_asset safe a.tme_savings_balance delta) _ (λ balance added.
          let credit = add_asset-amount_in safe s a.tme_savings_balance delta added in
          gives _ (
            put_account-Moved s name l a (record a { tme_savings_balance = balance }) l.properties
              (amount_in s delta) found (omega (int_laws, parts credit)) refl)))
        (λ not_coin.
          after_if (delta.symbol == symbol_usd) _ _
            (λ usd.
              after (accrue wide safe l.current_median_history l.properties a.tsd_savings) _
                (λ r accrued. after (add_asset safe r.0.balance delta) _ (λ balance added.
                  let credit = add_asset-amount_in safe s r.0.balance delta added in
                  let (interest, same_time) =
                    (accrue-Even l.current_median_history l.properties a.tsd_savings).returned
                      accrued in
                  gives _ (
                    put_account-Moved s name l a
                      (record a { tsd_savings = record (r.0) { balance = balance } }) (r.1)
                      (amount_in s delta) found (omega (int_laws, parts credit, parts interest))
                      same_time))))
            (λ other. threw fc_assert)))

  pub adjust_reward_balance-Moved :
      (name : Name) (delta : Asset) (l : Ledger)
      → Returns (Moved s (amount_in s delta) l) (adjust_reward_balance wide safe name delta l)
  unfolding adjust_reward_balance account_holds
  adjust_reward_balance-Moved name delta l = after (get_account name l) _ (λ a found.
      after_if (delta.symbol == symbol_coin) _ _
        (λ coin. after (add_asset safe a.tme_reward_balance delta) _ (λ balance added.
          let credit = add_asset-amount_in safe s a.tme_reward_balance delta added in
          gives _ (
            put_account-Moved s name l a (record a { tme_reward_balance = balance }) l.properties
              (amount_in s delta) found (omega (int_laws, parts credit)) refl)))
        (λ not_coin.
          after_if (delta.symbol == symbol_usd) _ _
            (λ usd. after (add_asset safe a.tsd_reward_balance delta) _ (λ balance added.
              let credit = add_asset-amount_in safe s a.tsd_reward_balance delta added in
              gives _ (
                put_account-Moved s name l a (record a { tsd_reward_balance = balance })
                  l.properties (amount_in s delta) found (omega (int_laws, parts credit)) refl)))
            (λ other. threw fc_assert)))

  -- Where `adjust_balance` does not throw, what is held in excess of the supply, less the fund for
  -- SCORE, of any currency, grows by the change: interest that it pays on the way is in the supply.
  pub adjust_balance-excess :
      (name : Name) (delta : Asset) (l : Ledger) {l' : Ledger}
      → adjust_balance wide safe name delta l ≡ ok l'
      → excess s l' ≡ excess s l +ℤ amount_in s delta
  adjust_balance-excess name delta l done =
      ((adjust_balance-Moved name delta l).returned done).moved

  pub properties-excess :
      (l : Ledger) (p : Properties) (d : ℤ)
      → supply s p ≡ supply s l.properties +ℤ d
      → excess s (record l { properties = p }) ≡ excess s l -ℤ d
  unfolding excess locked
  properties-excess l p d h = omega (int_laws, parts h)

  pub adjust_supply-excess :
      (delta : Asset) (adjust_fund : Bool) (l : Ledger)
      → Returns
          (λ l'. excess s l' ≡ excess s l -ℤ amount_in s delta)
          (adjust_supply wide safe delta adjust_fund l)
  unfolding adjust_supply supply
  adjust_supply-excess delta adjust_fund l =
      let p = l.properties in
      let adjusting = adjust_fund && not (ltb p.head_block_number seven_days_of_blocks) in
      after_if (delta.symbol == symbol_coin) _ _
        (λ coin.
          after
            (if adjusting && ltb_ℤ (pos 0) delta.amount
              then safe.mul delta.amount (pos 9)
              else ok (pos 0))
            _
            (λ n ninefold.
              let new_score : Asset = record { amount = n; symbol = symbol_coin } in
              after (add_asset safe delta new_score) _ (λ created one.
                after (add_asset safe p.current_supply created) _ (λ current two.
                  after (add_asset safe p.virtual_supply created) _ (λ virtual three.
                    after (add_asset safe p.total_tme_fund_for_score new_score) _ (λ fund four.
                      let a = add_asset-amount_in safe s delta new_score one in
                      let b = add_asset-amount_in safe s p.current_supply created two in
                      let c =
                        add_asset-amount_in safe s p.total_tme_fund_for_score new_score four in
                      gives _ (
                        properties-excess l _ (amount_in s delta)
                          (omega (int_laws, parts a, parts b, parts c)))))))))
        (λ not_coin.
          after_if (delta.symbol == symbol_usd) _ _
            (λ usd. after (add_asset safe p.current_tsd_supply delta) _ (λ current one.
              after (asset_times_price wide current l.current_median_history) _ (λ value two.
                after (add_asset safe value p.current_supply) _ (λ virtual three.
                  let a = add_asset-amount_in safe s p.current_tsd_supply delta one in
                  gives _
                    (properties-excess l _ (amount_in s delta) (omega (int_laws, parts a)))))))
            (λ other. threw fc_assert))

  -- A fee that is paid leaves the account and the supply alike.
  pub pay_fee-excess :
      (name : Name) (fee : Asset) (l : Ledger)
      → Returns (λ l'. excess s l' ≡ excess s l) (pay_fee wide safe name fee l)
  unfolding pay_fee
  pay_fee-excess name fee l = after_assert (not (ltb_ℤ fee.amount (pos 0))) _ (λ h.
      after_if (eqb_ℤ fee.amount (pos 0)) _ _ (λ nothing. gives _ refl)
        (λ some_fee. after (get_account name l) _ (λ a found.
          after (asset_ge a.balance fee) _ (λ r compared. after_assert r _ (λ enough.
            after (negate_asset safe fee) _ (λ minus negated.
              after (adjust_balance wide safe name minus l) _ (λ l₁ paid.
                follows (adjust_supply-excess minus false l₁) (λ l' burnt.
                  let one = adjust_balance-excess name minus l paid in
                  omega (int_laws, parts one, parts burnt)))))))))
