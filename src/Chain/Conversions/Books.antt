-- ===== src/Chain/Conversions/Books.antt =====
-- Conversions neither make nor lose money: what is issued and what is taken are in the supplies.
use wenode.Base.{
  ℕ, suc, ◌≡◌, refl, sym, ◌∙◌, ap, Bool, true, not, some, List, [], ◌∷◌, ltb, is_some, ok,
  logic_error, assert_or, if◌then◌else◌, arith,
}
use wenode.Base.Returns.{Returns, gives, follows, after, after_assert, after_if}
use wenode.Base.Int.{ℤ, pos, parts, ◌+ℤ◌, ◌-ℤ◌, int_laws, +ℤ_zero}
use wenode.Protocol.Asset.{
  Asset, SafeInt, UInt128, add_asset, sub_asset, negate_asset, asset_times_price,
}
use wenode.Protocol.Operations.{symbol_coin, symbol_usd}
use wenode.Protocol.Operations.Market.{Convert}
use wenode.Chain.Table.{
  find_by, erase_by, insert_by, total, total-erase_by, total-insert_by, find_by-head, erase_by-head,
}
use wenode.Chain.Ledger.{
  ConvertRequest, Ledger, head_block_time, get_account, adjust_balance, get_balance, assert_ge,
}
use wenode.Chain.Ledger.Held.{
  excess, locked, supply, amount_in, convert_holds, Kept, Kept-refl, add_asset-amount_in,
  sub_asset-amount_in, negate_asset-amount_in, zero-amount_in,
}
use wenode.Chain.Ledger.Adjust.{adjust_balance-Moved, properties-excess}
use wenode.Chain.Conversions.{
  converts_before, is_request, is_request_of, remove_request, create_request, is_null, convert,
  convert_from, process_conversions, update_virtual_supply, no_usd, no_coin,
}

module _ (s : ℕ) where
  requests-excess :
      (l : Ledger) (cs : List ConvertRequest) (n : ℕ) (x y : ℤ)
      → total (convert_holds s) cs +ℤ x ≡ total (convert_holds s) l.convert_requests +ℤ y
      → excess s (record l { convert_requests = cs; next_convert_request_id = n }) +ℤ x
        ≡ excess s l +ℤ y
  unfolding excess locked
  requests-excess l cs n x y h = omega (int_laws, parts h)

  create_request-excess :
      (o : Convert) (date : ℕ) (l : Ledger)
      → Returns
          (λ l'. (excess s l' ≡ excess s l +ℤ amount_in s o.amount) × (l'.escrows ≡ l.escrows))
          (create_request o date l)
  unfolding create_request convert_holds
  create_request-excess o date l =
      after
        (assert_or (not (is_some (find_by (is_request_of o.owner o.request_id) l.convert_requests)))
          logic_error)
        _
        (λ u unique.
          let c : ConvertRequest = record {
            id = l.next_convert_request_id;
            owner = o.owner;
            request_id = o.request_id;
            amount = o.amount;
            conversion_date = date;
          } in
          let cs = insert_by converts_before c l.convert_requests in
          let n = suc l.next_convert_request_id in
          let sum = total-insert_by converts_before (convert_holds s) c l.convert_requests in
          let one =
            requests-excess l cs n (pos 0) (amount_in s o.amount) (omega (int_laws, parts sum)) in
          gives _ (omega (int_laws, parts one), refl))

  remove_request-excess :
      (id : ℕ) (c : ConvertRequest) (l : Ledger)
      → find_by (is_request id) l.convert_requests ≡ some c
      → excess s (remove_request id l) +ℤ convert_holds s c ≡ excess s l +ℤ pos 0
  unfolding remove_request
  remove_request-excess id c l found =
      requests-excess l _ l.next_convert_request_id (convert_holds s c) (pos 0) (
        total-erase_by (is_request id) (convert_holds s) c l.convert_requests found
        ∙ sym (+ℤ_zero (total (convert_holds s) l.convert_requests)))

it_is_first : (c : ConvertRequest) → is_request c.id c ≡ true
unfolding is_request
it_is_first c = ground arith

module _ (wide : UInt128) (safe : SafeInt) (s : ℕ) where
  pub convert-Kept :
      (hf : Bool) (o : Convert) (l : Ledger) → Returns (Kept s l) (convert wide safe hf o l)
  unfolding convert
  convert-Kept hf o l = after (get_account o.owner l) _ (λ a found.
      after (get_balance a o.amount.symbol) _ (λ balance has.
        after (assert_ge balance o.amount) _ (λ u enough.
          after (negate_asset safe o.amount) _ (λ minus negated.
            after (adjust_balance wide safe o.owner minus l) _ (λ l₁ paid.
              after_assert (not (is_null wide safe l₁.current_median_history)) _ (λ fed.
                follows (create_request-excess s o _ l₁) (λ l₂ created.
                  let one = (adjust_balance-Moved wide safe s o.owner minus l).returned paid in
                  let sum = negate_asset-amount_in safe s o.amount negated in
                  record {
                    kept = omega (int_laws, parts one.moved, parts (created.0), parts sum);
                    same_escrows = created.1 ∙ one.same_escrows;
                  })))))))

  -- What the loop keeps: the sums run with the excess.
  convert_from-excess :
      (cs : List ConvertRequest) (l : Ledger) (net_tsd net_tme : Asset)
      → l.convert_requests ≡ cs
      → Returns
          (λ r.
            (excess s (r.0) +ℤ amount_in s (r.1) +ℤ amount_in s net_tme
              ≡ excess s l +ℤ amount_in s net_tsd +ℤ amount_in s (r.2))
            × (r.0.escrows ≡ l.escrows))
          (convert_from wide safe cs l net_tsd net_tme)
  unfolding convert_from convert_holds remove_request
  convert_from-excess [] l net_tsd net_tme listed = gives _ (refl, refl)
  convert_from-excess (c ∷ cs) l net_tsd net_tme listed =
      after_if (ltb (head_block_time l) c.conversion_date) _ _ (λ early. gives _ (refl, refl))
        (λ due. after (get_account c.owner l) _ (λ user found_user.
          after (asset_times_price wide c.amount l.current_median_history) _ (λ issued valued.
            after (adjust_balance wide safe c.owner issued l) _ (λ l₁ paid.
              after (add_asset safe net_tsd c.amount) _ (λ taken took.
                after (add_asset safe net_tme issued) _ (λ made summed.
                  let one = (adjust_balance-Moved wide safe s c.owner issued l).returned paid in
                  let listed₁ = one.same_converts ∙ listed in
                  let test = is_request c.id in
                  let found = ap (find_by test) listed₁ ∙ find_by-head test c cs (it_is_first c) in
                  let gone = remove_request-excess s c.id c l₁ found in
                  let rest = ap (erase_by test) listed₁ ∙ erase_by-head test c cs (it_is_first c) in
                  let a = add_asset-amount_in safe s net_tsd c.amount took in
                  let b = add_asset-amount_in safe s net_tme issued summed in
                  follows (convert_from-excess cs (remove_request c.id l₁) taken made rest) (λ r h.
                    (
                      omega (int_laws, parts one.moved, parts gone, parts a, parts b, parts (h.0)),
                      h.1 ∙ one.same_escrows,
                    ))))))))

  pub process_conversions-Kept : (l : Ledger) → Returns (Kept s l) (process_conversions wide safe l)
  unfolding process_conversions supply
  process_conversions-Kept l =
      after_if (is_null wide safe l.current_median_history) _ _ (λ unfed. gives _ (Kept-refl s l))
        (λ fed. after (convert_from wide safe l.convert_requests l no_usd no_coin) _ (λ r looped.
          let p = r.0.properties in
          after (add_asset safe p.current_supply (r.2)) _ (λ current one.
            after (sub_asset safe p.current_tsd_supply (r.1)) _ (λ tsd two.
              after (add_asset safe p.virtual_supply (r.2)) _ (λ virtual three.
                after (asset_times_price wide (r.1) (r.0.current_median_history)) _ (λ value four.
                  after (sub_asset safe virtual value) _ (λ virtual' five.
                    let loop =
                      (convert_from-excess l.convert_requests l no_usd no_coin refl).returned
                        looped in
                    let a = add_asset-amount_in safe s p.current_supply (r.2) one in
                    let b = sub_asset-amount_in safe s p.current_tsd_supply (r.1) two in
                    let none_tsd = zero-amount_in s symbol_usd in
                    let none_tme = zero-amount_in s symbol_coin in
                    let settled =
                      properties-excess wide safe s (r.0)
                        (record p {
                          current_supply = current;
                          current_tsd_supply = tsd;
                          virtual_supply = virtual';
                        })
                        (amount_in s (r.2) -ℤ amount_in s (r.1))
                        (omega (int_laws, parts a, parts b)) in
                    gives _ (record {
                      kept =
                          omega (
                            int_laws,
                            parts settled,
                            parts (loop.0),
                            parts none_tsd,
                            parts none_tme,
                          );
                      same_escrows = loop.1;
                    }))))))))

  pub update_virtual_supply-Kept :
      (l : Ledger) → Returns (Kept s l) (update_virtual_supply wide safe l)
  unfolding update_virtual_supply excess locked supply
  update_virtual_supply-Kept l =
      let p = l.properties in
      after
        (if is_null wide safe l.current_median_history
          then ok no_coin
          else asset_times_price wide p.current_tsd_supply l.current_median_history)
        _
        (λ value valued.
          after (add_asset safe p.current_supply value) _
            (λ virtual added. gives _ (record { kept = refl; same_escrows = refl })))
