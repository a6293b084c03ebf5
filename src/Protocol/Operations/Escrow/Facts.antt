-- ===== src/Protocol/Operations/Escrow/Facts.antt =====
-- What the checks of the escrow operations keep apart.
use wenode.Base.{ℕ, ◌≡◌, ◌≢◌, sym, ◌∙◌, subst, Bool, true, false, List, ok, arith, ◌⊎◌, inl, inr}
use wenode.Protocol.Names.{Name, name_eq, name_eq→≡, name_eq_refl}
use wenode.Protocol.Operations.{validate_account_name}
use wenode.Protocol.Operations.Escrow.{
  EscrowTransfer, EscrowApprove, EscrowDispute, EscrowRelease, validate_escrow_transfer,
  validate_escrow_approve, validate_escrow_dispute, validate_escrow_release,
}

pub name_eq-false : (s t : Name) → name_eq s t ≡ false → s ≢ t
name_eq-false s t e same = absurd (cc (e, subst (λ z. name_eq s z ≡ true) same (name_eq_refl s)))

third_party :
    (is_utf8 is_valid_json : List ℕ → Bool) (o : EscrowTransfer)
    → validate_escrow_transfer is_utf8 is_valid_json o ≡ ok tt
    → (name_eq o.from o.agent ≡ false) × (name_eq o.to o.agent ≡ false)
unfolding validate_escrow_transfer validate_account_name
third_party is_utf8 is_valid_json o v = ground arith

disputer :
    (o : EscrowDispute) → validate_escrow_dispute o ≡ ok tt → (o.who ≡ o.from) ⊎ (o.who ≡ o.to)
unfolding validate_escrow_dispute validate_account_name
disputer o v = ground (arith, name_eq→≡ o.who o.from, name_eq→≡ o.who o.to)

receiver :
    (o : EscrowRelease)
    → validate_escrow_release o ≡ ok tt
    → (o.receiver ≡ o.from) ⊎ (o.receiver ≡ o.to)
unfolding validate_escrow_release validate_account_name
receiver o v = ground (arith, name_eq→≡ o.receiver o.from, name_eq→≡ o.receiver o.to)

approver :
    (o : EscrowApprove) → validate_escrow_approve o ≡ ok tt → (o.who ≡ o.to) ⊎ (o.who ≡ o.agent)
unfolding validate_escrow_approve validate_account_name
approver o v = ground (arith, name_eq→≡ o.who o.to, name_eq→≡ o.who o.agent)

-- Where the checks of a transfer into escrow pass, and those of an approval, a dispute and a
-- release that name the same three parties, with the sender not also the recipient, the agent is
-- a third party throughout: the sender does not approve, the agent does not raise the dispute, and
-- the money is not released to the agent.
pub agent-third_party :
    (is_utf8 is_valid_json : List ℕ → Bool) (o : EscrowTransfer) (a : EscrowApprove)
    (d : EscrowDispute) (r : EscrowRelease)
    → (a.from ≡ o.from) × (a.to ≡ o.to) × (a.agent ≡ o.agent)
    → (d.from ≡ o.from) × (d.to ≡ o.to) × (d.agent ≡ o.agent)
    → (r.from ≡ o.from) × (r.to ≡ o.to) × (r.agent ≡ o.agent)
    → validate_escrow_transfer is_utf8 is_valid_json o ≡ ok tt
    → validate_escrow_approve a ≡ ok tt
    → validate_escrow_dispute d ≡ ok tt
    → validate_escrow_release r ≡ ok tt
    → o.from ≢ o.to
    → (a.who ≢ o.from) × (d.who ≢ o.agent) × (r.receiver ≢ o.agent)
agent-third_party is_utf8 is_valid_json o a d r ea ed er vo va vd vr apart =
    let (f, t) = third_party is_utf8 is_valid_json o vo in
    let not_from = name_eq-false o.from o.agent f in
    let not_to = name_eq-false o.to o.agent t in
    (
      λ w. elim (approver a va) [
        | inl to ↦ apart (sym w ∙ to ∙ ea.1)
        | inr agent ↦ not_from (sym w ∙ agent ∙ ea.2)
      ],
      λ w. elim (disputer d vd) [
        | inl from ↦ not_from (sym (from ∙ ed.0) ∙ w)
        | inr to ↦ not_to (sym (to ∙ ed.1) ∙ w)
      ],
      λ w. elim (receiver r vr) [
        | inl from ↦ not_from (sym (from ∙ er.0) ∙ w)
        | inr to ↦ not_to (sym (to ∙ er.1) ∙ w)
      ],
    )
