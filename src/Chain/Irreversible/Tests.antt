-- ===== src/Chain/Irreversible/Tests.antt =====
-- Four witnesses, of whom three have confirmed block 90000 or a later one.
use wenode.Base.{
  ℕ, ◌≡◌, ◌≤◌, ◌⊎◌, ◌*◌, refl, Option, none, some, List, [], ◌∷◌, length, if◌then◌else◌, ok, arith,
}
use wenode.Protocol.Names.{Name, name_eq}
use wenode.Chain.Sample.{ann, bob, eve}
use wenode.Chain.Irreversible.{
  confirmed_by, insert, sort, nth_element, update_last_irreversible_block,
}
use wenode.Chain.Irreversible.Threshold.{at_least, update_last_irreversible_block-at_least}

abbrev last_confirmed : Name → Option ℕ
last_confirmed name =
    if name_eq name ann
    then some 90005
    else (if name_eq name bob then some 80000 else (if name_eq name eve then some 90000 else none))

abbrev schedule : List Name
schedule = ann ∷ bob ∷ eve ∷ ann ∷ []

advanced : update_last_irreversible_block last_confirmed schedule 90010 85000 ≡ ok 90000
unfolding update_last_irreversible_block confirmed_by nth_element sort insert name_eq
advanced = refl

update_last_irreversible_block-at_least_example :
    (85000 ≤ 90000)
    × ((◌≡◌ {A = ℕ} 90000 85000)
        ⊎ ((confirmed : List ℕ) × (confirmed_by last_confirmed schedule ≡ ok confirmed)
            × (3 * length confirmed ≤ 4 * at_least 90000 confirmed)))
update_last_irreversible_block-at_least_example =
    update_last_irreversible_block-at_least last_confirmed schedule 90010 85000 (omega arith)
      advanced
