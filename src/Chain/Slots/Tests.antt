-- ===== src/Chain/Slots/Tests.antt =====
-- A clock at time 1000 with three witnesses, and the block of the fourth slot from there.
use wenode.Base.{◌≡◌, refl, Bool, true, false, [], ◌∷◌, ok, arith}
use wenode.Protocol.Names.{Name, name_eq}
use wenode.Chain.Sample.{ann, bob, eve}
use wenode.Chain.Slots.{
  Clock, Header, get_slot_time, get_slot_at_time, get_scheduled_witness, validate_block_header,
  update_global_dynamic_data,
}
use wenode.Chain.Slots.Times.{
  get_slot_at_time-get_slot_time, get_slot_time-get_slot_at_time, validate_block_header-one_witness,
  update_global_dynamic_data-get_scheduled_witness,
}

abbrev clock : Clock
clock = record {
  head_block_number = 20;
  head_block_id = 77;
  time = 1000;
  current_aslot = 31;
  recent_slots_filled = 7;
  participation_count = 3;
  current_shuffled_witnesses = ann ∷ bob ∷ eve ∷ [];
  num_scheduled_witnesses = 3;
}

abbrev block : Header
block = record { id = 78; num = 21; previous = 77; timestamp = 1004; witness = eve }

abbrev anyone : Name → Bool
anyone name = true

abbrev signed : Header → Bool
signed b = true

get_slot_at_time-get_slot_time_example : get_slot_at_time (get_slot_time 4 clock) clock ≡ 4
get_slot_at_time-get_slot_time_example =
    get_slot_at_time-get_slot_time 4 clock (omega arith) (omega arith)

get_slot_time-get_slot_at_time_example : get_slot_time (get_slot_at_time 1004 clock) clock ≡ 1004
get_slot_time-get_slot_at_time_example =
    get_slot_time-get_slot_at_time 1004 clock (omega arith) (omega arith)

valid : validate_block_header anyone signed false false block clock ≡ ok tt
unfolding validate_block_header get_slot_at_time get_slot_time get_scheduled_witness name_eq
valid = refl

abbrev other_block : Header
other_block = record block { id = 79 }

also_valid : validate_block_header anyone signed false false other_block clock ≡ ok tt
unfolding validate_block_header get_slot_at_time get_slot_time get_scheduled_witness name_eq
also_valid = refl

validate_block_header-one_witness_example : block.witness ≡ other_block.witness
validate_block_header-one_witness_example =
    validate_block_header-one_witness anyone signed false false block other_block clock valid
      also_valid refl

update_global_dynamic_data-get_scheduled_witness_example :
    get_scheduled_witness
      (get_slot_at_time 1010 (update_global_dynamic_data block clock))
      (update_global_dynamic_data block clock)
    ≡ get_scheduled_witness (get_slot_at_time 1010 clock) clock
update_global_dynamic_data-get_scheduled_witness_example =
    update_global_dynamic_data-get_scheduled_witness block clock 1010 (omega arith) (omega arith)
      (omega arith) (omega arith)
