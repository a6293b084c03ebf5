-- ===== src/Chain/Slots.antt =====
-- The clock of block production (libraries/chain/database.cpp): slots and their times, the witness
-- scheduled for a slot, `validate_block_header`, and the dynamic global properties that
-- `update_global_dynamic_data` sets. Left out of the last: the witnesses that missed their slots
-- and the bound on the undo history. Times, slots and numbers are 32-bit, the absolute slot is 64-bit.
pub mod Times
mod Tests
use wenode.Base.{
  ℕ, zero, suc, ◌+◌, ◌-◌, ◌*◌, ◌/◌, ◌%◌, ◌^◌, Bool, ◌||◌, not, List, ltb, ◌==◌, if◌then◌else◌,
  get_elem?, Option, none, some, Result, ok, err, assert, or_throw, out_of_range, undefined, ◌>>=◌,
  ◌>>◌,
}
use wenode.Protocol.Names.{Name, name_eq}

abbrev pub block_interval : ℕ
block_interval = 1

-- The properties that the code reads or writes, with the witness schedule.
pub record Clock : Type 0 where
  pub head_block_number : ℕ
  pub head_block_id : ℕ
  pub time : ℕ
  pub current_aslot : ℕ
  pub recent_slots_filled : ℕ
  pub participation_count : ℕ
  pub current_shuffled_witnesses : List Name
  pub num_scheduled_witnesses : ℕ

pub record Header : Type 0 where
  pub id : ℕ
  pub num : ℕ
  pub previous : ℕ
  pub timestamp : ℕ
  pub witness : Name

unfoldable pub get_slot_time : ℕ → Clock → ℕ
get_slot_time slot_num c =
    if slot_num == 0
    then 0
    else (if c.head_block_number == 0
        then (c.time + slot_num * block_interval) % 2 ^ 32
        else (c.time / block_interval * block_interval + slot_num * block_interval) % 2 ^ 32)

unfoldable pub get_slot_at_time : ℕ → Clock → ℕ
unfolding get_slot_time
get_slot_at_time when c =
    if ltb when (get_slot_time 1 c)
    then 0
    else ((when - get_slot_time 1 c) / block_interval + 1) % 2 ^ 32

-- An index into the array; a schedule without witnesses divides by zero.
unfoldable pub get_scheduled_witness : ℕ → Clock → Result Name
get_scheduled_witness slot_num c = do
  let current_aslot = (c.current_aslot + slot_num) % 2 ^ 64
  if c.num_scheduled_witnesses == 0
      then err undefined
      else or_throw
          (get_elem? c.current_shuffled_witnesses (current_aslot % c.num_scheduled_witnesses))
          undefined

module _ (is_witness : Name → Bool) (validate_signee : Header → Bool) where
  unfoldable pub validate_block_header : Bool → Bool → Header → Clock → Result (Unit {0})
  validate_block_header skip_witness_signature skip_schedule_check b c = do
    assert (c.head_block_id == b.previous)
    assert (ltb c.time b.timestamp)
    or_throw (if is_witness b.witness then some tt else none) out_of_range
    assert (skip_witness_signature || validate_signee b)
    if skip_schedule_check then ok tt else (do
      let slot_num = get_slot_at_time b.timestamp c
      assert (ltb 0 slot_num)
      scheduled ← get_scheduled_witness slot_num c
      assert (name_eq b.witness scheduled))

-- One slot enters the 128 that are looked back on: `filled` is 1 for the block's own. The count
-- is a byte.
unfoldable pub fill_slot : ℕ → ℕ × ℕ → ℕ × ℕ
fill_slot filled r = ((2 * r.0) % 2 ^ 128 + filled, (r.1 + 256 - r.0 / 2 ^ 127 + filled) % 256)

unfoldable pub miss_slots : ℕ → ℕ × ℕ → ℕ × ℕ
miss_slots zero r = r
miss_slots (suc n) r = miss_slots n (fill_slot 0 r)

unfoldable pub missed_blocks : Header → Clock → ℕ
missed_blocks b c = if c.time == 0 then 0 else get_slot_at_time b.timestamp c - 1

unfoldable pub update_global_dynamic_data : Header → Clock → Clock
unfolding fill_slot miss_slots missed_blocks
update_global_dynamic_data b c =
    let missed = missed_blocks b c in
    let slots = miss_slots missed (fill_slot 1 (c.recent_slots_filled, c.participation_count)) in
    record c {
      head_block_number = b.num;
      head_block_id = b.id;
      time = b.timestamp;
      current_aslot = (c.current_aslot + (missed + 1)) % 2 ^ 64;
      recent_slots_filled = slots.0;
      participation_count = slots.1;
    }
