-- ===== src/Chain/Slots/Times.antt =====
-- Slots and times are two views of one clock.
use wenode.Base.{
  ℕ, ◌+◌, ◌-◌, ◌%◌, ◌^◌, ◌<◌, ◌≡◌, sym, ◌∙◌, ap, Bool, false, ◌||◌, ltb, ◌==◌, if◌then◌else◌,
  assert-eq-ok, arith, none, some, ltb→lt, ok, err, or_throw, out_of_range, undefined, get_elem?,
}
use wenode.Base.Returns.{Returns, after, after_assert}
use wenode.Protocol.Names.{Name, name_eq, name_eq→≡}
use wenode.Chain.Slots.{
  Clock, Header, get_slot_time, get_slot_at_time, get_scheduled_witness, validate_block_header,
  missed_blocks, update_global_dynamic_data,
}

-- The slot at the time of a slot is that slot, within 32 bits.
pub get_slot_at_time-get_slot_time :
    (n : ℕ) (c : Clock) → 0 < n → c.time + n < 2 ^ 32 → get_slot_at_time (get_slot_time n c) c ≡ n
unfolding get_slot_at_time get_slot_time
get_slot_at_time-get_slot_time n c some_slot fits = ground (arith, some_slot, fits)

-- The time of the slot at a time after the head block is that time, within 32 bits.
pub get_slot_time-get_slot_at_time :
    (when : ℕ) (c : Clock)
    → c.time < when
    → when < 2 ^ 32
    → get_slot_time (get_slot_at_time when c) c ≡ when
unfolding get_slot_at_time get_slot_time
get_slot_time-get_slot_at_time when c later fits = ground (arith, later, fits)

-- A block that is valid, its witness checked against the schedule, is in a slot after that of the
-- head block, and of the witness that the schedule names for it.
pub record InSlot (b : Header) (c : Clock) : Type 0 where
  pub in_slot : 0 < get_slot_at_time b.timestamp c
  pub scheduled : get_scheduled_witness (get_slot_at_time b.timestamp c) c ≡ ok b.witness
  pub later : c.time < b.timestamp
  pub builds_on : b.previous ≡ c.head_block_id

module _ (is_witness : Name → Bool) (validate_signee : Header → Bool) where
  validate_block_header-InSlot' :
      (skip : Bool) (b : Header) (c : Clock)
      → Returns (λ u. InSlot b c) (validate_block_header is_witness validate_signee skip false b c)
  unfolding validate_block_header
  validate_block_header-InSlot' skip b c = after_assert (c.head_block_id == b.previous) _ (λ h.
      after_assert (ltb c.time b.timestamp) _ (λ k.
        after (or_throw (if is_witness b.witness then some tt else none) out_of_range) _ (λ u m.
          after_assert (skip || validate_signee b) _ (λ n.
            after_assert (ltb 0 (get_slot_at_time b.timestamp c)) _ (λ p.
              after (get_scheduled_witness (get_slot_at_time b.timestamp c) c) _ (λ name named.
                record {
                  returned = λ e. record {
                    in_slot = ltb→lt 0 (get_slot_at_time b.timestamp c) p;
                    scheduled =
                        named
                        ∙ ap ok (
                            sym
                              (name_eq→≡ b.witness name (assert-eq-ok (name_eq b.witness name) e)));
                    later = ltb→lt c.time b.timestamp k;
                    builds_on = ground (arith, h);
                  };
                }))))))

  pub validate_block_header-InSlot :
      (skip : Bool) (b : Header) (c : Clock)
      → validate_block_header is_witness validate_signee skip false b c ≡ ok tt
      → InSlot b c
  validate_block_header-InSlot skip b c valid =
      (validate_block_header-InSlot' skip b c).returned valid

  -- No two witnesses can have valid blocks for one time on one head block, with the check against
  -- the schedule on.
  pub validate_block_header-one_witness :
      (skip skip' : Bool) (b b' : Header) (c : Clock)
      → validate_block_header is_witness validate_signee skip false b c ≡ ok tt
      → validate_block_header is_witness validate_signee skip' false b' c ≡ ok tt
      → b.timestamp ≡ b'.timestamp
      → b.witness ≡ b'.witness
  validate_block_header-one_witness skip skip' b b' c valid valid' same_time =
      let one = (validate_block_header-InSlot skip b c valid).scheduled in
      let two = (validate_block_header-InSlot skip' b' c valid').scheduled in
      let slots = ap (λ t. get_scheduled_witness (get_slot_at_time t c) c) same_time in
      let names : ok b.witness ≡ ok b'.witness = sym one ∙ slots ∙ two in cc

get_slot_at_time-minus :
    (when : ℕ) (c : Clock) → c.time < when → when < 2 ^ 32 → get_slot_at_time when c ≡ when - c.time
unfolding get_slot_at_time get_slot_time
get_slot_at_time-minus when c later fits = ground (arith, later, fits)

missed_blocks-minus :
    (b : Header) (c : Clock)
    → 0 < c.time
    → c.time < b.timestamp
    → b.timestamp < 2 ^ 32
    → missed_blocks b c + 1 ≡ b.timestamp - c.time
unfolding missed_blocks
missed_blocks-minus b c started later fits =
    let slot = get_slot_at_time-minus b.timestamp c later fits in
    ground (arith, started, later, slot)

-- The absolute number of the slot at a time.
absolute : ℕ → Clock → ℕ
absolute when c = (c.current_aslot + get_slot_at_time when c) % 2 ^ 64

same_absolute :
    (b : Header) (c : Clock) (when : ℕ)
    → 0 < c.time
    → c.time < b.timestamp
    → b.timestamp < when
    → when < 2 ^ 32
    → absolute when (update_global_dynamic_data b c) ≡ absolute when c
unfolding update_global_dynamic_data absolute get_slot_at_time
same_absolute b c when started later later' fits =
    let missed = missed_blocks-minus b c started later (omega (arith, later', fits)) in
    let slot = get_slot_at_time-minus when c (omega (arith, later, later')) fits in
    let slot' = get_slot_at_time-minus when (update_global_dynamic_data b c) later' fits in
    rw (missed, slot, slot') (omega (arith, started, later, later', fits))

-- What update_global_dynamic_data makes of the head block's time and of the absolute slot together
-- leaves the witness that a given schedule names for a time the same, where the head block has a
-- time, the block is later than it, the time is later than the block, and times fit 32 bits. A new
-- schedule at the end of a round is a call of its own.
pub update_global_dynamic_data-get_scheduled_witness :
    (b : Header) (c : Clock) (when : ℕ)
    → 0 < c.time
    → c.time < b.timestamp
    → b.timestamp < when
    → when < 2 ^ 32
    → get_scheduled_witness
        (get_slot_at_time when (update_global_dynamic_data b c))
        (update_global_dynamic_data b c)
      ≡ get_scheduled_witness (get_slot_at_time when c) c
unfolding update_global_dynamic_data get_scheduled_witness absolute
update_global_dynamic_data-get_scheduled_witness b c when started later later' fits =
    ap
      (λ slot.
        if c.num_scheduled_witnesses == 0
        then err undefined
        else or_throw (get_elem? c.current_shuffled_witnesses (slot % c.num_scheduled_witnesses))
            undefined)
      (same_absolute b c when started later later' fits)
