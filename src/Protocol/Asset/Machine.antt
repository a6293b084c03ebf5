-- ===== src/Protocol/Asset/Machine.antt =====
-- Arithmetic that the interfaces of fc's numbers hold of: unsigned numbers of 128 bits that wrap
-- around, and signed ones of 64 bits that refuse a result out of range. For runs on concrete inputs.
use wenode.Base.{
  ℕ, ◌+◌, ◌-◌, ◌*◌, ◌/◌, ◌%◌, ◌^◌, ◌≡◌, refl, ltb, if◌then◌else◌, Bool-cases, inl, inr, Result, ok,
  err, fc_assert, arith,
}
use wenode.Base.Int.{ℤ, pos, negsuc, ◌+ℤ◌, ◌-ℤ◌, ◌*ℤ◌}
use wenode.Protocol.Asset.{UInt128, SafeInt}

abbrev wide_of_int64 : ℤ → ℕ
wide_of_int64 (pos n) = n
wide_of_int64 (negsuc n) = 2 ^ 128 - n - 1

-- Unsigned numbers of 128 bits that wrap around.
abbrev pub wrapping : UInt128
wrapping = record {
  of_int64 = wide_of_int64;
  plus = λ a b. (a + b) % 2 ^ 128;
  times = λ a b. a * b % 2 ^ 128;
  divide = λ a b. a / b;
  high = λ a. a / 2 ^ 64;
  to_share = λ n. if ltb n (2 ^ 63) then pos n else negsuc (2 ^ 64 - n - 1);
  of_int64-pos = λ n l. refl;
  times-exact = λ a b l. omega arith;
  divide-exact = λ a b l. refl;
  high-eq = λ a. refl;
  to_share-pos = λ n l. ground arith;
}

unfoldable pub in_range : ℤ → Result ℤ
in_range (pos n) = if ltb n (2 ^ 63) then ok (pos n) else err fc_assert
in_range (negsuc n) = if ltb n (2 ^ 63) then ok (negsuc n) else err fc_assert

pub in_range-ok : (a : ℤ) {c : ℤ} → in_range a ≡ ok c → c ≡ a
unfolding in_range
in_range-ok (pos n) h = elim (Bool-cases (ltb n (2 ^ 63))) [
  | inl small ↦ (let h' = rw small at h in cc)
  | inr large ↦ (let h' = rw large at h in cc)
]
in_range-ok (negsuc n) h = elim (Bool-cases (ltb n (2 ^ 63))) [
  | inl small ↦ (let h' = rw small at h in cc)
  | inr large ↦ (let h' = rw large at h in cc)
]

abbrev pub checked : SafeInt
checked = record {
  add = λ a b. in_range (a +ℤ b);
  sub = λ a b. in_range (a -ℤ b);
  neg = λ a. in_range (pos 0 -ℤ a);
  mul = λ a b. in_range (a *ℤ b);
  add-ok = λ a b h. in_range-ok (a +ℤ b) h;
  sub-ok = λ a b h. in_range-ok (a -ℤ b) h;
  neg-ok = λ a h. in_range-ok (pos 0 -ℤ a) h;
}
