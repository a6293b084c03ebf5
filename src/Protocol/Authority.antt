-- ===== src/Protocol/Authority.antt =====
-- libraries/protocol/authority.cpp: weighted authorities, and which account names are valid.
-- A key is a number, in the order of its map.
pub mod Grammar
mod Tests
use wenode.Base.{
  ℕ, suc, ◌+◌, ◌-◌, ◌%◌, ◌^◌, Bool, true, false, ◌&&◌, ◌||◌, not, Option, none, some, List, [], ◌∷◌,
  ltb, leb, ◌==◌, if◌then◌else◌, length, all, map, Dict, Result, ok, err, fc_assert, assert, ◌>>=◌,
  ◌>>◌,
}
use wenode.Protocol.Names.{Name, name_eq, assign}

pub record Authority : Type 0 where
  pub weight_threshold : ℕ
  pub account_auths : List (Name × ℕ)
  pub key_auths : Dict ℕ

-- The order of names, by their bytes.
unfoldable pub name_lt : Name → Name → Bool
name_lt s [] = false
name_lt [] (d ∷ t) = true
name_lt (c ∷ s) (d ∷ t) = ltb c d || (c == d && name_lt s t)

assign_name : Name → ℕ → List (Name × ℕ) → List (Name × ℕ)
unfolding name_lt name_eq
assign_name k w [] = (k, w) ∷ []
assign_name k w ((j, v) ∷ d) =
    let rest = assign_name k w d in
    if name_eq k j then (k, w) ∷ d else if name_lt k j then (k, w) ∷ (j, v) ∷ d else (j, v) ∷ rest

pub add_key_authority : ℕ → ℕ → Authority → Authority
unfolding assign
add_key_authority k w a = record a { key_auths = assign k w a.key_auths }

pub add_account_authority : Name → ℕ → Authority → Authority
unfolding assign_name
add_account_authority k w a = record a { account_auths = assign_name k w a.account_auths }

pub get_keys : Authority → List ℕ
get_keys a = map (λ e. e.0) a.key_auths

-- The sums are in uint64.
unfoldable pub add_weights : {A : Type 0} → List (A × ℕ) → ℕ → ℕ
add_weights [] sum = sum
add_weights ((k, w) ∷ d) sum = add_weights d ((sum + w) % 2 ^ 64)

unfoldable pub is_impossible : Authority → Bool
unfolding add_weights
is_impossible a = ltb (add_weights a.key_auths (add_weights a.account_auths 0)) a.weight_threshold

pub num_auths : Authority → ℕ
num_auths a = (length a.account_auths + length a.key_auths) % 2 ^ 32

pub clear : Authority → Authority
clear a = record a { account_auths = []; key_auths = [] }

abbrev pub min_account_name_length : ℕ
min_account_name_length = 3

abbrev pub max_account_name_length : ℕ
max_account_name_length = 16

unfoldable pub is_letter : ℕ → Bool
is_letter c = leb b'a' c && leb c b'z'

unfoldable pub is_letter_or_digit : ℕ → Bool
unfolding is_letter
is_letter_or_digit c = is_letter c || (leb b'0' c && leb c b'9')

unfoldable pub is_inner : ℕ → Bool
unfolding is_letter_or_digit
is_inner c = is_letter_or_digit c || c == b'-'

-- The bytes of a label but its first: those up to the last are inner ones.
unfoldable pub tail_ok : ℕ → Name → Bool
unfolding is_inner
tail_ok c [] = is_letter_or_digit c
tail_ok c (d ∷ s) = is_inner c && tail_ok d s

-- The tests on one label, `name[begin]` up to `name[end-1]`.
unfoldable pub label_ok : Name → Bool
unfolding is_letter tail_ok
label_ok [] = false
label_ok (c ∷ []) = false
label_ok (c ∷ d ∷ s) =
    not (ltb (length (c ∷ d ∷ s)) min_account_name_length) && is_letter c && tail_ok d s

-- `find_first_of( '.', begin )`: the label in front of the next dot, and the text behind it.
unfoldable pub split_label : Name → Name × Option Name
split_label [] = ([], none)
split_label (c ∷ s) =
    let rest = split_label s in if c == b'.' then ([], some s) else (c ∷ rest.0, rest.1)

-- The loop over the labels; `begin` is the text that is left, and shrinks in each round.
unfoldable pub labels_ok : ℕ → Name → Bool
unfolding label_ok split_label
labels_ok ℕ.zero s = false
labels_ok (suc fuel) s = elim (label_ok (split_label s).0) [
  | false ↦ false
  | true ↦ elim (split_label s).1 [ none ↦ true | some rest ↦ labels_ok fuel rest ]
]

unfoldable pub is_valid_account_name : Name → Bool
unfolding labels_ok
is_valid_account_name s =
    not (ltb (length s) min_account_name_length)
    && not (ltb max_account_name_length (length s))
    && labels_ok (suc (length s)) s

unfoldable pub validate_authority : Authority → Result (Unit {0})
unfolding is_valid_account_name
validate_authority a = assert (all (λ e. is_valid_account_name e.0) a.account_auths)

unfoldable pub account_auths_eq : List (Name × ℕ) → List (Name × ℕ) → Bool
unfolding name_eq
account_auths_eq [] [] = true
account_auths_eq [] (y ∷ ys) = false
account_auths_eq (x ∷ xs) [] = false
account_auths_eq (x ∷ xs) (y ∷ ys) = name_eq x.0 y.0 && x.1 == y.1 && account_auths_eq xs ys

unfoldable pub key_auths_eq : Dict ℕ → Dict ℕ → Bool
key_auths_eq [] [] = true
key_auths_eq [] (y ∷ ys) = false
key_auths_eq (x ∷ xs) [] = false
key_auths_eq (x ∷ xs) (y ∷ ys) = x.0 == y.0 && x.1 == y.1 && key_auths_eq xs ys

unfoldable pub authority_eq : Authority → Authority → Bool
unfolding account_auths_eq key_auths_eq
authority_eq a b =
    a.weight_threshold == b.weight_threshold
    && account_auths_eq a.account_auths b.account_auths
    && key_auths_eq a.key_auths b.key_auths
