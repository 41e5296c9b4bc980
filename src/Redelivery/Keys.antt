-- ===== src/Redelivery/Keys.antt =====
-- The counter keys: truncation, length and the two families, consumer.go.
use warren.Prelude.{
  ℕ, zero, suc, ◌+◌, ◌/◌, ◌%◌, ◌≤◌, ◌<◌, ◌≡◌, refl, ap, ◌⊎◌, inl, inr, true, false, List, [], ◌∷◌,
  ◌++◌, arith, leb, leb_iff, leb-false, Bool-cases, nat_Eq, string_Eq, length, take, drop,
  length-append, if_true, if_false,
}
use warren.Redelivery.{
  capped, starts_at, rune_boundary, truncate_at_rune_boundary, dlv_prefix, colon, decimal, key_of,
  counter_b_key_for_msg_id, counter_b_key_for_delivery_tag, or_key, batch_counter_b_key,
  max_msg_id_key_len, max_consumer_tag_key_len,
}

length-take_below : (n : ℕ) (s : List ℕ) → n ≤ length s → length (take n s) ≡ n
length-take_below zero s h = refl
length-take_below (suc n) [] h = absurd (omega arith)
length-take_below (suc n) (b ∷ s) h = omega (arith, length-take_below n s (omega arith))

take-drop : (n : ℕ) (s : List ℕ) → take n s ++ drop n s ≡ s
take-drop zero s = refl
take-drop (suc n) [] = refl
take-drop (suc n) (b ∷ s) = ap (λ t. b ∷ t) (take-drop n s)

rune_boundary-bound : (s : List ℕ) (n : ℕ) → rune_boundary s n ≤ n
unfolding rune_boundary
rune_boundary-bound s zero = omega arith
rune_boundary-bound s (suc n) = ground (arith, rune_boundary-bound s n)

rune_boundary-start :
    (s : List ℕ) (n : ℕ) → (rune_boundary s n ≡ 0) ⊎ (starts_at s (rune_boundary s n) ≡ true)
unfolding rune_boundary
rune_boundary-start s zero = inl refl
rune_boundary-start s (suc n) = ground (arith, rune_boundary-start s n)

take-drop_self : (s : List ℕ) → s ++ drop (length s) s ≡ s
take-drop_self [] = refl
take-drop_self (b ∷ s) = ap (λ t. b ∷ t) (take-drop_self s)

cut_length :
    (s : List ℕ) (n : ℕ)
    → leb (length s) n ≡ false
    → length (take (rune_boundary s n) s) ≡ rune_boundary s n
cut_length s n long =
    length-take_below (rune_boundary s n) s
      (omega (arith, leb-false (length s) n long, rune_boundary-bound s n))

cut_prefix :
    (s : List ℕ) (n : ℕ)
    → leb (length s) n ≡ false
    → take (rune_boundary s n) s ++ drop (length (take (rune_boundary s n) s)) s ≡ s
cut_prefix s n long = rw (cut_length s n long) (take-drop (rune_boundary s n) s)

cut_start :
    (s : List ℕ) (n : ℕ)
    → leb (length s) n ≡ false
    → (length (take (rune_boundary s n) s) ≡ 0)
      ⊎ (starts_at s (length (take (rune_boundary s n) s)) ≡ true)
cut_start s n long = rw (cut_length s n long) (rune_boundary-start s n)

-- Truncation keeps a prefix of at most n bytes, and where it cuts a text that is longer, the first
-- byte that it drops starts a rune or nothing is left.
pub truncate_lem :
    (s : List ℕ) (n : ℕ)
    → let t = truncate_at_rune_boundary s n in
      (t ++ drop (length t) s ≡ s)
      × (length t ≤ n)
      × ((t ≡ s) ⊎ (length t ≡ 0) ⊎ (starts_at s (length t) ≡ true))
unfolding truncate_at_rune_boundary
truncate_lem s n = elim (Bool-cases (leb (length s) n)) [
  | inl short ↦
      rw (if_true (leb (length s) n) s (take (rune_boundary s n) s) short)
        (take-drop_self s, (leb_iff (length s) n).0 short, inl refl)
  | inr long ↦ rw (if_false (leb (length s) n) s (take (rune_boundary s n) s) long) (
    cut_prefix s n long,
    omega (arith, cut_length s n long, rune_boundary-bound s n),
    inr (cut_start s n long),
  )
]

length-decimal : (fuel n : ℕ) → length (decimal fuel n) ≤ 1 + fuel
unfolding decimal
length-decimal zero n = omega arith
length-decimal (suc fuel) n = ground (
  arith,
  length-decimal fuel (n / 10),
  length-append (decimal fuel (n / 10)) ((48 + n % 10) ∷ []),
)

length-capped : (cap : ℕ) (s : List ℕ) → length (capped cap s) ≤ cap
unfolding capped
length-capped cap s = ground (arith, (truncate_lem s cap).1)

key_of-bounds : (s : List ℕ) → length (key_of s) ≤ 4 + length s
key_of-bounds [] = omega arith
key_of-bounds (b ∷ s) = omega arith

or_key-bounds :
    (n : ℕ) (s t : List ℕ)
    → length (key_of s) ≤ n
    → length t ≤ n
    → 4 < length t
    → (length (or_key (key_of s) t) ≤ n) × (4 < length (or_key (key_of s) t))
or_key-bounds n [] t h k l = (k, l)
or_key-bounds n (b ∷ s) t h k l = (h, omega arith)

dlv_bounds :
    (c d : List ℕ)
    → length c ≤ 256
    → length d ≤ 20
    → (length (dlv_prefix ++ c ++ colon ++ d) ≤ 516) × (4 < length (dlv_prefix ++ c ++ colon ++ d))
dlv_bounds c d h k =
    let whole = length-append ((dlv_prefix ++ c) ++ colon) d in
    let front = length-append (dlv_prefix ++ c) colon in
    (omega (arith, whole, front), omega (arith, whole, front))

delivery_tag_key :
    (consumer_tag : List ℕ) (delivery_tag : ℕ)
    → (length (counter_b_key_for_delivery_tag consumer_tag delivery_tag) ≤ 516)
      × (4 < length (counter_b_key_for_delivery_tag consumer_tag delivery_tag))
unfolding counter_b_key_for_delivery_tag
delivery_tag_key consumer_tag delivery_tag =
    dlv_bounds (capped max_consumer_tag_key_len consumer_tag) (decimal 19 delivery_tag)
      (length-capped max_consumer_tag_key_len consumer_tag) (length-decimal 19 delivery_tag)

-- Every counter key holds at most 516 bytes, whatever the broker sends as MessageId and whatever the
-- consumer tag is, and is longer than its family's prefix.
pub batch_counter_b_key-bounds :
    (consumer_tag id : List ℕ) (delivery_tag : ℕ)
    → (length (batch_counter_b_key consumer_tag id delivery_tag) ≤ 516)
      × (4 < length (batch_counter_b_key consumer_tag id delivery_tag))
unfolding batch_counter_b_key counter_b_key_for_msg_id
batch_counter_b_key-bounds consumer_tag [] delivery_tag = delivery_tag_key consumer_tag delivery_tag
batch_counter_b_key-bounds consumer_tag (b ∷ id) delivery_tag =
    let s = capped max_msg_id_key_len (b ∷ id) in
    let (few, some_left) = delivery_tag_key consumer_tag delivery_tag in
    or_key-bounds 516 s (counter_b_key_for_delivery_tag consumer_tag delivery_tag)
      (omega (arith, key_of-bounds s, length-capped max_msg_id_key_len (b ∷ id))) few some_left
