-- ===== src/Publisher/Bulk/Ids.antt =====
-- The message ids of a batch, PublishBatch in publisher.go.
use warren.Prelude.{
  bytes_Eq, ℕ, zero, suc, ◌<◌, String, ◌≡◌, sym, ap, ◌∙◌, ◌⊎◌, inl, inr, Bool, true, false, ◌||◌,
  Option, none, some, List, [], ◌∷◌, arith, Bool-cases, nat_Eq, str_eq, str_eq_iff, string_Eq,
  get_elem?, lookup, lookup-erase,
}
use warren.Errors.{Err}
use warren.Publisher.Message.{Message, Encoded, accepted, rejected}
use warren.Publisher.Demux.{Entry}
use warren.Publisher.Bulk.{
  Turn, BatchOptions, has_duplicate, seen_before, forgotten, publish_all, wait_all, forgotten_all,
  forget_all, run_on,
}

-- The accepted messages whose id is k.
abbrev accepted_as : String → Encoded → Bool
accepted_as k (accepted m body) = str_eq m.message_id k
accepted_as k (rejected e) = false

unfoldable pub has_accepted : String → List Encoded → Bool
has_accepted k [] = false
has_accepted k (e ∷ es) = accepted_as k e || has_accepted k es

forget_all-gone :
    (k : String) (d : Entry) (es : List Encoded)
    → (lookup k d.return_tag_map ≡ none) ⊎ (has_accepted k es ≡ true)
    → lookup k (forget_all true d es).return_tag_map ≡ none
unfolding forget_all has_accepted
forget_all-gone k d [] h = ground arith
forget_all-gone k d (rejected e ∷ es) h = forget_all-gone k d es h
forget_all-gone k d (accepted m body ∷ es) h =
    forget_all-gone k (forgotten true m.message_id d) es
      (ground (arith, lookup-erase m.message_id k d.return_tag_map))

abbrev entry_or : Entry → Option (Entry × List (Option Err)) → Entry
entry_or u none = u
entry_or u (some (d, rs)) = d

forgotten_gone :
    (k : String) (es : List Encoded) (u : Entry) (rs : List (Option Err)) (m : Bool)
    (w : Option (Entry × List (Option Err)))
    → m ≡ true
    → forgotten_all m es w ≡ some (u, rs)
    → has_accepted k es ≡ true
    → lookup k u.return_tag_map ≡ none
unfolding forgotten_all
forgotten_gone k es u rs true none t e h = cc e
forgotten_gone k es u rs true (some (d, ss)) t e h =
    ap (λ (x : Entry). lookup k x.return_tag_map) {x = u} {y = forget_all true d es}
      (sym (ap (entry_or u) e))
    ∙ forget_all-gone k d es (inr h)
forgotten_gone k es u rs false w t e h = cc t

-- When a batch of a mandatory publisher has run on a channel, no id of a message that it accepted is
-- left in the channel's map, however the publishes and the waits ended.
pub run_on-forgets :
    (o : BatchOptions) (turns : ℕ → Turn) (d u : Entry) (es : List Encoded) (rs : List (Option Err))
    (k : String)
    → o.mandatory ≡ true
    → run_on o turns d es ≡ some (u, rs)
    → has_accepted k es ≡ true
    → lookup k u.return_tag_map ≡ none
unfolding run_on
run_on-forgets o turns d u es rs k m e h =
    let sent = publish_all o turns 0 d es in
    forgotten_gone k es u rs o.mandatory (wait_all o turns 0 sent.0 sent.1) m e h

-- An id that was seen is not met again.
seen_unique :
    (seen : List String) (k : String) (ms : List Message) (j : ℕ) (m : Message)
    → has_duplicate seen ms ≡ false
    → seen_before k seen ≡ true
    → get_elem? ms j ≡ some m
    → m.message_id ≡ k
    → k ≡ ""
unfolding has_duplicate
seen_unique seen k [] j m d s e f = absurd (ground arith)
seen_unique seen k (n ∷ ms) zero m d s e f =
    let same : n.message_id ≡ k =
      ap (λ (x : Message). x.message_id) {x = n} {y = m} (ground arith) ∙ f in
    let met = ap (λ x. seen_before x seen) same ∙ s in
    elim (Bool-cases (str_eq n.message_id "")) [
      | inl blank ↦ sym same ∙ (str_eq_iff n.message_id "").0 blank
      | inr named ↦ absurd (ground (arith, met))
    ]
seen_unique seen k (n ∷ ms) (suc j) m d s e f = elim (Bool-cases (str_eq n.message_id "")) [
  | inl blank ↦ seen_unique seen k ms j m (ground arith) s e f
  | inr named ↦ seen_unique (n.message_id ∷ seen) k ms j m (ground arith) (ground arith) e f
]

unique_from :
    (seen : List String) (ms : List Message) (i j : ℕ) (m n : Message)
    → has_duplicate seen ms ≡ false
    → get_elem? ms i ≡ some m
    → get_elem? ms j ≡ some n
    → i < j
    → m.message_id ≡ n.message_id
    → m.message_id ≡ ""
unfolding has_duplicate
unique_from seen [] i j m n d e f lt same = absurd (ground arith)
unique_from seen (x ∷ ms) i zero m n d e f lt same = absurd (omega arith)
unique_from seen (x ∷ ms) zero (suc j) m n d e f lt same =
    let first = ap (λ (y : Message). y.message_id) {x = x} {y = m} (ground arith) in
    elim (Bool-cases (str_eq x.message_id "")) [
      | inl blank ↦ sym first ∙ (str_eq_iff x.message_id "").0 blank
      | inr named ↦
          sym first
          ∙ seen_unique (x.message_id ∷ seen) x.message_id ms j n (ground arith)
              (ground (arith, str_eq_iff x.message_id x.message_id)) f (sym same ∙ sym first)
    ]
unique_from seen (x ∷ ms) (suc i) (suc j) m n d e f lt same =
    elim (Bool-cases (str_eq x.message_id "")) [
      | inl blank ↦ unique_from seen ms i j m n (ground arith) e f (omega arith) same
      | inr named ↦
          unique_from (x.message_id ∷ seen) ms i j m n (ground arith) e f (omega arith) same
    ]

-- The check of a mandatory batch leaves no two messages with the same explicit id.
pub has_duplicate_unique :
    (ms : List Message) (i j : ℕ) (m n : Message)
    → has_duplicate [] ms ≡ false
    → get_elem? ms i ≡ some m
    → get_elem? ms j ≡ some n
    → i < j
    → m.message_id ≡ n.message_id
    → m.message_id ≡ ""
has_duplicate_unique ms i j m n d e f lt same = unique_from [] ms i j m n d e f lt same
