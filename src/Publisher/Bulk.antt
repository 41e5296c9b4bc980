-- ===== src/Publisher/Bulk.antt =====
-- PublishBatch, publisher.go.
--
-- Each message has in `Turn` what the broker, the clock and the id generator do for it: the frames that
-- the demultiplexer takes after its publish, and those while its Wait blocks. A slot is a place of
-- `results` between the publishing and the waiting. A run is `unready` where the select of a Wait is
-- given a case that is not ready.
pub mod Results
pub mod Ids
use warren.Prelude.{
  ℤ, pos, negsuc, zero, bytes_eq, bytes_eq_iff, bytes_Eq, ℤ, pos, negsuc, ℕ, zero, suc, ◌+◌, ◌-◌,
  ◌*◌, ◌/◌, ◌%◌, ◌^◌, ◌≤◌, ◌<◌, min, max, String, ◌≡◌, refl, sym, ap, subst, fun_ext, ◌∙◌, ◌≢◌, ◌↔◌,
  ◌⊎◌, inl, inr, Bool, true, false, not, ◌&&◌, ◌||◌, Option, none, some, List, [], ◌∷◌, ◌++◌, map,
  arith, ltb, leb, nat_eq, if◌then◌else◌, nat_eq_iff, leb_iff, ltb_iff, ltb-false, leb-false,
  Bool-cases, Option-cases, Eq, ◌==◌, nat_Eq, str_eq, str_eq_iff, string_Eq, length, get_elem?,
  take, drop, replicate, length-append, length-drop, drop_all, In, lookup, insert, erase,
  lookup-insert, lookup-erase, if_both, if_true, if_false, ℕ_discrete,
}
use warren.Errors.{
  Err, sentinel, wrap_one, wrap_two, channel_pool_exhausted, wrap_amqp_error, batch_too_large,
  partial_batch, invalid_message, already_closed,
}
use warren.Confirms.{Tracker, GoError, Wake, register, cancel, wait_begin, wait_end, closed}
use warren.Pool.{
  Pool, Opened, Acquired, blocked, got, open_failed, open_panicked, publisher_acquire, release,
}
use warren.Publisher.Message.{
  Message, Codec, Checks, Encoded, accepted, rejected, encode_msg, invalid_error,
}
use warren.Publisher.Outcome.{map_confirm_error, confirm_err}
use warren.Publisher.Demux.{Entry, Frame, demux_all}
use warren.Publisher.Retry.{Gate, enter, leave}

pub record Turn : Type 0 where
  pub new_id : Err ⊎ String
  pub now : ℕ
  pub sequence_number : ℕ
  pub publish_error : Option Err
  pub after_publish : List Frame
  pub while_waiting : List Frame
  pub wake : Wake

pub record BatchOptions : Type 0 where
  pub checks : Checks
  pub codec : Codec
  pub mandatory : Bool
  pub is_bounded : Bool
  pub max_size : ℤ
  pub context_error : Err

abbrev pub default_max_size : ℕ
default_max_size = 1024

abbrev pub size_or_default : ℤ → ℕ
size_or_default (pos zero) = default_max_size
size_or_default (pos (suc n)) = suc n
size_or_default (negsuc n) = default_max_size

abbrev pub effective_max_size : BatchOptions → ℕ
effective_max_size o = size_or_default o.max_size

abbrev pub seen_before : String → List String → Bool
seen_before k [] = false
seen_before k (j ∷ seen) = str_eq j k || seen_before k seen

-- The check for explicit ids that occur twice.
unfoldable pub has_duplicate : List String → List Message → Bool
has_duplicate seen [] = false
has_duplicate seen (m ∷ ms) =
    let skipped = has_duplicate seen ms in
    let added = has_duplicate (m.message_id ∷ seen) ms in
    if str_eq m.message_id ""
    then skipped
    else if seen_before m.message_id seen
    then true
    else added

unfoldable pub encode_all : BatchOptions → (ℕ → Turn) → ℕ → List Message → List Encoded
unfolding encode_msg
encode_all o turns i [] = []
encode_all o turns i (m ∷ ms) =
    encode_msg o.checks o.codec (turns i).new_id (turns i).now m ∷ encode_all o turns (suc i) ms

abbrev pub is_rejected : Encoded → Bool
is_rejected (accepted m body) = false
is_rejected (rejected e) = true

unfoldable pub all_rejected : List Encoded → Bool
all_rejected [] = true
all_rejected (e ∷ es) = is_rejected e && all_rejected es

abbrev pub error_of : Encoded → Option Err
error_of (accepted m body) = none
error_of (rejected e) = some e

pub data Slot : Type 0 where
  failed : Err → Slot
  awaiting : ℕ → Slot

abbrev pub stored : Bool → String → ℕ → Entry → Entry
stored mandatory id tag d =
    if mandatory then record d { return_tag_map = insert id tag d.return_tag_map } else d

abbrev pub forgotten : Bool → String → Entry → Entry
forgotten mandatory id d =
    if mandatory then record d { return_tag_map = erase id d.return_tag_map } else d

abbrev pub or_default : Err → Option Err → Err
or_default e none = e
or_default e (some x) = x

-- The publish of one message, after its registration.
unfoldable pub publish_registered :
    BatchOptions → Turn → String → Entry → Tracker × GoError → Entry × Slot
unfolding map_confirm_error cancel demux_all
publish_registered o w id d (t, some e) = (
  forgotten o.mandatory id (record d { tracker = t }),
  failed (map_confirm_error (confirm_err o.context_error e)),
)
publish_registered o w id d (t, none) = elim w.publish_error [
  | some e ↦ (
    record d { tracker = cancel t w.sequence_number },
    failed (or_default e (wrap_amqp_error (some e))),
  )
  | none ↦ (demux_all (record d { tracker = t }) w.after_publish, awaiting w.sequence_number)
]

unfoldable pub publish_one : BatchOptions → Turn → Entry → Encoded → Entry × Slot
unfolding publish_registered register
publish_one o w d (rejected e) = (d, failed e)
publish_one o w d (accepted m body) =
    let kept = stored o.mandatory m.message_id w.sequence_number d in
    publish_registered o w m.message_id kept (register kept.tracker w.sequence_number)

unfoldable pub publish_all :
    BatchOptions → (ℕ → Turn) → ℕ → Entry → List Encoded → Entry × List Slot
unfolding publish_one
publish_all o turns i d [] = (d, [])
publish_all o turns i d (e ∷ es) =
    let one = publish_one o (turns i) d e in
    let rest = publish_all o turns (suc i) one.0 es in (rest.0, one.1 ∷ rest.1)

abbrev pub told : BatchOptions → GoError → Option Err
told o none = none
told o (some e) = some (map_confirm_error (confirm_err o.context_error e))

-- Wait for the tag of one slot: the entry and the result.
unfoldable pub wait_found : BatchOptions → Turn → ℕ → Entry → Option ℕ → Option (Entry × GoError)
unfolding demux_all wait_end
wait_found o w tag d none = some (d, some closed)
wait_found o w tag d (some p) =
    let u = demux_all d w.while_waiting in
    elim (wait_end u.tracker tag p o.is_bounded w.wake) [
      | none ↦ none
      | some (t, r) ↦ some (record u { tracker = t }, r)
    ]

unfoldable pub wait_one : BatchOptions → Turn → Entry → Slot → Option (Entry × Option Err)
unfolding wait_found wait_begin
wait_one o w d (failed e) = some (d, some e)
wait_one o w d (awaiting tag) = elim (wait_found o w tag d (wait_begin d.tracker tag)) [
  | none ↦ none
  | some (u, r) ↦ some (u, told o r)
]

abbrev pub with_result :
    Option Err → Option (Entry × List (Option Err)) → Option (Entry × List (Option Err))
with_result r none = none
with_result r (some (d, rs)) = some (d, r ∷ rs)

abbrev pub continued :
    Option (Entry × Option Err)
    → (Entry → Option (Entry × List (Option Err)))
    → Option (Entry × List (Option Err))
continued none k = none
continued (some (u, r)) k = with_result r (k u)

unfoldable pub wait_all :
    BatchOptions → (ℕ → Turn) → ℕ → Entry → List Slot → Option (Entry × List (Option Err))
unfolding wait_one
wait_all o turns i d [] = some (d, [])
wait_all o turns i d (s ∷ ss) =
    continued (wait_one o (turns i) d s) (λ u. wait_all o turns (suc i) u ss)

-- Step 4.5: the entries of the accepted messages leave returnTagMap.
unfoldable pub forget_all : Bool → Entry → List Encoded → Entry
forget_all mandatory d [] = d
forget_all mandatory d (rejected e ∷ es) = forget_all mandatory d es
forget_all mandatory d (accepted m body ∷ es) =
    forget_all mandatory (forgotten mandatory m.message_id d) es

unfoldable pub any_failed : List (Option Err) → Bool
any_failed [] = false
any_failed (none ∷ rs) = any_failed rs
any_failed (some e ∷ rs) = true

-- A call that replies gives results, unless they are nil, and an error.
pub data Batched : Type 0 where
  unready panicked : Batched
  replied : Option (List (Option Err)) → Option Err → Batched

unfoldable pub forgotten_all :
    Bool → List Encoded → Option (Entry × List (Option Err)) → Option (Entry × List (Option Err))
unfolding forget_all
forgotten_all mandatory es none = none
forgotten_all mandatory es (some (u, rs)) = some (forget_all mandatory u es, rs)

-- The steps on the channel, as the entry after them with the results.
unfoldable pub run_on :
    BatchOptions → (ℕ → Turn) → Entry → List Encoded → Option (Entry × List (Option Err))
unfolding publish_all wait_all forgotten_all
run_on o turns d es =
    let sent = publish_all o turns 0 d es in
    forgotten_all o.mandatory es (wait_all o turns 0 sent.0 sent.1)

unfoldable pub reply_of : Option (Entry × List (Option Err)) → Batched
unfolding any_failed
reply_of none = unready
reply_of (some (d, rs)) =
    replied (some rs) (if any_failed rs then some (sentinel partial_batch) else none)

unfoldable pub on_acquired :
    BatchOptions → (ℕ → Turn) → (ℕ → Entry) → List Encoded → Acquired → Batched
unfolding run_on reply_of
on_acquired o turns entries es (got x) = reply_of (run_on o turns (entries x) es)
on_acquired o turns entries es blocked =
    replied none (some (wrap_two (sentinel channel_pool_exhausted) o.context_error))
on_acquired o turns entries es (open_failed e) = replied none (some e)
on_acquired o turns entries es open_panicked = panicked

-- What the barrier and the pool of the chosen connection give.
pub record Route : Type 0 where
  pub barrier_error : Option Err
  pub acquired : Acquired

unfoldable pub connected :
    BatchOptions → (ℕ → Turn) → (ℕ → Entry) → Acquired → List Encoded → Option Err → Batched
unfolding on_acquired
connected o turns entries a es (some e) = replied none (some e)
connected o turns entries a es none = on_acquired o turns entries es a

unfoldable pub publish_encoded :
    BatchOptions → (ℕ → Turn) → (ℕ → Entry) → Route → List Encoded → Batched
unfolding all_rejected connected
publish_encoded o turns entries route es =
    if all_rejected es
    then replied (some (map error_of es)) (some (sentinel partial_batch))
    else connected o turns entries route.acquired es route.barrier_error

-- The part behind the gate.
unfoldable pub entered :
    BatchOptions → (ℕ → Turn) → (ℕ → Entry) → Route → List Message → Err ⊎ Gate → Batched
unfolding encode_all publish_encoded
entered o turns entries route ms (inl e) = replied none (some e)
entered o turns entries route ms (inr g) =
    publish_encoded o turns entries route (encode_all o turns 0 ms)

unfoldable pub publish_batch :
    BatchOptions → Gate → (ℕ → Turn) → (ℕ → Entry) → Route → List Message → Batched
unfolding has_duplicate enter entered
publish_batch o g turns entries route [] = replied none none
publish_batch o g turns entries route (m ∷ ms) =
    if ltb (effective_max_size o) (length (m ∷ ms))
    then replied none (some (sentinel batch_too_large))
    else if o.mandatory && has_duplicate [] (m ∷ ms)
    then replied none (some invalid_error)
    else entered o turns entries route (m ∷ ms) (enter g)
