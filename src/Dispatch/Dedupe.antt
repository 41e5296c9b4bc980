-- ===== src/Dispatch/Dedupe.antt =====
-- The dedupe middleware, consumer.go: wrapDedupe. The store is the user's, so its two methods are
-- parameters; the handler's answer is input.
use warren.Prelude.{
  map, leb, ltb, ◌<◌, ◌&&◌, inl, inr, Option-cases, bytes_Eq, ℕ, ◌+◌, ◌≡◌, refl, Bool, true, false,
  Option, none, some, List, [], ◌∷◌, arith, nat_Eq, string_Eq,
}
use warren.Errors.{Err}

pub record Deduped (S : Type 0) : Type 0 where
  pub store : S
  pub ran : Bool
  pub result : Option Err

-- One delivery: when Seen and Mark are called, and the answer of the handler.
pub record Turn : Type 0 where
  pub begins : ℕ
  pub ends : ℕ
  pub answer : Option Err

-- The store answers Seen at a time, and Mark gets the time of its call and the ttl. `meanwhile` is what
-- the handlers of other deliveries do to the store between Seen and Mark.
module _ {S : Type 0} (seen : S → ℕ → List ℕ → Bool × Option Err)
    (mark : S → ℕ → List ℕ → ℕ → S × Option Err) (ttl : ℕ) where
  abbrev pub run_unseen : (S → S) → S → List ℕ → ℕ → Option Err → Deduped S
  run_unseen meanwhile s id now none = record {
    store = (mark (meanwhile s) now id ttl).0;
    ran = true;
    result = none;
  }
  run_unseen meanwhile s id now (some e) = record {
    store = meanwhile s;
    ran = true;
    result = some e;
  }

  abbrev pub run_known : (S → S) → Bool × Option Err → S → List ℕ → Turn → Deduped S
  run_known meanwhile (b, some e) s id t = record {
    store = meanwhile s;
    ran = true;
    result = t.answer;
  }
  run_known meanwhile (true, none) s id t = record { store = s; ran = false; result = none }
  run_known meanwhile (false, none) s id t = run_unseen meanwhile s id t.ends t.answer

  abbrev pub wrap_dedupe : (S → S) → S → List ℕ → Turn → Deduped S
  wrap_dedupe meanwhile s [] t = record { store = meanwhile s; ran = true; result = t.answer }
  wrap_dedupe meanwhile s (b ∷ id) t = run_known meanwhile (seen s t.begins (b ∷ id)) s (b ∷ id) t

  abbrev pub succeeded : Bool → Option Err → ℕ
  succeeded true none = 1
  succeeded true (some e) = 0
  succeeded false answer = 0

  -- How often the handler succeeds over deliveries of one id that are handled one after the other.
  abbrev pub successes : S → List ℕ → List Turn → ℕ
  successes s id [] = 0
  successes s id (t ∷ ts) =
      let d = wrap_dedupe (λ u. u) s id t in succeeded d.ran t.answer + successes d.store id ts

  abbrev pub any_success : List (Option Err) → ℕ
  any_success [] = 0
  any_success (none ∷ nexts) = 1
  any_success (some e ∷ nexts) = any_success nexts

  abbrev pub answers : List Turn → List (Option Err)
  answers ts = map (λ (t : Turn). t.answer) ts

  -- All within one ttl.
  abbrev pub are_within : ℕ → List Turn → Bool
  are_within start [] = true
  are_within start (t ∷ ts) = leb start t.ends && ltb t.begins (start + ttl) && are_within start ts

  known_runs_none :
      (s : S) (b : ℕ) (id : List ℕ) (start : ℕ) (ts : List Turn)
      → ((t : ℕ) → t < start + ttl → seen s t (b ∷ id) ≡ (true, none))
      → are_within start ts ≡ true
      → successes s (b ∷ id) ts ≡ 0
  known_runs_none s b id start [] known near = refl
  known_runs_none s b id start (t ∷ ts) known near =
      rw (known t.begins (ground arith))
        (omega (arith, known_runs_none s b id start ts known (ground arith)))

  -- Deliveries of one id that are handled one after the other within one ttl, with a store that answers
  -- without error and has seen what it has marked until the ttl has passed: the handler succeeds once if
  -- it ever would, and runs again after each failure until then.
  pub wrap_dedupe-once :
      ((s : S) (now : ℕ) (id : List ℕ) (t : ℕ)
        → t < now + ttl
        → seen (mark s now id ttl).0 t id ≡ (true, none))
      → (s : S) (b : ℕ) (id : List ℕ) (start : ℕ) (ts : List Turn)
      → ((t : ℕ) → seen s t (b ∷ id) ≡ (false, none))
      → are_within start ts ≡ true
      → successes s (b ∷ id) ts ≡ any_success (answers ts)
  wrap_dedupe-once kept s b id start [] fresh near = refl
  wrap_dedupe-once kept s b id start (t ∷ ts) fresh near =
      rw (fresh t.begins) (elim (Option-cases t.answer) [
        | inr (e, failed) ↦
            rw failed (omega (arith, wrap_dedupe-once kept s b id start ts fresh (ground arith)))
        | inl fine ↦ rw fine (
            omega (
              arith,
              known_runs_none (mark s t.ends (b ∷ id) ttl).0 b id start ts
                  (λ u lt. kept s t.ends (b ∷ id) u (ground arith)) (ground arith),
            ))
      ])
