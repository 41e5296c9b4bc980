-- ===== src/Errors/Tables.antt =====
-- The reply-code tables of errors.go and internal/amqperror, and the errors that they build.
use warren.Prelude.{
  ℕ, ◌%◌, ◌≡◌, refl, ◌∙◌, inl, inr, false, not, Option, none, some, List, [], ◌∷◌, arith,
  Option-cases, nat_Eq, string_Eq, lookup,
}
use warren.Errors.{
  Sentinel, Err, canceled, sentinel, amqp, wrap_two, errors_is, is_any_of, is_transient,
  is_permanent, amqp_code, wrap_amqp_error, amqp_code_table, amqp_code_sentinels, as_amqp,
  as_code_error, code_of_sentinel, amqperror_wrap, code_table,
}
use warren.Errors.Laws.{errors_is-wrap_two, classification-wrap_two}

table_agree : (code : ℕ) → lookup code code_table ≡ amqp_code_table code amqp_code_sentinels
table_agree code = ground arith

-- The two translations of broker errors, the root package's and internal/amqperror's with its own
-- table, agree on every error.
pub amqperror_wrap-wrap_amqp_error : (e : Option Err) → amqperror_wrap e ≡ wrap_amqp_error e
unfolding amqperror_wrap wrap_amqp_error
amqperror_wrap-wrap_amqp_error none = refl
amqperror_wrap-wrap_amqp_error (some e) = elim (Option-cases (as_amqp e)) [
  | inl other ↦ rw (other, amqperror_wrap, wrap_amqp_error)
  | inr (code, found) ↦
      rw (found, amqperror_wrap, wrap_amqp_error) (rw (table_agree (code % 65536)))
]

abbrev pub sentinels_of : List (Sentinel × ℕ) → List Sentinel
sentinels_of [] = []
sentinels_of ((s, c) ∷ table) = s ∷ sentinels_of table

code_of_sentinel-wrap_two :
    (table : List (Sentinel × ℕ)) (s : Sentinel) (e : Err)
    → is_any_of (sentinels_of table) e ≡ false
    → code_of_sentinel table (wrap_two (sentinel s) e) ≡ code_of_sentinel table (sentinel s)
unfolding code_of_sentinel is_any_of
code_of_sentinel-wrap_two [] s e h = refl
code_of_sentinel-wrap_two ((t, c) ∷ table) s e h =
    ground (arith, errors_is-wrap_two (sentinel s) e t, code_of_sentinel-wrap_two table s e)

table_inverse :
    (code : ℕ) (s : Sentinel)
    → amqp_code_table code amqp_code_sentinels ≡ some s
    → code_of_sentinel amqp_code_sentinels (sentinel s) ≡ some code
unfolding code_of_sentinel errors_is
table_inverse code s h = ground arith

amqp_code-wrap_two :
    (e : Err) (code : ℕ) (s : Sentinel)
    → amqp_code_table code amqp_code_sentinels ≡ some s
    → as_code_error e ≡ none
    → is_any_of (sentinels_of amqp_code_sentinels) e ≡ false
    → amqp_code (some (wrap_two (sentinel s) e)) ≡ some code
unfolding amqp_code
amqp_code-wrap_two e code s entry plain clean =
    rw (plain, amqp_code)
      (code_of_sentinel-wrap_two amqp_code_sentinels s e clean ∙ table_inverse code s entry)

-- A broker error whose reply code is in the table, in a chain that holds no sentinel of the table
-- and no explicit code, gets the table's sentinel put in front, and AMQPCode reads the reply code
-- back from the result.
pub amqp_code-wrap_amqp_error :
    (e : Err) (code : ℕ) (s : Sentinel)
    → as_amqp e ≡ some code
    → amqp_code_table (code % 65536) amqp_code_sentinels ≡ some s
    → as_code_error e ≡ none
    → is_any_of (sentinels_of amqp_code_sentinels) e ≡ false
    → (wrap_amqp_error (some e) ≡ some (wrap_two (sentinel s) e))
      × (amqp_code (wrap_amqp_error (some e)) ≡ some (code % 65536))
unfolding wrap_amqp_error
amqp_code-wrap_amqp_error e code s found entry plain clean =
    rw (found, wrap_amqp_error)
      (rw entry (refl, amqp_code-wrap_two e (code % 65536) s entry plain clean))

classified_entry :
    (code : ℕ) (s : Sentinel)
    → amqp_code_table code amqp_code_sentinels ≡ some s
    → is_transient (some (sentinel s)) ≡ not (is_permanent (some (sentinel s)))
unfolding is_transient is_permanent errors_is
classified_entry code s h = ground arith

bare_unclassified :
    (code : ℕ)
    → (is_transient (some (amqp code)) ≡ false)
      × (is_permanent (some (amqp code)) ≡ false)
      × (errors_is (amqp code) canceled ≡ false)
unfolding is_transient is_permanent errors_is
bare_unclassified code = (refl, refl, refl)

-- Every reply code of the table classifies the broker's bare error one way: retryable or
-- permanent, and never both.
pub reply_code-classified :
    (code : ℕ) (s : Sentinel)
    → amqp_code_table (code % 65536) amqp_code_sentinels ≡ some s
    → is_transient (wrap_amqp_error (some (amqp code)))
      ≡ not (is_permanent (wrap_amqp_error (some (amqp code))))
unfolding wrap_amqp_error as_amqp
reply_code-classified code s entry =
    rw (entry, wrap_amqp_error)
      (ground (
        arith,
        classification-wrap_two (sentinel s) (amqp code),
        classified_entry (code % 65536) s entry,
        bare_unclassified code,
      ))
