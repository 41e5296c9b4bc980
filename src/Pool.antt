-- ===== src/Pool.antt =====
-- The channel pools, channelpool.go and publisherConnPool of publisher.go.
--
-- A pooled channel is a number. The semaphore is the count of its tokens, `free` the buffered channel
-- of idle entries, first in first out; `discarded` lists the channels that the pool has closed. Which
-- channels the broker has closed is the environment's, a test that each operation is given, and so is
-- what openFn does. An Acquire that finds no token waits: `blocked` changes nothing. An Acquire that
-- gives up returns ErrChannelPoolExhausted before it holds anything: the plain pool's as it is, that of the
-- publisher's pool with the error of the context, which its callers here wrap.
pub mod Walk
pub mod Conserved
pub mod Examples
use warren.Prelude.{
  ℕ, zero, suc, ◌+◌, ◌-◌, ◌*◌, ◌/◌, ◌%◌, ◌^◌, ◌≤◌, ◌<◌, min, max, String, ◌≡◌, refl, sym, ap, subst,
  fun_ext, ◌∙◌, ◌≢◌, ◌↔◌, ◌⊎◌, inl, inr, Bool, true, false, not, ◌&&◌, ◌||◌, Option, none, some,
  List, [], ◌∷◌, ◌++◌, map, arith, ltb, leb, nat_eq, if◌then◌else◌, nat_eq_iff, leb_iff, ltb_iff,
  ltb-false, leb-false, Bool-cases, Option-cases, Eq, ◌==◌, nat_Eq, str_eq, str_eq_iff, string_Eq,
  length, get_elem?, take, drop, replicate, length-append, length-drop, drop_all, In, lookup,
  insert, erase, lookup-insert, lookup-erase, if_both, if_true, if_false, ℕ_discrete,
}
use warren.Errors.{Err}

pub data Opened : Type 0 where
  opened : ℕ → Opened
  failed : Err → Opened
  panicked : Opened

pub record Pool : Type 0 where
  pub tokens : ℕ
  pub free : List ℕ
  pub discarded : List ℕ

pub data Acquired : Type 0 where
  blocked : Acquired
  got : ℕ → Acquired
  open_failed : Err → Acquired
  open_panicked : Acquired

unfoldable pub new_pool : ℕ → Pool
new_pool size = record { tokens = size; free = []; discarded = [] }

-- The idle entries up to the first live one: what it is, what stays idle, what is thrown away.
pub record Taken : Type 0 where
  pub live : Option ℕ
  pub rest : List ℕ
  pub stale : List ℕ

unfoldable pub take_live : (ℕ → Bool) → List ℕ → Taken
take_live closed [] = record { live = none; rest = []; stale = [] }
take_live closed (x ∷ xs) =
    let t = take_live closed xs in
    if closed x
    then record t { stale = x ∷ t.stale }
    else record { live = some x; rest = xs; stale = [] }

-- getOrOpen of both pools.
unfoldable pub get_or_open : (ℕ → Bool) → Opened → List ℕ → Acquired
unfolding take_live
get_or_open closed o free = elim (take_live closed free).live [
  | some x ↦ got x
  | none ↦ elim o [ opened x ↦ got x | failed e ↦ open_failed e | panicked ↦ open_panicked ]
]

abbrev pub walked : (ℕ → Bool) → Pool → ℕ → Pool
walked closed p tokens = record {
  tokens = tokens;
  free = (take_live closed p.free).rest;
  discarded = p.discarded ++ (take_live closed p.free).stale;
}

-- Acquire of channelPool: a panic of openFn loses the token. `gives_up` says that its select takes the
-- case of a context that is done, which it may do although a token is free.
unfoldable pub acquire : Bool → (ℕ → Bool) → Opened → Pool → Pool × Acquired
unfolding get_or_open take_live
acquire gives_up closed o p =
    let r = get_or_open closed o p.free in
    if gives_up || nat_eq p.tokens 0 then (p, blocked) else (elim r [
      | blocked ↦ (p, blocked)
      | got x ↦ (walked closed p (p.tokens - 1), got x)
      | open_failed e ↦ (walked closed p p.tokens, open_failed e)
      | open_panicked ↦ (walked closed p (p.tokens - 1), open_panicked)
    ])

-- acquire of publisherConnPool: the deferred send returns the token after a panic too.
unfoldable pub publisher_acquire : (ℕ → Bool) → Opened → Pool → Pool × Acquired
unfolding get_or_open take_live
publisher_acquire closed o p =
    let r = get_or_open closed o p.free in
    if nat_eq p.tokens 0 then (p, blocked) else (elim r [
      | blocked ↦ (p, blocked)
      | got x ↦ (walked closed p (p.tokens - 1), got x)
      | open_failed e ↦ (walked closed p p.tokens, open_failed e)
      | open_panicked ↦ (walked closed p p.tokens, open_panicked)
    ])

-- release of both pools, for the capacity of the idle list.
unfoldable pub release : ℕ → (ℕ → Bool) → ℕ → Pool → Pool
release size closed x p =
    if closed x
    then record { tokens = p.tokens + 1; free = p.free; discarded = p.discarded ++ x ∷ [] }
    else if ltb (length p.free) size
    then record { tokens = p.tokens + 1; free = p.free ++ x ∷ []; discarded = p.discarded }
    else record { tokens = p.tokens + 1; free = p.free; discarded = p.discarded ++ x ∷ [] }

-- Drain, drainFree, drain and closeAll.
unfoldable pub drain : Pool → Pool
drain p = record { tokens = p.tokens; free = []; discarded = p.discarded ++ p.free }
