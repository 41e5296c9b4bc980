-- ===== src/Connection/Options.antt =====
-- The options of Dial and the sockets that it opens, connection.go: validateConnOptions,
-- validateAddrsScheme, openPool, and the health of a connection.
--
-- Addresses are byte strings; the scheme that url.Parse finds in one is a parameter, `none` where it finds
-- none or fails. Of the TLS configuration stands whether it is set and whether it has a certificate. Every
-- refusal of an option wraps ErrInvalidOptions.
use warren.Prelude.{
  bytes_eq, bytes_Eq, ℤ, pos, negsuc, ℕ, zero, suc, ◌⊎◌, inl, inr, Bool, true, false, not, ◌&&◌,
  ◌||◌, Option, none, some, List, [], ◌∷◌, map, leb, nat_eq, if◌then◌else◌, nat_Eq, string_Eq,
}
use warren.Errors.{
  Err, sentinel, wrap_one, invalid_options, already_closed, not_connected, reconnecting,
  wrap_amqp_error, foreign,
}
use warren.Connection.Supervisor.{Link}

pub record ConnOptions : Type 0 where
  pub frame_max : ℤ
  pub pub_conns : ℤ
  pub con_conns : ℤ
  pub channel_pool_size : ℤ
  pub channel_max : ℕ
  pub addr : List ℕ
  pub addrs : List (List ℕ)
  pub is_external : Bool
  pub has_tls_config : Bool
  pub has_certificate : Bool

abbrev pub frame_max_hard_ceiling : ℕ
frame_max_hard_ceiling = 104857600

abbrev pub channel_pool_size_max : ℕ
channel_pool_size_max = 4096

abbrev pub frame_max_ok : ℤ → Bool
frame_max_ok (pos zero) = true
frame_max_ok (pos (suc n)) = leb 4096 (suc n) && leb (suc n) frame_max_hard_ceiling
frame_max_ok (negsuc n) = true

abbrev pub is_at_least_one : ℤ → Bool
is_at_least_one (pos n) = leb 1 n
is_at_least_one (negsuc n) = false

abbrev pub is_at_most : ℤ → ℕ → Bool
is_at_most (pos n) m = leb n m
is_at_most (negsuc n) m = true

-- The bytes of "amqps://".
abbrev pub amqps : List ℕ
amqps = 97 ∷ 109 ∷ 113 ∷ 112 ∷ 115 ∷ 58 ∷ 47 ∷ 47 ∷ []

abbrev pub has_prefix : List ℕ → List ℕ → Bool
has_prefix s [] = true
has_prefix [] (b ∷ p) = false
has_prefix (a ∷ s) (b ∷ p) = nat_eq a b && has_prefix s p

abbrev pub dial_addrs : ConnOptions → List (List ℕ)
dial_addrs o = elim o.addrs [ [] ↦ o.addr ∷ [] | a ∷ more ↦ a ∷ more ]

unfoldable pub all_amqps : List (List ℕ) → Bool
all_amqps [] = true
all_amqps (a ∷ more) = has_prefix a amqps && all_amqps more

abbrev pub same_as : List ℕ → Option (List ℕ) → Bool → Bool
same_as t none rest = rest
same_as t (some s) rest = bytes_eq s t && rest

-- The loop of validateAddrsScheme, with the first scheme so far.
unfoldable pub schemes_agree : (List ℕ → Option (List ℕ)) → Option (List ℕ) → List (List ℕ) → Bool
schemes_agree scheme first [] = true
schemes_agree scheme none (a ∷ more) = schemes_agree scheme (scheme a) more
schemes_agree scheme (some t) (a ∷ more) = same_as t (scheme a) (schemes_agree scheme (some t) more)

unfoldable pub options_ok : (List ℕ → Option (List ℕ)) → ConnOptions → Bool
unfolding schemes_agree all_amqps
options_ok scheme o =
    frame_max_ok o.frame_max
    && is_at_least_one o.pub_conns
    && is_at_least_one o.con_conns
    && is_at_least_one o.channel_pool_size
    && is_at_most o.channel_pool_size channel_pool_size_max
    && (nat_eq o.channel_max 0 || is_at_most o.channel_pool_size o.channel_max)
    && schemes_agree scheme none o.addrs
    && (not o.is_external || (o.has_tls_config && o.has_certificate && all_amqps (dial_addrs o)))

unfoldable pub validate_conn_options : (List ℕ → Option (List ℕ)) → ConnOptions → Option Err
unfolding options_ok
validate_conn_options scheme o =
    if options_ok scheme o then none else some (wrap_one (sentinel invalid_options))

-- The link of a socket after its first connect: `some` the raw connection, or the error.
abbrev pub first_link : Err ⊎ ℕ → Link
first_link (inr c) = record {
  raw = some c;
  is_blocked = false;
  is_reconnecting = false;
  degraded_error = none;
  reconnects = 0;
  degraded_calls = [];
  reconnect_calls = 0;
}
first_link (inl e) = record {
  raw = none;
  is_blocked = false;
  is_reconnecting = true;
  degraded_error = none;
  reconnects = 0;
  degraded_calls = [];
  reconnect_calls = 0;
}

abbrev pub last_error : Err → List (Err ⊎ ℕ) → Err
last_error e [] = e
last_error e (inl x ∷ rs) = last_error x rs
last_error e (inr c ∷ rs) = last_error e rs

abbrev pub count_connected : List (Err ⊎ ℕ) → ℕ
count_connected [] = 0
count_connected (inl x ∷ rs) = count_connected rs
count_connected (inr c ∷ rs) = suc (count_connected rs)

-- openPool for what connectOnce gives for each socket: an error, or the links that its supervisors start
-- with.
unfoldable pub open_pool : Option Err → List (Err ⊎ ℕ) → Err ⊎ List Link
open_pool (some e) rs = inl e
open_pool none rs =
    if nat_eq (count_connected rs) 0
    then inl (wrap_one (last_error (foreign 0) rs))
    else inr (map first_link rs)

-- What the probe of a channel in health gives: the error of opening it or of closing it.
unfoldable pub health : Bool → List Link → Option Err → Option Err → Option Err
health is_closed links context_error probe_error =
    if is_closed then some (sentinel already_closed) else (elim links [
      | [] ↦ some (sentinel not_connected)
      | l ∷ ls ↦ elim context_error [
        | some e ↦ some e
        | none ↦
            if l.is_reconnecting then some (sentinel reconnecting) else (elim l.degraded_error [
              | some e ↦ some e
              | none ↦ elim l.raw [
                | none ↦ some (sentinel not_connected)
                | some c ↦ elim (wrap_amqp_error probe_error) [
                  | none ↦ none
                  | some e ↦ some (wrap_one e)
                ]
              ]
            ])
      ]
    ])
