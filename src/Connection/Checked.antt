-- ===== src/Connection/Checked.antt =====
-- Which options and which sockets Dial accepts, connection.go.
use warren.Prelude.{
  bytes_eq, bytes_eq_iff, bytes_Eq, ℕ, zero, suc, ◌≡◌, refl, sym, ap, subst, ◌∙◌, ◌⊎◌, inl, inr,
  Bool, true, false, not, ◌&&◌, ◌||◌, Option, none, some, List, [], ◌∷◌, map, arith, nat_eq,
  if◌then◌else◌, Bool-cases, Option-cases, nat_Eq, string_Eq, get_elem?, if_false,
}
use warren.Errors.{Err, sentinel, wrap_one, invalid_options}
use warren.Connection.Supervisor.{
  Link, is_settled, start, supervise, is_present, Signal, Round, start-settled,
}
use warren.Connection.Options.{
  ConnOptions, frame_max_ok, is_at_least_one, is_at_most, amqps, has_prefix, dial_addrs, all_amqps,
  same_as, schemes_agree, options_ok, validate_conn_options, first_link, count_connected, open_pool,
  channel_pool_size_max,
}

and_left : (a b : Bool) → (a && b) ≡ true → a ≡ true
and_left a b h = ground arith

and_right : (a b : Bool) → (a && b) ≡ true → b ≡ true
and_right a b h = ground arith

first_of : (t s : List ℕ) (rest : Bool) → same_as t (some s) rest ≡ true → bytes_eq s t ≡ true
first_of t s rest h = ground arith

rest_of : (t : List ℕ) (o : Option (List ℕ)) (rest : Bool) → same_as t o rest ≡ true → rest ≡ true
rest_of t none rest h = h
rest_of t (some s) rest h = ground arith

agree_with :
    (scheme : List ℕ → Option (List ℕ)) (t : List ℕ) (more : List (List ℕ)) (i : ℕ) (a s : List ℕ)
    → schemes_agree scheme (some t) more ≡ true
    → get_elem? more i ≡ some a
    → scheme a ≡ some s
    → s ≡ t
unfolding schemes_agree
agree_with scheme t [] i a s ok h e = absurd (ground arith)
agree_with scheme t (x ∷ more) zero a s ok h e =
    let here : scheme x ≡ some s = ap scheme {x = x} {y = a} (ground arith) ∙ e in
    let rest = schemes_agree scheme (some t) more in
    (bytes_eq_iff s t).0 (first_of t s rest (subst (λ o. same_as t o rest ≡ true) here ok))
agree_with scheme t (x ∷ more) (suc i) a s ok h e =
    agree_with scheme t more i a s (rest_of t (scheme x) (schemes_agree scheme (some t) more) ok) h
      e

-- Every address of a list agrees with the scheme of its first address.
agree_first :
    (scheme : List ℕ → Option (List ℕ)) (x u : List ℕ) (more : List (List ℕ)) (i : ℕ) (a s : List ℕ)
    → scheme x ≡ some u
    → schemes_agree scheme (some u) more ≡ true
    → get_elem? (x ∷ more) i ≡ some a
    → scheme a ≡ some s
    → s ≡ u
agree_first scheme x u more zero a s at_x ok h e =
    let same : scheme x ≡ scheme a = ap scheme {x = x} {y = a} (ground arith) in
    let both : some s ≡ some u = sym e ∙ sym same ∙ at_x in ground arith
agree_first scheme x u more (suc i) a s at_x ok h e = agree_with scheme u more i a s ok h e

later :
    (scheme : List ℕ → Option (List ℕ)) (x : List ℕ) (more : List (List ℕ)) (i : ℕ) (a s : List ℕ)
    → scheme x ≡ none
    → get_elem? (x ∷ more) i ≡ some a
    → scheme a ≡ some s
    → (j : ℕ) × (get_elem? more j ≡ some a)
later scheme x more zero a s none_x h e =
    let same : scheme x ≡ scheme a = ap scheme {x = x} {y = a} (ground arith) in
    let both : some s ≡ none = sym e ∙ sym same ∙ none_x in absurd (ground arith)
later scheme x more (suc i) a s none_x h e = (i, h)

-- The check of the schemes lets only lists pass in which any two addresses that have a scheme have the
-- same.
pub schemes_agree_lem :
    (scheme : List ℕ → Option (List ℕ)) (more : List (List ℕ)) (i j : ℕ) (a b s t : List ℕ)
    → schemes_agree scheme none more ≡ true
    → get_elem? more i ≡ some a
    → get_elem? more j ≡ some b
    → scheme a ≡ some s
    → scheme b ≡ some t
    → s ≡ t
unfolding schemes_agree
schemes_agree_lem scheme [] i j a b s t ok h g e f = absurd (ground arith)
schemes_agree_lem scheme (x ∷ more) i j a b s t ok h g e f = elim (Option-cases (scheme x)) [
  | inl none_x ↦
      let i' = later scheme x more i a s none_x h e in
      let j' = later scheme x more j b t none_x g f in
      schemes_agree_lem scheme more i'.0 j'.0 a b s t
        (subst (λ o. schemes_agree scheme o more ≡ true) none_x ok) i'.1 j'.1 e f
  | inr (u, at_x) ↦
      let ok_u = subst (λ o. schemes_agree scheme o more ≡ true) at_x ok in
      agree_first scheme x u more i a s at_x ok_u h e
      ∙ sym (agree_first scheme x u more j b t at_x ok_u g f)
]

all_amqps-at :
    (more : List (List ℕ)) (i : ℕ) (a : List ℕ)
    → all_amqps more ≡ true
    → get_elem? more i ≡ some a
    → has_prefix a amqps ≡ true
unfolding all_amqps
all_amqps-at [] i a h e = absurd (ground arith)
all_amqps-at (x ∷ more) zero a h e =
    subst (λ y. has_prefix y amqps ≡ true) {x = x} {y = a} (ground arith)
      (and_left (has_prefix x amqps) _ h)
all_amqps-at (x ∷ more) (suc i) a h e = all_amqps-at more i a (and_right (has_prefix x amqps) _ h) e

all_eight :
    (a b c d e f g x : Bool)
    → (if a && b && c && d && e && f && g && x
        then none
        else some (wrap_one (sentinel invalid_options)))
      ≡ none
    → (b ≡ true) × (c ≡ true) × (d ≡ true) × (e ≡ true) × (f ≡ true) × (x ≡ true)
all_eight a b c d e f g x h = ground arith

external_ok :
    (external tls cert all this : Bool)
    → (not external || (tls && cert && all)) ≡ true
    → (all ≡ true → this ≡ true)
    → (external ≡ false) ⊎ ((cert ≡ true) × (this ≡ true))
external_ok false tls cert all this h f = inl refl
external_ok true tls cert all this h f = inr (ground arith, f (ground arith))

-- Options that pass: the channel pool has between 1 and 4096 channels and no more than channel-max where
-- that is set, both roles have a socket, and with SASL EXTERNAL there is a client certificate and every
-- address that may be dialled starts with amqps://.
pub validate_conn_options_lem :
    (scheme : List ℕ → Option (List ℕ)) (o : ConnOptions) (i : ℕ) (a : List ℕ)
    → validate_conn_options scheme o ≡ none
    → get_elem? (dial_addrs o) i ≡ some a
    → (is_at_least_one o.channel_pool_size ≡ true)
      × (is_at_most o.channel_pool_size 4096 ≡ true)
      × ((nat_eq o.channel_max 0 || is_at_most o.channel_pool_size o.channel_max) ≡ true)
      × (is_at_least_one o.pub_conns ≡ true)
      × (is_at_least_one o.con_conns ≡ true)
      × ((o.is_external ≡ false) ⊎ ((o.has_certificate ≡ true) × (has_prefix a amqps ≡ true)))
unfolding validate_conn_options options_ok
validate_conn_options_lem scheme o i a valid at_i =
    let h =
      all_eight (frame_max_ok o.frame_max) (is_at_least_one o.pub_conns)
        (is_at_least_one o.con_conns) (is_at_least_one o.channel_pool_size)
        (is_at_most o.channel_pool_size channel_pool_size_max)
        (nat_eq o.channel_max 0 || is_at_most o.channel_pool_size o.channel_max)
        (schemes_agree scheme none o.addrs) _ valid in
    (
      h.2,
      h.3,
      h.4,
      h.0,
      h.1,
      external_ok o.is_external o.has_tls_config o.has_certificate (all_amqps (dial_addrs o))
          (has_prefix a amqps) h.5 (λ all. all_amqps-at (dial_addrs o) i a all at_i),
    )

booted_link :
    (rs : List (Err ⊎ ℕ)) (i : ℕ) (l : Link)
    → get_elem? (map first_link rs) i ≡ some l
    → l.is_reconnecting ≡ not (is_present l.raw)
booted_link [] i l h = absurd (ground arith)
booted_link (inl e ∷ rs) zero l h =
    subst (λ (k : Link). k.is_reconnecting ≡ not (is_present k.raw)) {x = first_link (inl e)}
      {y = l} (ground arith) refl
booted_link (inr c ∷ rs) zero l h =
    subst (λ (k : Link). k.is_reconnecting ≡ not (is_present k.raw)) {x = first_link (inr c)}
      {y = l} (ground arith) refl
booted_link (r ∷ rs) (suc i) l h = booted_link rs i l h

abbrev links_of : Err ⊎ List Link → List Link
links_of (inl e) = []
links_of (inr ls) = ls

booted_at :
    (rs : List (Err ⊎ ℕ)) (links : List Link) (i : ℕ) (l : Link)
    → nat_eq (count_connected rs) 0 ≡ false
    → open_pool none rs ≡ inr links
    → get_elem? links i ≡ some l
    → get_elem? (map first_link rs) i ≡ some l
unfolding open_pool
booted_at rs links i l something booted at_i =
    ap (λ xs. get_elem? xs i)
      (ap links_of (sym (if_false (nat_eq (count_connected rs) 0) _ _ something) ∙ booted))
    ∙ at_i

-- A role boots only if one of its sockets has connected; every other one has its barrier up from the
-- start, and whatever signals and rounds its supervisor meets, the supervisor watches no socket that is
-- not there.
pub open_pool-settled :
    (rs : List (Err ⊎ ℕ)) (links : List Link) (i : ℕ) (l : Link) (rounds : List Round)
    (es : List Signal)
    → open_pool none rs ≡ inr links
    → get_elem? links i ≡ some l
    → (nat_eq (count_connected rs) 0 ≡ false)
      × (l.is_reconnecting ≡ not (is_present l.raw))
      × (is_settled (supervise l.is_reconnecting (start l.is_reconnecting l rounds) es) ≡ true)
unfolding open_pool
open_pool-settled rs links i l rounds es booted at_i =
    elim (Bool-cases (nat_eq (count_connected rs) 0)) [
      | inl nothing ↦ cc (nothing, booted)
      | inr something ↦
          let shape = booted_link rs i l (booted_at rs links i l something booted at_i) in
          (something, shape, start-settled l.is_reconnecting l rounds es (ground (arith, shape)))
    ]
