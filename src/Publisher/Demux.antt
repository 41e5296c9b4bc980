-- ===== src/Publisher/Demux.antt =====
-- The goroutine of a publisher channel that takes basic.return and the confirms, startConfirmDemux in
-- publisher.go.
--
-- Both kinds of frame reach one goroutine in the order of the broker, since the channel of returns has
-- no buffer; so it is a step on each frame. The entry of the pool holds the tracker and returnTagMap.
-- The call of OnReturn is noted in `reported`.
pub mod Correlated
use warren.Prelude.{
  bytes_eq, bytes_eq_iff, bytes_Eq, ℤ, pos, negsuc, ℕ, zero, suc, ◌+◌, ◌-◌, ◌*◌, ◌/◌, ◌%◌, ◌^◌, ◌≤◌,
  ◌<◌, min, max, String, ◌≡◌, refl, sym, ap, subst, fun_ext, ◌∙◌, ◌≢◌, ◌↔◌, ◌⊎◌, inl, inr, Bool,
  true, false, not, ◌&&◌, ◌||◌, Option, none, some, List, [], ◌∷◌, ◌++◌, map, arith, ltb, leb,
  nat_eq, if◌then◌else◌, nat_eq_iff, leb_iff, ltb_iff, ltb-false, leb-false, Bool-cases,
  Option-cases, Eq, ◌==◌, nat_Eq, str_eq, str_eq_iff, string_Eq, length, get_elem?, take, drop,
  replicate, length-append, length-drop, drop_all, In, lookup, insert, erase, lookup-insert,
  lookup-erase, if_both, if_true, if_false, ℕ_discrete,
}
use warren.Confirms.{Tracker, ack, nack, close_all, mark_returned, new}

pub record Entry : Type 0 where
  pub tracker : Tracker
  pub return_tag_map : List (String × ℕ)
  pub reported : List String

pub data Frame : Type 0 where
  returned : String → ℕ → Frame
  confirmed : ℕ → Bool → Frame
  returns_closed confirms_closed : Frame

-- LoadAndDelete, and what follows it.
abbrev pub noted : Entry → String → ℕ → Option ℕ → Entry
noted d id code none = d
noted d id code (some tag) = record {
  tracker = mark_returned d.tracker tag code;
  return_tag_map = erase id d.return_tag_map;
  reported = d.reported ++ id ∷ [];
}

unfoldable pub demux : Entry → Frame → Entry
demux d (returned id code) =
    if str_eq id "" then d else noted d id code (lookup id d.return_tag_map)
demux d (confirmed tag true) = record d { tracker = ack d.tracker tag false }
demux d (confirmed tag false) = record d { tracker = nack d.tracker tag false }
demux d returns_closed = d
demux d confirms_closed = record d { tracker = close_all d.tracker }

unfoldable pub demux_all : Entry → List Frame → Entry
unfolding demux
demux_all d [] = d
demux_all d (f ∷ fs) = demux_all (demux d f) fs
