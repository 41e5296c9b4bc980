-- ===== src/Delivery/Mapping.antt =====
-- How AckIf maps a handler's error, and the broker's answer, delivery.go.
use warren.Prelude.{
  ℕ, ◌≡◌, true, false, Option, none, some, [], ◌∷◌, arith, if◌then◌else◌, nat_Eq, string_Eq,
}
use warren.Errors.{
  Err, sentinel, channel_closed, already_closed, already_resolved, errors_is, requeue,
  is_amqp_closed,
}
use warren.Delivery.{
  Frame, Delivery, ack_frame, nack_frame, ack, nack, ack_if, is_shut, map_ack_err,
}

-- What the verdict of a handler's error is.
abbrev pub verdict_frame : Option Err → ℕ → Frame
verdict_frame none n = ack_frame n false
verdict_frame (some e) n = nack_frame n false (errors_is e requeue)

abbrev pub reported : Option Err → Option Err
reported none = none
reported (some e) = some (if is_amqp_closed e then sentinel channel_closed else e)

-- AckIf on an open delivery of a running consumer sends one frame: an ack for nil, a nack that
-- requeues for an error with ErrRequeue in its chain, and a nack that does not for any other. It
-- reports the broker's answer with amqp091.ErrClosed turned into ErrChannelClosed, and tells the
-- batch only when the broker took the frame. After a shutdown it sends nothing and reports
-- ErrAlreadyClosed, and on a resolved delivery nothing and ErrAlreadyResolved.
pub ack_if_lem :
    (handler reply : Option Err) (d : Delivery)
    → let s = ack_if handler reply d in
      if is_shut d
      then ((s.frames ≡ []) × (s.error ≡ some (sentinel already_closed)) × (s.delivery ≡ d))
      else if d.resolved
      then ((s.frames ≡ []) × (s.error ≡ some (sentinel already_resolved)) × (s.delivery ≡ d))
      else ((s.frames ≡ verdict_frame handler d.tag ∷ [])
          × (s.error ≡ reported reply)
          × (s.notified ≡ (elim reply [ none ↦ d.notifies | some e ↦ false ]))
          × (s.delivery.resolved ≡ true))
unfolding ack_if ack nack map_ack_err
ack_if_lem none none d = ground arith
ack_if_lem none (some r) d = ground arith
ack_if_lem (some e) none d = ground arith
ack_if_lem (some e) (some r) d = ground arith
