-- ===== src/Capture/Examples.antt =====
-- A turn that is sent, one whose send fails, and one that is updated meanwhile.
use falda.Prelude.{
  ◌≤◌, true, false, Option, none, some, [], ◌∷◌, ◌≡◌, ◌↔◌, refl, count_where, str_eq,
}
use falda.Capture.{
  Text, CaptureFlushQueue, InFlight, record_part, set_settled_role, begin_flush, fail_flush,
  has_deliverable_text, delivered_text, is_space,
}
use falda.Capture.Flush.{begin_flush-has_deliverable_text, fail_flush_overwrites}
use falda.Capture.Delivery.{
  Session, Reach, here, next, part, begin, succeed, fresh, is_for, delivered_at_most_once,
}

abbrev hello : Text
hello = b'h' ∷ b'i' ∷ 0x0a ∷ []

abbrev longer : Text
longer = b'h' ∷ b'i' ∷ b'!' ∷ []

program : Unit {0}
unfolding record_part set_settled_role begin_flush fail_flush has_deliverable_text delivered_text
program = tt

abbrev noted : CaptureFlushQueue
noted = record_part "m1" "s1" hello fresh.queue

abbrev sent : Option (CaptureFlushQueue × InFlight)
sent = begin_flush "m1" "user" noted

abbrev queue_of : Option (CaptureFlushQueue × InFlight) → CaptureFlushQueue
queue_of none = fresh.queue
queue_of (some (q, f)) = q

abbrev held_of : Option (CaptureFlushQueue × InFlight) → InFlight
held_of none = record {
  message_id = "";
  role = "";
  entry = record { session_id = ""; text = [] };
  text = [];
  prior_settled_role = none;
}
held_of (some (q, f)) = f

sends : begin_flush "m1" "user" noted ≡ some (queue_of sent, held_of sent)
unfolding program
sends = refl

trimmed : (held_of sent).text ≡ b'h' ∷ b'i' ∷ []
unfolding program is_space
trimmed = refl

begin_flush-has_deliverable_text_example :
    (begin_flush "m1" "user" noted ≡ none) ↔ (has_deliverable_text "m1" noted ≡ false)
begin_flush-has_deliverable_text_example = begin_flush-has_deliverable_text "m1" "user" noted

fail_flush_overwrites_example :
    (fail_flush (held_of sent) (record_part "m1" "s1" longer (queue_of sent))).pending "m1"
    ≡ some (held_of sent).entry
fail_flush_overwrites_example =
    fail_flush_overwrites "m1" "user" noted (queue_of sent) (held_of sent) sends "s1" longer

abbrev at_send : Session
at_send = record { queue = queue_of sent; in_flight = held_of sent ∷ []; delivered = [] }

abbrev at_end : Session
at_end = record {
  queue = queue_of sent;
  in_flight = [];
  delivered = (held_of sent).message_id ∷ [];
}

delivery : Reach fresh at_end
delivery =
    next
      (next (next here (part fresh "m1" "s1" hello))
        (begin _ "m1" "user" (queue_of sent) (held_of sent) sends))
      (succeed at_send [] [] (held_of sent) refl)

delivered_at_most_once_example :
    (count_where (str_eq "m1") at_end.delivered ≤ 1)
    × (1 ≤ count_where (str_eq "m1") at_end.delivered
        → (count_where (is_for "m1") at_end.in_flight ≡ 0) × (at_end.queue.flushed_ids "m1" ≡ true))
delivered_at_most_once_example = delivered_at_most_once at_end "m1" delivery
