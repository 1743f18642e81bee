-- ===== src/Capture/Flush.antt =====
-- One flush: a failure gives everything back, unless a newer text came in between.
use falda.Prelude.{
  String, true, false, Option, none, some, ◌≡◌, ◌↔◌, refl, sym, ◌∙◌, inl, inr, arith, str_eq,
  str_eq_iff, str_eq_refl, subst, Bool-cases, Option-cases,
}
use falda.Capture.{
  Text, CaptureFlushQueue, put, record_part, InFlight, is_empty, delivered_text,
  has_deliverable_text, begin_flush, fail_flush, restore_role,
}

-- What a call that goes on to `send` has found, and what it has done.
pub record Begun (id role : String) (q q' : CaptureFlushQueue) (f : InFlight) : Type 0 where
  pub named : f.message_id ≡ id
  pub found : q.pending id ≡ some f.entry
  pub not_flushed : q.flushed_ids id ≡ false
  pub payload : f.text ≡ delivered_text f.entry
  pub worth_sending : is_empty f.text ≡ false
  pub as_role : f.role ≡ role
  pub prior : f.prior_settled_role ≡ q.settled_role id
  pub pending : q'.pending ≡ put id none q.pending
  pub settled_role : q'.settled_role ≡ put id none q.settled_role
  pub flushed_ids : q'.flushed_ids ≡ put id true q.flushed_ids

module _ (id role : String) (q : CaptureFlushQueue) where
  pub begin_flush-Begun :
      (q' : CaptureFlushQueue) (f : InFlight)
      → begin_flush id role q ≡ some (q', f)
      → Begun id role q q' f
  unfolding begin_flush
  begin_flush-Begun q' f h = elim (Option-cases (q.pending id)) [
    | inl e ↦ ground arith
    | inr (entry, e) ↦ elim (Bool-cases (q.flushed_ids id)) [
      | inl t ↦ ground arith
      | inr n ↦ elim (Bool-cases (is_empty (delivered_text entry))) [
        | inl b ↦ ground arith
        | inr w ↦
            subst (λ (r : CaptureFlushQueue × InFlight). Begun id role q r.0 r.1) (ground arith)
              (record {
                named = refl;
                found = e;
                not_flushed = n;
                payload = refl;
                worth_sending = w;
                as_role = refl;
                prior = refl;
                pending = refl;
                settled_role = refl;
                flushed_ids = refl;
              })
      ]
    ]
  ]

  -- A flush goes on to `send` exactly when the queue says that the message has deliverable text.
  pub begin_flush-has_deliverable_text :
      (begin_flush id role q ≡ none) ↔ (has_deliverable_text id q ≡ false)
  unfolding begin_flush has_deliverable_text
  begin_flush-has_deliverable_text = (λ h. ground arith, λ h. ground arith)

-- Two queues that answer every question alike.
pub record IsSame (q r : CaptureFlushQueue) : Type 0 where
  pub pending : (id : String) → q.pending id ≡ r.pending id
  pub settled_role : (id : String) → q.settled_role id ≡ r.settled_role id
  pub flushed_ids : (id : String) → q.flushed_ids id ≡ r.flushed_ids id

put_back :
    {A : Type 0} (id j : String) (v w : A) (m : String → A)
    → m id ≡ v
    → put id v (put id w m) j ≡ m j
put_back id j v w m h = elim (Bool-cases (str_eq j id)) [
  | inl t ↦ rw t (rw ((str_eq_iff j id).0 t) (sym h))
  | inr n ↦ rw n
]

module _ (id role : String) (q q' : CaptureFlushQueue) (f : InFlight)
    (begun : begin_flush id role q ≡ some (q', f)) where
  -- If `send` fails and nothing came in between, the queue answers as before the flush: the text
  -- is pending, the role is settled if it was, and the message is not flushed.
  pub fail_flush-IsSame : IsSame (fail_flush f q') q
  unfolding fail_flush
  fail_flush-IsSame = record {
    pending = λ j. rw (b.named, b.pending) (put_back id j (some f.entry) none q.pending b.found);
    settled_role = λ j. roles j f.prior_settled_role refl;
    flushed_ids =
        λ j. rw (b.named, b.flushed_ids) (put_back id j false true q.flushed_ids b.not_flushed);
  }
    where
      b : Begun id role q q' f
      b = begin_flush-Begun id role q q' f begun

      roles :
          (j : String) (p : Option String)
          → f.prior_settled_role ≡ p
          → restore_role f.message_id p q'.settled_role j ≡ q.settled_role j
      roles j none e = rw b.settled_role (untouched (sym b.prior ∙ e))
        where
          untouched : q.settled_role id ≡ none → put id none q.settled_role j ≡ q.settled_role j
          untouched h = elim (Bool-cases (str_eq j id)) [
            | inl t ↦ rw t (rw ((str_eq_iff j id).0 t) (sym h))
            | inr n ↦ rw n
          ]
      roles j (some r) e =
          rw (b.named, b.settled_role)
            (put_back id j (some r) none q.settled_role (sym b.prior ∙ e))

  -- A text that arrives while `send` is under way is lost if `send` fails: the older one that the
  -- flush had taken is put back over it.
  pub fail_flush_overwrites :
      (session_id : String) (text : Text)
      → (fail_flush f (record_part id session_id text q')).pending id ≡ some f.entry
  unfolding fail_flush
  fail_flush_overwrites session_id text =
      let b = begin_flush-Begun id role q q' f begun in rw (b.named, str_eq_refl id)
