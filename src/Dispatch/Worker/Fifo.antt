-- ===== src/Dispatch/Worker/Fifo.antt =====
-- How a batch reaches the queues of the dialogs.
use sip_event_processor.Prelude.{
  ℕ, ◌≡◌, ◌∙◌, refl, Bool, none, some, List, [], ◌∷◌, ◌++◌, Text, text_eq, text_eq_iff, keep_if,
  append_assoc, append-nil, arith, Bool-cases, Option-cases, inl, inr, if◌then◌else◌,
}
use sip_event_processor.Prelude.Map.{find, find-put}
use sip_event_processor.Sip.Event.{SipEvent}
use sip_event_processor.Dispatch.Worker.State.{DialogContext, Worker}
use sip_event_processor.Dispatch.Worker.Intake.{
  new_context, push_event, handle_new_subscription, accept_subscription, distribute_one, distribute,
}

abbrev pub is_for : Text → SipEvent → Bool
is_for d ev = text_eq ev.dialog_id d

-- A dialog with more events at the end of its queue.
abbrev pub with_events : DialogContext → List SipEvent → DialogContext
with_events ctx evs = record ctx { event_queue = ctx.event_queue ++ evs }

find-push_event :
    (d : Text) (ev : SipEvent) (w : Worker) (ctx : DialogContext)
    → find d w.dialogs ≡ some ctx
    → find d (push_event ev w).dialogs
      ≡ some (if is_for d ev then with_events ctx (ev ∷ []) else ctx)
unfolding push_event
find-push_event d ev w ctx h = elim (Option-cases (find ev.dialog_id w.dialogs)) [
  | inl e ↦ rw (e, push_event) (ground (arith, text_eq_iff ev.dialog_id d))
  | inr (other, e) ↦
      rw (e, push_event)
        (ground (
          arith,
          text_eq_iff ev.dialog_id d,
          find-put ev.dialog_id d (with_events other (ev ∷ [])) w.dialogs,
        ))
]

find-handle_new :
    (d : Text) (now : ℕ) (ev : SipEvent) (w : Worker) (ctx : DialogContext)
    → find d w.dialogs ≡ some ctx
    → find ev.dialog_id w.dialogs ≡ none
    → find d (handle_new_subscription now ev.dialog_id ev w).dialogs ≡ some ctx
unfolding handle_new_subscription accept_subscription
find-handle_new d now ev w ctx h e = ground (
  arith,
  text_eq_iff ev.dialog_id d,
  find-put ev.dialog_id d (new_context now ev.dialog_id ev) w.dialogs,
)

find-distribute_one :
    (d : Text) (now : ℕ) (ev : SipEvent) (w : Worker) (ctx : DialogContext)
    → find d w.dialogs ≡ some ctx
    → find d (distribute_one now ev w).dialogs
      ≡ some (if is_for d ev then with_events ctx (ev ∷ []) else ctx)
unfolding distribute_one
find-distribute_one d now ev w ctx h = ground (
  arith,
  text_eq_iff ev.dialog_id d,
  find-push_event d ev w ctx,
  find-handle_new d now ev w ctx,
  find-push_event d ev (handle_new_subscription now ev.dialog_id ev w) ctx,
)

-- Distributing a batch puts the events of a dialog that is in the table at the end of its queue,
-- all of them, in the order of the batch, and changes nothing else of the dialog.
pub distribute-fifo :
    (d : Text) (now : ℕ) (batch : List SipEvent) (w : Worker) (ctx : DialogContext)
    → find d w.dialogs ≡ some ctx
    → find d (distribute now batch w).dialogs ≡ some (with_events ctx (keep_if (is_for d) batch))
unfolding distribute keep_if
distribute-fifo d now [] w ctx h = h ∙ ground (arith, append-nil ctx.event_queue)
distribute-fifo d now (ev ∷ batch) w ctx h = elim (Bool-cases (is_for d ev)) [
  | inl e ↦ rw e (
      distribute-fifo d now batch (distribute_one now ev w) (with_events ctx (ev ∷ []))
        (find-distribute_one d now ev w ctx h ∙ rw e refl)
      ∙ ground (arith, append_assoc ctx.event_queue (ev ∷ []) (keep_if (is_for d) batch)))
  | inr e ↦ rw e (
      distribute-fifo d now batch (distribute_one now ev w) ctx
        (find-distribute_one d now ev w ctx h ∙ rw e refl))
]
