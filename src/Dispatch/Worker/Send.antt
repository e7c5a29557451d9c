-- ===== src/Dispatch/Worker/Send.antt =====
-- The worker's SIP responses and NOTIFY requests.
use sip_event_processor.Prelude.{
  ℕ, ◌+◌, ◌%◌, ◌^◌, true, ◌&&◌, Option, none, some, ◌++◌, Text, codes, is_empty, to_string,
  int_to_string, is_positive, ltb, leb, if◌then◌else◌,
}
use sip_event_processor.Types.{SubscriptionType, SubLifecycle, subscription_type_to_event_header}
use sip_event_processor.Sip.Event.{SipEvent}
use sip_event_processor.Subscription.Record.{SubscriptionRecord}
use sip_event_processor.Dispatch.World.{
  respond_to_subscribe, send_notify, handle_unref, sip_call, delete_later, persist_record,
  deindex_blf_subscription,
}
use sip_event_processor.Dispatch.Worker.State.{Scene}

-- The handle of a dialog that can be answered: the stack is there and the handle is not null.
abbrev pub open_handle : Scene → Option ℕ
open_handle s = if s.shared.world.has_stack then s.ctx.nua_handle else none

unfoldable pub send_subscribe_response : SipEvent → ℕ → Text → Scene → Scene
send_subscribe_response event status phrase s = elim (open_handle s) [
  | none ↦ s
  | some nh ↦
      let expires = if leb 400 status then 0 else event.expires in
      record s {
        shared = record s.shared {
          world = sip_call (respond_to_subscribe nh status phrase expires) s.shared.world;
          stats = record s.shared.stats {
            subscribe_responses_sent = s.shared.stats.subscribe_responses_sent + 1;
          };
        };
      }
]

unfoldable pub send_sip_notify : Text → Text → Text → Scene → Scene
send_sip_notify content_type body sub_state s = elim (open_handle s) [
  | none ↦ s
  | some nh ↦ elim (subscription_type_to_event_header s.ctx.rec.type) [
    | none ↦ s
    | some event_type ↦ record {
      ctx = record s.ctx {
        rec = record s.ctx.rec { notify_cseq = (s.ctx.rec.notify_cseq + 1) % 2 ^ 32 };
      };
      shared = record s.shared {
        world = sip_call (send_notify nh event_type content_type body sub_state) s.shared.world;
        stats = record s.shared.stats { notify_sent = s.shared.stats.notify_sent + 1 };
      };
    }
  ]
]

-- A dialog-info document with no dialog in it.
abbrev pub empty_dialog_info : Text → Text → Text
empty_dialog_info version uri =
    codes
      "<?xml version=\"1.0\" encoding=\"UTF-8\"?>\n<dialog-info xmlns=\"urn:ietf:params:xml:ns:dialog-info\"\n  version=\""
    ++ (version
        ++ (codes "\"\n  state=\"full\"\n  entity=\"" ++ (uri ++ codes "\">\n</dialog-info>\n")))

abbrev pub dialog_info_type : Text
dialog_info_type = codes "application/dialog-info+xml"

abbrev pub summary_type : Text
summary_type = codes "application/simple-message-summary"

unfoldable pub summary_body : SubscriptionRecord → Text
summary_body rec =
    codes "Messages-Waiting: "
    ++ ((if is_positive rec.mwi_new_messages then codes "yes" else codes "no")
        ++ (codes "\r\nMessage-Account: "
            ++ (rec.mwi_account_uri
                ++ (codes "\r\nVoice-Message: "
                    ++ (int_to_string rec.mwi_new_messages
                        ++ (codes "/" ++ (int_to_string rec.mwi_old_messages ++ codes "\r\n")))))))

-- The bodies are never empty, but for a type with no body.
unfoldable pub send_initial_notify : Scene → Scene
send_initial_notify s = elim (open_handle s) [
  | none ↦ s
  | some nh ↦ elim s.ctx.rec.type [
    | SubscriptionType.blf ↦
        send_sip_notify dialog_info_type
          (if is_empty s.ctx.rec.blf_last_notify_body
            then empty_dialog_info (codes "0") s.ctx.rec.blf_monitored_uri
            else s.ctx.rec.blf_last_notify_body)
          (codes "active") s
    | SubscriptionType.mwi ↦
        send_sip_notify summary_type (summary_body s.ctx.rec) (codes "active") s
    | SubscriptionType.unknown ↦ s
  ]
]

-- The final NOTIFY, with the version that the document names.
unfoldable pub send_final_notify : ℕ → Scene → Scene
send_final_notify version s = elim s.ctx.rec.type [
  | SubscriptionType.blf ↦
      send_sip_notify dialog_info_type
        (empty_dialog_info (to_string version) s.ctx.rec.blf_monitored_uri) (codes "terminated") s
  | SubscriptionType.mwi ↦
      send_sip_notify summary_type (codes "Messages-Waiting: no\r\n") (codes "terminated") s
  | SubscriptionType.unknown ↦ s
]

unfoldable pub release_nua_handle : Scene → Scene
release_nua_handle s = elim s.ctx.nua_handle [
  | none ↦ s
  | some nh ↦ record {
    ctx = record s.ctx { nua_handle = none };
    shared = record s.shared { world = sip_call (handle_unref nh) s.shared.world };
  }
]

-- Deindex, terminate, save and delete.
unfoldable pub handle_notify_response : Text → SipEvent → Scene → Scene
handle_notify_response did event s =
    let rec' : SubscriptionRecord = record s.ctx.rec { lifecycle = SubLifecycle.terminated } in
    if leb 200 event.status && ltb event.status 300
    then s
    else if leb 400 event.status
    then record {
      ctx = record s.ctx { rec = rec' };
      shared = record s.shared {
        world =
            delete_later did
              (persist_record rec' true (deindex_blf_subscription did s.ctx.rec s.shared.world));
        stats = record s.shared.stats { notify_errors = s.shared.stats.notify_errors + 1 };
      };
    }
    else s
