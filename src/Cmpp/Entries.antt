-- ===== src/Cmpp/Entries.antt =====
-- The decoder that each version registers for each command.
use rsms.Common.{refl}
use rsms.Common.Dict.{lookup, insert}
use rsms.Cmpp.Command
use rsms.Cmpp.Command.{CmppVersion, v20, v30, to_u32}
use rsms.Cmpp.Pdu
use rsms.Cmpp.Pdu.{encode_pdu, command_id, to_pdu_bytes}
use rsms.Cmpp.Registry.{register, register_version, register_all_pdus, for_version, dispatch}
use rsms.Cmpp.Sent.{Entry}
use rsms.Cmpp.Connect.{
  decode_connect, decode_connect_resp, decode_connect_resp_v20, connect_resp_from_v20,
}
use rsms.Cmpp.Simple.{
  decode_active_test, decode_active_test_resp, decode_terminate, decode_terminate_resp,
}
use rsms.Cmpp.Query.{decode_query, decode_query_resp, decode_cancel, decode_cancel_resp}
use rsms.Cmpp.Submit.{decode_submit}
use rsms.Cmpp.Deliver.{decode_deliver}
use rsms.Cmpp.SubmitV20.{decode_submit_v20}
use rsms.Cmpp.DeliverV20.{decode_deliver_v20}
use rsms.Cmpp.Responses.{
  decode_submit_resp, decode_deliver_resp, decode_submit_resp_v20, decode_deliver_resp_v20,
  submit_resp_from_v20, deliver_resp_from_v20,
}

pub Entry-connect : (v : CmppVersion) → Entry v Command.connect decode_connect Pdu.connect
unfolding dispatch for_version register_all_pdus register_version register lookup insert to_u32
Entry-connect v20 total seq b = refl
Entry-connect v30 total seq b = refl

pub Entry-query : (v : CmppVersion) → Entry v Command.query decode_query Pdu.query
unfolding dispatch for_version register_all_pdus register_version register lookup insert to_u32
Entry-query v20 total seq b = refl
Entry-query v30 total seq b = refl

pub Entry-query_resp :
    (v : CmppVersion) → Entry v Command.query_resp decode_query_resp Pdu.query_resp
unfolding dispatch for_version register_all_pdus register_version register lookup insert to_u32
Entry-query_resp v20 total seq b = refl
Entry-query_resp v30 total seq b = refl

pub Entry-cancel : (v : CmppVersion) → Entry v Command.cancel decode_cancel Pdu.cancel
unfolding dispatch for_version register_all_pdus register_version register lookup insert to_u32
Entry-cancel v20 total seq b = refl
Entry-cancel v30 total seq b = refl

pub Entry-cancel_resp :
    (v : CmppVersion) → Entry v Command.cancel_resp decode_cancel_resp Pdu.cancel_resp
unfolding dispatch for_version register_all_pdus register_version register lookup insert to_u32
Entry-cancel_resp v20 total seq b = refl
Entry-cancel_resp v30 total seq b = refl

pub Entry-active_test :
    (v : CmppVersion) → Entry v Command.active_test decode_active_test Pdu.active_test
unfolding dispatch for_version register_all_pdus register_version register lookup insert to_u32
Entry-active_test v20 total seq b = refl
Entry-active_test v30 total seq b = refl

pub Entry-active_test_resp :
    (v : CmppVersion)
    → Entry v Command.active_test_resp decode_active_test_resp Pdu.active_test_resp
unfolding dispatch for_version register_all_pdus register_version register lookup insert to_u32
Entry-active_test_resp v20 total seq b = refl
Entry-active_test_resp v30 total seq b = refl

pub Entry-terminate : (v : CmppVersion) → Entry v Command.terminate decode_terminate Pdu.terminate
unfolding dispatch for_version register_all_pdus register_version register lookup insert to_u32
Entry-terminate v20 total seq b = refl
Entry-terminate v30 total seq b = refl

pub Entry-terminate_resp :
    (v : CmppVersion) → Entry v Command.terminate_resp decode_terminate_resp Pdu.terminate_resp
unfolding dispatch for_version register_all_pdus register_version register lookup insert to_u32
Entry-terminate_resp v20 total seq b = refl
Entry-terminate_resp v30 total seq b = refl

pub Entry-submit_v30 : Entry v30 Command.submit decode_submit Pdu.submit
unfolding dispatch for_version register_all_pdus register_version register lookup insert to_u32
Entry-submit_v30 total seq b = refl

pub Entry-deliver_v30 : Entry v30 Command.deliver decode_deliver Pdu.deliver
unfolding dispatch for_version register_all_pdus register_version register lookup insert to_u32
Entry-deliver_v30 total seq b = refl

pub Entry-submit_v20 : Entry v20 Command.submit decode_submit_v20 Pdu.submit_v20
unfolding dispatch for_version register_all_pdus register_version register lookup insert to_u32
Entry-submit_v20 total seq b = refl

pub Entry-deliver_v20 : Entry v20 Command.deliver decode_deliver_v20 Pdu.deliver_v20
unfolding dispatch for_version register_all_pdus register_version register lookup insert to_u32
Entry-deliver_v20 total seq b = refl

pub Entry-connect_resp_v30 : Entry v30 Command.connect_resp decode_connect_resp Pdu.connect_resp
unfolding dispatch for_version register_all_pdus register_version register lookup insert to_u32
Entry-connect_resp_v30 total seq b = refl

pub Entry-connect_resp_v20 :
    Entry v20 Command.connect_resp decode_connect_resp_v20
      (λ p. Pdu.connect_resp (connect_resp_from_v20 p))
unfolding dispatch for_version register_all_pdus register_version register lookup insert to_u32
Entry-connect_resp_v20 total seq b = refl

pub Entry-submit_resp_v30 : Entry v30 Command.submit_resp decode_submit_resp Pdu.submit_resp
unfolding dispatch for_version register_all_pdus register_version register lookup insert to_u32
Entry-submit_resp_v30 total seq b = refl

pub Entry-submit_resp_v20 :
    Entry v20 Command.submit_resp decode_submit_resp_v20
      (λ p. Pdu.submit_resp (submit_resp_from_v20 p))
unfolding dispatch for_version register_all_pdus register_version register lookup insert to_u32
Entry-submit_resp_v20 total seq b = refl

pub Entry-deliver_resp_v30 : Entry v30 Command.deliver_resp decode_deliver_resp Pdu.deliver_resp
unfolding dispatch for_version register_all_pdus register_version register lookup insert to_u32
Entry-deliver_resp_v30 total seq b = refl

pub Entry-deliver_resp_v20 :
    Entry v20 Command.deliver_resp decode_deliver_resp_v20
      (λ p. Pdu.deliver_resp (deliver_resp_from_v20 p))
unfolding dispatch for_version register_all_pdus register_version register lookup insert to_u32
Entry-deliver_resp_v20 total seq b = refl
