-- ===== src/Cmpp/Registry.antt =====
-- crates/rsms-codec-cmpp/src/registry.rs: the decoder of each command, by version.
use rsms.Wire.Error.{CodecError, invalid_command_id}
use rsms.Common.{ℕ, none, some, List, [], Result, ok, err, ◌>>=◌}
use rsms.Common.Classes.{nat_eq}
use rsms.Common.Dict.{lookup, insert}
use rsms.Wire.Fields.{Get}
use rsms.Cmpp.Command
use rsms.Cmpp.Command.{CommandId, CmppVersion, v20, v30, to_u32}
use rsms.Cmpp.PduHeader.{PduHeader}
use rsms.Cmpp.Pdu.{Pdu}
use rsms.Cmpp.Connect.{decode_connect, decode_connect_resp}
use rsms.Cmpp.Simple.{
  decode_terminate, decode_terminate_resp, decode_active_test, decode_active_test_resp,
}
use rsms.Cmpp.Submit.{decode_submit}
use rsms.Cmpp.Responses.{decode_submit_resp, decode_deliver_resp}
use rsms.Cmpp.Deliver.{decode_deliver}
use rsms.Cmpp.SubmitV20.{decode_submit_v20}
use rsms.Cmpp.DeliverV20.{decode_deliver_v20}
use rsms.Cmpp.Query.{decode_query, decode_query_resp, decode_cancel, decode_cancel_resp}
use rsms.Cmpp.Connect.{decode_connect_resp_v20, connect_resp_from_v20}
use rsms.Cmpp.Responses.{
  decode_submit_resp_v20, decode_deliver_resp_v20, submit_resp_from_v20, deliver_resp_from_v20,
}

abbrev PduDecodeFn : Type 0
PduDecodeFn = PduHeader → List ℕ → Result CodecError Pdu

pub record PduRegistry : Type 0 where
  pub version : CmppVersion
  pub entries : List (ℕ × PduDecodeFn)

-- The closure that `register` makes of a body's `decode` and its conversion into `Pdu`.
abbrev pub decode_fn : {A : Type 0} → (PduHeader → Get CodecError A) → (A → Pdu) → PduDecodeFn
decode_fn decode into h b = decode h b >>= λ (pdu, rest). ok (into pdu)

unfoldable pub register :
    {A : Type 0}
    → CommandId
    → (PduHeader → Get CodecError A)
    → (A → Pdu)
    → PduRegistry
    → PduRegistry
register id decode into r = record r {
  entries = insert (to_u32 id) (decode_fn decode into) r.entries;
}

unfoldable pub register_version : CmppVersion → PduRegistry → PduRegistry
unfolding register
register_version v20 r =
    register Command.connect_resp decode_connect_resp_v20
      (λ p. Pdu.connect_resp (connect_resp_from_v20 p))
      (register Command.deliver_resp decode_deliver_resp_v20
        (λ p. Pdu.deliver_resp (deliver_resp_from_v20 p))
        (register Command.submit_resp decode_submit_resp_v20
          (λ p. Pdu.submit_resp (submit_resp_from_v20 p))
          (register Command.deliver decode_deliver_v20 Pdu.deliver_v20
            (register Command.submit decode_submit_v20 Pdu.submit_v20 r))))
register_version v30 r =
    register Command.deliver decode_deliver Pdu.deliver
      (register Command.submit decode_submit Pdu.submit r)

-- The registrations, the last one outermost.
unfoldable pub register_all_pdus : PduRegistry → PduRegistry
unfolding register register_version
register_all_pdus r = register_version r.version (
    register Command.active_test_resp decode_active_test_resp Pdu.active_test_resp (
      register Command.active_test decode_active_test Pdu.active_test (
        register Command.cancel_resp decode_cancel_resp Pdu.cancel_resp (
          register Command.cancel decode_cancel Pdu.cancel (
            register Command.query_resp decode_query_resp Pdu.query_resp (
              register Command.query decode_query Pdu.query (
                register Command.deliver_resp decode_deliver_resp Pdu.deliver_resp (
                  register Command.submit_resp decode_submit_resp Pdu.submit_resp (
                    register Command.terminate_resp decode_terminate_resp Pdu.terminate_resp (
                      register Command.terminate decode_terminate Pdu.terminate (
                        register Command.connect_resp decode_connect_resp Pdu.connect_resp
                          (register Command.connect decode_connect Pdu.connect r))))))))))))

-- `PduRegistry::new`, also what `for_version` keeps in its cache.
unfoldable pub for_version : CmppVersion → PduRegistry
unfolding register_all_pdus
for_version v = register_all_pdus (record { version = v; entries = [] })

unfoldable pub dispatch : PduRegistry → PduHeader → List ℕ → Result CodecError Pdu
dispatch r h b = elim (lookup (to_u32 h.command_id) r.entries) [
  | none ↦ err (invalid_command_id (to_u32 h.command_id))
  | some decode ↦ decode h b
]
