-- ===== src/Conn/Dispatch/Tests.antt =====
-- Runs of the inbound calls of infrastructure/peer/conn/dispatch.go at a concrete session.
use pluginprotocol.Conn.Dispatch.Gates.{open_call_gate}
use pluginprotocol.Conn.Dispatch.Openings.{Declined, OneMore}
use pluginprotocol.Conn.Dispatch.Inbound.{open_call}
use pluginprotocol.Conn.Samples.{ports, busy}
use pluginprotocol.Conn.Session.{Session, Serving}
use pluginprotocol.Prelude.{ℕ, ◌⊎◌, [], ◌∷◌, Bytes, codes}

open_call_gate_example :
    Declined ports busy 4 [] (open_call ports busy 4 [])
    ⊎ OneMore ports busy 4 [] (open_call ports busy 4 [])
open_call_gate_example = open_call_gate ports busy 4 []

abbrev echoing : Serving Bytes
echoing = record {
  stream_id = 2;
  prepared = 6 ∷ [];
  request = record { method = codes "echo"; payload = 6 ∷ []; from = [] };
}

abbrev serving_call : Session Bytes ℕ Bytes ℕ
serving_call = record busy { serving = (3, echoing) ∷ [] }
