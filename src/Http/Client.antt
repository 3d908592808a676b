-- ===== src/Http/Client.antt =====
-- `fortai_close_client` of src/server/fortai_http_server.c, which serves one connection: the
-- request is read, dispatched and answered, and the connection is closed. The mutex around the
-- dispatch makes it one step.
pub mod Refusal
use fortai.Prelude.{ℕ, Bool, Option, none, some, List, []}
use fortai.Libc.{Bytes}
use fortai.Http.Access.{Env, Files}
use fortai.Http.Socket.{SendOutcome, RecvOutcome, read_request}
use fortai.Http.Reply.{Handler, dispatch_request}

-- The result of the dispatch is not used; its bytes are on the wire.
abbrev pub wire_of : Option (Bytes × Bool) → Option Bytes
wire_of none = none
wire_of (some (wire, sent)) = some wire

-- The state of the native handler, and what the client has got before its connection is closed;
-- nothing if the outcomes of the allocations run out.
unfoldable pub close_client :
    {S : Type 0}
    → Env
    → Files
    → Handler S
    → List Bool
    → S
    → List RecvOutcome
    → Bytes
    → List SendOutcome
    → List SendOutcome
    → S × Option Bytes
close_client {S} env files handler memory s outcomes stream for_header for_body =
    elim (read_request outcomes stream) as (λ _. S × Option Bytes) [
      | none ↦ (s, some [])
      | some request ↦
          let r = dispatch_request env files handler memory s request for_header for_body in
          (r.0, wire_of r.1)
    ]
