-- ===== src/Rpc/Protocol/FirstCall.antt =====
-- From a new connection to the result of a method: the handshake, and a call over it.
use smoljudge.Prelude.{
  ℕ, zero, suc, ◌+◌, ◌*◌, ◌^◌, ◌<◌, ◌≤◌, ◌≡◌, refl, sym, ap, subst, ◌∙◌, true, List, [], ◌∷◌,
  length, get_elem?, ◌==◌, some, arith,
}
use smoljudge.Prelude.Dict.{text_eq}
use smoljudge.Prelude.Outcome.{ok}
use smoljudge.Prelude.Run.{Run, done}
use smoljudge.Prelude.Text.{Text}
use smoljudge.Wire.TypeString.{signature_string}
use smoljudge.Wire.Types.{Bytes, Fields, IsFields, FieldsHoldFirst}
use smoljudge.Messages.{client_hello_bytes}
use smoljudge.Messages.Laws.{IsClientHello}
use smoljudge.Socket.{Socket, Peer, calls, writes, quiet, resume, on_data}
use smoljudge.Rpc.Session.{Session, Endpoint, PromiseId}
use smoljudge.Rpc.Session.Responses.{UserKeeps, IsIssued}
use smoljudge.Rpc.Reflection.{Result, returns, result_bytes, typed_method, proxy_args, proxy_result}
use smoljudge.Rpc.Reflection.Calls.{IsSendable}
use smoljudge.Rpc.Server.{Server, new_server, callbacks}
use smoljudge.Rpc.Server.Table.{IsTable}
use smoljudge.Rpc.Client.{
  ClientState, ClientPeer, ClientSpec, send_greeting, invoke_server, client_callbacks,
}
use smoljudge.Rpc.Agreement.Calls.{replied, invoke_server-on_data}
use smoljudge.Rpc.Protocol.{
  Announcement, Protocol, Member, announced_impl, generic_impls, server_of,
}
use smoljudge.Rpc.Protocol.Greeting.{IsNew, server, spec, greeting, on_data-send_greeting}
use smoljudge.Rpc.Protocol.Lists.{DistinctAnnouncements, generic_impls-map, get_elem?-map}

get_elem?-length :
    {A : Type 0} (xs : List A) (i : ℕ) (x : A) → get_elem? xs i ≡ some x → i < length xs
get_elem?-length [] i x at = cc
get_elem?-length (y ∷ xs) zero x at = omega arith
get_elem?-length (y ∷ xs) (suc i) x at = omega (arith, get_elem?-length xs i x at)

-- A member function with the types of its announcement, which computes its result.
abbrev pub computes : {S : Type 0} (a : Announcement) → (Fields a.args → Result a.ret) → Member S
computes a f = record { ret = a.ret; args = a.args; body = λ args p. returns (f args) p }

module _ {O : Type 0} (P Q : Protocol) (member : Text → Member (Endpoint O))
    (set_promise : PromiseId → Bytes → Peer (Endpoint O) → Run (Peer (Endpoint O)))
    (client_member : Text → Member (Endpoint ClientState))
    (set_client_promise : PromiseId
      → Bytes
      → Peer (Endpoint ClientState)
      → Run (Peer (Endpoint ClientState)))
    (server_distinct : DistinctAnnouncements P.announcements)
    (client_distinct : DistinctAnnouncements Q.announcements) where
  abbrev pub here : Server O
  here =
      server P Q member set_promise client_member set_client_promise server_distinct client_distinct

  abbrev pub there : ClientSpec
  there =
      spec P Q member set_promise client_member set_client_promise server_distinct client_distinct

  listed :
      (k : ℕ) (a : Announcement) (f : Fields a.args → Result a.ret)
      → get_elem? P.announcements k ≡ some a
      → member a.method_name ≡ computes a f
      → get_elem? (here).user.methods k
        ≡ some (
            typed_method a.method_name
              (signature_string a.ret a.args)
              a.args
              a.ret
              (computes a f).body)
  unfolding server_of announced_impl new_server
  listed k a f at is =
      ap (λ methods. get_elem? methods k) (generic_impls-map member P)
      ∙ get_elem?-map (announced_impl member) P.announcements k a at
      ∙ ap
          (λ (m : Member (Endpoint O)).
            some (typed_method a.method_name (signature_string a.ret a.args) m.args m.ret m.body))
          is

  -- On a new connection between two ends that are made of the same two protocols the handshake
  -- comes to its end, and then a call of any method of the server's protocol comes back with the
  -- very value that the method computes from the arguments of the call: the hello, its answer,
  -- the request and the reply each reach the other end as the bytes that were written. The
  -- sockets are connected, the client holds its own, no call waited before, nothing is known of
  -- the client yet, what the client knew of the server is right, and its promises that wait are
  -- of ids given out, of which not all are spent. The names in each protocol are distinct, that
  -- of the server has at most 2042 methods, and the method returns at once. Hellos, arguments and
  -- result are in range and in the bounds on their sizes, and the variants in them hold their
  -- first alternatives. The code of the users does not take back that the handshake is finished.
  pub invoke_server-send_greeting :
      UserKeeps (here).user
      → UserKeeps (there).user
      → IsClientHello (
          greeting P Q member set_promise client_member set_client_promise server_distinct
            client_distinct)
      → length (
          client_hello_bytes (
            greeting P Q member set_promise client_member set_client_promise server_distinct
              client_distinct))
        ≤ 8 * 1024
      → length P.announcements ≤ 2042
      → (c : ClientPeer) (p : Peer (Endpoint O)) → IsNew c.socket
      → IsNew p.socket
      → c.owner.state.has_sock ≡ true
      → c.owner.state.pending_messages ≡ []
      → IsTable (generic_impls member P) c.owner.session.ids_of_methods
      → IsIssued c.owner.session
      → c.owner.session.next_message_id + 1 < 2 ^ 64
      → p.owner.session.ids_of_methods ≡ []
      → (k : ℕ) (a : Announcement) (f : Fields a.args → Result a.ret) (args : Fields a.args)
      → get_elem? P.announcements k ≡ some a
      → member a.method_name ≡ computes a f
      → IsFields a.args args
      → FieldsHoldFirst a.args args
      → 24 + length (proxy_args a.args args) < 2 ^ 32
      → IsSendable a.ret (f args)
      → 24 + length (result_bytes a.ret (f args)) < 2 ^ 32
      → let id = c.owner.session.next_message_id in
        (hello : Bytes) × (reply : Bytes) × (asked : Bytes) × (answer : Bytes) × (result : Bytes)
        × (c1 : ClientPeer) × (p1 : Peer (Endpoint O)) × (c2 : ClientPeer) × (c3 : ClientPeer)
        × (c4 : ClientPeer) × (send_greeting there c ≡ done c1)
        × (c1.socket ≡ calls (writes hello) c.socket)
        × (on_data (callbacks here) hello (quiet p) ≡ done (quiet p1))
        × (p1.socket ≡ calls (writes reply) (record p.socket { handshake_finished = true }))
        × (on_data (client_callbacks there) reply (quiet c1) ≡ done (quiet c2))
        × (invoke_server a.method_name (proxy_args a.args args) c2 ≡ done c3)
        × (c3.socket ≡ calls (writes asked) c2.socket)
        × (on_data (callbacks here) asked (quiet p1) ≡ done (quiet (replied p1 answer)))
        × (on_data (client_callbacks there) answer (quiet c3)
            ≡ resume [] ((there).user.set_promise id result c4) (λ r. done (quiet r)))
        × (proxy_result a.ret result ≡ ok (f args))
  unfolding calls
  invoke_server-send_greeting server_keeps client_keeps valid small few c p new_client new_peer has
        none_waits table issued room none_yet k a f args at is fits first short sendable little =
      let (
        hello, reply, c1, p1, c2, sent, wrote, served, written, numbered, taken, finished, flushed,
        empty, known, up, sock, session,
      ) =
        on_data-send_greeting P Q member set_promise client_member set_client_promise
          server_distinct client_distinct server_keeps client_keeps valid small few c p new_client
          new_peer table (rw none_waits tt) none_yet in
      let next : c2.owner.session.next_message_id ≡ c.owner.session.next_message_id =
        ap (λ (s : Session). s.next_message_id) session in
      let (asked, answer, result, c3, c4, called, wrote_call, ran, came, same, others, read) =
        invoke_server-on_data here there k a.method_name (signature_string a.ret a.args) a.args
          a.ret (computes a f).body (listed k a f at is) server_keeps client_keeps c2 p1 p1
          a.method_name args (f args) (sock ∙ has) finished up (known k a at)
          (subst IsIssued (sym session) issued) (rw next room)
          (omega (arith, few, get_elem?-length P.announcements k a at)) fits first short
          (ap (λ (s : Socket). s.handshake_finished) written) refl
          (ap (λ (s : Socket). s.is_connected) written ∙ new_peer.0)
          (ap (λ (s : Socket). s.holders == 0) written ∙ new_peer.2) sendable little in
      (
        hello,
        reply,
        asked,
        answer,
        result,
        c1,
        p1,
        c2,
        c3,
        c4,
        sent,
        wrote,
        served,
        written,
        taken,
        called,
        wrote_call,
        ran,
        subst
            (λ id.
              on_data (client_callbacks there) answer (quiet c3)
              ≡ resume [] ((there).user.set_promise id result c4) (λ r. done (quiet r)))
            next came,
        read,
      )
