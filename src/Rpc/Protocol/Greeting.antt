-- ===== src/Rpc/Protocol/Greeting.antt =====
-- The handshake of two ends that are made of the same two protocols, over the bytes of both hellos.
use smoljudge.Prelude.{
  ℕ, ◌+◌, ◌*◌, ◌≤◌, ◌≡◌, refl, ap, ◌∙◌, true, false, [], ◌++◌, map, length, get_elem?, ◌==◌, some,
  All, arith,
}
use smoljudge.Prelude.Dict.{Dict, text_eq}
use smoljudge.Prelude.Int.{ℤ, pos}
use smoljudge.Prelude.Run.{Run, done}
use smoljudge.Prelude.Text.{Text}
use smoljudge.Wire.Integers.{to_pattern}
use smoljudge.Wire.Types.{Bytes}
use smoljudge.Messages.{
  ClientHello, client_hello_bytes, server_hello_bytes, seal_client_hello, seal_server_hello,
}
use smoljudge.Messages.Laws.{
  IsClientHello, read_client_hello-client_hello_bytes, read_server_hello-server_hello_bytes,
}
use smoljudge.Socket.{
  Socket, Peer, quiet, writes, calls, write, mark_finished, is_smol, to_lower, on_data,
}
use smoljudge.Socket.Greeting.{on_data-IsGreeting}
use smoljudge.Rpc.Session.{Endpoint, User, Method, MethodImpl, PromiseId, with_session}
use smoljudge.Rpc.Session.Responses.{UserKeeps}
use smoljudge.Rpc.Reflection.{typed_method}
use smoljudge.Rpc.Server.{
  Server, callbacks, set_ids, on_incoming_handshake, magic_eq, int_eq, upper_magic, lower_magic,
}
use smoljudge.Rpc.Server.Acceptance.{on_incoming_handshake_accepts}
use smoljudge.Rpc.Server.Calls.{callbacks-KeepsFinished}
use smoljudge.Rpc.Server.Ends.{answered}
use smoljudge.Rpc.Server.Handshake.{Answers, match_server_methods-Answers}
use smoljudge.Rpc.Server.Table.{IsTable, DistinctNames}
use smoljudge.Rpc.Client.{
  ClientState, ClientPeer, ClientSpec, named, named_impl, assign_ids, is_refused, greeting_of,
  send_greeting, client_callbacks,
}
use smoljudge.Rpc.Client.Greeting.{requests, flushed, on_client_handshake-flushed}
use smoljudge.Rpc.Client.Refusal.{client_callbacks-KeepsFinished}
use smoljudge.Rpc.Agreement.{Reaches, is_refused-match_server_methods}
use smoljudge.Rpc.Protocol.{
  Protocol, Member, generic_methods, announced_impl, generic_impls, server_of, client_of,
}
use smoljudge.Rpc.Protocol.Hellos.{
  seal_client_hello-IsGreeting, seal_client_hello-IsClientHello, answer, answer-IsGreeting,
  answer-IsServerHello,
}
use smoljudge.Rpc.Protocol.Lists.{
  DistinctAnnouncements, method_of, key_of, generic_methods-map, generic_impls-map, named_impl-map,
  named-map, get_elem?-map, get_elem?-map_back, methods-DistinctMethods, impls-DistinctNames,
  keys-DistinctKeys, positions, positions-Answers,
}
use smoljudge.Rpc.Protocol.Numbers.{IsNumbered, Provided-IsNumbered, IsAnnounced, IsNumbered-All}

-- A connected socket that has had no handshake.
abbrev pub IsNew : Socket → Type 0
IsNew s = (s.is_connected ≡ true) × (s.handshake_finished ≡ false) × (s.holders == 0 ≡ false)

module _ {O : Type 0} (P Q : Protocol) (member : Text → Member (Endpoint O))
    (set_promise : PromiseId → Bytes → Peer (Endpoint O) → Run (Peer (Endpoint O)))
    (client_member : Text → Member (Endpoint ClientState))
    (set_client_promise : PromiseId
      → Bytes
      → Peer (Endpoint ClientState)
      → Run (Peer (Endpoint ClientState)))
    (server_distinct : DistinctAnnouncements P.announcements)
    (client_distinct : DistinctAnnouncements Q.announcements) where
  abbrev pub server : Server O
  server = server_of P member Q set_promise

  abbrev pub spec : ClientSpec
  spec = client_of P Q client_member set_client_promise

  abbrev pub greeting : ClientHello
  greeting = greeting_of spec

  abbrev n : ℕ
  n = length P.announcements

  methods-DistinctNames : DistinctNames (generic_impls member P)
  methods-DistinctNames =
      rw (generic_impls-map member P) (impls-DistinctNames P.announcements server_distinct member)

  requests-Answers :
      Answers (generic_impls member P) (map named (generic_methods P)) (positions 0 n)
  requests-Answers =
      rw (generic_impls-map member P, generic_methods-map P, named-map P.announcements)
        (positions-Answers member (map (announced_impl member) P.announcements) P.announcements 0
          (λ k a at.
            rw (zero_plus k) (get_elem?-map (announced_impl member) P.announcements k a at)))
    where
      zero_plus : (k : ℕ) → 0 + k ≡ k
      zero_plus k = omega arith

  advertised-map : map named_impl (generic_impls client_member Q) ≡ map key_of Q.announcements
  advertised-map =
      rw (generic_impls-map client_member Q) (named_impl-map client_member Q.announcements)

  on_incoming_handshake-greeting :
      IsClientHello greeting
      → (p : Peer (Endpoint O)) → p.socket.is_connected ≡ true
      → p.owner.session.ids_of_methods ≡ []
      → (ids : Dict Text ℤ) × (on_incoming_handshake server
            (client_hello_bytes (seal_client_hello greeting))
            p
          ≡ done (answered [] (positions 0 n) (set_ids ids p)))
        × IsNumbered Q.announcements ids
  unfolding server_of client_of greeting_of seal_client_hello magic_eq int_eq
  on_incoming_handshake-greeting valid p up none_yet =
      let (ids, run, provided) =
        on_incoming_handshake_accepts P.name Q.name (generic_methods Q)
          (record { methods = generic_impls member P; set_promise = set_promise })
          (client_hello_bytes (seal_client_hello greeting)) (seal_client_hello greeting)
          (positions 0 n) p
          (read_client_hello-client_hello_bytes (seal_client_hello greeting)
            (seal_client_hello-IsClientHello greeting valid))
          up none_yet refl refl refl (methods-DistinctNames) (requests-Answers)
          (rw advertised-map (keys-DistinctKeys Q.announcements client_distinct))
          (rw (generic_methods-map Q) (methods-DistinctMethods Q.announcements client_distinct))
          (rw (advertised-map, generic_methods-map Q)
            λ k m at.
              let (a, here, e) = get_elem?-map_back method_of Q.announcements k m at in
              (
                k,
                get_elem?-map key_of Q.announcements k a here
                    ∙ ap (λ (m : Method). some (m.name, m.signature)) e,
              )) in
      (
        ids,
        run,
        Provided-IsNumbered Q.announcements ids client_distinct
            (rw (advertised-map, generic_methods-map Q) at provided),
      )

  -- The ids that the client has after the answer.
  abbrev known_after : ClientPeer → Dict Text ℤ
  known_after c = assign_ids (generic_methods P) (positions 0 n) c.owner.session.ids_of_methods

  answer-Reaches :
      (c : ClientPeer)
      → IsTable (generic_impls member P) c.owner.session.ids_of_methods
      → (is_refused spec (seal_server_hello (answer n)) ≡ false)
        × ((k : ℕ) (m : Method)
            → get_elem? (generic_methods P) k ≡ some m
            → Reaches (generic_impls member P) (known_after c) m)
  unfolding client_of greeting_of
  answer-Reaches c table =
      let user : User (Endpoint O) = record {
        methods = generic_impls member P;
        set_promise = set_promise;
      } in
      is_refused-match_server_methods P.name Q.name (generic_methods Q) user spec (positions 0 n)
        c.owner.session.ids_of_methods methods-DistinctNames table
        (match_server_methods-Answers P.name Q.name (generic_methods Q) user methods-DistinctNames
          (map named (generic_methods P)) [] (positions 0 n) requests-Answers)

  answer-IsNumbered :
      (c : ClientPeer)
      → IsTable (generic_impls member P) c.owner.session.ids_of_methods
      → IsNumbered P.announcements (known_after c)
  unfolding announced_impl typed_method
  answer-IsNumbered c table k a at =
      let m = method_of a in
      let here : get_elem? (generic_methods P) k ≡ some m =
        rw (generic_methods-map P) (get_elem?-map method_of P.announcements k a at) in
      let (i, impl, found, there, same, sig) = (answer-Reaches c table).1 k m here in
      let (b, at', e) =
        get_elem?-map_back (announced_impl member) P.announcements i impl
          (rw (generic_impls-map member P) at there) in
      found
      ∙ ap (λ j. some (pos j))
          (server_distinct i k b a at' at (ap (λ (f : MethodImpl (Endpoint O)). f.name) e ∙ same))

  -- The whole handshake of two ends that are made of the same two protocols, on a new connection.
  -- The client writes one hello; when its bytes reach the server, the server writes one answer
  -- and calls the methods of the client's protocol by their places in it; when the bytes of the
  -- answer reach the client, it calls those of the server's protocol by their places, and one
  -- message has gone out for each call that waited. Both ends have finished the handshake, and
  -- the session of the client is otherwise what it was. The sockets are connected, the names in
  -- each protocol are distinct, that of the server has at most 2042 methods, the fields of the
  -- hello are in range and its bytes within the 8192 that a hello may have, nothing is known of
  -- the client yet, what the client knows of the server from before is right, and calls that wait
  -- are of methods of the protocol. The code of the users does not take back that the handshake
  -- is finished.
  pub on_data-send_greeting :
      UserKeeps server.user
      → UserKeeps spec.user
      → IsClientHello greeting
      → length (client_hello_bytes greeting) ≤ 8 * 1024
      → n ≤ 2042
      → (c : ClientPeer) (p : Peer (Endpoint O)) → IsNew c.socket
      → IsNew p.socket
      → IsTable (generic_impls member P) c.owner.session.ids_of_methods
      → All (IsAnnounced P.announcements) c.owner.state.pending_messages
      → p.owner.session.ids_of_methods ≡ []
      → (hello : Bytes) × (reply : Bytes) × (c1 : ClientPeer) × (p1 : Peer (Endpoint O))
        × (c2 : ClientPeer) × (send_greeting spec c ≡ done c1)
        × (c1.socket ≡ calls (writes hello) c.socket)
        × (on_data (callbacks server) hello (quiet p) ≡ done (quiet p1))
        × (p1.socket ≡ calls (writes reply) (record p.socket { handshake_finished = true }))
        × IsNumbered Q.announcements p1.owner.session.ids_of_methods
        × (on_data (client_callbacks spec) reply (quiet c1) ≡ done (quiet c2))
        × (c2.socket.handshake_finished ≡ true)
        × (c2.socket.calls
            ≡ c1.socket.calls
              ++ requests c2.owner.session.ids_of_methods c.owner.state.pending_messages)
        × (c2.owner.state.pending_messages ≡ [])
        × IsNumbered P.announcements c2.owner.session.ids_of_methods
        × (c2.socket.is_connected ≡ true)
        × (c2.owner.state.has_sock ≡ c.owner.state.has_sock)
        × (c2.owner.session
            ≡ record c.owner.session { ids_of_methods = c2.owner.session.ids_of_methods })
  unfolding send_greeting write server_of client_of calls greeting_of is_smol to_lower to_pattern
      seal_server_hello
  on_data-send_greeting server_keeps client_keeps valid small few c p (up, fresh, held)
        (up', fresh', held') table named_all none_yet =
      let sealed = seal_client_hello greeting in
      let hello = client_hello_bytes sealed in
      let reply = server_hello_bytes (seal_server_hello (answer n)) in
      let (ids, served, numbered) = on_incoming_handshake-greeting valid p up' none_yet in
      let c1 : ClientPeer = record c { socket = calls (writes hello) c.socket } in
      let p1 = answered [] (positions 0 n) (set_ids ids p) in
      let c2 =
        flushed c.owner.state.pending_messages
          (with_session c1 (record c.owner.session { ids_of_methods = known_after c })) in
      let (fine, reaches) = answer-Reaches c table in
      let greeted =
        on_client_handshake-flushed spec reply (seal_server_hello (answer n)) c1
          (read_server_hello-server_hello_bytes (seal_server_hello (answer n))
            (answer-IsServerHello n few))
          fine up
          (IsNumbered-All P.announcements (known_after c) c.owner.state.pending_messages
            (answer-IsNumbered c table) named_all) in
      (
        hello,
        reply,
        c1,
        mark_finished p1,
        mark_finished c2,
        rw up refl,
        refl,
        on_data-IsGreeting (callbacks server) (callbacks-KeepsFinished server server_keeps)
            sealed.hello_size upper_magic hello p p1
            (seal_client_hello-IsGreeting greeting valid.magic_fits small) refl fresh' served held',
        refl,
        numbered,
        on_data-IsGreeting (client_callbacks spec)
            (client_callbacks-KeepsFinished spec client_keeps)
            (seal_server_hello (answer n)).hello_size lower_magic reply c1 c2
            (answer-IsGreeting n few) refl fresh greeted held,
        refl,
        refl,
        refl,
        answer-IsNumbered c table,
        up,
        refl,
        refl,
      )
