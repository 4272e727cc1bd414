-- ===== src/Rpc/Server/Calls.antt =====
-- Calls that a server makes to its client.
use smoljudge.Prelude.{
  ℕ, ◌+◌, ◌^◌, ◌<◌, ◌≡◌, refl, sym, ap, ◌∙◌, true, false, [], ◌∷◌, ◌++◌, none, some, Bool-cases,
  inl, inr, arith, ◌==◌, eq_refl, ==_iff,
}
use smoljudge.Prelude.Dict.{lookup, nat_eq, text_eq, lookup-emplace}
use smoljudge.Prelude.Int.{ℤ, negsuc}
use smoljudge.Prelude.Run.{done}
use smoljudge.Prelude.Text.{Text}
use smoljudge.Wire.Types.{Bytes}
use smoljudge.Messages.{RpcMessage, message_bytes, seal}
use smoljudge.Socket.{Peer, writes, calls, write, invoke}
use smoljudge.Socket.Stream.{KeepsFinished}
use smoljudge.Rpc.Session.{Session, Endpoint, PromiseId, on_message}
use smoljudge.Rpc.Session.Responses.{
  IsIssued, with_call, fresh_id, with_call-IsIssued, UserKeeps, on_message-IsFinished,
  on_message-waiting, on_message_stray,
}
use smoljudge.Rpc.Server.{Server, invoke_client, callbacks}

-- The callbacks of a server's connection keep what the stream of messages relies on.
pub callbacks-KeepsFinished :
    {O : Type 0} (server : Server O) → UserKeeps server.user → KeepsFinished (callbacks server)
callbacks-KeepsFinished server keeps m p h = on_message-IsFinished server.user keeps m p h

module _ {O : Type 0} (server : Server O) (p : Peer (Endpoint O)) (name : Text) (args : Bytes)
    (method_id : ℤ) where
  abbrev s : Session
  s = p.owner.session

  abbrev id : ℕ
  id = s.next_message_id

  abbrev asked : RpcMessage
  asked = record { message_size = 0; method_id = method_id; message_id = id; args = args }

  abbrev after_invoke : Peer (Endpoint O)
  after_invoke = record {
    socket = calls (writes (message_bytes (seal asked))) p.socket;
    owner = record p.owner { session = with_call s };
  }

  invoke_client_lem :
      p.socket.is_connected ≡ true
      → lookup name s.ids_of_methods ≡ some method_id
      → invoke_client server name args p ≡ done after_invoke
  unfolding invoke_client invoke write
  invoke_client_lem up known = rw (known, invoke_client, up)

  settled :
      IsIssued s
      → (m : RpcMessage) → m.method_id ≡ negsuc 0
      → m.message_id ≡ id
      → (r : Peer (Endpoint O)) × (on_message server.user m after_invoke
          ≡ server.user.set_promise id m.args r)
        × ((j : ℕ) → lookup j r.owner.session.promises ≡ lookup j s.promises)
  settled issued m response same =
      let waits : lookup m.message_id (after_invoke).owner.session.promises ≡ some id =
        rw (same, lookup-emplace id id id s.promises (fresh_id s issued), eq_refl id) in
      let (r, run, sock, rest) = on_message-waiting server.user m after_invoke id response waits in
      (
        r,
        run,
        λ j. elim (Bool-cases (id == j)) [
          | inl here ↦
              rest j
              ∙ rw (same, here)
                  (sym (
                    ap (λ k. lookup k s.promises) (sym ((==_iff id j).0 here)) ∙ fresh_id s issued))
          | inr other ↦
              rest j
              ∙ rw (same, other, lookup-emplace id j id s.promises (fresh_id s issued), other)
        ],
      )

  waits_on : IsIssued s → lookup id (after_invoke).owner.session.promises ≡ some id
  waits_on issued = rw (lookup-emplace id id id s.promises (fresh_id s issued), eq_refl id) refl

  unanswered :
      IsIssued s
      → (m : RpcMessage) → m.message_id == id ≡ false
      → lookup m.message_id (after_invoke).owner.session.promises ≡ lookup m.message_id s.promises
  unanswered issued m other =
      let turned : id == m.message_id ≡ false = ground (arith, other) in
      rw (lookup-emplace id m.message_id id s.promises (fresh_id s issued), turned) refl

  stray :
      IsIssued s
      → (m : RpcMessage) → m.method_id ≡ negsuc 0
      → m.message_id == id ≡ false
      → lookup m.message_id s.promises ≡ none
      → on_message server.user m after_invoke ≡ done after_invoke
  stray issued m response other missing =
      on_message_stray server.user m after_invoke response (unanswered issued m other ∙ missing)

  other_settled :
      IsIssued s
      → (m : RpcMessage) (k : PromiseId) → m.method_id ≡ negsuc 0
      → m.message_id == id ≡ false
      → lookup m.message_id s.promises ≡ some k
      → (k ≡ m.message_id)
        × ((r : Peer (Endpoint O)) × (on_message server.user m after_invoke
              ≡ server.user.set_promise k m.args r)
            × (lookup id r.owner.session.promises ≡ some id))
  other_settled issued m k response other found =
      let (r, run, sock, rest) =
        on_message-waiting server.user m after_invoke k response
          (unanswered issued m other ∙ found) in
      ((issued m.message_id k found).0, (r, run, rest id ∙ rw other (waits_on issued)))

-- A call of a known method on a connected socket writes one message, with an id that no call has
-- had, and its promise is set by the response with that id, without touching the promises that wait
-- for others. Any response with another id leaves it waiting: one that no call waits for changes
-- nothing, and one that another call waits for sets the promise of that call. That ids are not reused
-- lasts until 2 ^ 64 of them are spent.
pub invoke_client-on_message :
    {O : Type 0} (server : Server O) (p : Peer (Endpoint O)) (name : Text) (args : Bytes)
    (method_id : ℤ)
    → IsIssued p.owner.session
    → p.socket.is_connected ≡ true
    → lookup name p.owner.session.ids_of_methods ≡ some method_id
    → p.owner.session.next_message_id + 1 < 2 ^ 64
    → let id = p.owner.session.next_message_id in
      (q : Peer (Endpoint O)) × (invoke_client server name args p ≡ done q)
      × (q.socket.calls
          ≡ p.socket.calls
            ++ writes (
                message_bytes (
                  seal (record {
                    message_size = 0;
                    method_id = method_id;
                    message_id = id;
                    args = args;
                  })))
              ∷ [])
      × IsIssued q.owner.session
      × (q.owner.session.next_message_id ≡ id + 1)
      × ((m : RpcMessage)
          → m.method_id ≡ negsuc 0
          → m.message_id ≡ id
          → (r : Peer (Endpoint O)) × (on_message server.user m q
              ≡ server.user.set_promise id m.args r)
            × ((j : ℕ) → lookup j r.owner.session.promises ≡ lookup j p.owner.session.promises))
      × ((m : RpcMessage)
          → m.method_id ≡ negsuc 0
          → m.message_id == id ≡ false
          → lookup m.message_id p.owner.session.promises ≡ none
          → on_message server.user m q ≡ done q)
      × ((m : RpcMessage) (k : PromiseId)
          → m.method_id ≡ negsuc 0
          → m.message_id == id ≡ false
          → lookup m.message_id p.owner.session.promises ≡ some k
          → (k ≡ m.message_id)
            × ((r : Peer (Endpoint O)) × (on_message server.user m q
                  ≡ server.user.set_promise k m.args r)
                × (lookup id r.owner.session.promises ≡ some id)))
unfolding calls
invoke_client-on_message server p name args method_id issued up known room = (
  after_invoke server p name args method_id,
  invoke_client_lem server p name args method_id up known,
  refl,
  with_call-IsIssued p.owner.session issued room,
  omega arith,
  settled server p name args method_id issued,
  stray server p name args method_id issued,
  other_settled server p name args method_id issued,
)
