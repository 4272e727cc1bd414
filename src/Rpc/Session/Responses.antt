-- ===== src/Rpc/Session/Responses.antt =====
-- Responses and promises: a call that is made is answered by the response with its id, once.
use smoljudge.Prelude.{
  ℕ, zero, suc, ◌+◌, ◌%◌, ◌^◌, ◌<◌, ◌≡◌, refl, get_elem?, if◌then◌else◌, none, some, Bool-cases,
  Option-cases, inl, inr, arith, ◌==◌, ==_iff,
}
use smoljudge.Prelude.Dict.{lookup, erase, emplace, nat_eq, lookup-erase, lookup-emplace}
use smoljudge.Prelude.Int.{ℤ, pos, negsuc}
use smoljudge.Prelude.Outcome.{Outcome, ok, throws, undefined}
use smoljudge.Prelude.Run.{done, with_value, RunEnsures}
use smoljudge.Prelude.Text.{Text, codes}
use smoljudge.Wire.Codec.{deserialize}
use smoljudge.Wire.Types.{Bytes, string}
use smoljudge.Messages.{RpcMessage}
use smoljudge.Socket.{Peer, reply, report_error, write, on_socket}
use smoljudge.Socket.Stream.{IsFinished}
use smoljudge.Rpc.Session.{
  Session, Endpoint, User, Called, MethodImpl, PromiseId, resolved, deferred, threw, unspecified,
  with_session, attach_reply, after_call, call_method, on_response, dispatch, on_message,
}

-- The promises that wait are those of ids given out.
abbrev pub IsIssued : Session → Type 0
IsIssued s =
    (k : ℕ) (v : PromiseId) → lookup k s.promises ≡ some v → (v ≡ k) × (k < s.next_message_id)

-- What `invoke` makes of the session: the next id, for the new promise.
abbrev pub with_call : Session → Session
with_call s = record s {
  next_message_id = (s.next_message_id + 1) % 2 ^ 64;
  promises = emplace s.next_message_id s.next_message_id s.promises;
}

pub fresh_id : (s : Session) → IsIssued s → lookup s.next_message_id s.promises ≡ none
fresh_id s issued = elim (Option-cases (lookup s.next_message_id s.promises)) [
  | inl missing ↦ missing
  | inr (v, found) ↦ absurd (omega (arith, (issued s.next_message_id v found).1))
]

pub with_call-IsIssued :
    (s : Session) → IsIssued s → s.next_message_id + 1 < 2 ^ 64 → IsIssued (with_call s)
with_call-IsIssued s issued room k v e =
    let id = s.next_message_id in
    let known = lookup-emplace id k id s.promises (fresh_id s issued) in
    elim (Bool-cases (id == k)) [
      | inl same ↦
          let found : some id ≡ some v = rw (known, same) at e in
          ground (arith, found, (==_iff id k).0 same)
      | inr other ↦
          let old : lookup k s.promises ≡ some v = rw (known, other) at e in
          ground (arith, issued k v old)
    ]

write-IsFinished :
    {O : Type 0} (p : Peer (Endpoint O)) (bytes : Bytes)
    → IsFinished p
    → RunEnsures IsFinished (on_socket p (write bytes p.socket))
unfolding write
write-IsFinished p bytes h = elim (Bool-cases p.socket.is_connected) [
  | inl up ↦ rw up h
  | inr down ↦ rw down tt
]

-- The code of the user does not take back that the handshake is finished; no member that it can
-- call does.
abbrev pub CalledFinished : {S : Type 0} → Called S → Type 0
CalledFinished (resolved result p) = IsFinished p
CalledFinished (deferred promise p) = IsFinished p
CalledFinished (threw e p) = Unit {0}
CalledFinished unspecified = Unit {0}

pub record UserKeeps {S : Type 0} (u : User S) : Type 0 where
  pub methods_keep :
      (i : ℕ) (m : MethodImpl S) (args : Bytes) (p : Peer S)
      → get_elem? u.methods i ≡ some m
      → IsFinished p
      → CalledFinished (m.fn args p)
  pub promises_keep :
      (k : PromiseId) (args : Bytes) (p : Peer S)
      → IsFinished p
      → RunEnsures IsFinished (u.set_promise k args p)

module _ {O : Type 0} (u : User (Endpoint O)) (keeps : UserKeeps u) where
  after_call-IsFinished :
      (id : ℕ) (c : Called (Endpoint O))
      → CalledFinished c
      → RunEnsures IsFinished (after_call id c)
  unfolding after_call attach_reply reply
  after_call-IsFinished id (resolved result p) h = write-IsFinished p _ h
  after_call-IsFinished id (deferred promise p) h = h
  after_call-IsFinished id (threw e p) h = tt
  after_call-IsFinished id unspecified h = tt

  call_method-IsFinished :
      (i : ℕ) (m : RpcMessage) (p : Peer (Endpoint O))
      → IsFinished p
      → RunEnsures IsFinished (call_method u i m p)
  unfolding call_method report_error
  call_method-IsFinished i m p h = elim (Option-cases (get_elem? u.methods i)) [
    | inl missing ↦ rw (missing, call_method) (write-IsFinished p _ h)
    | inr (f, found) ↦
        rw (found, call_method)
          (after_call-IsFinished m.message_id (f.fn m.args p)
            (keeps.methods_keep i f m.args p found h))
  ]

  unknown :
      (m : RpcMessage) (p : Peer (Endpoint O))
      → IsFinished p
      → RunEnsures IsFinished
          (on_socket p (report_error m.message_id (codes "Unknown method") p.socket))
  unfolding report_error
  unknown m p h = write-IsFinished p _ h

  on_response-IsFinished :
      (m : RpcMessage) (p : Peer (Endpoint O))
      → IsFinished p
      → RunEnsures IsFinished (on_response u m p)
  unfolding on_response
  on_response-IsFinished m p h =
      elim (Option-cases (lookup m.message_id p.owner.session.promises)) [
        | inl missing ↦ rw (missing, on_response) h
        | inr (k, found) ↦ rw (found, on_response) (keeps.promises_keep k m.args _ h)
      ]

  dispatch-IsFinished :
      (id : ℤ) (m : RpcMessage) (p : Peer (Endpoint O))
      → IsFinished p
      → RunEnsures IsFinished (dispatch u id m p)
  unfolding dispatch
  dispatch-IsFinished (negsuc zero) m p h = on_response-IsFinished m p h
  dispatch-IsFinished (negsuc (suc zero)) m p h = logged (deserialize string m.args)
    where
      logged : (o : Outcome Text) → RunEnsures IsFinished (with_value p o λ text. done p)
      logged (ok text) = h
      logged (throws e) = tt
      logged undefined = tt
  dispatch-IsFinished (negsuc (suc (suc n))) m p h = unknown m p h
  dispatch-IsFinished (pos i) m p h = call_method-IsFinished i m p h

  pub on_message-IsFinished :
      (m : RpcMessage) (p : Peer (Endpoint O))
      → IsFinished p
      → RunEnsures IsFinished (on_message u m p)
  unfolding on_message
  on_message-IsFinished m p h = dispatch-IsFinished m.method_id m p h

module _ {O : Type 0} (u : User (Endpoint O)) where
  -- A response to a call that waits goes to the promise of that call, which then waits no more; all
  -- other promises wait on, and the socket is left alone.
  pub on_message-waiting :
      (m : RpcMessage) (p : Peer (Endpoint O)) (k : PromiseId)
      → m.method_id ≡ negsuc 0
      → lookup m.message_id p.owner.session.promises ≡ some k
      → (q : Peer (Endpoint O)) × (on_message u m p ≡ u.set_promise k m.args q)
        × (q.socket ≡ p.socket)
        × ((j : ℕ)
            → lookup j q.owner.session.promises
              ≡ (if m.message_id == j then none else lookup j p.owner.session.promises))
  unfolding on_message dispatch on_response
  on_message-waiting m p k id found = (
    with_session p
        (record p.owner.session { promises = erase m.message_id p.owner.session.promises }),
    rw (id, dispatch, found, on_response),
    refl,
    λ j. lookup-erase m.message_id j p.owner.session.promises,
  )

  -- A response that no call waits for, a second one to a call included, changes nothing.
  pub on_message_stray :
      (m : RpcMessage) (p : Peer (Endpoint O))
      → m.method_id ≡ negsuc 0
      → lookup m.message_id p.owner.session.promises ≡ none
      → on_message u m p ≡ done p
  unfolding on_message dispatch on_response
  on_message_stray m p id missing = rw (id, dispatch, missing, on_response)

  -- A call of a method that the table does not have is answered by an error report with its id.
  pub on_message_unknown :
      (m : RpcMessage) (p : Peer (Endpoint O)) (i : ℕ)
      → m.method_id ≡ pos i
      → get_elem? u.methods i ≡ none
      → on_message u m p ≡ on_socket p (report_error m.message_id (codes "Unknown method") p.socket)
  unfolding on_message dispatch call_method
  on_message_unknown m p i id missing = rw (id, dispatch, missing, call_method)
