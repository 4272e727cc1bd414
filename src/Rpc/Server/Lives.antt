-- ===== src/Rpc/Server/Lives.antt =====
-- The life of the promises of a `server_client`: over any run, each is set at most once.
mod Tests
use smoljudge.Prelude.{
  ℕ, zero, suc, ◌+◌, ◌%◌, ◌^◌, ◌<◌, ◌≡◌, refl, true, false, List, [], get_elem?, Option, none, some,
  Bool-cases, Option-cases, inl, inr, arith,
}
use smoljudge.Prelude.Dict.{lookup, erase, emplace, nat_eq, text_eq}
use smoljudge.Prelude.Int.{ℤ, pos, negsuc}
use smoljudge.Prelude.Outcome.{Outcome, ok, throws, undefined}
use smoljudge.Prelude.Run.{
  Run, done, raised, wild, with_value, RunLeaves, EndsIn, RunLeaves-EndsIn, RunLeaves-imp,
}
use smoljudge.Prelude.Text.{Text, codes}
use smoljudge.Wire.Codec.{deserialize}
use smoljudge.Wire.Types.{Bytes, string}
use smoljudge.Messages.{RpcMessage}
use smoljudge.Socket.{Peer, reply, report_error, write, invoke, on_socket}
use smoljudge.Rpc.Session.{
  User, Called, MethodImpl, PromiseId, resolved, deferred, threw, unspecified, with_session,
  attach_reply, after_call, call_method, on_response, dispatch, on_message, on_resolved,
  on_destroyed,
}
use smoljudge.Rpc.Server.{Server, invoke_client}
use smoljudge.Rpc.Server.Once.{
  Logging, Log, logged, IsSetOnce, Same, Same-IsSetOnce, set_once, call_made, id_spent,
  write-IsSetOnce,
}

module _ {W : Type 0} (server : Server (Logging W)) where
  -- What code of the user does to a connection: it changes what is its own, its socket included, and
  -- makes calls, of which each may throw.
  pub data Does (p : Peer (Log W)) : Peer (Log W) → Type 0 where
    nothing : Does p p
    changes : {q r : Peer (Log W)} → Does p q → Same q r → Does p r
    calls_client :
        {q r : Peer (Log W)} (name : Text) (args : Bytes)
        → Does p q
        → q.owner.session.next_message_id + 1 < 2 ^ 64
        → EndsIn (invoke_client server name args q) r
        → Does p r

  abbrev pub CalledDoes : Peer (Log W) → Called (Log W) → Type 0
  CalledDoes p (resolved result q) = Does p q
  CalledDoes p (deferred promise q) = Does p q
  CalledDoes p (threw e q) = Does p q
  CalledDoes p unspecified = Unit {0}

  -- The methods and what is chained to promises do that and no more, whether they return or throw;
  -- what is chained to a promise logs that it has been set.
  pub record UserLogs : Type 0 where
    pub methods_do :
        (i : ℕ) (m : MethodImpl (Log W)) (args : Bytes) (p : Peer (Log W))
        → get_elem? server.user.methods i ≡ some m
        → CalledDoes p (m.fn args p)
    pub sets_logged :
        (k : PromiseId) (args : Bytes) (p : Peer (Log W))
        → RunLeaves (Does (logged k p)) (server.user.set_promise k args p)

  -- The states that a `server_client` with this server comes to: on a new one, calls are made,
  -- messages are received, and promises of methods are set and destroyed, in any order, and each of
  -- these returns or throws; and the socket, the ids of the client's methods and what is the user's
  -- own change in between.
  pub data Lives : Peer (Log W) → Type 0 where
    opens : {p : Peer (Log W)} → p.owner.session.promises ≡ [] → p.owner.state.log ≡ [] → Lives p
    acts : {p q : Peer (Log W)} → Lives p → Does p q → Lives q
    receives :
        {p q : Peer (Log W)} (m : RpcMessage)
        → Lives p
        → EndsIn (on_message server.user m p) q
        → Lives q
    resolves :
        {p q : Peer (Log W)} (k : PromiseId) (result : Bytes)
        → Lives p
        → EndsIn (on_resolved k result p) q
        → Lives q
    destroys : {p : Peer (Log W)} (k : PromiseId) → Lives p → Lives (on_destroyed k p)

  invoke_client-IsSetOnce :
      (name : Text) (args : Bytes) (p : Peer (Log W))
      → p.owner.session.next_message_id + 1 < 2 ^ 64
      → IsSetOnce p
      → RunLeaves IsSetOnce (invoke_client server name args p)
  unfolding invoke_client invoke write
  invoke_client-IsSetOnce name args p room h =
      let s = p.owner.session in
      let spent = id_spent s.promises s.next_message_id p.owner.state.log room h in
      elim (Option-cases (lookup name s.ids_of_methods)) [
        | inl missing ↦ rw (missing, invoke_client) spent
        | inr (id, found) ↦ elim (Bool-cases p.socket.is_connected) [
          | inl up ↦
              rw (found, invoke_client, up)
                (call_made s.promises s.next_message_id p.owner.state.log room h)
          | inr down ↦ rw (found, invoke_client, down) spent
        ]
      ]

  Does-IsSetOnce : {p q : Peer (Log W)} → IsSetOnce p → Does p q → IsSetOnce q
  Does-IsSetOnce h nothing = h
  Does-IsSetOnce h (changes {q} {r} before same) = Same-IsSetOnce q r same (Does-IsSetOnce h before)
  Does-IsSetOnce {q = r} h (calls_client {q} name args before room ran) =
      RunLeaves-EndsIn IsSetOnce (invoke_client server name args q) r
        (invoke_client-IsSetOnce name args q room (Does-IsSetOnce h before)) ran

  after_call-IsSetOnce :
      (p : Peer (Log W)) (id : ℕ) (c : Called (Log W))
      → IsSetOnce p
      → CalledDoes p c
      → RunLeaves IsSetOnce (after_call id c)
  unfolding after_call attach_reply reply
  after_call-IsSetOnce p id (resolved result q) h does = write-IsSetOnce q _ (Does-IsSetOnce h does)
  after_call-IsSetOnce p id (deferred promise q) h does = Does-IsSetOnce h does
  after_call-IsSetOnce p id (threw e q) h does = Does-IsSetOnce h does
  after_call-IsSetOnce p id unspecified h does = tt

  module _ (logs : UserLogs) (p : Peer (Log W)) (h : IsSetOnce p) where
    on_response-IsSetOnce : (m : RpcMessage) → RunLeaves IsSetOnce (on_response server.user m p)
    unfolding on_response
    on_response-IsSetOnce m =
        let s = p.owner.session in
        elim (Option-cases (lookup m.message_id s.promises)) [
          | inl missing ↦ rw (missing, on_response) h
          | inr (k, found) ↦
              let q = with_session p (record s { promises = erase m.message_id s.promises }) in
              let once =
                set_once s.promises s.next_message_id p.owner.state.log m.message_id k found h in
              rw (found, on_response)
                (RunLeaves-imp (Does (logged k q)) IsSetOnce (server.user.set_promise k m.args q)
                  (λ r does. Does-IsSetOnce once does) (logs.sets_logged k m.args q))
        ]

    call_method-IsSetOnce :
        (i : ℕ) (m : RpcMessage) → RunLeaves IsSetOnce (call_method server.user i m p)
    unfolding call_method report_error
    call_method-IsSetOnce i m = elim (Option-cases (get_elem? server.user.methods i)) [
      | inl missing ↦ rw (missing, call_method) (write-IsSetOnce p _ h)
      | inr (f, found) ↦
          rw (found, call_method)
            (after_call-IsSetOnce p m.message_id (f.fn m.args p) h
              (logs.methods_do i f m.args p found))
    ]

    unknown :
        (m : RpcMessage)
        → RunLeaves IsSetOnce
            (on_socket p (report_error m.message_id (codes "Unknown method") p.socket))
    unfolding report_error
    unknown m = write-IsSetOnce p _ h

    dispatch-IsSetOnce :
        (id : ℤ) (m : RpcMessage) → RunLeaves IsSetOnce (dispatch server.user id m p)
    unfolding dispatch
    dispatch-IsSetOnce (negsuc zero) m = on_response-IsSetOnce m
    dispatch-IsSetOnce (negsuc (suc zero)) m = read (deserialize string m.args)
      where
        read : (o : Outcome Text) → RunLeaves IsSetOnce (with_value p o λ text. done p)
        read (ok text) = h
        read (throws e) = h
        read undefined = tt
    dispatch-IsSetOnce (negsuc (suc (suc n))) m = unknown m
    dispatch-IsSetOnce (pos i) m = call_method-IsSetOnce i m

    on_message-IsSetOnce : (m : RpcMessage) → RunLeaves IsSetOnce (on_message server.user m p)
    unfolding on_message
    on_message-IsSetOnce m = dispatch-IsSetOnce m.method_id m

    on_resolved-IsSetOnce :
        (k : PromiseId) (result : Bytes) → RunLeaves IsSetOnce (on_resolved k result p)
    unfolding on_resolved reply
    on_resolved-IsSetOnce k result =
        elim (Option-cases (lookup k p.owner.session.pending_replies)) [
          | inl none_waits ↦ rw (none_waits, on_resolved) h
          | inr (id, waits) ↦ rw (waits, on_resolved) (write-IsSetOnce p _ h)
        ]

    on_destroyed-IsSetOnce : (k : PromiseId) → IsSetOnce (on_destroyed k p)
    unfolding on_destroyed
    on_destroyed-IsSetOnce k = elim (Option-cases (lookup k p.owner.session.pending_replies)) [
      | inl none_waits ↦ rw (none_waits, on_destroyed) h
      | inr (id, waits) ↦ rw (waits, on_destroyed) h
    ]

-- In every state of a `server_client` that `Lives` describes, in whatever order calls, messages and
-- results came and whether they returned or threw, no promise has been set twice, each that has been
-- set is of a call that was made and waits no more, and each that waits is of a call that was made
-- and waits under its own id. The code of the user may keep a state, throw, and make calls from its
-- methods and from what is chained to promises; it logs each promise that is set before it does
-- anything else. Fewer than 2 ^ 64 calls are made, and no step has undefined behaviour.
pub Lives-IsSetOnce :
    {W : Type 0} (server : Server (Logging W)) (p : Peer (Log W))
    → UserLogs server
    → Lives server p
    → IsSetOnce p
unfolding lookup
Lives-IsSetOnce server p logs (opens no_promise no_log) =
    rw (no_promise, no_log) (record { issued = λ k v e. cc; settled = tt; distinct = tt })
Lives-IsSetOnce server q logs (acts {p} before does) =
    Does-IsSetOnce server (Lives-IsSetOnce server p logs before) does
Lives-IsSetOnce server q logs (receives {p} m before ran) =
    RunLeaves-EndsIn IsSetOnce (on_message server.user m p) q
      (on_message-IsSetOnce server logs p (Lives-IsSetOnce server p logs before) m) ran
Lives-IsSetOnce server q logs (resolves {p} k result before ran) =
    RunLeaves-EndsIn IsSetOnce (on_resolved k result p) q
      (on_resolved-IsSetOnce server logs p (Lives-IsSetOnce server p logs before) k result) ran
Lives-IsSetOnce server q logs (destroys {p} k before) =
    on_destroyed-IsSetOnce server logs p (Lives-IsSetOnce server p logs before) k
