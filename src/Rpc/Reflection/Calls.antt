-- ===== src/Rpc/Reflection/Calls.antt =====
-- A call from end to end: the arguments, the method, the reply and the result.
use smoljudge.Prelude.{ℕ, ◌≡◌, refl, ◌∙◌, true, Option, none, some, get_elem?}
use smoljudge.Prelude.Int.{pos, negsuc}
use smoljudge.Prelude.Outcome.{Error, Outcome, ok, throws, undefined}
use smoljudge.Prelude.Run.{done, raised}
use smoljudge.Prelude.Text.{Text}
use smoljudge.Wire.Codec.{deserialize, deserialize_void}
use smoljudge.Wire.Codec.RoundTrip.{deserialize-serialize}
use smoljudge.Wire.Types.{
  Ty, Tys, tuple, Bytes, Fields, IsValue, IsFields, HoldsFirst, FieldsHoldFirst,
}
use smoljudge.Messages.{RpcMessage, message_bytes, seal}
use smoljudge.Socket.{Peer, writes, calls, write, reply}
use smoljudge.Socket.Stream.{IsFinished}
use smoljudge.Rpc.Session.{Endpoint, User, after_call, call_method, on_message, dispatch}
use smoljudge.Rpc.Session.Responses.{CalledFinished}
use smoljudge.Rpc.Reflection.{
  Result, Answer, returns, promises, fails, result_bytes, to_called, call_with, typed_method,
  proxy_args, proxy_result,
}

-- The member function does not take back that the handshake is finished.
abbrev pub AnswerFinished : {S : Type 0} {A : Type 0} → Answer S A → Type 0
AnswerFinished (returns v p) = IsFinished p
AnswerFinished (promises k p) = IsFinished p
AnswerFinished (fails e p) = Unit {0}

module _ {S : Type 0} (ts : Tys) (ret : Option Ty)
    (body : Fields ts → Peer S → Answer S (Result ret))
    (keeps : (args : Fields ts) (p : Peer S) → IsFinished p → AnswerFinished (body args p)) where
  to_called-CalledFinished :
      (a : Answer S (Result ret)) → AnswerFinished a → CalledFinished (to_called ret a)
  unfolding to_called
  to_called-CalledFinished (returns v p) h = h
  to_called-CalledFinished (promises k p) h = h
  to_called-CalledFinished (fails e p) h = h

  call_with-CalledFinished :
      (o : Outcome (Fields ts)) (p : Peer S)
      → IsFinished p
      → CalledFinished (call_with ts ret body p o)
  unfolding call_with
  call_with-CalledFinished (ok args) p h = to_called-CalledFinished (body args p) (keeps args p h)
  call_with-CalledFinished (throws e) p h = tt
  call_with-CalledFinished undefined p h = tt

  -- Then neither does the entry that is made of it.
  pub typed_method-CalledFinished :
      (name signature : Text) (bytes : Bytes) (p : Peer S)
      → IsFinished p
      → CalledFinished ((typed_method name signature ts ret body).fn bytes p)
  unfolding typed_method
  typed_method-CalledFinished name signature bytes p h =
      call_with-CalledFinished (deserialize (tuple ts) bytes) p h

-- A result that its type can send and that can be read back.
abbrev pub IsSendable : (ret : Option Ty) → Result ret → Type 0
IsSendable none v = Unit {0}
IsSendable (some t) v = IsValue t v × HoldsFirst t v

pub proxy_result-result_bytes :
    (ret : Option Ty) (v : Result ret)
    → IsSendable ret v
    → proxy_result ret (result_bytes ret v) ≡ ok v
unfolding proxy_result result_bytes deserialize_void
proxy_result-result_bytes none v h = refl
proxy_result-result_bytes (some t) v h = deserialize-serialize t v h.0 h.1

abbrev pub reply_message : ℕ → Bytes → RpcMessage
reply_message id result = record {
  message_size = 0;
  method_id = negsuc 0;
  message_id = id;
  args = result;
}

module _ {O : Type 0} (u : User (Endpoint O)) (i : ℕ) (name signature : Text) (ts : Tys)
    (ret : Option Ty) (body : Fields ts → Peer (Endpoint O) → Answer (Endpoint O) (Result ret))
    (listed : get_elem? u.methods i ≡ some (typed_method name signature ts ret body)) where
  call_lem :
      (m : RpcMessage) (p : Peer (Endpoint O))
      → m.method_id ≡ pos i
      → on_message u m p
        ≡ after_call m.message_id (call_with ts ret body p (deserialize (tuple ts) m.args))
  unfolding on_message dispatch call_method typed_method
  call_lem m p id = rw (id, dispatch, listed, call_method)

  -- With `result_bytes` as the result that the reply carries.
  pub on_message_reply :
      (m : RpcMessage) (p q : Peer (Endpoint O)) (args : Fields ts) (v : Result ret)
      → m.method_id ≡ pos i
      → m.args ≡ proxy_args ts args
      → IsFields ts args
      → FieldsHoldFirst ts args
      → body args p ≡ returns v q
      → q.socket.is_connected ≡ true
      → on_message u m p
        ≡ done (record q {
          socket =
              calls
                (writes (message_bytes (seal (reply_message m.message_id (result_bytes ret v)))))
                q.socket;
        })
  unfolding after_call call_with to_called proxy_args write reply
  on_message_reply m p q args v id sent fits first ran up =
      call_lem m p id
      ∙ rw (sent, deserialize-serialize (tuple ts) args fits first, ran, to_called, up)

  -- A request whose arguments the caller's proxy wrote runs the method on those very arguments,
  -- and if it returns on a socket that is connected, one reply is written to the id of the
  -- request, from which the caller's proxy reads the very value that was returned. Arguments and
  -- result are in range, and their variants hold their first alternatives.
  pub on_message-proxy_args :
      (m : RpcMessage) (p q : Peer (Endpoint O)) (args : Fields ts) (v : Result ret)
      → m.method_id ≡ pos i
      → m.args ≡ proxy_args ts args
      → IsFields ts args
      → FieldsHoldFirst ts args
      → body args p ≡ returns v q
      → q.socket.is_connected ≡ true
      → IsSendable ret v
      → (result : Bytes) × (on_message u m p
          ≡ done (record q {
            socket =
                calls (writes (message_bytes (seal (reply_message m.message_id result)))) q.socket;
          }))
        × (proxy_result ret result ≡ ok v)
  on_message-proxy_args m p q args v id sent fits first ran up sendable = (
    result_bytes ret v,
    on_message_reply m p q args v id sent fits first ran up,
    proxy_result-result_bytes ret v sendable,
  )

  -- Arguments that cannot be read never reach the method: the error goes to the socket.
  pub on_message_bad_args :
      (m : RpcMessage) (p : Peer (Endpoint O)) (e : Error)
      → m.method_id ≡ pos i
      → deserialize (tuple ts) m.args ≡ throws e
      → on_message u m p ≡ raised e p
  unfolding after_call call_with
  on_message_bad_args m p e id bad = call_lem m p id ∙ rw bad
