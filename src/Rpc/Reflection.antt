-- ===== src/Rpc/Reflection.antt =====
-- rpc/include/rpc/reflection.hpp: typed methods over the untyped calls. `duplex_impl` and
-- `simplex_impl` make the entries of a `generic_impl` in the same words, and `peer_proxy_invoker`
-- and the client's `proxy_invoker` make the calls.
pub mod Calls
mod Tests
use smoljudge.Prelude.{Option, none, some, []}
use smoljudge.Prelude.Text.{Text}
use smoljudge.Prelude.Outcome.{Error, Outcome, ok, throws, undefined}
use smoljudge.Wire.Types.{Ty, Tys, tuple, Bytes, El, Fields}
use smoljudge.Wire.Codec.{serialize, deserialize, deserialize_void}
use smoljudge.Socket.{Peer}
use smoljudge.Rpc.Session.{Called, MethodImpl, PromiseId, resolved, deferred, threw, unspecified}

-- The values of a return type; `none` is `void`.
abbrev pub Result : Option Ty → Type 0
Result none = Unit {0}
Result (some t) = El t

-- What the member function itself comes to: it returns a value, or a promise of one, or it throws.
pub data Answer (S : Type 0) (A : Type 0) : Type 0 where
  returns : A → Peer S → Answer S A
  promises : PromiseId → Peer S → Answer S A
  fails : Error → Peer S → Answer S A

unfoldable pub result_bytes : (ret : Option Ty) → Result ret → Bytes
result_bytes none v = []
result_bytes (some t) v = serialize t v

-- `async::to_promise(get_result()) | serialize`
pub to_called : {S : Type 0} → (ret : Option Ty) → Answer S (Result ret) → Called S
unfolding result_bytes
to_called ret (returns v p) = resolved (result_bytes ret v) p
to_called ret (promises k p) = deferred k p
to_called ret (fails e p) = threw e p

-- The arguments are read before the member function runs.
pub call_with :
    {S : Type 0} (ts : Tys) (ret : Option Ty)
    → (Fields ts → Peer S → Answer S (Result ret))
    → Peer S
    → Outcome (Fields ts)
    → Called S
unfolding to_called
call_with ts ret body p (ok args) = to_called ret (body args p)
call_with ts ret body p (throws e) = threw e p
call_with ts ret body p undefined = unspecified

-- The entry that `announcement` makes for a method.
unfoldable pub typed_method :
    {S : Type 0}
    → Text
    → Text
    → (ts : Tys) (ret : Option Ty) → (Fields ts → Peer S → Answer S (Result ret))
    → MethodImpl S
unfolding call_with
typed_method name signature ts ret body = record {
  name = name;
  signature = signature;
  fn = λ args p. call_with ts ret body p (deserialize (tuple ts) args);
}

-- The two halves of `proxy_invoker::invoke`: what is sent, and what is made of the response.
unfoldable pub proxy_args : (ts : Tys) → Fields ts → Bytes
proxy_args ts args = serialize (tuple ts) args

pub proxy_result : (ret : Option Ty) → Bytes → Outcome (Result ret)
proxy_result none bytes = deserialize_void bytes
proxy_result (some t) bytes = deserialize t bytes
