-- ===== src/Rpc/Session.antt =====
-- The fields that `generic_server::server_client` and `generic_client` both declare, and the code
-- that handles a message, which the two have in the same words.
pub mod Responses
pub mod Deferred
use smoljudge.Prelude.{
  ℕ, zero, suc, ◌+◌, ◌-◌, List, [], ◌∷◌, ◌++◌, get_elem?, ◌==◌, if◌then◌else◌, Option, none, some,
}
use smoljudge.Prelude.Dict.{Dict, lookup, erase, assign, nat_eq, text_eq}
use smoljudge.Prelude.Int.{ℤ, pos, negsuc}
use smoljudge.Prelude.Outcome.{Error}
use smoljudge.Prelude.Run.{Run, done, raised, wild, with_value}
use smoljudge.Prelude.Text.{Text, codes}
use smoljudge.Wire.Codec.{deserialize}
use smoljudge.Wire.Types.{Bytes, string}
use smoljudge.Messages.{RpcMessage}
use smoljudge.Socket.{Peer, reply, report_error, on_socket}

-- A promise that the program made. `waits` holds the identity of the promise in `promises`, which
-- is the id of the message that asked.
abbrev pub PromiseId : Type 0
PromiseId = ℕ

-- `pending_replies` are the continuations of methods' promises, `[sock = sock, message_id](result)`,
-- by the promise that each is attached to, with the id that it answers.
pub record Session : Type 0 where
  pub ids_of_methods : Dict Text ℤ
  pub promises : Dict ℕ PromiseId
  pub next_message_id : ℕ
  pub pending_replies : Dict PromiseId ℕ

pub record Endpoint (O : Type 0) : Type 0 where
  pub session : Session
  pub state : O

-- What the call of a method's `fn` comes to: it returns a promise that is resolved or one that is
-- not yet, or it throws, or its behaviour is undefined.
pub data Called (S : Type 0) : Type 0 where
  resolved : Bytes → Peer S → Called S
  deferred : PromiseId → Peer S → Called S
  threw : Error → Peer S → Called S
  unspecified : Called S

-- `reflection::method` and `reflection::method_impl`.
pub record Method : Type 0 where
  pub name : Text
  pub signature : Text

pub record MethodImpl (S : Type 0) : Type 0 where
  pub name : Text
  pub signature : Text
  pub fn : Bytes → Peer S → Called S

-- The code of the user of the library: the methods of `generic_impl`, and what is chained to the
-- promises that `invoke` returns.
pub record User (S : Type 0) : Type 0 where
  pub methods : List (MethodImpl S)
  pub set_promise : PromiseId → Bytes → Peer S → Run (Peer S)

unfoldable pub new_session : Session
new_session = record {
  ids_of_methods = [];
  promises = [];
  next_message_id = 0;
  pending_replies = [];
}

module _ {O : Type 0} where
  abbrev pub with_session : Peer (Endpoint O) → Session → Peer (Endpoint O)
  with_session p s = record p { owner = record p.owner { session = s } }

  -- A `shared_ptr` to the socket goes away.
  abbrev pub drop_holder : Peer (Endpoint O) → Peer (Endpoint O)
  drop_holder p = record p { socket = record p.socket { holders = p.socket.holders - 1 } }

  -- A promise has one continuation: attaching another destroys the first with the `sock` that it
  -- captured.
  unfoldable pub attach_reply : PromiseId → ℕ → Peer (Endpoint O) → Peer (Endpoint O)
  attach_reply promise message_id p =
      let s = p.owner.session in
      let holders : ℕ = elim (lookup promise s.pending_replies) [
        | none ↦ p.socket.holders + 1
        | some replaced ↦ p.socket.holders
      ] in
      record {
        socket = record p.socket { holders = holders };
        owner = record p.owner {
          session = record s { pending_replies = assign promise message_id s.pending_replies };
        };
      }

  -- The continuation of a method's promise is run at once, or kept with the `sock` it captures.
  unfoldable pub after_call : ℕ → Called (Endpoint O) → Run (Peer (Endpoint O))
  unfolding attach_reply
  after_call message_id (resolved result p) = on_socket p (reply message_id result p.socket)
  after_call message_id (deferred promise p) = done (attach_reply promise message_id p)
  after_call message_id (threw e p) = raised e p
  after_call message_id unspecified = wild

  unfoldable pub call_method :
      User (Endpoint O) → ℕ → RpcMessage → Peer (Endpoint O) → Run (Peer (Endpoint O))
  unfolding after_call
  call_method u i m p = elim (get_elem? u.methods i) [
    | some method ↦ after_call m.message_id (method.fn m.args p)
    | none ↦ on_socket p (report_error m.message_id (codes "Unknown method") p.socket)
  ]

  -- A response: `promises.extract(it).mapped().set(std::move(message.args))`.
  unfoldable pub on_response :
      User (Endpoint O) → RpcMessage → Peer (Endpoint O) → Run (Peer (Endpoint O))
  on_response u m p =
      let s = p.owner.session in
      elim (lookup m.message_id s.promises) [
        | none ↦ done p
        | some promise ↦
            u.set_promise promise m.args
              (with_session p (record s { promises = erase m.message_id s.promises }))
      ]

  -- `on_message`, by the method id: -1 is a response and -2 an error report, which is only logged.
  unfoldable pub dispatch :
      User (Endpoint O) → ℤ → RpcMessage → Peer (Endpoint O) → Run (Peer (Endpoint O))
  unfolding on_response call_method
  dispatch u (negsuc zero) m p = on_response u m p
  dispatch u (negsuc (suc zero)) m p = with_value p (deserialize string m.args) λ text. done p
  dispatch u (negsuc (suc (suc n))) m p =
      on_socket p (report_error m.message_id (codes "Unknown method") p.socket)
  dispatch u (pos i) m p = call_method u i m p

  unfoldable pub on_message :
      User (Endpoint O) → RpcMessage → Peer (Endpoint O) → Run (Peer (Endpoint O))
  unfolding dispatch
  on_message u m p = dispatch u m.method_id m p

  -- The promise of a method is set later: its continuation writes the reply, and stays, so that it
  -- writes another one whenever the promise is set again.
  unfoldable pub on_resolved : PromiseId → Bytes → Peer (Endpoint O) → Run (Peer (Endpoint O))
  on_resolved promise result p = elim (lookup promise p.owner.session.pending_replies) [
    | none ↦ done p
    | some message_id ↦ on_socket p (reply message_id result p.socket)
  ]

  -- The promise is destroyed, and with it its continuation and the `sock` that this captured.
  unfoldable pub on_destroyed : PromiseId → Peer (Endpoint O) → Peer (Endpoint O)
  on_destroyed promise p =
      let s = p.owner.session in
      elim (lookup promise s.pending_replies) [
        | none ↦ p
        | some message_id ↦
            drop_holder
              (with_session p (record s { pending_replies = erase promise s.pending_replies }))
      ]
