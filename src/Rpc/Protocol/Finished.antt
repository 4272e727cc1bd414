-- ===== src/Rpc/Protocol/Finished.antt =====
-- The entries of an implementation against the stream of messages.
use smoljudge.Prelude.{ℕ, ◌≡◌, subst, get_elem?, some}
use smoljudge.Prelude.Text.{Text}
use smoljudge.Wire.TypeString.{signature_string}
use smoljudge.Wire.Types.{Bytes, Fields}
use smoljudge.Socket.{Peer}
use smoljudge.Socket.Stream.{IsFinished}
use smoljudge.Rpc.Session.{MethodImpl}
use smoljudge.Rpc.Session.Responses.{CalledFinished}
use smoljudge.Rpc.Reflection.Calls.{AnswerFinished, typed_method-CalledFinished}
use smoljudge.Rpc.Protocol.{Protocol, Member, announced_impl, generic_impls}
use smoljudge.Rpc.Protocol.Lists.{generic_impls-map, get_elem?-map_back}

-- The member function does not take back that the handshake is finished.
abbrev pub MemberFinished : {S : Type 0} → Member S → Type 0
MemberFinished {S} m =
    (args : Fields m.args) (p : Peer S) → IsFinished p → AnswerFinished (m.body args p)

-- Then neither does the entry.
pub generic_impls-CalledFinished :
    {S : Type 0} (member : Text → Member S) (P : Protocol)
    → ((name : Text) → MemberFinished (member name))
    → (i : ℕ) (m : MethodImpl S) (args : Bytes) (p : Peer S)
    → get_elem? (generic_impls member P) i ≡ some m
    → IsFinished p
    → CalledFinished (m.fn args p)
unfolding announced_impl
generic_impls-CalledFinished member P keeps i m args p at h =
    let (a, here, e) =
      get_elem?-map_back (announced_impl member) P.announcements i m
        (rw (generic_impls-map member P) at at) in
    let it = member a.method_name in
    subst (λ f. CalledFinished (f.fn args p)) e
      (typed_method-CalledFinished it.args it.ret it.body (keeps a.method_name) a.method_name
        (signature_string a.ret a.args) args p h)
