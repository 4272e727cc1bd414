-- ===== src/Rpc/Agreement.antt =====
-- The two ends together: what rpc/src/server.cpp answers to the hello of rpc/src/client.cpp, and what
-- the client makes of it.
pub mod Calls
mod Tests
use smoljudge.Prelude.{
  ℕ, zero, suc, ◌+◌, ◌≡◌, refl, sym, ap, ◌∙◌, ◌⊎◌, inl, inr, false, List, [], ◌∷◌, map, length,
  get_elem?, ◌==◌, ==_iff, eq_refl, Option, none, some, arith,
}
use smoljudge.Prelude.Text.{Text}
use smoljudge.Prelude.Int.{ℤ, pos, negsuc}
use smoljudge.Prelude.Dict.{Dict, lookup, assign, text_eq}
use smoljudge.Messages.{seal_server_hello}
use smoljudge.Rpc.Session.{Endpoint, User, Method, MethodImpl}
use smoljudge.Rpc.Server.{
  Server, new_server, accepted, match_server_methods, hello_with, magic_eq, int_eq,
}
use smoljudge.Rpc.Server.Table.{
  IsTable, PointsTo, assign-IsTable, HasEntry, assign-HasEntry, DistinctNames,
}
use smoljudge.Rpc.Server.Handshake.{Answers, match_server_methods_sound}
use smoljudge.Rpc.Client.{ClientSpec, named, greeting_of, is_refused, assign_ids}

-- The client calls the method by the position at which the server has one of that name and signature.
abbrev pub Reaches : {S : Type 0} → List (MethodImpl S) → Dict Text ℤ → Method → Type 0
Reaches {S} impls ids m =
    (i : ℕ) × (impl : MethodImpl S) × (lookup m.name ids ≡ some (pos i))
    × (get_elem? impls i ≡ some impl)
    × (impl.name ≡ m.name)
    × (impl.signature ≡ m.signature)

module _ {S : Type 0} (impls : List (MethodImpl S)) where
  length-Answers :
      (ms : List Method) (ids : List ℤ) → Answers impls (map named ms) ids → length ids ≡ length ms
  length-Answers [] [] a = refl
  length-Answers [] (id ∷ ids) a = elim a [ ]
  length-Answers (m ∷ ms) [] a = elim a [ ]
  length-Answers (m ∷ ms) (id ∷ ids) (one, a) = ap suc (length-Answers ms ids a)

  assign_ids-IsTable :
      (ms : List Method) (ids : List ℤ) (known : Dict Text ℤ)
      → Answers impls (map named ms) ids
      → IsTable impls known
      → IsTable impls (assign_ids ms ids known)
  unfolding assign_ids
  assign_ids-IsTable [] ids known a h = h
  assign_ids-IsTable (m ∷ ms) [] known a h = h
  assign_ids-IsTable (m ∷ ms) (id ∷ ids) known ((i, impl, e, at, n, sig), a) h =
      assign_ids-IsTable ms ids (assign m.name id known) a
        (rw (e, sym n) (assign-IsTable impls impl i known at h))

  assign_ids-keeps :
      (name : Text) (ms : List Method) (ids : List ℤ) (known : Dict Text ℤ)
      → HasEntry name known
      → HasEntry name (assign_ids ms ids known)
  unfolding assign_ids
  assign_ids-keeps name [] ids known h = h
  assign_ids-keeps name (m ∷ ms) [] known h = h
  assign_ids-keeps name (m ∷ ms) (id ∷ ids) known h =
      assign_ids-keeps name ms ids (assign m.name id known)
        (assign-HasEntry name m.name id known (inl h))

  assign_ids-HasEntry :
      (ms : List Method) (ids : List ℤ) (known : Dict Text ℤ) (k : ℕ) (m : Method)
      → Answers impls (map named ms) ids
      → get_elem? ms k ≡ some m
      → HasEntry m.name (assign_ids ms ids known)
  unfolding assign_ids
  assign_ids-HasEntry [] ids known k m a at = cc
  assign_ids-HasEntry (x ∷ ms) [] known k m a at = elim a [ ]
  assign_ids-HasEntry (x ∷ ms) (id ∷ ids) known zero m (one, a) at =
      assign_ids-keeps m.name ms ids (assign x.name id known)
        (assign-HasEntry m.name x.name id known (inr (ground arith)))
  assign_ids-HasEntry (x ∷ ms) (id ∷ ids) known (suc k) m (one, a) at =
      assign_ids-HasEntry ms ids (assign x.name id known) k m a at

  answer_at :
      (ms : List Method) (ids : List ℤ) (k : ℕ) (m : Method)
      → Answers impls (map named ms) ids
      → get_elem? ms k ≡ some m
      → (i : ℕ) × (impl : MethodImpl S) × (get_elem? impls i ≡ some impl)
        × (impl.name ≡ m.name)
        × (impl.signature ≡ m.signature)
  answer_at [] ids k m a at = cc
  answer_at (x ∷ ms) [] k m a at = elim a [ ]
  answer_at (x ∷ ms) (id ∷ ids) zero m ((i, impl, e, there, n, sig), a) at =
      (i, impl, there, ground arith, ground arith)
  answer_at (x ∷ ms) (id ∷ ids) (suc k) m (one, a) at = answer_at ms ids k m a at

  Reaches-assign_ids :
      DistinctNames impls
      → (ms : List Method) (ids : List ℤ) (known : Dict Text ℤ) (k : ℕ) (m : Method)
      → Answers impls (map named ms) ids
      → IsTable impls known
      → get_elem? ms k ≡ some m
      → Reaches impls (assign_ids ms ids known) m
  unfolding HasEntry
  Reaches-assign_ids distinct ms ids known k m a h at =
      let (id, found) = assign_ids-HasEntry ms ids known k m a at in
      let (i, impl, e, there, n) = assign_ids-IsTable ms ids known a h m.name id found in
      let (j, other, here, n', sig) = answer_at ms ids k m a at in
      (
        j,
        other,
        found
            ∙ ap some e
            ∙ ap (λ x. some (pos x)) (distinct i j impl other there here (n ∙ sym n')),
        here,
        n',
        sig,
      )

-- What a server whose methods have distinct names answers to the methods that a client asks for, the
-- client accepts, and from then on the id under which it calls each method of its protocol is the
-- position of a method of the server with that name and that signature. What the client knew before
-- has to point to methods of that server, as it does on the first connection.
pub is_refused-match_server_methods :
    {O : Type 0} (name client_name : Text) (client_methods : List Method) (u : User (Endpoint O))
    (spec : ClientSpec) (answers : List ℤ) (known : Dict Text ℤ)
    → DistinctNames u.methods
    → IsTable u.methods known
    → match_server_methods
        (new_server name client_name client_methods u)
        (greeting_of spec).requested_server_methods
        []
      ≡ some (accepted answers)
    → (is_refused spec (seal_server_hello (hello_with [] answers)) ≡ false)
      × ((k : ℕ) (m : Method)
          → get_elem? spec.server_methods k ≡ some m
          → Reaches u.methods (assign_ids spec.server_methods answers known) m)
unfolding greeting_of is_refused magic_eq int_eq seal_server_hello
is_refused-match_server_methods name client_name client_methods u spec answers known distinct table
      answered =
    let (r, e, sound, said) =
      match_server_methods_sound name client_name client_methods u
        (map named spec.server_methods) in
    let a = sound answers cc in
    (
      rw (
        length-Answers u.methods spec.server_methods answers a,
        eq_refl (length spec.server_methods),
      ),
      λ k m at.
          Reaches-assign_ids u.methods distinct spec.server_methods answers known k m a table at,
    )
