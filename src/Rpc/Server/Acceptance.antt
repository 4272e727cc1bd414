-- ===== src/Rpc/Server/Acceptance.antt =====
-- When the first loop of `on_incoming_handshake` in rpc/src/server.cpp runs through: the client
-- advertises all that the server asks of it.
use smoljudge.Prelude.{
  ℕ, zero, suc, ◌+◌, ◌≡◌, refl, sym, subst, ◌∙◌, inl, inr, true, false, List, [], ◌∷◌, get_elem?,
  bytes_eq, bytes_eq→eq, bytes_eq_refl, some, Bool-cases, Option-cases, arith, ap, All,
}
use smoljudge.Prelude.Dict.{
  Dict, lookup, erase, emplace, lookup-erase, lookup-emplace, lookup-emplace_old, text_eq,
}
use smoljudge.Prelude.Int.{ℤ, pos}
use smoljudge.Prelude.Outcome.{ok}
use smoljudge.Prelude.Run.{done}
use smoljudge.Prelude.Text.{Text}
use smoljudge.Wire.Types.{Bytes}
use smoljudge.Messages.{ClientHello, read_client_hello}
use smoljudge.Socket.{Peer, write}
use smoljudge.Rpc.Session.{Endpoint, User, Method}
use smoljudge.Rpc.Server.{
  Checked, new_server, index_advertised, accepted, match_client_method, match_client_methods,
  magic_eq, upper_magic, set_ids, reply_hello, match_methods, greet, on_incoming_handshake,
}
use smoljudge.Rpc.Server.Clients.{Provided, index_advertised-IsIndex, match_client_methods_sound}
use smoljudge.Rpc.Server.Ends.{answered}
use smoljudge.Rpc.Server.Handshake.{Answers, match_server_methods-Answers}
use smoljudge.Rpc.Server.Table.{DistinctNames}
use mathlib.Core.Option.{some-injective}

abbrev Entry : Text → Dict Text (Text × ℤ) → Type 0
Entry name known = (v : Text × ℤ) × (lookup name known ≡ some v)

abbrev pub DistinctKeys : List (Text × Text) → Type 0
DistinctKeys all =
    (i j : ℕ) (m n : Text × Text)
    → get_elem? all i ≡ some m
    → get_elem? all j ≡ some n
    → m.0 ≡ n.0
    → i ≡ j

abbrev pub DistinctMethods : List Method → Type 0
DistinctMethods all =
    (i j : ℕ) (m n : Method)
    → get_elem? all i ≡ some m
    → get_elem? all j ≡ some n
    → m.name ≡ n.name
    → i ≡ j

emplace-Entry :
    (name k : Text) (v : Text × ℤ) (known : Dict Text (Text × ℤ))
    → Entry name known
    → Entry name (emplace k v known)
emplace-Entry name k v known (w, there) = elim (Option-cases (lookup k known)) [
  | inr (old, found) ↦ (w, lookup-emplace_old k name v old known found ∙ there)
  | inl fresh ↦ elim (Bool-cases (bytes_eq k name)) [
    | inl same ↦ (v, rw (lookup-emplace k name v known fresh, same) refl)
    | inr other ↦ (w, rw (lookup-emplace k name v known fresh, other) there)
  ]
]

emplace_new : (k : Text) (v : Text × ℤ) (known : Dict Text (Text × ℤ)) → Entry k (emplace k v known)
emplace_new k v known = elim (Option-cases (lookup k known)) [
  | inr (old, found) ↦ (old, lookup-emplace_old k k v old known found ∙ found)
  | inl fresh ↦ (v, rw (lookup-emplace k k v known fresh, bytes_eq_refl k) refl)
]

index-keeps :
    (name : Text) (rest : List (Text × Text)) (i : ℕ) (known : Dict Text (Text × ℤ))
    → Entry name known
    → Entry name (index_advertised rest i known)
unfolding index_advertised
index-keeps name [] i known h = h
index-keeps name ((k, signature) ∷ rest) i known h =
    index-keeps name rest (i + 1) (emplace k (signature, pos i) known)
      (emplace-Entry name k (signature, pos i) known h)

index-Entry :
    (rest : List (Text × Text)) (i k : ℕ) (name signature : Text) (known : Dict Text (Text × ℤ))
    → get_elem? rest k ≡ some (name, signature)
    → Entry name (index_advertised rest i known)
unfolding index_advertised
index-Entry [] i k name signature known at = cc
index-Entry ((n, s) ∷ rest) i zero name signature known at =
    let same : n ≡ name = cc in
    index-keeps name rest (i + 1) (emplace n (s, pos i) known)
      (subst (λ x. Entry x (emplace n (s, pos i) known)) same (emplace_new n (s, pos i) known))
index-Entry ((n, s) ∷ rest) i (suc k) name signature known at =
    index-Entry rest (i + 1) k name signature (emplace n (s, pos i) known) at

-- Under a name of its own, what is advertised is found as it was advertised.
index_advertised-finds :
    (all : List (Text × Text)) (i : ℕ) (name signature : Text)
    → DistinctKeys all
    → get_elem? all i ≡ some (name, signature)
    → lookup name (index_advertised all 0 []) ≡ some (signature, pos i)
unfolding lookup
index_advertised-finds all i name signature distinct at =
    let ((sig, id), found) = index-Entry all 0 i name signature [] at in
    let (j, e, at') =
      index_advertised-IsIndex all [] all 0 [] refl refl (λ name signature id e. cc) name sig id
        found in
    let same : j ≡ i = distinct j i (name, sig) (name, signature) at' at refl in
    let sigs : sig ≡ signature =
      ap (λ (p : Text × Text). p.1)
        (some-injective (name, sig) (name, signature) (sym at' ∙ ap (get_elem? all) same ∙ at)) in
    found ∙ ap some (ap (λ s. (s, id)) sigs ∙ ap (λ n. (signature, n)) (e ∙ ap pos same))

-- Every method that is left can be matched.
abbrev Wanted : List Method → Dict Text (Text × ℤ) → Type 0
Wanted ms known =
    (k : ℕ) (m : Method)
    → get_elem? ms k ≡ some m
    → (id : ℤ) × (lookup m.name known ≡ some (m.signature, id))

match_accepts :
    (ms : List Method) (known : Dict Text (Text × ℤ)) (ids : Dict Text ℤ)
    → DistinctMethods ms
    → Wanted ms known
    → (match_client_methods ms known ids).1 ≡ accepted tt
unfolding match_client_methods match_client_method
match_accepts [] known ids distinct wanted = refl
match_accepts (m ∷ ms) known ids distinct wanted =
    let (id, found) = wanted 0 m refl in
    let apart : (k : ℕ) (n : Method) → get_elem? ms k ≡ some n → bytes_eq m.name n.name ≡ false =
      λ k n at. elim (Bool-cases (bytes_eq m.name n.name)) [
        | inl same ↦
            absurd (omega (arith, distinct 0 (suc k) m n refl at (bytes_eq→eq m.name n.name same)))
        | inr other ↦ other
      ] in
    rw (found, match_client_method, bytes_eq_refl m.signature)
      (match_accepts ms (erase m.name known) (emplace m.name id ids)
        (λ i j a b at at' same. omega (arith, distinct (suc i) (suc j) a b at at' same))
        λ k n at.
          let (id', there) = wanted (suc k) n at in
          (id', rw (lookup-erase m.name n.name known, apart k n at) there))

-- A client that advertises every method of the server's client protocol, with its signature, passes;
-- the names of its methods are distinct, and so are those of the protocol.
pub match_client_methods_accepts :
    (all : List (Text × Text)) (ms : List Method) (ids : Dict Text ℤ)
    → DistinctKeys all
    → DistinctMethods ms
    → ((k : ℕ) (m : Method)
        → get_elem? ms k ≡ some m
        → (i : ℕ) × (get_elem? all i ≡ some (m.name, m.signature)))
    → (match_client_methods ms (index_advertised all 0 []) ids).1 ≡ accepted tt
match_client_methods_accepts all ms ids keys distinct advertised =
    match_accepts ms (index_advertised all 0 []) ids distinct λ k m at.
      let (i, there) = advertised k m at in
      (pos i, index_advertised-finds all i m.name m.signature keys there)

-- Both loops have run through.
match_methods_accepts :
    {O : Type 0} (name client_name : Text) (client_methods : List Method) (u : User (Endpoint O))
    (hello : ClientHello) (answers : List ℤ) (r : Dict Text ℤ × Checked (Unit {0}))
    (p : Peer (Endpoint O))
    → p.socket.is_connected ≡ true
    → r.1 ≡ accepted tt
    → DistinctNames u.methods
    → Answers u.methods hello.requested_server_methods answers
    → match_methods (new_server name client_name client_methods u) hello r p
      ≡ done (answered [] answers (set_ids r.0 p))
unfolding match_methods reply_hello write
match_methods_accepts name client_name client_methods u hello answers (ids, r) p up accepts distinct
      answer =
    rw (
      accepts,
      match_methods,
      match_server_methods-Answers name client_name client_methods u distinct
          hello.requested_server_methods [] answers answer,
      up,
    )

-- A client that has what the server asks for, and asks for what the server has, is accepted: on a
-- connected socket, for a client that no ids are known of, the answer carries the ids of the requested
-- methods, and each method of the client is then called by the position at which it is advertised.
-- The names at each end are distinct, and the hello has the magic and the names of the two protocols.
pub on_incoming_handshake_accepts :
    {O : Type 0} (name client_name : Text) (client_methods : List Method) (u : User (Endpoint O))
    (span : Bytes) (hello : ClientHello) (answers : List ℤ) (p : Peer (Endpoint O))
    → read_client_hello span ≡ ok hello
    → p.socket.is_connected ≡ true
    → p.owner.session.ids_of_methods ≡ []
    → magic_eq hello.magic upper_magic ≡ true
    → hello.requested_server_protocol_name ≡ name
    → hello.advertised_client_protocol_name ≡ client_name
    → DistinctNames u.methods
    → Answers u.methods hello.requested_server_methods answers
    → DistinctKeys hello.advertised_client_methods
    → DistinctMethods client_methods
    → ((k : ℕ) (m : Method)
        → get_elem? client_methods k ≡ some m
        → (i : ℕ) × (get_elem? hello.advertised_client_methods i ≡ some (m.name, m.signature)))
    → (ids : Dict Text ℤ) × (on_incoming_handshake
          (new_server name client_name client_methods u)
          span
          p
        ≡ done (answered [] answers (set_ids ids p)))
      × All (Provided hello.advertised_client_methods ids) client_methods
unfolding on_incoming_handshake greet new_server
on_incoming_handshake_accepts name client_name client_methods u span hello answers p got up none_yet
      ours same same' distinct answer keys methods advertised =
    let all = hello.advertised_client_methods in
    let r = match_client_methods client_methods (index_advertised all 0 []) [] in
    let accepts = match_client_methods_accepts all client_methods [] keys methods advertised in
    let (provided, told) = match_client_methods_sound all client_methods in
    (
      r.0,
      rw (got, ours, same, same', none_yet, bytes_eq_refl name, bytes_eq_refl client_name)
          (match_methods_accepts name client_name client_methods u
            (record hello {
              requested_server_protocol_name = name;
              advertised_client_protocol_name = client_name;
            })
            answers r _ up accepts distinct answer),
      provided accepts,
    )
