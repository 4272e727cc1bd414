-- ===== src/Rpc/Server/Handshake.antt =====
-- The method ids that a server answers a hello with: the second loop of `on_incoming_handshake` in
-- rpc/src/server.cpp.
use smoljudge.Prelude.{
  ℕ, ◌≡◌, ◌≢◌, refl, sym, ap, ◌∙◌, ◌⊎◌, inl, inr, true, List, [], ◌∷◌, ◌++◌, append_assoc,
  append-nil, get_elem?, bytes_eq, bytes_eq→eq, bytes_eq_refl, Option, some, Bool-cases,
  Option-cases,
}
use smoljudge.Prelude.Text.{Text, codes}
use smoljudge.Prelude.Int.{ℤ, pos}
use smoljudge.Prelude.Dict.{lookup, text_eq}
use smoljudge.Rpc.Session.{Endpoint, User, Method, MethodImpl}
use smoljudge.Rpc.Server.{
  Server, new_server, Checked, accepted, refused, signature_of, answer_request,
  match_server_methods, unsupported, mismatch,
}
use smoljudge.Rpc.Server.Table.{
  IsTable, new_server-IsTable, HasEntry, register-HasEntry, DistinctNames,
}

-- The texts that stand in an equal pair of refusals.
pub ne_of_refused :
    {text other : Text}
    → text ≢ []
    → ◌≡◌ {A = Checked (List ℤ)} (refused text) (refused other)
    → other ≢ []
ne_of_refused said e none_said = said (cc)

-- What a request is answered with: the position of a method with that name and that signature.
abbrev pub Answers : {S : Type 0} → List (MethodImpl S) → List (Text × Text) → List ℤ → Type 0
Answers {S} ms [] [] = Unit {0}
Answers {S} ms [] (id ∷ ids) = ⊥
Answers {S} ms (r ∷ rs) [] = ⊥
Answers {S} ms ((name, signature) ∷ rs) (id ∷ ids) =
    ((i : ℕ) × (m : MethodImpl S) × (id ≡ pos i)
      × (get_elem? ms i ≡ some m)
      × (m.name ≡ name)
      × (m.signature ≡ signature))
    × Answers ms rs ids

module _ {O : Type 0} (server : Server O)
    (table : IsTable server.user.methods server.server_method_name_to_id) where
  abbrev methods : List (MethodImpl (Endpoint O))
  methods = server.user.methods

  AnswersOne : Text → Text → ℤ → Type 0
  AnswersOne name signature id =
      (i : ℕ) × (m : MethodImpl (Endpoint O)) × (id ≡ pos i)
      × (get_elem? methods i ≡ some m)
      × (m.name ≡ name)
      × (m.signature ≡ signature)

  signature_of_pos :
      (i : ℕ) (m : MethodImpl (Endpoint O))
      → get_elem? methods i ≡ some m
      → signature_of server (pos i) ≡ some m.signature
  unfolding signature_of
  signature_of_pos i m at = rw (at, signature_of)

  -- A round refuses, or goes on with the position of a method of that name and signature.
  answer_request-cases :
      (name signature : Text)
      → ((text : Text) × (text ≢ [])
          × ((more : ℤ → Option (Checked (List ℤ)))
              → answer_request server name signature more ≡ some (refused text)))
        ⊎ ((id : ℤ) × AnswersOne name signature id
            × ((more : ℤ → Option (Checked (List ℤ)))
                → answer_request server name signature more ≡ more id))
  unfolding answer_request AnswersOne
  answer_request-cases name signature =
      elim (Option-cases (lookup name server.server_method_name_to_id)) [
        | inl missing ↦
            inl (unsupported (codes "server") name, (λ e. cc), λ more. rw (missing, answer_request))
        | inr (id, found) ↦
            let (i, m, e, at, n) = table name id found in
            let present : signature_of server id ≡ some m.signature =
              rw e (signature_of_pos i m at) in
            elim (Bool-cases (bytes_eq m.signature signature)) [
              | inl same ↦ inr (
                id,
                (i, m, e, at, n, bytes_eq→eq m.signature signature same),
                λ more. rw (found, answer_request, present, same),
              )
              | inr other ↦ inl (
                mismatch (codes "server") name signature m.signature,
                (λ e. cc),
                λ more. rw (found, answer_request, present, other),
              )
            ]
      ]

  -- The loop never reads outside the table of methods, and if it runs through, then each request has
  -- been answered by the position of a method with its name and signature, in order.
  match-Answers :
      (rs : List (Text × Text)) (ids : List ℤ)
      → (r : Checked (List ℤ)) × (match_server_methods server rs ids ≡ some r)
        × ((all : List ℤ)
            → r ≡ accepted all
            → (new : List ℤ) × (all ≡ ids ++ new) × Answers methods rs new)
        × ((text : Text) → r ≡ refused text → text ≢ [])
  unfolding match_server_methods AnswersOne
  match-Answers [] ids =
      (accepted ids, refl, (λ all e. ([], sym (append-nil ids ∙ cc), tt)), λ text e. cc)
  match-Answers ((name, signature) ∷ rs) ids = elim (answer_request-cases name signature) [
    | inl (text, said, no_more) ↦
        (refused text, no_more _, (λ all e. cc), λ other e. ne_of_refused said e)
    | inr (id, one, go_on) ↦
        let (r, e, answers, said) = match-Answers rs (ids ++ id ∷ []) in
        (
          r,
          go_on _ ∙ e,
          (λ all same.
              let (new, split, ok_new) = answers all same in
              (id ∷ new, split ∙ append_assoc ids (id ∷ []) new, (one, ok_new))),
          said,
        )
  ]

module _ {O : Type 0} (name client_name : Text) (client_methods : List Method)
    (u : User (Endpoint O)) where
  abbrev pub built : Server O
  built = new_server name client_name client_methods u

  built_methods : (built).user.methods ≡ u.methods
  unfolding new_server
  built_methods = refl

  entry_of :
      DistinctNames u.methods
      → (i : ℕ) (m : MethodImpl (Endpoint O)) → get_elem? u.methods i ≡ some m
      → lookup m.name (built).server_method_name_to_id ≡ some (pos i)
  unfolding new_server HasEntry
  entry_of distinct i m at =
      let (id, found) = register-HasEntry u.methods 0 i m [] at in
      let (j, n, e, at', same) =
        new_server-IsTable name client_name client_methods u m.name id found in
      found ∙ ap some e ∙ ap (λ k. some (pos k)) (distinct j i n m at' at same)

  answer-found :
      DistinctNames u.methods
      → (want signature : Text) (i : ℕ) (m : MethodImpl (Endpoint O))
        (more : ℤ → Option (Checked (List ℤ)))
      → get_elem? u.methods i ≡ some m
      → m.name ≡ want
      → m.signature ≡ signature
      → answer_request built want signature more ≡ more (pos i)
  unfolding answer_request new_server
  answer-found distinct want signature i m more at n sig = rw (found, answer_request, present, same)
    where
      found : lookup want (built).server_method_name_to_id ≡ some (pos i)
      found = rw (sym n) (entry_of distinct i m at)

      present : signature_of built (pos i) ≡ some m.signature
      present = signature_of_pos built (new_server-IsTable name client_name client_methods u) i m at

      same : bytes_eq m.signature signature ≡ true
      same = rw sig (bytes_eq_refl signature)

  -- Requests for methods that the server has, by name and signature, are all answered, where no
  -- two methods have one name.
  pub match_server_methods-Answers :
      DistinctNames u.methods
      → (rs : List (Text × Text)) (ids new : List ℤ) → Answers u.methods rs new
      → match_server_methods built rs ids ≡ some (accepted (ids ++ new))
  unfolding match_server_methods
  match_server_methods-Answers distinct [] ids [] a = rw append-nil
  match_server_methods-Answers distinct [] ids (id ∷ new) a = elim a [ ]
  match_server_methods-Answers distinct (r ∷ rs) ids [] a = elim a [ ]
  match_server_methods-Answers distinct ((want, signature) ∷ rs) ids (id ∷ new)
        ((i, m, e, at, n, sig), a) =
      rw e (
        answer-found distinct want signature i m
          (λ k. match_server_methods built rs (ids ++ k ∷ [])) at n sig
        ∙ match_server_methods-Answers distinct rs (ids ++ pos i ∷ []) new a
        ∙ ap (λ all. some (accepted all)) (append_assoc ids (pos i ∷ []) new))

  -- The loop over the requested methods never reads outside the table. If it refuses none of them it
  -- has answered each with the position of a method of that name and signature; if it refuses one it
  -- says why, in a text that is not empty.
  pub match_server_methods_sound :
      (rs : List (Text × Text))
      → (r : Checked (List ℤ)) × (match_server_methods built rs [] ≡ some r)
        × ((all : List ℤ) → r ≡ accepted all → Answers u.methods rs all)
        × ((text : Text) → r ≡ refused text → text ≢ [])
  unfolding new_server
  match_server_methods_sound rs =
      let (r, e, answers, said) =
        match-Answers built (new_server-IsTable name client_name client_methods u) rs [] in
      (r, e, (λ all same. let (new, split, fine) = answers all same in rw split fine), said)
