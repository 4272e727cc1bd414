-- ===== src/Rpc/Server/Clients.antt =====
-- The ids under which a server calls the methods of a client.
use smoljudge.Prelude.{
  ℕ, ◌+◌, ◌≡◌, ◌≢◌, refl, sym, ap, subst, ◌∙◌, ◌⊎◌, inl, inr, List, [], ◌∷◌, ◌++◌, append_assoc,
  length, length-append, get_elem?, bytes_eq, bytes_eq→eq, bytes_eq_refl, Option, none, some,
  Bool-cases, Option-cases, arith, All,
}
use smoljudge.Prelude.Text.{Text, codes}
use smoljudge.Prelude.Int.{ℤ, pos}
use smoljudge.Prelude.Dict.{
  Dict, lookup, erase, emplace, lookup-erase, lookup-emplace, lookup-emplace_old, text_eq,
}
use smoljudge.Rpc.Session.{Method}
use smoljudge.Rpc.Server.{
  index_advertised, Checked, accepted, refused, match_client_method, match_client_methods,
  unsupported, mismatch,
}
use smoljudge.Rpc.Server.Table.{get_elem?-append}

-- Every entry is the position at which the client advertises that name with that signature.
abbrev pub IsIndex : List (Text × Text) → Dict Text (Text × ℤ) → Type 0
IsIndex all known =
    (name signature : Text) (id : ℤ)
    → lookup name known ≡ some (signature, id)
    → (i : ℕ) × (id ≡ pos i) × (get_elem? all i ≡ some (name, signature))

entry_of :
    (all : List (Text × Text)) (name signature : Text) (i : ℕ) (k sig : Text) (id : ℤ)
    → get_elem? all i ≡ some (name, signature)
    → name ≡ k
    → ◌≡◌ {A = Option (Text × ℤ)} (some (signature, pos i)) (some (sig, id))
    → (i : ℕ) × (id ≡ pos i) × (get_elem? all i ≡ some (k, sig))
entry_of all name signature i k sig id at same found = (i, cc, at ∙ cc)

emplace-IsIndex :
    (all : List (Text × Text)) (name signature : Text) (i : ℕ) (known : Dict Text (Text × ℤ))
    → get_elem? all i ≡ some (name, signature)
    → IsIndex all known
    → IsIndex all (emplace name (signature, pos i) known)
emplace-IsIndex all name signature i known at h k sig id e =
    elim (Option-cases (lookup name known)) [
      | inr (old, there) ↦
          h k sig id (rw (lookup-emplace_old name k (signature, pos i) old known there) at e)
      | inl fresh ↦ elim (Bool-cases (bytes_eq name k)) [
        | inr other ↦
            h k sig id (rw (lookup-emplace name k (signature, pos i) known fresh, other) at e)
        | inl same ↦
            entry_of all name signature i k sig id at (bytes_eq→eq name k same)
              (rw (lookup-emplace name k (signature, pos i) known fresh, same) at e)
      ]
    ]

pub index_advertised-IsIndex :
    (all before rest : List (Text × Text)) (i : ℕ) (known : Dict Text (Text × ℤ))
    → all ≡ before ++ rest
    → i ≡ length before
    → IsIndex all known
    → IsIndex all (index_advertised rest i known)
unfolding index_advertised
index_advertised-IsIndex all before [] i known e n h = h
index_advertised-IsIndex all before ((name, signature) ∷ rest) i known e n h =
    index_advertised-IsIndex all (before ++ (name, signature) ∷ []) rest (i + 1)
      (emplace name (signature, pos i) known)
      (e ∙ sym (append_assoc before ((name, signature) ∷ []) rest))
      (omega (arith, n, length-append before ((name, signature) ∷ [])))
      (emplace-IsIndex all name signature i known
        (rw (e, n) (get_elem?-append before (name, signature) rest)) h)

-- The method is called by the position at which the client advertises it, with its signature.
abbrev pub Provided : List (Text × Text) → Dict Text ℤ → Method → Type 0
Provided all ids m =
    (i : ℕ) × (lookup m.name ids ≡ some (pos i)) × (get_elem? all i ≡ some (m.name, m.signature))

-- A name that can still be matched has no id yet.
abbrev Apart : Dict Text (Text × ℤ) → Dict Text ℤ → Type 0
Apart known ids = (k : Text) (v : Text × ℤ) → lookup k known ≡ some v → lookup k ids ≡ none

said_of :
    {text other : Text}
    → text ≢ []
    → ◌≡◌ {A = Checked (Unit {0})} (refused text) (refused other)
    → other ≢ []
said_of said e none_said = said (cc)

module _ (all : List (Text × Text)) where
  erase-IsIndex :
      (name : Text) (known : Dict Text (Text × ℤ))
      → IsIndex all known
      → IsIndex all (erase name known)
  erase-IsIndex name known h k sig id e = elim (Bool-cases (bytes_eq name k)) [
    | inl same ↦ cc (rw (lookup-erase name k known, same) at e)
    | inr other ↦ h k sig id (rw (lookup-erase name k known, other) at e)
  ]

  round-Apart :
      (name : Text) (id : ℤ) (known : Dict Text (Text × ℤ)) (ids : Dict Text ℤ)
      → lookup name ids ≡ none
      → Apart known ids
      → Apart (erase name known) (emplace name id ids)
  round-Apart name id known ids fresh h k v e = elim (Bool-cases (bytes_eq name k)) [
    | inl same ↦ cc (rw (lookup-erase name k known, same) at e)
    | inr other ↦
        rw (lookup-emplace name k id ids fresh, other)
          (h k v (rw (lookup-erase name k known, other) at e))
  ]

  match_client_method-cases :
      (m : Method) (known : Dict Text (Text × ℤ)) (ids : Dict Text ℤ)
      → ((text : Text) × (text ≢ [])
          × ((more : ℤ → Dict Text ℤ × Checked (Unit {0}))
              → match_client_method m known ids more ≡ (ids, refused text)))
        ⊎ ((id : ℤ) × (lookup m.name known ≡ some (m.signature, id))
            × ((more : ℤ → Dict Text ℤ × Checked (Unit {0}))
                → match_client_method m known ids more ≡ more id))
  unfolding match_client_method
  match_client_method-cases m known ids = elim (Option-cases (lookup m.name known)) [
    | inl missing ↦
        inl (
          unsupported (codes "client") m.name,
          (λ e. cc),
          λ more. rw (missing, match_client_method),
        )
    | inr ((signature, id), found) ↦ elim (Bool-cases (bytes_eq m.signature signature)) [
      | inl same ↦ inr (
        id,
        rw (bytes_eq→eq m.signature signature same) found,
        λ more. rw (found, match_client_method, same),
      )
      | inr other ↦ inl (
        mismatch (codes "client") m.name m.signature signature,
        (λ e. cc),
        λ more. rw (found, match_client_method, other),
      )
    ]
  ]

  -- What has an id keeps it.
  match-keeps :
      (ms : List Method) (known : Dict Text (Text × ℤ)) (ids : Dict Text ℤ) (k : Text) (v : ℤ)
      → Apart known ids
      → lookup k ids ≡ some v
      → lookup k (match_client_methods ms known ids).0 ≡ some v
  unfolding match_client_methods
  match-keeps [] known ids k v apart h = h
  match-keeps (m ∷ ms) known ids k v apart h = elim (match_client_method-cases m known ids) [
    | inl (text, said, no_more) ↦ rw no_more h
    | inr (id, found, go_on) ↦
        let fresh : lookup m.name ids ≡ none = apart m.name (m.signature, id) found in
        rw go_on (
          match-keeps ms (erase m.name known) (emplace m.name id ids) k v
            (round-Apart m.name id known ids fresh apart)
            (elim (Bool-cases (bytes_eq m.name k)) [
              | inl same ↦
                  cc (subst (λ n. lookup n ids ≡ none) (bytes_eq→eq m.name k same) fresh, h)
              | inr other ↦ rw (lookup-emplace m.name k id ids fresh, other) h
            ]))
  ]

  abbrev Sound : List Method → Dict Text ℤ × Checked (Unit {0}) → Type 0
  Sound ms r =
      (r.1 ≡ accepted tt → All (Provided all r.0) ms)
      × ((text : Text) → r.1 ≡ refused text → text ≢ [])

  match-Provided :
      (ms : List Method) (known : Dict Text (Text × ℤ)) (ids : Dict Text ℤ)
      → IsIndex all known
      → Apart known ids
      → Sound ms (match_client_methods ms known ids)
  unfolding match_client_methods
  match-Provided [] known ids index apart = ((λ e. tt), λ text e. cc)
  match-Provided (m ∷ ms) known ids index apart = elim (match_client_method-cases m known ids) [
    | inl (text, said, no_more) ↦
        subst (Sound (m ∷ ms)) (sym (no_more _)) ((λ e. cc), λ other e. said_of said e)
    | inr (id, found, go_on) ↦
        let fresh : lookup m.name ids ≡ none = apart m.name (m.signature, id) found in
        let known' = erase m.name known in
        let ids' = emplace m.name id ids in
        let apart' = round-Apart m.name id known ids fresh apart in
        let (rest, said) =
          match-Provided ms known' ids' (erase-IsIndex m.name known index) apart' in
        let (i, e, at) = index m.name m.signature id found in
        let given : lookup m.name ids' ≡ some id =
          rw (lookup-emplace m.name m.name id ids fresh, bytes_eq_refl m.name) in
        subst (Sound (m ∷ ms)) (sym (go_on _)) (
          (λ done_with. (
            (i, match-keeps ms known' ids' m.name (pos i) apart' (given ∙ ap some e), at),
            rest done_with,
          )),
          said,
        )
  ]

-- If the client's methods pass, then each method of the protocol is called by the position at which
-- the client advertises it with the expected signature. If they do not, the error says why.
pub match_client_methods_sound :
    (all : List (Text × Text)) (ms : List Method)
    → let r = match_client_methods ms (index_advertised all 0 []) [] in
      (r.1 ≡ accepted tt → All (Provided all r.0) ms)
      × ((text : Text) → r.1 ≡ refused text → text ≢ [])
unfolding lookup
match_client_methods_sound all ms =
    match-Provided all ms (index_advertised all 0 []) []
      (index_advertised-IsIndex all [] all 0 [] refl refl (λ name signature id e. cc))
      (λ k v e. refl)
